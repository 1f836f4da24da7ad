-- ===== src/State/Program/Tests.antt =====
-- The accessors at the encoding of a program state with one event.
use chainring_contracts.Base.{◌≡◌, refl, true, [], ◌∷◌, ◌++◌, replicate, arith}
use chainring_contracts.Base.Outcome.{ok}
use chainring_contracts.Types.{ProgramState, AccountType, NetworkType, failed_settlement}
use chainring_contracts.Codec.Io.{
  IoResult, Written, write_uint, write_all, write_padding, write_string_with_padding,
}
use chainring_contracts.Codec.Io.Utf8.{from_utf8}
use chainring_contracts.Codec.Parts.{account_type_codable, network_type_codable}
use chainring_contracts.Codec.Account.Write.{
  encode_event_fields, encode_event, try_write_each, encode_program_state,
}
use chainring_contracts.State.Raw.{slice, get_type}
use chainring_contracts.State.Program.{
  get_withdraw_account_key, get_fee_account_address, get_program_change_address, get_network_type,
  get_settlement_hash, get_events_count,
}
use chainring_contracts.State.Program.Layout.{IsProgramState, encode_program_state-accessors}

abbrev state : ProgramState
state = record {
  account_type = AccountType.program;
  version = 0;
  withdraw_account = replicate 32 3;
  fee_account_address = 65 ∷ 66 ∷ [];
  program_change_address = 67 ∷ [];
  network_type = NetworkType.bitcoin;
  settlement_batch_hash = replicate 32 4;
  last_settlement_batch_hash = replicate 32 5;
  events =
      failed_settlement (record {
        account_index = 1;
        address_index = 2;
        requested_amount = 3;
        balance = 4;
        error_code = 603;
      })
      ∷ [];
}

abbrev written : IoResult Written → Written
written (ok w) = w
written _ = record { bytes = []; count = 0 }

abbrev encoded : Written
encoded = written (encode_program_state state)

encodes : encode_program_state state ≡ ok encoded
unfolding write_uint write_all write_padding write_string_with_padding account_type_codable
    network_type_codable encode_event_fields encode_event try_write_each encode_program_state
encodes = refl

fee_text : from_utf8 (65 ∷ 66 ∷ []) ≡ true
unfolding from_utf8
fee_text = refl

change_text : from_utf8 (67 ∷ []) ≡ true
unfolding from_utf8
change_text = refl

state-IsProgramState : IsProgramState state
state-IsProgramState = record {
  withdraw_account = refl;
  fee_account_address = ((omega arith, (omega arith, tt)), fee_text);
  program_change_address = ((omega arith, tt), change_text);
  settlement_batch_hash = refl;
  last_settlement_batch_hash = refl;
  events = omega arith;
}

encode_program_state-accessors_example :
    (get_type (encoded.bytes ++ 7 ∷ []) ≡ ok AccountType.program)
    × (get_withdraw_account_key (encoded.bytes ++ 7 ∷ []) ≡ ok (replicate 32 3))
    × (get_fee_account_address (encoded.bytes ++ 7 ∷ []) ≡ ok (65 ∷ 66 ∷ []))
    × (get_program_change_address (encoded.bytes ++ 7 ∷ []) ≡ ok (67 ∷ []))
    × (get_network_type (encoded.bytes ++ 7 ∷ []) ≡ ok NetworkType.bitcoin)
    × (get_settlement_hash (encoded.bytes ++ 7 ∷ []) ≡ ok (replicate 32 4))
    × (slice 254 32 (encoded.bytes ++ 7 ∷ []) ≡ ok (replicate 32 5))
    × (get_events_count (encoded.bytes ++ 7 ∷ []) ≡ ok 1)
encode_program_state-accessors_example =
    encode_program_state-accessors state encoded (7 ∷ []) state-IsProgramState encodes
