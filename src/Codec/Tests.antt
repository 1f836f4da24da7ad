-- ===== src/Codec/Tests.antt =====
-- Concrete runs of the codecs, and their theorems at concrete inputs.
use chainring_contracts.Base.{◌≡◌, refl, arith, [], ◌∷◌, ◌++◌, length}
use chainring_contracts.Base.Bytes.{to_le_bytes, from_le_bytes}
use chainring_contracts.Base.Outcome.{ok, err}
use chainring_contracts.Types.{
  ProgramInstruction, AddressIndex, Adjustment, TokenDeposits, Event, failed_settlement,
}
use chainring_contracts.Codec.Io.{
  Written, decode_from_slice, encode_to_vec, write_uint, write_all, write_vec, write_each,
  read_uint, read_exact, invalid_instruction_type,
}
use chainring_contracts.Codec.Valid.{IsInstruction}
use chainring_contracts.Codec.Parts.{
  address_index_codable, adjustment_codable, token_deposits_codable,
}
use chainring_contracts.Codec.Instruction.{
  instruction_codable, deposit_batch_codable, settlement_batch_codable, withdraw_batch_codable,
  encode_instruction, decode_params,
}
use chainring_contracts.Codec.Instruction.RoundTrip.{decode_from_slice-encode_to_vec}
use chainring_contracts.Codec.Account.Read.{decode_event}
use chainring_contracts.Codec.Account.Write.{encode_event}
use chainring_contracts.Codec.Account.Event.{encode_event_fits}

abbrev wallet : AddressIndex
wallet = record { index = 258; last4 = 1 ∷ 2 ∷ 3 ∷ 4 ∷ [] }

abbrev deposit : Adjustment
deposit = record { address_index = wallet; amount = 456 }

abbrev deposits : TokenDeposits
deposits = record { account_index = 7; deposits = deposit ∷ [] }

abbrev batch : ProgramInstruction
batch = ProgramInstruction.batch_deposit (record { token_deposits = deposits ∷ [] })

encode_to_vec-batch :
    encode_to_vec batch
    ≡ 3 ∷ 1 ∷ 0 ∷ 7 ∷ 1 ∷ 0 ∷ 2 ∷ 1 ∷ 0 ∷ 0 ∷ 1 ∷ 2 ∷ 3 ∷ 4 ∷ 200 ∷ 1 ∷ 0 ∷ 0 ∷ 0 ∷ 0 ∷ 0 ∷ 0 ∷ []
unfolding encode_to_vec instruction_codable encode_instruction deposit_batch_codable
    token_deposits_codable adjustment_codable address_index_codable write_uint write_all write_vec
    write_each to_le_bytes
encode_to_vec-batch = refl

unknown_instruction :
    decode_from_slice {A = ProgramInstruction} (13 ∷ []) ≡ err invalid_instruction_type
unfolding decode_from_slice instruction_codable decode_params read_uint read_exact from_le_bytes
unknown_instruction = refl

batch-IsInstruction : IsInstruction batch
batch-IsInstruction = omega arith

decode_from_slice-encode_to_vec_example : decode_from_slice (encode_to_vec batch) ≡ ok batch
decode_from_slice-encode_to_vec_example = decode_from_slice-encode_to_vec batch batch-IsInstruction

abbrev shortfall : Event
shortfall = failed_settlement (record {
  account_index = 2;
  address_index = 5;
  requested_amount = 100;
  balance = 40;
  error_code = 603;
})

encode_event_fits_example :
    (w : Written) × (encode_event shortfall ≡ ok w)
    × (length w.bytes ≡ 64)
    × (decode_event (w.bytes ++ 9 ∷ []) ≡ ok (shortfall, 9 ∷ []))
encode_event_fits_example = encode_event_fits shortfall (9 ∷ []) (omega arith)
