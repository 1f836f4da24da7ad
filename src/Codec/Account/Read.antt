-- ===== src/Codec/Account/Read.antt =====
-- The `decode` functions of the account state and of events.
use chainring_contracts.Base.{◌==◌, if◌then◌else◌}
use chainring_contracts.Base.Outcome.{ok, err, panic}
use chainring_contracts.Constants.{event_size, max_address_size, max_token_id_size}
use chainring_contracts.Types.{
  Balance, Event, failed_settlement, failed_withdrawal, TokenState, ProgramState, WithdrawState,
  RuneReceiverState,
}
use chainring_contracts.Codec.Io.{
  Reader, ◌>>=◌, pure, fail, decode, read_u8, read_u16, read_u32, read_u64, read_up_to, read_times,
  read_pubkey, read_hash, read_string_with_padding, invalid_event_type,
}
use chainring_contracts.Codec.Parts.{account_type_codable, network_type_codable}

unfoldable pub decode_balance : Reader Balance
decode_balance = do
  address ← read_string_with_padding max_address_size
  balance ← read_u64
  pure (record { address = address; balance = balance })

unfoldable pub decode_failed_settlement : Reader Event
decode_failed_settlement = do
  account_index ← read_u8
  address_index ← read_u32
  requested_amount ← read_u64
  balance ← read_u64
  error_code ← read_u32
  pure (
      failed_settlement (record {
        account_index = account_index;
        address_index = address_index;
        requested_amount = requested_amount;
        balance = balance;
        error_code = error_code;
      }))

unfoldable pub decode_failed_withdrawal : Reader Event
decode_failed_withdrawal = do
  account_index ← read_u8
  address_index ← read_u32
  fee_account_index ← read_u8
  fee_address_index ← read_u32
  requested_amount ← read_u64
  fee_amount ← read_u64
  balance ← read_u64
  balance_in_fee_token ← read_u64
  error_code ← read_u32
  pure (
      failed_withdrawal (record {
        account_index = account_index;
        address_index = address_index;
        fee_account_index = fee_account_index;
        fee_address_index = fee_address_index;
        requested_amount = requested_amount;
        fee_amount = fee_amount;
        balance = balance;
        balance_in_fee_token = balance_in_fee_token;
        error_code = error_code;
      }))

-- What stands in the 64 bytes of an event: its kind, and its fields.
unfoldable pub decode_event_data : Reader Event
decode_event_data = do
  event_type ← read_u8
  if event_type == 0
      then decode_failed_settlement
      else if event_type == 1
      then decode_failed_withdrawal
      else fail invalid_event_type

-- The inner reader is dropped, so what it leaves is skipped.
unfoldable pub decode_event : Reader Event
decode_event = do
  event_data ← read_up_to event_size
  λ rest. elim (decode_event_data event_data) [
    | ok (e, _) ↦ ok (e, rest)
    | err x ↦ err x
    | panic ↦ panic
  ]

unfoldable pub decode_token_state : Reader TokenState
decode_token_state = do
  account_type ← decode
  version ← read_u32
  program_state_account ← read_pubkey
  token_id ← read_string_with_padding max_token_id_size
  balances_count ← read_u32
  balances ← read_times balances_count decode_balance
  pure (record {
    account_type = account_type;
    version = version;
    program_state_account = program_state_account;
    token_id = token_id;
    balances = balances;
  })

unfoldable pub decode_program_state : Reader ProgramState
decode_program_state = do
  account_type ← decode
  version ← read_u32
  withdraw_account ← read_pubkey
  fee_account_address ← read_string_with_padding max_address_size
  program_change_address ← read_string_with_padding max_address_size
  network_type ← decode
  settlement_batch_hash ← read_hash
  last_settlement_batch_hash ← read_hash
  event_count ← read_u16
  events ← read_times event_count decode_event
  pure (record {
    account_type = account_type;
    version = version;
    withdraw_account = withdraw_account;
    fee_account_address = fee_account_address;
    program_change_address = program_change_address;
    network_type = network_type;
    settlement_batch_hash = settlement_batch_hash;
    last_settlement_batch_hash = last_settlement_batch_hash;
    events = events;
  })

unfoldable pub decode_withdraw_state : Reader WithdrawState
decode_withdraw_state = do
  account_type ← decode
  version ← read_u32
  program_state_account ← read_pubkey
  batch_hash ← read_hash
  pure (record {
    account_type = account_type;
    version = version;
    program_state_account = program_state_account;
    batch_hash = batch_hash;
  })

unfoldable pub decode_rune_receiver_state : Reader RuneReceiverState
decode_rune_receiver_state = do
  account_type ← decode
  version ← read_u32
  program_state_account ← read_pubkey
  pure (record {
    account_type = account_type;
    version = version;
    program_state_account = program_state_account;
  })
