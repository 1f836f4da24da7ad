-- ===== src/Codec/Account/Write.antt =====
-- The `encode` functions of the account state and of events.
use chainring_contracts.Base.{◌-◌, List, [], ◌∷◌, ◌++◌, length, ltb, if◌then◌else◌}
use chainring_contracts.Base.Outcome.{ok, err, ◌>>=◌}
use chainring_contracts.Constants.{event_size, max_address_size, max_token_id_size}
use chainring_contracts.Types.{
  Balance, Event, failed_settlement, failed_withdrawal, TokenState, ProgramState, WithdrawState,
  RuneReceiverState,
}
use chainring_contracts.Codec.Io.{
  IoResult, Written, ◌⊕◌, encode, write_u8, write_u16, write_u32, write_u64, write_all,
  write_padding, write_string_with_padding, event_too_large,
}
use chainring_contracts.Codec.Parts.{account_type_codable, network_type_codable}

unfoldable pub encode_balance : Balance → IoResult Written
encode_balance b = do
  address ← write_string_with_padding b.address max_address_size
  ok (address ⊕ write_u64 b.balance)

-- The fields of an event, before the padding.
unfoldable pub encode_event_fields : Event → Written
encode_event_fields (failed_settlement e) =
    write_u8 0
    ⊕ write_u8 e.account_index
    ⊕ write_u32 e.address_index
    ⊕ write_u64 e.requested_amount
    ⊕ write_u64 e.balance
    ⊕ write_u32 e.error_code
encode_event_fields (failed_withdrawal e) =
    write_u8 1
    ⊕ write_u8 e.account_index
    ⊕ write_u32 e.address_index
    ⊕ write_u8 e.fee_account_index
    ⊕ write_u32 e.fee_address_index
    ⊕ write_u64 e.requested_amount
    ⊕ write_u64 e.fee_amount
    ⊕ write_u64 e.balance
    ⊕ write_u64 e.balance_in_fee_token
    ⊕ write_u32 e.error_code

-- The count that is returned is that of the padding alone.
unfoldable pub encode_event : Event → IoResult Written
encode_event e =
    let fields = encode_event_fields e in
    let padding = write_padding (event_size - fields.count) in
    if ltb event_size fields.count
    then err event_too_large
    else ok (record { bytes = fields.bytes ++ padding.bytes; count = padding.count })

-- The writes of a loop whose `encode` can fail.
unfoldable pub try_write_each : {A : Type 0} → (A → IoResult Written) → List A → IoResult Written
try_write_each encode [] = ok (record { bytes = []; count = 0 })
try_write_each encode (a ∷ as') = do
  first ← encode a
  later ← try_write_each encode as'
  ok (first ⊕ later)

unfoldable pub encode_token_state : TokenState → IoResult Written
encode_token_state t = do
  token_id ← write_string_with_padding t.token_id max_token_id_size
  balances ← try_write_each encode_balance t.balances
  ok (
      encode t.account_type
      ⊕ write_u32 t.version
      ⊕ write_all t.program_state_account
      ⊕ token_id
      ⊕ write_u32 (length t.balances)
      ⊕ balances)

unfoldable pub encode_program_state : ProgramState → IoResult Written
encode_program_state p = do
  fee_account_address ← write_string_with_padding p.fee_account_address max_address_size
  program_change_address ← write_string_with_padding p.program_change_address max_address_size
  events ← try_write_each encode_event p.events
  ok (
      encode p.account_type
      ⊕ write_u32 p.version
      ⊕ write_all p.withdraw_account
      ⊕ fee_account_address
      ⊕ program_change_address
      ⊕ encode p.network_type
      ⊕ write_all p.settlement_batch_hash
      ⊕ write_all p.last_settlement_batch_hash
      ⊕ write_u16 (length p.events)
      ⊕ events)

unfoldable pub encode_withdraw_state : WithdrawState → Written
encode_withdraw_state w =
    encode w.account_type
    ⊕ write_u32 w.version
    ⊕ write_all w.program_state_account
    ⊕ write_all w.batch_hash

unfoldable pub encode_rune_receiver_state : RuneReceiverState → Written
encode_rune_receiver_state r =
    encode r.account_type ⊕ write_u32 r.version ⊕ write_all r.program_state_account
