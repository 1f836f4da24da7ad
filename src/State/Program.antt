-- ===== src/State/Program.antt =====
-- `impl ProgramState` of state.rs.
pub mod Laws
pub mod Layout
mod Tests
use chainring_contracts.Base.{
  ℕ, zero, suc, ◌+◌, ◌-◌, ◌*◌, ◌^◌, ◌%◌, leb, ◌==◌, length, drop, if◌then◌else◌,
}
use chainring_contracts.Base.Bytes.{Bytes, to_le_bytes, from_le_bytes}
use chainring_contracts.Base.Outcome.{
  Result, ok, err, panic, custom, invalid_account_data, ◌>>=◌, map_err, unwrap,
}
use chainring_contracts.Constants.{
  withdraw_account_pubkey_offset, pubkey_size, fee_account_offset, program_change_address_offset,
  network_type_offset, settlement_hash_offset, last_settlement_hash_offset, events_size_offset,
  events_offset, event_size, max_events, rune_receiver_offset, empty_hash, error_value_too_large,
}
use chainring_contracts.Types.{
  Pubkey, Hash, NetworkType, Event, failed_settlement, failed_withdrawal,
}
use chainring_contracts.Codec.Io.{IoResult, Written, decode_from_slice}
use chainring_contracts.Codec.Parts.{network_type_codable}
use chainring_contracts.Codec.Account.Read.{decode_event}
use chainring_contracts.Codec.Account.Write.{encode_event}
use chainring_contracts.State.Raw.{ProgramResult, slice, write_at, get_address, hash_from_slice}

unfoldable pub get_withdraw_account_key : Bytes → ProgramResult Pubkey
get_withdraw_account_key = slice withdraw_account_pubkey_offset pubkey_size

unfoldable pub get_fee_account_address : Bytes → ProgramResult Bytes
get_fee_account_address = get_address fee_account_offset

unfoldable pub get_program_change_address : Bytes → ProgramResult Bytes
get_program_change_address = get_address program_change_address_offset

-- `decode_from_slice(&data[NETWORK_TYPE_OFFSET..]).unwrap()`
unfoldable pub get_network_type : Bytes → ProgramResult NetworkType
get_network_type bs =
    if leb network_type_offset (length bs)
    then unwrap (decode_from_slice (drop network_type_offset bs))
    else panic

unfoldable pub get_settlement_hash : Bytes → ProgramResult Hash
get_settlement_hash = hash_from_slice settlement_hash_offset

unfoldable pub set_settlement_hash : Hash → Bytes → ProgramResult Bytes
set_settlement_hash = write_at settlement_hash_offset

unfoldable pub clear_settlement_hash : Bytes → ProgramResult Bytes
clear_settlement_hash = set_settlement_hash empty_hash

unfoldable pub set_last_settlement_hash : Hash → Bytes → ProgramResult Bytes
set_last_settlement_hash = write_at last_settlement_hash_offset

unfoldable pub clear_events : Bytes → ProgramResult Bytes
clear_events = write_at events_size_offset (to_le_bytes 2 0)

unfoldable pub get_events_count : Bytes → ProgramResult ℕ
get_events_count bs = do n ← slice events_size_offset 2 bs; ok (from_le_bytes n)

-- Where the slot of an event begins.
abbrev pub event_offset : ℕ → ℕ
event_offset i = events_offset + i * event_size

unfoldable pub emit_event : Event → Bytes → ProgramResult Bytes
emit_event event bs = do
  current_count ← get_events_count bs
  if current_count == max_events then err (custom error_value_too_large) else do
    encoded ← unwrap (encode_event event)
    written ← write_at (event_offset current_count) encoded.bytes bs
    write_at events_size_offset (to_le_bytes 2 (current_count + 1)) written

-- What one event adds in `get_failed_withdrawal_amount`; the difference wraps.
unfoldable pub failed_amount : Event → ℕ
failed_amount (failed_withdrawal e) = (e.requested_amount + 2 ^ 64 - e.fee_amount) % 2 ^ 64
failed_amount (failed_settlement e) = 0

-- The loop over the slots `i`, `i + 1`, ... , `i + left - 1`.
unfoldable pub sum_failed : ℕ → ℕ → ℕ → Bytes → ProgramResult ℕ
sum_failed zero i amount bs = ok amount
sum_failed (suc left) i amount bs = do
  event_data ← slice (event_offset i) event_size bs
  decoded ← map_err invalid_account_data (decode_event event_data)
  sum_failed left (i + 1) ((amount + failed_amount decoded.0) % 2 ^ 64) bs

unfoldable pub get_failed_withdrawal_amount : Bytes → ProgramResult ℕ
get_failed_withdrawal_amount bs = do
  current_count ← get_events_count bs
  sum_failed current_count 0 0 bs

unfoldable pub set_rune_receiver : Pubkey → Bytes → ProgramResult Bytes
set_rune_receiver pubkey = write_at rune_receiver_offset pubkey
