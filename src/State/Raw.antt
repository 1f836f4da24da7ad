-- ===== src/State/Raw.antt =====
-- The free functions of state.rs that read and write a range of an account's data.
pub mod Laws
use chainring_contracts.Base.{
  ℕ, zero, suc, ◌+◌, ◌-◌, [], ◌∷◌, length, take, drop, replicate, leb, ltb, if◌then◌else◌,
}
use chainring_contracts.Base.Bytes.{Bytes, overwrite}
use chainring_contracts.Base.Outcome.{
  ProgramError, Result, ok, err, panic, custom, invalid_account_data, ◌>>=◌, map_err, unwrap,
}
use chainring_contracts.Constants.{max_address_size, hash_size, error_value_too_large}
use chainring_contracts.Types.{AccountType, Hash, WalletLast4}
use chainring_contracts.Codec.Io.{until_zero, decode_from_slice, encode_to_vec}
use chainring_contracts.Codec.Io.Utf8.{from_utf8}
use chainring_contracts.Codec.Parts.{account_type_codable}

abbrev pub ProgramResult : Type 0 → Type 0
ProgramResult A = Result ProgramError A

-- `data[off..off + n]`
unfoldable pub slice : ℕ → ℕ → Bytes → ProgramResult Bytes
slice off n bs = if leb (off + n) (length bs) then ok (take n (drop off bs)) else panic

-- `data[off..off + new.len()].copy_from_slice(new)`
unfoldable pub write_at : ℕ → Bytes → Bytes → ProgramResult Bytes
write_at off new bs =
    if leb (off + length new) (length bs) then ok (overwrite off new bs) else panic

unfoldable pub set_type : AccountType → Bytes → ProgramResult Bytes
set_type t = write_at 0 (encode_to_vec t)

unfoldable pub get_type : Bytes → ProgramResult AccountType
get_type bs = do b ← slice 0 1 bs; map_err invalid_account_data (decode_from_slice b)

-- The string up to the first zero byte of a range.
unfoldable pub get_string : ℕ → ℕ → Bytes → ProgramResult Bytes
get_string off size bs = do
  tmp ← slice off size bs
  let s = until_zero tmp
  if from_utf8 s then ok s else err invalid_account_data

unfoldable pub get_address : ℕ → Bytes → ProgramResult Bytes
get_address off = get_string off max_address_size

-- `tmp[pos - 4..pos]`: for `pos` below 4 the start wraps past the end, and the slice panics.
unfoldable pub get_wallet_last4 : ℕ → Bytes → ProgramResult WalletLast4
get_wallet_last4 off bs = do
  tmp ← slice off max_address_size bs
  let address = until_zero tmp
  if ltb (length address) 4 then panic else ok (drop (length address - 4) address)

-- The range is filled with zeros, and the string is copied to its start.
unfoldable pub set_string : ℕ → Bytes → ℕ → Bytes → ProgramResult Bytes
set_string off string max_size bs =
    if leb max_size (length string)
    then err (custom error_value_too_large)
    else do cleared ← write_at off (replicate max_size 0) bs; write_at off string cleared

unfoldable pub hash_from_slice : ℕ → Bytes → ProgramResult Hash
hash_from_slice off = slice off hash_size

-- `wallet_last4`, for a test or a client: the last four bytes of an address.
unfoldable pub wallet_last4 : Bytes → ProgramResult WalletLast4
wallet_last4 address =
    if ltb (length address) 4 then panic else ok (drop (length address - 4) address)
