-- ===== src/State/Token.antt =====
-- `impl TokenState` and `impl Balance` of state.rs. `initialize` and
-- `grow_balance_accounts_if_needed` change the account's length: Contract/Init.antt.
pub mod Balances
pub mod Adjust
use chainring_contracts.Base.{
  ℕ, ◌+◌, ◌-◌, ◌*◌, ◌^◌, ◌%◌, Bool, true, false, not, ◌||◌, Option, none, some, ltb, ◌==◌,
  if◌then◌else◌,
}
use chainring_contracts.Base.Bytes.{Bytes, to_le_bytes, from_le_bytes}
use chainring_contracts.Base.Outcome.{
  Result, ok, err, panic, custom, invalid_account_data, ◌>>=◌, unwrap,
}
use chainring_contracts.Constants.{
  token_id_offset, max_token_id_size, balance_count_offset, balances_offset, balance_size,
  balance_amount_offset, max_address_size, program_pubkey_offset, pubkey_size,
  error_insufficient_balance,
}
use chainring_contracts.Types.{Pubkey, WalletLast4}
use chainring_contracts.External.{External, RuneId}
use chainring_contracts.State.Raw.{
  ProgramResult, slice, write_at, get_string, get_address, get_wallet_last4, set_string,
}

unfoldable pub set_token_id : Bytes → Bytes → ProgramResult Bytes
set_token_id token_id = set_string token_id_offset token_id max_token_id_size

unfoldable pub get_num_balances : Bytes → ProgramResult ℕ
get_num_balances bs = do n ← slice balance_count_offset 4 bs; ok (from_le_bytes n)

-- `num_balances as u32` keeps the four lowest bytes.
unfoldable pub set_num_balances : ℕ → Bytes → ProgramResult Bytes
set_num_balances num_balances = write_at balance_count_offset (to_le_bytes 4 num_balances)

unfoldable pub get_token_id : Bytes → ProgramResult Bytes
get_token_id = get_string token_id_offset max_token_id_size

unfoldable pub get_program_state_account_key : Bytes → ProgramResult Pubkey
get_program_state_account_key = slice program_pubkey_offset pubkey_size

unfoldable pub set_program_account : Pubkey → Bytes → ProgramResult Bytes
set_program_account pubkey = write_at program_pubkey_offset pubkey

module _ (x : External) where
  unfoldable pub is_rune_id : Bytes → Bool
  is_rune_id token_id = elim (x.rune_id_from_str token_id) [ some _ ↦ true | none ↦ false ]

  unfoldable pub get_rune_id : Bytes → ProgramResult RuneId
  get_rune_id bs = do
    token_id ← get_token_id bs
    elim (x.rune_id_from_str token_id) [ some r ↦ ok r | none ↦ err invalid_account_data ]

  unfoldable pub is_rune_account : Bytes → ProgramResult Bool
  is_rune_account bs = do token_id ← unwrap (get_token_id bs); ok (is_rune_id token_id)

  -- A token that is no rune, or a rune that has been etched in a block.
  unfoldable pub can_withdraw : Bytes → ProgramResult Bool
  can_withdraw bs = do
    token_id ← unwrap (get_token_id bs)
    ok (elim (x.rune_id_from_str token_id) [ some r ↦ not (r.block == 0) | none ↦ true ])

  unfoldable pub is_pending_rune_id : Bytes → Bool
  is_pending_rune_id token_id = elim (x.rune_id_from_str token_id) [
    | some r ↦ r.block == 0
    | none ↦ true
  ]

-- impl Balance

-- Where the entry of a wallet begins.
abbrev pub entry_offset : ℕ → ℕ
entry_offset index = balances_offset + index * balance_size

unfoldable pub get_wallet_balance : ℕ → Bytes → ProgramResult ℕ
get_wallet_balance index bs = do
  b ← slice (entry_offset index + balance_amount_offset) 8 bs
  ok (from_le_bytes b)

unfoldable pub set_wallet_balance : ℕ → ℕ → Bytes → ProgramResult Bytes
set_wallet_balance index balance =
    write_at (entry_offset index + balance_amount_offset) (to_le_bytes 8 balance)

-- The sum wraps: the program is built in the release profile, without overflow checks.
unfoldable pub increment_wallet_balance : ℕ → ℕ → Bytes → ProgramResult Bytes
increment_wallet_balance index balance_adjustment bs = do
  current_balance ← get_wallet_balance index bs
  set_wallet_balance index ((current_balance + balance_adjustment) % 2 ^ 64) bs

unfoldable pub decrement_wallet_balance : ℕ → ℕ → Bytes → ProgramResult Bytes
decrement_wallet_balance index balance_adjustment bs = do
  current_balance ← get_wallet_balance index bs
  if ltb current_balance balance_adjustment
      then err (custom error_insufficient_balance)
      else set_wallet_balance index (current_balance - balance_adjustment) bs

unfoldable pub get_wallet_address : ℕ → Bytes → ProgramResult Bytes
get_wallet_address index = get_address (entry_offset index)

unfoldable pub set_wallet_address : ℕ → Bytes → Bytes → ProgramResult Bytes
set_wallet_address index address = set_string (entry_offset index) address max_address_size

unfoldable pub get_wallet_address_last4 : ℕ → Bytes → ProgramResult WalletLast4
get_wallet_address_last4 index = get_wallet_last4 (entry_offset index)
