-- ===== src/Contract/Deposit.antt =====
-- Batches of increments and decrements, and `deposit_batch`.
pub mod Totals
use chainring_contracts.Base.{ℕ, Bool, true, false, none, some, List, [], ◌∷◌, if◌then◌else◌}
use chainring_contracts.Types.{AccountType, Adjustment, TokenDeposits, DepositBatchParams}
use chainring_contracts.State.Token.{increment_wallet_balance, decrement_wallet_balance}
use chainring_contracts.Sdk.Account.{M, ◌>>=◌, ◌>>◌, pure, query, lift, read, write, account_at}
use chainring_contracts.Contract.Validate.{validate_account, get_validated_index}

unfoldable pub adjust_balance : ℕ → Bool → Adjustment → M (Unit {0})
adjust_balance p increment adjustment = do
  index ← read (λ bs. get_validated_index bs adjustment.address_index) p
  if increment
      then write (increment_wallet_balance index adjustment.amount) p
      else write (decrement_wallet_balance index adjustment.amount) p

unfoldable pub handle_adjustments : ℕ → List Adjustment → Bool → M (Unit {0})
handle_adjustments p [] increment = pure tt
handle_adjustments p (adjustment ∷ rest) increment = do
  adjust_balance p increment adjustment
  handle_adjustments p rest increment

abbrev pub handle_increments : ℕ → List Adjustment → M (Unit {0})
handle_increments p adjustments = handle_adjustments p adjustments true

abbrev pub handle_decrements : ℕ → List Adjustment → M (Unit {0})
handle_decrements p adjustments = handle_adjustments p adjustments false

unfoldable pub deposit_tokens : List ℕ → List TokenDeposits → M (Unit {0})
deposit_tokens accounts [] = pure tt
deposit_tokens accounts (token_deposits ∷ rest) = do
  query (
      validate_account accounts token_deposits.account_index false true (some AccountType.token)
        (some 0))
  account ← lift (account_at accounts token_deposits.account_index)
  handle_increments account token_deposits.deposits
  deposit_tokens accounts rest

unfoldable pub deposit_batch : List ℕ → DepositBatchParams → M (Unit {0})
deposit_batch accounts params = do
  query (validate_account accounts 0 true false (some AccountType.program) none)
  deposit_tokens accounts params.token_deposits
