-- ===== src/Contract/Settlement.antt =====
-- The two phases of a settlement: `prepare_settlement_batch`, `submit_settlement_batch` and
-- `rollback_settlement_batch`.
pub mod Totals
pub mod Phases
pub mod Prepare
pub mod Prepared
pub mod Trace
use chainring_contracts.Base.{
  ℕ, ◌+◌, ◌-◌, ◌^◌, ◌%◌, true, false, not, none, some, List, [], ◌∷◌, ltb, ◌==◌, if◌then◌else◌,
}
use chainring_contracts.Base.Bytes.{Bytes, bytes_eq}
use chainring_contracts.Base.Outcome.{custom}
use chainring_contracts.Constants.{
  empty_hash, fee_address_index, error_insufficient_balance, error_settlement_in_progress,
  error_no_settlement_in_progress, error_settlement_batch_mismatch, error_netting,
}
use chainring_contracts.Types.{
  AccountType, Adjustment, AddressIndex, SettlementAdjustments, SettlementBatchParams,
  failed_settlement, Hash,
}
use chainring_contracts.External.{External}
use chainring_contracts.State.Token.{get_wallet_balance, get_wallet_address_last4}
use chainring_contracts.State.Program.{
  get_settlement_hash, set_settlement_hash, clear_settlement_hash, set_last_settlement_hash,
  clear_events, get_events_count, emit_event,
}
use chainring_contracts.Sdk.Account.{
  M, ◌>>=◌, ◌>>◌, pure, raise, query, lift, read, write, account_at,
}
use chainring_contracts.Contract.Validate.{validate_account, get_validated_index}
use chainring_contracts.Contract.Deposit.{handle_increments, handle_decrements}

-- The event of a decrement that its wallet cannot cover.
unfoldable pub emit_shortfall : List ℕ → ℕ → Adjustment → ℕ → M (Unit {0})
emit_shortfall accounts account_index adjustment current_balance = do
  program ← lift (account_at accounts 0)
  write
      (emit_event (
        failed_settlement (record {
          account_index = account_index;
          address_index = adjustment.address_index.index;
          requested_amount = adjustment.amount;
          balance = current_balance;
          error_code = error_insufficient_balance;
        })))
      program

unfoldable pub report_shortfall : List ℕ → ℕ → Adjustment → ℕ → M (Unit {0})
report_shortfall accounts account_index adjustment current_balance =
    if ltb current_balance adjustment.amount
    then emit_shortfall accounts account_index adjustment current_balance
    else pure tt

-- The body of the loop of `verify_decrements`.
unfoldable pub check_decrement : List ℕ → ℕ → ℕ → Adjustment → M (Unit {0})
check_decrement accounts account_index p adjustment = do
  index ← read (λ bs. get_validated_index bs adjustment.address_index) p
  current_balance ← read (get_wallet_balance index) p
  report_shortfall accounts account_index adjustment current_balance

-- The loop of `verify_decrements`, with its running total, which wraps.
unfoldable pub verify_decrements_from : List ℕ → ℕ → ℕ → ℕ → List Adjustment → M ℕ
verify_decrements_from accounts account_index p total [] = pure total
verify_decrements_from accounts account_index p total (adjustment ∷ rest) = do
  check_decrement accounts account_index p adjustment
  verify_decrements_from accounts account_index p ((total + adjustment.amount) % 2 ^ 64) rest

unfoldable pub verify_decrements : List ℕ → ℕ → List Adjustment → M ℕ
verify_decrements accounts account_index adjustments = do
  p ← lift (account_at accounts account_index)
  verify_decrements_from accounts account_index p 0 adjustments

unfoldable pub verify_increments_from : ℕ → ℕ → List Adjustment → M ℕ
verify_increments_from p total [] = pure total
verify_increments_from p total (adjustment ∷ rest) = do
  _ ← read (λ bs. get_validated_index bs adjustment.address_index) p
  verify_increments_from p ((total + adjustment.amount) % 2 ^ 64) rest

unfoldable pub verify_increments : List ℕ → ℕ → List Adjustment → M ℕ
verify_increments accounts account_index adjustments = do
  p ← lift (account_at accounts account_index)
  verify_increments_from p 0 adjustments

-- The body of the loop of `prepare_settlement_batch`, which gives back the new running total. The
-- total is an `i64` as its bit pattern: casts between `u64` and `i64` keep the pattern, and sums and
-- differences wrap.
unfoldable pub verify_token : List ℕ → ℕ → SettlementAdjustments → M ℕ
verify_token accounts running_netting_total t = do
  query (validate_account accounts t.account_index false false (some AccountType.token) (some 0))
  decrement_sum ← verify_decrements accounts t.account_index t.decrements
  increments ← verify_increments accounts t.account_index t.increments
  let increment_sum = (increments + t.fee_amount) % 2 ^ 64
  pure ((running_netting_total + (increment_sum + 2 ^ 64 - decrement_sum)) % 2 ^ 64)

unfoldable pub verify_settlements : List ℕ → ℕ → List SettlementAdjustments → M ℕ
verify_settlements accounts running_netting_total [] = pure running_netting_total
verify_settlements accounts running_netting_total (t ∷ rest) = do
  next ← verify_token accounts running_netting_total t
  verify_settlements accounts next rest

-- The fee of a token goes to the entry of the fee account, with the last four bytes that are there.
unfoldable pub pay_fee : ℕ → ℕ → M (Unit {0})
pay_fee p fee_amount = do
  last4 ← read (get_wallet_address_last4 fee_address_index) p
  let address_index : AddressIndex = record { index = fee_address_index; last4 = last4 }
  handle_increments p (record { address_index = address_index; amount = fee_amount } ∷ [])

unfoldable pub settle_fee : ℕ → ℕ → M (Unit {0})
settle_fee p fee_amount = if ltb 0 fee_amount then pay_fee p fee_amount else pure tt

-- The body of the loop of `submit_settlement_batch`, for the token account at `p`.
unfoldable pub settle_token : ℕ → SettlementAdjustments → M (Unit {0})
settle_token p t = do
  settle_fee p t.fee_amount
  handle_increments p t.increments
  handle_decrements p t.decrements

unfoldable pub settle_tokens : List ℕ → List SettlementAdjustments → M (Unit {0})
settle_tokens accounts [] = pure tt
settle_tokens accounts (t ∷ rest) = do
  query (validate_account accounts t.account_index false true (some AccountType.token) (some 0))
  p ← lift (account_at accounts t.account_index)
  settle_token p t
  settle_tokens accounts rest

-- The first lines of each phase: the program account is checked, and its place is given back.
unfoldable pub open_program : List ℕ → M ℕ
open_program accounts = do
  query (validate_account accounts 0 true true (some AccountType.program) none)
  lift (account_at accounts 0)

unfoldable pub rollback_settlement_batch : List ℕ → M (Unit {0})
rollback_settlement_batch accounts = do
  program ← open_program accounts
  write clear_settlement_hash program

-- What `submit_settlement_batch` does once the hashes agree.
unfoldable pub apply_settlement : List ℕ → SettlementBatchParams → Hash → ℕ → M (Unit {0})
apply_settlement accounts params params_hash program = do
  settle_tokens accounts params.settlements
  write (set_last_settlement_hash params_hash) program
  write clear_settlement_hash program

-- The comparison of the hashes in `submit_settlement_batch`.
unfoldable pub submit_matching : List ℕ → SettlementBatchParams → Hash → ℕ → Hash → M (Unit {0})
submit_matching accounts params params_hash program current_hash =
    if bytes_eq current_hash empty_hash
    then raise (custom error_no_settlement_in_progress)
    else if not (bytes_eq current_hash params_hash)
    then raise (custom error_settlement_batch_mismatch)
    else apply_settlement accounts params params_hash program

module _ (x : External) where
  -- `hash`: the 32 bytes of the digest.
  unfoldable pub hash : Bytes → Hash
  hash raw = x.sha256 raw

  -- The hash is stored when no decrement fell short.
  unfoldable pub store_hash : ℕ → Bytes → ℕ → M (Unit {0})
  store_hash program raw_params_data events_count =
      if events_count == 0
      then write (set_settlement_hash (hash raw_params_data)) program
      else pure tt

  -- What `prepare_settlement_batch` does after the loop.
  unfoldable pub finish_prepare : ℕ → Bytes → ℕ → M (Unit {0})
  finish_prepare program raw_params_data running_netting_total =
      if running_netting_total == 0
      then read get_events_count program >>= store_hash program raw_params_data
      else raise (custom error_netting)

  -- What `prepare_settlement_batch` does when no settlement is in progress.
  unfoldable pub prepare_idle : List ℕ → SettlementBatchParams → Bytes → ℕ → M (Unit {0})
  prepare_idle accounts params raw_params_data program = do
    write clear_events program
    running_netting_total ← verify_settlements accounts 0 params.settlements
    finish_prepare program raw_params_data running_netting_total

  unfoldable pub prepare_settlement_batch : List ℕ → SettlementBatchParams → Bytes → M (Unit {0})
  prepare_settlement_batch accounts params raw_params_data = do
    program ← open_program accounts
    current_hash ← read get_settlement_hash program
    if bytes_eq current_hash empty_hash
        then prepare_idle accounts params raw_params_data program
        else raise (custom error_settlement_in_progress)

  unfoldable pub submit_settlement_batch : List ℕ → SettlementBatchParams → Bytes → M (Unit {0})
  submit_settlement_batch accounts params raw_params_data = do
    program ← open_program accounts
    current_hash ← read get_settlement_hash program
    submit_matching accounts params (hash raw_params_data) program current_hash
