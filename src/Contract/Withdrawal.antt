-- ===== src/Contract/Withdrawal.antt =====
-- What the phases of a withdrawal share, and `submit_withdraw_batch`, `rollback_withdraw_batch` and
-- `update_withdraw_state_utxo`. `prepare_withdraw_batch` is in Contract/Withdrawal/Prepare.antt.
pub mod Submit
pub mod Prepare
pub mod Exclusive
pub mod Fees
pub mod Balances
pub mod Restore
pub mod Reports
pub mod Outcome
pub mod Handlers
pub mod Replay
use Submit.{submit_prepared}
use chainring_contracts.Base.{
  ℕ, ◌+◌, ◌-◌, ◌^◌, ◌%◌, Bool, true, false, not, ◌&&◌, ◌||◌, Option, none, some, List, [], ◌∷◌,
  length, ltb, ◌==◌, if◌then◌else◌,
}
use chainring_contracts.Base.Bytes.{Bytes, bytes_eq}
use chainring_contracts.Base.Outcome.{ProgramError, Result, ok, err, panic, custom}
use chainring_contracts.Constants.{
  empty_hash, fee_address_index, error_insufficient_balance, error_settlement_in_progress,
  error_withdrawal_in_progress, error_invalid_input_tx, error_no_outputs_allowed,
  error_invalid_utxo_types, error_address_mismatch, error_no_rune_receiver, error_no_tx_outputs,
}
use chainring_contracts.Types.{
  Pubkey, Hash, AccountType, NetworkType, Withdrawal, TokenWithdrawals, WithdrawBatchParams,
  RollbackWithdrawBatchParams, UpdateWithdrawStateUtxoParams, Event, FailedWithdrawal,
  failed_withdrawal,
}
use chainring_contracts.External.{External, Edict, Transaction}
use chainring_contracts.State.Raw.{ProgramResult, get_type}
use chainring_contracts.State.Token.{
  get_wallet_balance, get_wallet_address, increment_wallet_balance, decrement_wallet_balance,
}
use chainring_contracts.State.Program.{
  get_settlement_hash, get_fee_account_address, get_network_type, clear_events, get_events_count,
  emit_event,
}
use chainring_contracts.State.Withdraw.{get_hash, set_hash, clear_hash}
use chainring_contracts.Sdk.ErrorCode.{to_u64}
use chainring_contracts.Sdk.Account.{
  M, ◌>>=◌, ◌>>◌, pure, raise, query, lift, read, write, account_at, set_utxo, utxo_meta,
}
use chainring_contracts.Contract.Validate.{
  validate_account, get_validated_index, get_validated_index_withdraw, account_type_eq,
}
use chainring_contracts.Contract.Outputs.{Outputs, add_withdrawal_output}
use chainring_contracts.Contract.Settlement.{hash}

-- The test of `accounts[2]`, which may be the rune receiver, with the flags that it then must have.
unfoldable pub find_rune_receiver : List ℕ → Bool → M Bool
find_rune_receiver accounts is_signer = do
  p ← lift (account_at accounts 2)
  t ← read get_type p
  if account_type_eq t AccountType.rune_receiver
      then (do
        query
            (validate_account accounts 2 is_signer false (some AccountType.rune_receiver) (some 0))
        pure true)
      else pure false

-- The event of a withdrawal that cannot be made.
unfoldable pub report_withdrawal : List ℕ → ℕ → Withdrawal → ℕ → ℕ → ℕ → M (Unit {0})
report_withdrawal accounts account_index w balance balance_in_fee_token error_code = do
  program ← lift (account_at accounts 0)
  write
      (emit_event (
        failed_withdrawal (record {
          account_index = account_index;
          address_index = w.address_index.index;
          fee_account_index = w.fee_account_index;
          fee_address_index = w.fee_address_index.index;
          requested_amount = w.amount;
          fee_amount = w.fee_amount;
          balance = balance;
          balance_in_fee_token = balance_in_fee_token;
          error_code = error_code;
        })))
      program

-- The account of a fee, whose entry 0 must be that of the program's fee account.
unfoldable pub fee_entry : List ℕ → Bytes → Withdrawal → M ℕ
fee_entry accounts fee_account_address w = do
  fee_p ← lift (account_at accounts w.fee_account_index)
  address ← read (get_wallet_address fee_address_index) fee_p
  if not (bytes_eq address fee_account_address)
      then raise (custom error_address_mismatch)
      else pure fee_p

-- `accounts[i].key == account.key`
unfoldable pub same_key : ℕ → ℕ → M Bool
same_key fee_p p = query (λ s. ok (bytes_eq (s fee_p).key (s p).key))

-- In one and the same token the fee is part of the amount.
unfoldable pub charge_fee : ℕ → Withdrawal → Bool → M (Unit {0})
charge_fee fee_p w same =
    if same
    then pure tt
    else write (decrement_wallet_balance w.fee_address_index.index w.fee_amount) fee_p

-- The fee moves to entry 0 of the fee token.
unfoldable pub take_fee : List ℕ → ℕ → Bytes → Withdrawal → M (Unit {0})
take_fee accounts p fee_account_address w =
    if ltb 0 w.fee_amount
    then (do
      fee_p ← fee_entry accounts fee_account_address w
      write (increment_wallet_balance fee_address_index w.fee_amount) fee_p
      same ← same_key fee_p p
      charge_fee fee_p w same)
    else pure tt

unfoldable pub refund_fee : ℕ → Withdrawal → Bool → M (Unit {0})
refund_fee fee_p w same =
    if same
    then pure tt
    else write (increment_wallet_balance w.fee_address_index.index w.fee_amount) fee_p

-- The fee moves back.
unfoldable pub return_fee : List ℕ → ℕ → Bytes → Withdrawal → M (Unit {0})
return_fee accounts p fee_account_address w =
    if ltb 0 w.fee_amount
    then (do
      query (
          validate_account accounts w.fee_account_index false true (some AccountType.token)
            (some 0))
      fee_p ← fee_entry accounts fee_account_address w
      write (decrement_wallet_balance fee_address_index w.fee_amount) fee_p
      same ← same_key fee_p p
      refund_fee fee_p w same)
    else pure tt

unfoldable pub return_withdrawals : List ℕ → ℕ → Bytes → List Withdrawal → M (Unit {0})
return_withdrawals accounts p fee_account_address [] = pure tt
return_withdrawals accounts p fee_account_address (w ∷ rest) = do
  index ← read (λ bs. get_validated_index bs w.address_index) p
  write (increment_wallet_balance index w.amount) p
  return_fee accounts p fee_account_address w
  return_withdrawals accounts p fee_account_address rest

-- `handle_rollback_withdrawals`
unfoldable pub handle_rollback_withdrawals : List ℕ → TokenWithdrawals → Bytes → M (Unit {0})
handle_rollback_withdrawals accounts t fee_account_address = do
  p ← lift (account_at accounts t.account_index)
  return_withdrawals accounts p fee_account_address t.withdrawals

unfoldable pub rollback_tokens : List ℕ → List TokenWithdrawals → M (Unit {0})
rollback_tokens accounts [] = pure tt
rollback_tokens accounts (t ∷ rest) = do
  query (validate_account accounts t.account_index false true (some AccountType.token) (some 0))
  program ← lift (account_at accounts 0)
  fee_account_address ← read get_fee_account_address program
  handle_rollback_withdrawals accounts t fee_account_address
  rollback_tokens accounts rest

unfoldable pub rollback_withdraw_batch : List ℕ → RollbackWithdrawBatchParams → M (Unit {0})
rollback_withdraw_batch accounts params = do
  query (validate_account accounts 0 true false (some AccountType.program) (some 1))
  query (validate_account accounts 1 false true (some AccountType.withdraw) (some 0))
  rollback_tokens accounts params.token_withdrawals
  withdraw ← lift (account_at accounts 1)
  write clear_hash withdraw

module _ (x : External) where
  unfoldable pub update_withdraw_state_utxo : List ℕ → UpdateWithdrawStateUtxoParams → M (Unit {0})
  update_withdraw_state_utxo accounts params = do
    query (validate_account accounts 0 true false (some AccountType.program) (some 1))
    query (validate_account accounts 1 true true (some AccountType.withdraw) (some 0))
    withdraw ← lift (account_at accounts 1)
    txid ← lift (elim (x.hex_decode_32 params.tx_id) [ some id ↦ ok id | none ↦ panic ])
    set_utxo (utxo_meta txid params.vout) withdraw

  unfoldable pub submit_withdraw_batch :
      Pubkey → List ℕ → WithdrawBatchParams → Bytes → M (Unit {0})
  submit_withdraw_batch program_id accounts params params_raw_data = do
    query (validate_account accounts 0 true false (some AccountType.program) (some 1))
    query (validate_account accounts 1 true true (some AccountType.withdraw) (some 0))
    has_rune_receiver ← find_rune_receiver accounts true
    submit_prepared x program_id accounts params params_raw_data has_rune_receiver
