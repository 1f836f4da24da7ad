-- ===== src/Contract/Withdrawal/Prepare.antt =====
-- The first phase of a withdrawal: `verify_withdrawals`, `handle_prepare_withdrawals` and
-- `prepare_withdraw_batch`.
use chainring_contracts.Base.{
  ℕ, ◌^◌, ◌%◌, Bool, true, false, not, ◌&&◌, ◌||◌, none, some, List, [], ◌∷◌, length, ltb, ◌==◌,
  if◌then◌else◌,
}
use chainring_contracts.Base.Bytes.{Bytes, bytes_eq}
use chainring_contracts.Base.Outcome.{ok, err, panic, custom}
use chainring_contracts.Constants.{
  empty_hash, error_insufficient_balance, error_settlement_in_progress,
  error_withdrawal_in_progress, error_invalid_input_tx, error_no_outputs_allowed,
  error_invalid_utxo_types, error_no_rune_receiver, error_no_tx_outputs,
}
use chainring_contracts.Types.{
  Hash, AccountType, NetworkType, Withdrawal, TokenWithdrawals, WithdrawBatchParams,
}
use chainring_contracts.External.{External, Transaction}
use chainring_contracts.State.Raw.{ProgramResult}
use chainring_contracts.State.Token.{get_wallet_balance, decrement_wallet_balance}
use chainring_contracts.State.Program.{
  get_settlement_hash, get_fee_account_address, get_network_type, clear_events, get_events_count,
}
use chainring_contracts.State.Withdraw.{get_hash, set_hash}
use chainring_contracts.Sdk.ErrorCode.{to_u64}
use chainring_contracts.Sdk.Account.{
  M, ◌>>=◌, ◌>>◌, pure, raise, query, lift, read, write, account_at,
}
use chainring_contracts.Contract.Validate.{validate_account, get_validated_index_withdraw}
use chainring_contracts.Contract.Outputs.{Outputs, add_withdrawal_output}
use chainring_contracts.Contract.Settlement.{hash}
use chainring_contracts.Contract.Withdrawal.{find_rune_receiver, report_withdrawal, take_fee}

module _ (x : External) where
  -- A withdrawal whose wallet has been found: both balances must cover it.
  unfoldable pub verify_funds : List ℕ → ℕ → ℕ → ℕ → Withdrawal → NetworkType → ℕ → M (Unit {0})
  verify_funds accounts account_index p fee_p w network_type index = do
    current_balance ← read (get_wallet_balance index) p
    fee_index ←
        read (λ bs. get_validated_index_withdraw x bs w.fee_address_index network_type) fee_p
    balance_in_fee_token ← read (get_wallet_balance fee_index) fee_p
    if ltb current_balance w.amount || ltb balance_in_fee_token w.fee_amount
        then report_withdrawal accounts account_index w current_balance balance_in_fee_token
            error_insufficient_balance
        else pure tt

  -- The check of the fee's account, which follows the look-up of the wallet and precedes the use of
  -- its result.
  unfoldable pub fee_account_of : List ℕ → Withdrawal → M ℕ
  fee_account_of accounts w = do
    query
        (validate_account accounts w.fee_account_index false true (some AccountType.token) (some 0))
    lift (account_at accounts w.fee_account_index)

  -- An error of the look-up is no error of the batch: it becomes an event with its code.
  unfoldable pub verify_withdrawal :
      List ℕ → ℕ → ℕ → NetworkType → Withdrawal → ProgramResult ℕ → M (Unit {0})
  verify_withdrawal accounts account_index p network_type w panic = lift panic
  verify_withdrawal accounts account_index p network_type w (ok index) = do
    fee_p ← fee_account_of accounts w
    verify_funds accounts account_index p fee_p w network_type index
  verify_withdrawal accounts account_index p network_type w (err e) = do
    _ ← fee_account_of accounts w
    report_withdrawal accounts account_index w 0 0 (to_u64 e % 2 ^ 32)

  unfoldable pub verify_withdrawals_from :
      List ℕ → ℕ → ℕ → NetworkType → List Withdrawal → M (Unit {0})
  verify_withdrawals_from accounts account_index p network_type [] = pure tt
  verify_withdrawals_from accounts account_index p network_type (w ∷ rest) = do
    index_result ←
        query (λ s. ok (get_validated_index_withdraw x (s p).data_ w.address_index network_type))
    verify_withdrawal accounts account_index p network_type w index_result
    verify_withdrawals_from accounts account_index p network_type rest

  unfoldable pub verify_tokens : List ℕ → NetworkType → List TokenWithdrawals → M (Unit {0})
  verify_tokens accounts network_type [] = pure tt
  verify_tokens accounts network_type (t ∷ rest) = do
    query (validate_account accounts t.account_index false true (some AccountType.token) (some 0))
    p ← lift (account_at accounts t.account_index)
    verify_withdrawals_from accounts t.account_index p network_type t.withdrawals
    verify_tokens accounts network_type rest

  unfoldable pub prepare_withdrawals :
      List ℕ → ℕ → Bytes → NetworkType → List Withdrawal → Outputs → M Outputs
  prepare_withdrawals accounts p fee_account_address network_type [] o = pure o
  prepare_withdrawals accounts p fee_account_address network_type (w ∷ rest) o = do
    write (decrement_wallet_balance w.address_index.index w.amount) p
    take_fee accounts p fee_account_address w
    o' ← read (λ bs. add_withdrawal_output x bs w network_type o) p
    prepare_withdrawals accounts p fee_account_address network_type rest o'

  -- `handle_prepare_withdrawals`, for each token in turn.
  unfoldable pub prepare_tokens : List ℕ → NetworkType → List TokenWithdrawals → Outputs → M Outputs
  prepare_tokens accounts network_type [] o = pure o
  prepare_tokens accounts network_type (t ∷ rest) o = do
    program ← lift (account_at accounts 0)
    fee_account_address ← read get_fee_account_address program
    p ← lift (account_at accounts t.account_index)
    o' ← prepare_withdrawals accounts p fee_account_address network_type t.withdrawals o
    prepare_tokens accounts network_type rest o'

  -- The end of `prepare_withdraw_batch`: the tests of the outputs, and the hash of the batch.
  unfoldable pub finish_withdrawals : List ℕ → Bytes → Bool → Outputs → M (Unit {0})
  finish_withdrawals accounts params_raw_data has_rune_receiver o =
      if not (length o.edicts == 0) && not has_rune_receiver
      then raise (custom error_no_rune_receiver)
      else if length o.tx_outs == 0
      then raise (custom error_no_tx_outputs)
      else do
        withdraw ← lift (account_at accounts 1)
        write (set_hash (hash x params_raw_data)) withdraw

  -- The second part of `prepare_withdraw_batch`, after the tests of the transaction.
  unfoldable pub apply_withdrawals :
      List ℕ → WithdrawBatchParams → Bytes → Bool → Transaction → M (Unit {0})
  apply_withdrawals accounts params params_raw_data has_rune_receiver tx = do
    program ← lift (account_at accounts 0)
    write clear_events program
    network_type ← read get_network_type program
    verify_tokens accounts network_type params.token_withdrawals
    events_count ← read get_events_count program
    if not (events_count == 0) then pure tt else do
      o ←
          prepare_tokens accounts network_type params.token_withdrawals
            (record { tx_outs = tx.output; edicts = [] })
      finish_withdrawals accounts params_raw_data has_rune_receiver o

  -- The tests of the inputs that `prepare_withdraw_batch` is given.
  unfoldable pub parse_input_tx : WithdrawBatchParams → ProgramResult Transaction
  parse_input_tx params = elim (x.deserialize_tx params.tx_hex) [
    | none ↦ err (custom error_invalid_input_tx)
    | some tx ↦
        if ltb 0 (length tx.output)
        then err (custom error_no_outputs_allowed)
        else if not (length tx.input == length params.input_utxo_types)
        then err (custom error_invalid_utxo_types)
        else ok tx
  ]

  -- `prepare_withdraw_batch` behind its test of the settlement hash, and behind that of its own hash.
  unfoldable pub prepare_idle_withdrawal :
      List ℕ → WithdrawBatchParams → Bytes → Bool → Hash → M (Unit {0})
  prepare_idle_withdrawal accounts params params_raw_data has_rune_receiver withdraw_hash =
      if not (bytes_eq withdraw_hash empty_hash)
      then raise (custom error_withdrawal_in_progress)
      else lift (parse_input_tx params)
        >>= apply_withdrawals accounts params params_raw_data has_rune_receiver

  unfoldable pub prepare_unsettled_withdrawal :
      List ℕ → WithdrawBatchParams → Bytes → Bool → Hash → M (Unit {0})
  prepare_unsettled_withdrawal accounts params params_raw_data has_rune_receiver settlement_hash =
      if not (bytes_eq settlement_hash empty_hash)
      then raise (custom error_settlement_in_progress)
      else do
        withdraw ← lift (account_at accounts 1)
        withdraw_hash ← read get_hash withdraw
        prepare_idle_withdrawal accounts params params_raw_data has_rune_receiver withdraw_hash

  -- `prepare_withdraw_batch` behind its checks of the accounts.
  unfoldable pub prepare_checked_withdrawal :
      List ℕ → WithdrawBatchParams → Bytes → Bool → M (Unit {0})
  prepare_checked_withdrawal accounts params params_raw_data has_rune_receiver = do
    program ← lift (account_at accounts 0)
    settlement_hash ← read get_settlement_hash program
    prepare_unsettled_withdrawal accounts params params_raw_data has_rune_receiver settlement_hash

  unfoldable pub prepare_withdraw_batch : List ℕ → WithdrawBatchParams → Bytes → M (Unit {0})
  prepare_withdraw_batch accounts params params_raw_data = do
    query (validate_account accounts 0 true true (some AccountType.program) (some 1))
    query (validate_account accounts 1 false true (some AccountType.withdraw) (some 0))
    has_rune_receiver ← find_rune_receiver accounts false
    prepare_checked_withdrawal accounts params params_raw_data has_rune_receiver
