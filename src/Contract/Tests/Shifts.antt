-- ===== src/Contract/Tests/Shifts.antt =====
-- What settlements, deposits and withdrawals do to all balances, at concrete batches.
use chainring_contracts.Base.{ℕ, ◌≡◌, ◌≢◌, ◌⊎◌, refl, not, [], ◌∷◌, ◌==◌, arith}
use chainring_contracts.Base.Bytes.{bytes_eq, from_le_bytes, overwrite, to_le_bytes}
use chainring_contracts.Base.Outcome.{ok}
use chainring_contracts.Types.{DepositBatchParams, RollbackWithdrawBatchParams}
use chainring_contracts.Sdk.Account.{Store}
use chainring_contracts.Contract.Settlement.{
  apply_settlement, check_decrement, finish_prepare, hash, open_program, pay_fee, prepare_idle,
  prepare_settlement_batch, report_shortfall, settle_fee, settle_token, settle_tokens, store_hash,
  submit_matching, submit_settlement_batch, verify_decrements, verify_decrements_from,
  verify_increments, verify_increments_from, verify_settlements, verify_token,
}
use chainring_contracts.Contract.Validate.{
  account_type_eq, get_bitcoin_address_script, get_validated_index, get_validated_index_withdraw,
  related_key, validate_account, validate_bitcoin_address, validate_related, validate_type,
}
use chainring_contracts.State.Raw.{
  get_address, get_string, get_type, get_wallet_last4, hash_from_slice, slice, write_at,
}
use chainring_contracts.Codec.Io.{decode_from_slice, read_exact, read_uint, until_zero}
use chainring_contracts.Codec.Parts.{account_type_codable, account_type_of, network_type_codable}
use chainring_contracts.State.Token.{
  can_withdraw, decrement_wallet_balance, get_num_balances, get_program_state_account_key,
  get_rune_id, get_token_id, get_wallet_address, get_wallet_address_last4, get_wallet_balance,
  increment_wallet_balance, is_rune_account, is_rune_id, set_wallet_balance,
}
use chainring_contracts.State.Program.{
  clear_events, clear_settlement_hash, get_events_count, get_fee_account_address, get_network_type,
  get_settlement_hash, get_withdraw_account_key, set_last_settlement_hash, set_settlement_hash,
}
use chainring_contracts.Contract.Withdrawal.{
  charge_fee, fee_entry, find_rune_receiver, handle_rollback_withdrawals, refund_fee, return_fee,
  return_withdrawals, rollback_tokens, rollback_withdraw_batch, same_key, take_fee,
}
use chainring_contracts.Contract.Withdrawal.Prepare.{
  apply_withdrawals, fee_account_of, finish_withdrawals, parse_input_tx, prepare_checked_withdrawal,
  prepare_idle_withdrawal, prepare_tokens, prepare_unsettled_withdrawal, prepare_withdraw_batch,
  prepare_withdrawals, verify_funds, verify_tokens, verify_withdrawal, verify_withdrawals_from,
}
use chainring_contracts.Contract.Outputs.{
  add_bitcoin_output, add_withdrawal_output, withdrawal_script,
}
use chainring_contracts.State.Withdraw.{clear_hash, get_hash, set_hash}
use chainring_contracts.Codec.Io.Utf8.{from_utf8}
use chainring_contracts.Contract.Deposit.{
  adjust_balance, deposit_batch, deposit_tokens, handle_adjustments,
}
use chainring_contracts.Contract.Shifts.{Shifted, balance_at}
use chainring_contracts.Contract.Shifts.Batches.{deposited, settled_in, settled_out}
use chainring_contracts.Contract.Withdrawal.Balances.{batch_fees, batch_reserved}
use chainring_contracts.Contract.Shifts.Handlers.{
  deposit_batch-Shifted, submit_settlement_batch-Shifted,
}
use chainring_contracts.Contract.Withdrawal.Handlers.{
  prepare_withdraw_batch-Shifted, rollback_withdraw_batch-prepare_withdraw_batch,
}
use chainring_contracts.Contract.Tests.{host, adjust, batch, accounts, between, submitted, submits}
use chainring_contracts.Contract.Tests.Withdrawals.{
  tx_host, before_withdrawal, withdrawals, places, reserved, reserves,
}

-- Entry 1 of the token account.
between_balance : balance_at between 20 1 ≡ ok 700
unfolding prepare_settlement_batch submit_settlement_batch open_program prepare_idle
    verify_settlements verify_token verify_decrements verify_decrements_from check_decrement
    report_shortfall verify_increments verify_increments_from finish_prepare store_hash hash
    submit_matching apply_settlement settle_tokens settle_token settle_fee pay_fee validate_account
    validate_type validate_related related_key account_type_eq get_validated_index adjust_balance
    handle_adjustments get_type slice write_at hash_from_slice get_wallet_last4 decode_from_slice
    read_uint read_exact until_zero account_type_codable account_type_of get_num_balances
    get_wallet_balance set_wallet_balance get_wallet_address_last4 increment_wallet_balance
    decrement_wallet_balance get_program_state_account_key get_settlement_hash set_settlement_hash
    clear_settlement_hash set_last_settlement_hash clear_events get_events_count
    get_withdraw_account_key bytes_eq to_le_bytes from_le_bytes overwrite
between_balance = refl

submit_settlement_batch-Shifted_example :
    (b' : ℕ) × (balance_at submitted 20 1 ≡ ok b')
    × Shifted 700
        (settled_out accounts batch.settlements 20 1)
        (settled_in accounts batch.settlements 20 1)
        b'
submit_settlement_batch-Shifted_example =
    submit_settlement_batch-Shifted host accounts batch (1 ∷ []) between 10 20 1 700 refl
      (omega arith) between_balance (omega arith) submits

abbrev deposits : DepositBatchParams
deposits = record {
  token_deposits = record { account_index = 1; deposits = adjust 1 25 ∷ adjust 2 4 ∷ [] } ∷ [];
}

abbrev before_deposit : Store
before_deposit p = record (between p) { is_writable = not (p == 10) }

abbrev deposited_store : Store
deposited_store = (deposit_batch accounts deposits before_deposit).1

deposits_run : deposit_batch accounts deposits before_deposit ≡ (ok tt, deposited_store)
unfolding prepare_settlement_batch submit_settlement_batch open_program prepare_idle
    verify_settlements verify_token verify_decrements verify_decrements_from check_decrement
    report_shortfall verify_increments verify_increments_from finish_prepare store_hash hash
    submit_matching apply_settlement settle_tokens settle_token settle_fee pay_fee validate_account
    validate_type validate_related related_key account_type_eq get_validated_index adjust_balance
    handle_adjustments get_type slice write_at hash_from_slice get_wallet_last4 decode_from_slice
    read_uint read_exact until_zero account_type_codable account_type_of get_num_balances
    get_wallet_balance set_wallet_balance get_wallet_address_last4 increment_wallet_balance
    decrement_wallet_balance get_program_state_account_key get_settlement_hash set_settlement_hash
    clear_settlement_hash set_last_settlement_hash clear_events get_events_count
    get_withdraw_account_key bytes_eq to_le_bytes from_le_bytes overwrite deposit_batch
    deposit_tokens
deposits_run = refl

deposit_batch-Shifted_example :
    (b' : ℕ) × (balance_at deposited_store 20 1 ≡ ok b')
    × Shifted 700 0 (deposited accounts deposits.token_deposits 20 1) b'
deposit_batch-Shifted_example =
    deposit_batch-Shifted accounts deposits before_deposit 20 1 700 between_balance (omega arith)
      deposits_run

balance_before : balance_at before_withdrawal 20 1 ≡ ok 700
unfolding hash validate_account validate_type validate_related related_key account_type_eq
    get_validated_index validate_bitcoin_address get_validated_index_withdraw
    get_bitcoin_address_script get_type slice write_at hash_from_slice get_wallet_last4 get_string
    get_address decode_from_slice read_uint read_exact until_zero account_type_codable
    account_type_of network_type_codable get_num_balances get_wallet_balance set_wallet_balance
    get_wallet_address get_wallet_address_last4 decrement_wallet_balance
    get_program_state_account_key get_token_id is_rune_account is_rune_id get_rune_id can_withdraw
    get_settlement_hash clear_events get_events_count get_withdraw_account_key
    get_fee_account_address get_network_type bytes_eq to_le_bytes from_le_bytes overwrite
    prepare_withdraw_batch prepare_checked_withdrawal prepare_unsettled_withdrawal
    prepare_idle_withdrawal parse_input_tx finish_withdrawals apply_withdrawals find_rune_receiver
    verify_tokens verify_withdrawals_from verify_withdrawal fee_account_of verify_funds
    prepare_tokens prepare_withdrawals take_fee fee_entry same_key charge_fee
    increment_wallet_balance add_withdrawal_output withdrawal_script add_bitcoin_output get_hash
    set_hash from_utf8
balance_before = refl

prepare_withdraw_batch-Shifted_example :
    ((n : ℕ) × (get_events_count (reserved 10).data_ ≡ ok n)
      × (n ≢ 0)
      × (balance_at reserved 20 1 ≡ ok 700))
    ⊎ ((b' : ℕ) × (balance_at reserved 20 1 ≡ ok b')
        × Shifted 700
            (batch_reserved
              (λ p. (before_withdrawal p).key)
              places
              withdrawals.token_withdrawals
              20
              1)
            (batch_fees places withdrawals.token_withdrawals 20 1)
            b')
prepare_withdraw_batch-Shifted_example =
    prepare_withdraw_batch-Shifted tx_host places withdrawals (7 ∷ []) before_withdrawal 10 30 20 1
      700 refl refl (omega arith) (omega arith) balance_before (omega arith) reserves

abbrev undo : RollbackWithdrawBatchParams
undo = record { token_withdrawals = withdrawals.token_withdrawals }

-- The flags that the rollback asks for.
abbrev before_rollback : Store
before_rollback p = record (reserved p) { is_writable = not (p == 10) }

abbrev rolled_store : Store
rolled_store = (rollback_withdraw_batch places undo before_rollback).1

rolls_back : rollback_withdraw_batch places undo before_rollback ≡ (ok tt, rolled_store)
unfolding hash validate_account validate_type validate_related related_key account_type_eq
    get_validated_index validate_bitcoin_address get_validated_index_withdraw
    get_bitcoin_address_script get_type slice write_at hash_from_slice get_wallet_last4 get_string
    get_address decode_from_slice read_uint read_exact until_zero account_type_codable
    account_type_of network_type_codable get_num_balances get_wallet_balance set_wallet_balance
    get_wallet_address get_wallet_address_last4 decrement_wallet_balance
    get_program_state_account_key get_token_id is_rune_account is_rune_id get_rune_id can_withdraw
    get_settlement_hash clear_events get_events_count get_withdraw_account_key
    get_fee_account_address get_network_type bytes_eq to_le_bytes from_le_bytes overwrite
    prepare_withdraw_batch prepare_checked_withdrawal prepare_unsettled_withdrawal
    prepare_idle_withdrawal parse_input_tx finish_withdrawals apply_withdrawals find_rune_receiver
    verify_tokens verify_withdrawals_from verify_withdrawal fee_account_of verify_funds
    prepare_tokens prepare_withdrawals take_fee fee_entry same_key charge_fee
    increment_wallet_balance add_withdrawal_output withdrawal_script add_bitcoin_output get_hash
    set_hash from_utf8 rollback_withdraw_batch rollback_tokens handle_rollback_withdrawals
    return_withdrawals return_fee refund_fee clear_hash
rolls_back = refl

no_events : get_events_count (reserved 10).data_ ≡ ok 0
unfolding hash validate_account validate_type validate_related related_key account_type_eq
    get_validated_index validate_bitcoin_address get_validated_index_withdraw
    get_bitcoin_address_script get_type slice write_at hash_from_slice get_wallet_last4 get_string
    get_address decode_from_slice read_uint read_exact until_zero account_type_codable
    account_type_of network_type_codable get_num_balances get_wallet_balance set_wallet_balance
    get_wallet_address get_wallet_address_last4 decrement_wallet_balance
    get_program_state_account_key get_token_id is_rune_account is_rune_id get_rune_id can_withdraw
    get_settlement_hash clear_events get_events_count get_withdraw_account_key
    get_fee_account_address get_network_type bytes_eq to_le_bytes from_le_bytes overwrite
    prepare_withdraw_batch prepare_checked_withdrawal prepare_unsettled_withdrawal
    prepare_idle_withdrawal parse_input_tx finish_withdrawals apply_withdrawals find_rune_receiver
    verify_tokens verify_withdrawals_from verify_withdrawal fee_account_of verify_funds
    prepare_tokens prepare_withdrawals take_fee fee_entry same_key charge_fee
    increment_wallet_balance add_withdrawal_output withdrawal_script add_bitcoin_output get_hash
    set_hash from_utf8 rollback_withdraw_batch rollback_tokens handle_rollback_withdrawals
    return_withdrawals return_fee refund_fee clear_hash
no_events = refl

rollback_withdraw_batch-prepare_withdraw_batch_example : balance_at rolled_store 20 1 ≡ ok 700
rollback_withdraw_batch-prepare_withdraw_batch_example =
    rollback_withdraw_batch-prepare_withdraw_batch tx_host places withdrawals undo (7 ∷ [])
      before_withdrawal before_rollback 10 30 20 1 700 refl refl (omega arith) (omega arith)
      balance_before (omega arith) reserves no_events (λ p. refl) refl refl rolls_back
