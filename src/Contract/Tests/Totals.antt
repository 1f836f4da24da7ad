-- ===== src/Contract/Tests/Totals.antt =====
-- The theorems about the sum of a token's balances at a token account of three entries.
use chainring_contracts.Base.{ℕ, ◌+◌, ◌≡◌, refl, [], ◌∷◌, arith}
use chainring_contracts.Base.Bytes.{bytes_eq, to_le_bytes, from_le_bytes, overwrite}
use chainring_contracts.Base.Outcome.{ok}
use chainring_contracts.Sdk.Account.{Store}
use chainring_contracts.Contract.Settlement.{
  prepare_settlement_batch, submit_settlement_batch, open_program, prepare_idle, verify_settlements,
  verify_token, verify_decrements, verify_decrements_from, check_decrement, report_shortfall,
  verify_increments, verify_increments_from, finish_prepare, store_hash, hash, submit_matching,
  apply_settlement, settle_tokens, settle_token, settle_fee, pay_fee,
}
use chainring_contracts.Contract.Validate.{
  validate_account, validate_type, validate_related, related_key, account_type_eq,
  get_validated_index,
}
use chainring_contracts.State.Token.Adjust.{total, amount_of}
use chainring_contracts.Contract.Deposit.Totals.{
  sum_amounts, Holds, handle_increments-Holds, handle_decrements-Holds,
}
use chainring_contracts.Contract.Settlement.Totals.{settle_token-Holds}
use chainring_contracts.Contract.Deposit.{
  handle_increments, handle_decrements, adjust_balance, handle_adjustments,
}
use chainring_contracts.State.Raw.{get_type, slice, write_at, hash_from_slice, get_wallet_last4}
use chainring_contracts.Codec.Io.{decode_from_slice, read_uint, read_exact, until_zero}
use chainring_contracts.Codec.Parts.{account_type_codable, account_type_of}
use chainring_contracts.State.Token.{
  get_num_balances, get_wallet_balance, set_wallet_balance, get_wallet_address_last4,
  increment_wallet_balance, decrement_wallet_balance, get_program_state_account_key,
}
use chainring_contracts.State.Program.{
  get_settlement_hash, set_settlement_hash, clear_settlement_hash, set_last_settlement_hash,
  clear_events, get_events_count, get_withdraw_account_key,
}
use chainring_contracts.Contract.Tests.{token_data, before, adjust, one_token}

abbrev settled : Store
settled = (settle_token 20 one_token before).1

settles : settle_token 20 one_token before ≡ (ok tt, settled)
unfolding prepare_settlement_batch submit_settlement_batch open_program prepare_idle
    verify_settlements verify_token verify_decrements verify_decrements_from check_decrement
    report_shortfall verify_increments verify_increments_from finish_prepare store_hash hash
    submit_matching apply_settlement settle_tokens settle_token settle_fee pay_fee validate_account
    validate_type validate_related related_key account_type_eq get_validated_index adjust_balance
    handle_adjustments get_type slice write_at hash_from_slice get_wallet_last4 decode_from_slice
    read_uint read_exact until_zero account_type_codable account_type_of get_num_balances
    get_wallet_balance set_wallet_balance get_wallet_address_last4 increment_wallet_balance
    decrement_wallet_balance get_program_state_account_key get_settlement_hash set_settlement_hash
    clear_settlement_hash set_last_settlement_hash clear_events get_events_count
    get_withdraw_account_key bytes_eq to_le_bytes from_le_bytes overwrite
settles = refl

holds : Holds 3 705 token_data
unfolding prepare_settlement_batch submit_settlement_batch open_program prepare_idle
    verify_settlements verify_token verify_decrements verify_decrements_from check_decrement
    report_shortfall verify_increments verify_increments_from finish_prepare store_hash hash
    submit_matching apply_settlement settle_tokens settle_token settle_fee pay_fee validate_account
    validate_type validate_related related_key account_type_eq get_validated_index adjust_balance
    handle_adjustments get_type slice write_at hash_from_slice get_wallet_last4 decode_from_slice
    read_uint read_exact until_zero account_type_codable account_type_of get_num_balances
    get_wallet_balance set_wallet_balance get_wallet_address_last4 increment_wallet_balance
    decrement_wallet_balance get_program_state_account_key get_settlement_hash set_settlement_hash
    clear_settlement_hash set_last_settlement_hash clear_events get_events_count
    get_withdraw_account_key bytes_eq to_le_bytes from_le_bytes overwrite total amount_of
holds = (refl, refl)

settle_token-Holds_example :
    (left : ℕ) × (left + sum_amounts one_token.decrements
      ≡ 705 + 2 + sum_amounts one_token.increments)
    × Holds 3 left (settled 20).data_
unfolding sum_amounts
settle_token-Holds_example =
    settle_token-Holds 20 3 one_token before 705 holds (omega arith) settles

credited :
    handle_increments 20 (adjust 2 48 ∷ []) before
    ≡ (ok tt, (handle_increments 20 (adjust 2 48 ∷ []) before).1)
unfolding prepare_settlement_batch submit_settlement_batch open_program prepare_idle
    verify_settlements verify_token verify_decrements verify_decrements_from check_decrement
    report_shortfall verify_increments verify_increments_from finish_prepare store_hash hash
    submit_matching apply_settlement settle_tokens settle_token settle_fee pay_fee validate_account
    validate_type validate_related related_key account_type_eq get_validated_index adjust_balance
    handle_adjustments get_type slice write_at hash_from_slice get_wallet_last4 decode_from_slice
    read_uint read_exact until_zero account_type_codable account_type_of get_num_balances
    get_wallet_balance set_wallet_balance get_wallet_address_last4 increment_wallet_balance
    decrement_wallet_balance get_program_state_account_key get_settlement_hash set_settlement_hash
    clear_settlement_hash set_last_settlement_hash clear_events get_events_count
    get_withdraw_account_key bytes_eq to_le_bytes from_le_bytes overwrite
credited = refl

handle_increments-Holds_example :
    Holds 3
      (705 + sum_amounts (adjust 2 48 ∷ []))
      ((handle_increments 20 (adjust 2 48 ∷ []) before).1 20).data_
unfolding sum_amounts
handle_increments-Holds_example =
    handle_increments-Holds 20 3 (adjust 2 48 ∷ []) before 705 holds (omega arith) credited

debited :
    handle_decrements 20 (adjust 1 50 ∷ []) before
    ≡ (ok tt, (handle_decrements 20 (adjust 1 50 ∷ []) before).1)
unfolding prepare_settlement_batch submit_settlement_batch open_program prepare_idle
    verify_settlements verify_token verify_decrements verify_decrements_from check_decrement
    report_shortfall verify_increments verify_increments_from finish_prepare store_hash hash
    submit_matching apply_settlement settle_tokens settle_token settle_fee pay_fee validate_account
    validate_type validate_related related_key account_type_eq get_validated_index adjust_balance
    handle_adjustments get_type slice write_at hash_from_slice get_wallet_last4 decode_from_slice
    read_uint read_exact until_zero account_type_codable account_type_of get_num_balances
    get_wallet_balance set_wallet_balance get_wallet_address_last4 increment_wallet_balance
    decrement_wallet_balance get_program_state_account_key get_settlement_hash set_settlement_hash
    clear_settlement_hash set_last_settlement_hash clear_events get_events_count
    get_withdraw_account_key bytes_eq to_le_bytes from_le_bytes overwrite
debited = refl

handle_decrements-Holds_example :
    (left : ℕ) × (left + sum_amounts (adjust 1 50 ∷ []) ≡ 705)
    × Holds 3 left ((handle_decrements 20 (adjust 1 50 ∷ []) before).1 20).data_
handle_decrements-Holds_example =
    handle_decrements-Holds 20 3 (adjust 1 50 ∷ []) before 705 holds (omega arith) debited
