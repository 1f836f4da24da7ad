-- ===== src/Contract/Tests/Phases.antt =====
-- The theorems about the two phases of a settlement at a batch that is prepared and submitted.
use chainring_contracts.Base.{ℕ, ◌%◌, ◌^◌, ◌≡◌, ◌≢◌, ◌⊎◌, refl, [], ◌∷◌, replicate}
use chainring_contracts.Base.Bytes.{bytes_eq, to_le_bytes, from_le_bytes, overwrite}
use chainring_contracts.Base.Outcome.{ok, err, custom}
use chainring_contracts.Sdk.Account.{account_at}
use chainring_contracts.Contract.Settlement.{
  prepare_settlement_batch, submit_settlement_batch, open_program, prepare_idle, verify_settlements,
  verify_token, verify_decrements, verify_decrements_from, check_decrement, report_shortfall,
  verify_increments, verify_increments_from, finish_prepare, store_hash, hash, submit_matching,
  apply_settlement, settle_tokens, settle_token, settle_fee, pay_fee,
}
use chainring_contracts.Contract.Validate.{
  validate_account, validate_type, validate_related, related_key, account_type_eq,
  get_validated_index,
}
use chainring_contracts.Constants.{empty_hash}
use chainring_contracts.Contract.Settlement.Prepare.{sum_gains, sum_losses}
use chainring_contracts.Contract.Settlement.Phases.{
  submit_settlement_batch_inv, submit_settlement_batch-once, submit_settlement_batch_branches,
}
use chainring_contracts.Contract.Settlement.Prepared.{
  Decided, OnlyAt, prepare_settlement_batch_inv, prepare-after-prepare, submit-after-prepare,
}
use chainring_contracts.Contract.Deposit.{adjust_balance, handle_adjustments}
use chainring_contracts.State.Raw.{get_type, slice, write_at, hash_from_slice, get_wallet_last4}
use chainring_contracts.Codec.Io.{decode_from_slice, read_uint, read_exact, until_zero}
use chainring_contracts.Codec.Parts.{account_type_codable, account_type_of}
use chainring_contracts.State.Token.{
  get_num_balances, get_wallet_balance, set_wallet_balance, get_wallet_address_last4,
  increment_wallet_balance, decrement_wallet_balance, get_program_state_account_key,
}
use chainring_contracts.State.Program.{
  get_settlement_hash, set_settlement_hash, clear_settlement_hash, set_last_settlement_hash,
  clear_events, get_events_count, get_withdraw_account_key,
}
use chainring_contracts.Contract.Tests.{
  host, before, batch, accounts, prepared, between, submitted, prepares, submits,
}

submit_settlement_batch_inv_example :
    (program : ℕ) × (account_at accounts 0 ≡ ok program)
    × (get_settlement_hash (between program).data_ ≡ ok (hash host (1 ∷ [])))
    × (hash host (1 ∷ []) ≢ empty_hash)
    × (get_settlement_hash (submitted program).data_ ≡ ok empty_hash)
    × (slice 254 32 (submitted program).data_ ≡ ok (hash host (1 ∷ [])))
submit_settlement_batch_inv_example =
    submit_settlement_batch_inv host (λ raw. refl) accounts batch (1 ∷ []) between submits

submit_settlement_batch-once_example :
    submit_settlement_batch host accounts batch (1 ∷ []) submitted ≢ (ok tt, submitted)
submit_settlement_batch-once_example =
    submit_settlement_batch-once host accounts accounts batch batch (1 ∷ []) (1 ∷ []) between
      submitted submitted submitted (λ raw. refl)
      (record { same_program = refl; same_data = λ p. refl }) submits

opened : open_program accounts between ≡ (ok 10, between)
unfolding prepare_settlement_batch submit_settlement_batch open_program prepare_idle
    verify_settlements verify_token verify_decrements verify_decrements_from check_decrement
    report_shortfall verify_increments verify_increments_from finish_prepare store_hash hash
    submit_matching apply_settlement settle_tokens settle_token settle_fee pay_fee validate_account
    validate_type validate_related related_key account_type_eq get_validated_index adjust_balance
    handle_adjustments get_type slice write_at hash_from_slice get_wallet_last4 decode_from_slice
    read_uint read_exact until_zero account_type_codable account_type_of get_num_balances
    get_wallet_balance set_wallet_balance get_wallet_address_last4 increment_wallet_balance
    decrement_wallet_balance get_program_state_account_key get_settlement_hash set_settlement_hash
    clear_settlement_hash set_last_settlement_hash clear_events get_events_count
    get_withdraw_account_key bytes_eq to_le_bytes from_le_bytes overwrite
opened = refl

stored : get_settlement_hash (between 10).data_ ≡ ok (1 ∷ replicate 31 1)
unfolding prepare_settlement_batch submit_settlement_batch open_program prepare_idle
    verify_settlements verify_token verify_decrements verify_decrements_from check_decrement
    report_shortfall verify_increments verify_increments_from finish_prepare store_hash hash
    submit_matching apply_settlement settle_tokens settle_token settle_fee pay_fee validate_account
    validate_type validate_related related_key account_type_eq get_validated_index adjust_balance
    handle_adjustments get_type slice write_at hash_from_slice get_wallet_last4 decode_from_slice
    read_uint read_exact until_zero account_type_codable account_type_of get_num_balances
    get_wallet_balance set_wallet_balance get_wallet_address_last4 increment_wallet_balance
    decrement_wallet_balance get_program_state_account_key get_settlement_hash set_settlement_hash
    clear_settlement_hash set_last_settlement_hash clear_events get_events_count
    get_withdraw_account_key bytes_eq to_le_bytes from_le_bytes overwrite
stored = refl

submit_settlement_batch_branches_example :
    ((1 ∷ replicate 31 1 ≡ empty_hash)
      × (submit_settlement_batch host accounts batch [] between ≡ (err (custom 606), between)))
    ⊎ (((1 ∷ replicate 31 1 ≢ empty_hash)
          × (1 ∷ replicate 31 1 ≢ hash host [])
          × (submit_settlement_batch host accounts batch [] between ≡ (err (custom 607), between)))
        ⊎ ((1 ∷ replicate 31 1 ≢ empty_hash)
            × (1 ∷ replicate 31 1 ≡ hash host [])
            × (submit_settlement_batch host accounts batch [] between
                ≡ apply_settlement accounts batch (hash host []) 10 between)))
submit_settlement_batch_branches_example =
    submit_settlement_batch_branches host accounts batch [] between 10 (1 ∷ replicate 31 1) opened
      stored

prepare_settlement_batch_inv_example :
    (program : ℕ) × (account_at accounts 0 ≡ ok program)
    × (get_settlement_hash (before program).data_ ≡ ok empty_hash)
    × (sum_losses batch.settlements % 2 ^ 64 ≡ sum_gains batch.settlements % 2 ^ 64)
    × Decided program (hash host (1 ∷ [])) before prepared
    × OnlyAt program before prepared
prepare_settlement_batch_inv_example =
    prepare_settlement_batch_inv host (λ raw. refl) accounts batch (1 ∷ []) before prepares

clean : get_events_count (prepared 10).data_ ≡ ok 0
unfolding prepare_settlement_batch submit_settlement_batch open_program prepare_idle
    verify_settlements verify_token verify_decrements verify_decrements_from check_decrement
    report_shortfall verify_increments verify_increments_from finish_prepare store_hash hash
    submit_matching apply_settlement settle_tokens settle_token settle_fee pay_fee validate_account
    validate_type validate_related related_key account_type_eq get_validated_index adjust_balance
    handle_adjustments get_type slice write_at hash_from_slice get_wallet_last4 decode_from_slice
    read_uint read_exact until_zero account_type_codable account_type_of get_num_balances
    get_wallet_balance set_wallet_balance get_wallet_address_last4 increment_wallet_balance
    decrement_wallet_balance get_program_state_account_key get_settlement_hash set_settlement_hash
    clear_settlement_hash set_last_settlement_hash clear_events get_events_count
    get_withdraw_account_key bytes_eq to_le_bytes from_le_bytes overwrite
clean = refl

filled : hash host (1 ∷ []) ≢ empty_hash
unfolding hash
filled e = cc

prepare-after-prepare_example :
    prepare_settlement_batch host accounts batch [] between ≡ (err (custom 605), between)
prepare-after-prepare_example =
    prepare-after-prepare host accounts accounts batch batch (1 ∷ []) [] before prepared between 10
      (λ raw. refl) filled (record { same_program = refl; same_data = λ p. refl }) prepares clean
      opened

submit-after-prepare_example : hash host (1 ∷ []) ≡ hash host (1 ∷ [])
submit-after-prepare_example =
    submit-after-prepare host accounts accounts batch batch (1 ∷ []) (1 ∷ []) before prepared
      between submitted (λ raw. refl) (record { same_program = refl; same_data = λ p. refl })
      prepares submits
