-- ===== src/Contract/Tests/Replay.antt =====
-- A batch of withdrawals that is prepared and paid out, at the accounts of the preparation.
use chainring_contracts.Base.{◌≡◌, ◌≢◌, refl, not, [], ◌∷◌, replicate, ◌==◌}
use chainring_contracts.Base.Bytes.{Bytes, bytes_eq, to_le_bytes, from_le_bytes, overwrite}
use chainring_contracts.Base.Outcome.{ok}
use chainring_contracts.Constants.{empty_hash}
use chainring_contracts.Sdk.Account.{Store, utxo_meta}
use chainring_contracts.Sdk.Transition.{
  txid, vout, writable, transition_input, transition_output, transition_outputs,
  get_state_transition_tx, move_utxos, set_transaction_to_sign,
}
use chainring_contracts.Contract.Settlement.{hash}
use chainring_contracts.Contract.Validate.{
  validate_account, validate_type, validate_related, related_key, account_type_eq,
  get_validated_index, validate_bitcoin_address, get_validated_index_withdraw,
  get_bitcoin_address_script,
}
use chainring_contracts.State.Raw.{
  get_type, slice, write_at, hash_from_slice, get_wallet_last4, get_string, get_address,
}
use chainring_contracts.Codec.Io.{decode_from_slice, read_uint, read_exact, until_zero}
use chainring_contracts.Codec.Parts.{account_type_codable, account_type_of, network_type_codable}
use chainring_contracts.State.Token.{
  get_num_balances, get_wallet_balance, set_wallet_balance, get_wallet_address,
  get_wallet_address_last4, increment_wallet_balance, decrement_wallet_balance,
  get_program_state_account_key, get_token_id, is_rune_account, is_rune_id, get_rune_id,
  can_withdraw,
}
use chainring_contracts.State.Program.{
  get_settlement_hash, clear_events, get_events_count, get_withdraw_account_key,
  get_fee_account_address, get_network_type,
}
use chainring_contracts.Contract.Withdrawal.{
  find_rune_receiver, take_fee, fee_entry, same_key, charge_fee,
}
use chainring_contracts.Contract.Withdrawal.Prepare.{
  prepare_withdraw_batch, prepare_checked_withdrawal, prepare_unsettled_withdrawal,
  prepare_idle_withdrawal, parse_input_tx, finish_withdrawals, apply_withdrawals, verify_tokens,
  verify_withdrawals_from, verify_withdrawal, fee_account_of, verify_funds, prepare_tokens,
  prepare_withdrawals,
}
use chainring_contracts.Contract.Outputs.{
  add_withdrawal_output, withdrawal_script, add_bitcoin_output,
}
use chainring_contracts.State.Withdraw.{get_hash, set_hash}
use chainring_contracts.Codec.Io.Utf8.{from_utf8}
use chainring_contracts.State.Withdraw.{clear_hash}
use chainring_contracts.Contract.Withdrawal.{submit_withdraw_batch}
use chainring_contracts.Contract.Withdrawal.Submit.{
  signer_of, signers_from, key_at, submit_withdrawals, submit_tokens, add_change, add_runestone,
  build_transaction, sign_and_clear, submit_prepared,
}
use chainring_contracts.Contract.Withdrawal.Replay.{
  submit_withdraw_batch-once, submit_withdraw_batch-prepare_withdraw_batch,
}
use chainring_contracts.Contract.Tests.Withdrawals.{
  tx_host, before_withdrawal, withdrawals, places, reserved, reserves,
}

abbrev program_id : Bytes
program_id = replicate 32 4

-- The same data, with the flags of the next instruction.
abbrev to_pay : Store
to_pay p = record (reserved p) { is_signer = not (p == 20); is_writable = p == 30 }

abbrev paid : Store
paid = (submit_withdraw_batch tx_host program_id places withdrawals (7 ∷ []) to_pay).1

pays : submit_withdraw_batch tx_host program_id places withdrawals (7 ∷ []) to_pay ≡ (ok tt, paid)
unfolding hash validate_account validate_type validate_related related_key account_type_eq
    get_validated_index validate_bitcoin_address get_validated_index_withdraw
    get_bitcoin_address_script get_type slice write_at hash_from_slice get_wallet_last4 get_string
    get_address decode_from_slice read_uint read_exact until_zero account_type_codable
    account_type_of network_type_codable get_num_balances get_wallet_balance set_wallet_balance
    get_wallet_address get_wallet_address_last4 decrement_wallet_balance
    get_program_state_account_key get_token_id is_rune_account is_rune_id get_rune_id can_withdraw
    get_settlement_hash clear_events get_events_count get_withdraw_account_key
    get_fee_account_address get_network_type bytes_eq to_le_bytes from_le_bytes overwrite
    prepare_withdraw_batch prepare_checked_withdrawal prepare_unsettled_withdrawal
    prepare_idle_withdrawal parse_input_tx finish_withdrawals apply_withdrawals find_rune_receiver
    verify_tokens verify_withdrawals_from verify_withdrawal fee_account_of verify_funds
    prepare_tokens prepare_withdrawals take_fee fee_entry same_key charge_fee
    increment_wallet_balance add_withdrawal_output withdrawal_script add_bitcoin_output get_hash
    set_hash from_utf8 utxo_meta txid vout writable transition_input transition_output
    transition_outputs get_state_transition_tx move_utxos set_transaction_to_sign clear_hash
    submit_withdraw_batch signer_of signers_from key_at submit_withdrawals submit_tokens add_change
    add_runestone build_transaction sign_and_clear submit_prepared
pays = refl

filled : hash tx_host (7 ∷ []) ≢ empty_hash
unfolding hash
filled e = cc

submit_withdraw_batch-once_example :
    submit_withdraw_batch tx_host program_id places withdrawals (7 ∷ []) paid ≢ (ok tt, paid)
submit_withdraw_batch-once_example =
    submit_withdraw_batch-once tx_host program_id places places withdrawals withdrawals (7 ∷ [])
      (7 ∷ []) to_pay paid paid paid filled (record { same_withdraw = refl; same_data = λ p. refl })
      pays

submit_withdraw_batch-prepare_withdraw_batch_example : hash tx_host (7 ∷ []) ≡ hash tx_host (7 ∷ [])
submit_withdraw_batch-prepare_withdraw_batch_example =
    submit_withdraw_batch-prepare_withdraw_batch tx_host program_id places places withdrawals
      withdrawals (7 ∷ []) (7 ∷ []) before_withdrawal reserved to_pay paid (λ raw. refl) (λ e. cc)
      filled (record { same_withdraw = refl; same_data = λ p. refl }) reserves pays
