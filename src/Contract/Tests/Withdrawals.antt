-- ===== src/Contract/Tests/Withdrawals.antt =====
-- The preparation of a batch of withdrawals at concrete accounts: the program at place 10, the
-- withdraw account at place 30, and at place 20 the token account of three entries.
use chainring_contracts.Base.{
  ℕ, ◌≡◌, refl, true, false, List, [], ◌∷◌, ◌++◌, replicate, Option, some, ◌==◌, if◌then◌else◌,
}
use chainring_contracts.Base.Bytes.{Bytes, bytes_eq, to_le_bytes, from_le_bytes, overwrite}
use chainring_contracts.Base.Outcome.{ok}
use chainring_contracts.Types.{Withdrawal, WithdrawBatchParams}
use chainring_contracts.External.{External, Transaction}
use chainring_contracts.Sdk.Account.{Store}
use chainring_contracts.Contract.Settlement.{hash}
use chainring_contracts.Contract.Validate.{
  validate_account, validate_type, validate_related, related_key, account_type_eq,
  get_validated_index, validate_bitcoin_address, get_validated_index_withdraw,
  get_bitcoin_address_script,
}
use chainring_contracts.State.Raw.{
  get_type, slice, write_at, hash_from_slice, get_wallet_last4, get_string, get_address,
}
use chainring_contracts.Codec.Io.{decode_from_slice, read_uint, read_exact, until_zero}
use chainring_contracts.Codec.Parts.{account_type_codable, account_type_of, network_type_codable}
use chainring_contracts.State.Token.{
  get_num_balances, get_wallet_balance, set_wallet_balance, get_wallet_address,
  get_wallet_address_last4, increment_wallet_balance, decrement_wallet_balance,
  get_program_state_account_key, get_token_id, is_rune_account, is_rune_id, get_rune_id,
  can_withdraw,
}
use chainring_contracts.State.Program.{
  get_settlement_hash, clear_events, get_events_count, get_withdraw_account_key,
  get_fee_account_address, get_network_type,
}
use chainring_contracts.Contract.Withdrawal.{
  find_rune_receiver, take_fee, fee_entry, same_key, charge_fee,
}
use chainring_contracts.Contract.Withdrawal.Prepare.{
  prepare_withdraw_batch, prepare_checked_withdrawal, prepare_unsettled_withdrawal,
  prepare_idle_withdrawal, parse_input_tx, finish_withdrawals, apply_withdrawals, verify_tokens,
  verify_withdrawals_from, verify_withdrawal, fee_account_of, verify_funds, prepare_tokens,
  prepare_withdrawals,
}
use chainring_contracts.Contract.Outputs.{
  add_withdrawal_output, withdrawal_script, add_bitcoin_output,
}
use chainring_contracts.State.Withdraw.{get_hash, set_hash}
use chainring_contracts.Codec.Io.Utf8.{from_utf8}
use chainring_contracts.Contract.Withdrawal.Exclusive.{Idle, prepare_withdraw_batch_inv}
use chainring_contracts.Contract.Tests.{host, program_key, account, accounts_with, adjust}

abbrev pub empty_tx : Transaction
empty_tx = record { version = 2; lock_time = 0; input = []; output = [] }

abbrev pub funding_tx : Transaction
funding_tx = record empty_tx { output = record { value = 546; script_pubkey = [] } ∷ [] }

abbrev pub transaction_of : Bytes → Option Transaction
transaction_of [] = some empty_tx
transaction_of (_ ∷ _) = some funding_tx

-- The empty string is a transaction without inputs and outputs. Every UTXO is the output of another,
-- which any other string stands for.
abbrev pub tx_host : External
tx_host = record host { deserialize_tx = transaction_of; bitcoin_tx = λ t. some (1 ∷ []) }

-- The key of the withdraw account is zero, as the program account has it. The fee account's address is
-- that of the token's entries.
abbrev pub before_withdrawal : Store
before_withdrawal p =
    if p == 30
    then record (account (replicate 32 0) (3 ∷ replicate 4 0 ++ program_key ++ replicate 32 0)) {
      is_signer = false;
    }
    else accounts_with (1 ∷ replicate 36 0 ++ 65 ∷ 66 ∷ 67 ∷ 68 ∷ replicate 359 0) true p

abbrev withdrawal : Withdrawal
withdrawal = record {
  address_index = (adjust 1 0).address_index;
  amount = 100;
  fee_account_index = 2;
  fee_address_index = (adjust 1 0).address_index;
  fee_amount = 3;
}

abbrev pub withdrawals : WithdrawBatchParams
withdrawals = record {
  token_withdrawals = record { account_index = 2; withdrawals = withdrawal ∷ [] } ∷ [];
  change_amount = 0;
  tx_hex = [];
  input_utxo_types = [];
}

abbrev pub places : List ℕ
places = 10 ∷ 30 ∷ 20 ∷ []

abbrev pub reserved : Store
reserved = (prepare_withdraw_batch tx_host places withdrawals (7 ∷ []) before_withdrawal).1

pub reserves :
    prepare_withdraw_batch tx_host places withdrawals (7 ∷ []) before_withdrawal ≡ (ok tt, reserved)
unfolding hash validate_account validate_type validate_related related_key account_type_eq
    get_validated_index validate_bitcoin_address get_validated_index_withdraw
    get_bitcoin_address_script get_type slice write_at hash_from_slice get_wallet_last4 get_string
    get_address decode_from_slice read_uint read_exact until_zero account_type_codable
    account_type_of network_type_codable get_num_balances get_wallet_balance set_wallet_balance
    get_wallet_address get_wallet_address_last4 decrement_wallet_balance
    get_program_state_account_key get_token_id is_rune_account is_rune_id get_rune_id can_withdraw
    get_settlement_hash clear_events get_events_count get_withdraw_account_key
    get_fee_account_address get_network_type bytes_eq to_le_bytes from_le_bytes overwrite
    prepare_withdraw_batch prepare_checked_withdrawal prepare_unsettled_withdrawal
    prepare_idle_withdrawal parse_input_tx finish_withdrawals apply_withdrawals find_rune_receiver
    verify_tokens verify_withdrawals_from verify_withdrawal fee_account_of verify_funds
    prepare_tokens prepare_withdrawals take_fee fee_entry same_key charge_fee
    increment_wallet_balance add_withdrawal_output withdrawal_script add_bitcoin_output get_hash
    set_hash from_utf8
reserves = refl

prepare_withdraw_batch_inv_example : Idle places before_withdrawal
prepare_withdraw_batch_inv_example =
    prepare_withdraw_batch_inv tx_host places withdrawals (7 ∷ []) before_withdrawal reserves
