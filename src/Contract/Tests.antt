-- ===== src/Contract/Tests.antt =====
-- Settlements at a concrete store: a program account at place 10, and at place 20 a token account of
-- three entries, which hold 0, 700 and 5.
pub mod Phases
pub mod Totals
pub mod Withdrawals
pub mod Trace
pub mod Shifts
pub mod Memory
pub mod Checks
pub mod Batches
pub mod Replay
use chainring_contracts.Base.{
  ℕ, ◌+◌, ◌*◌, ◌%◌, ◌^◌, ◌<◌, ◌≡◌, ◌≢◌, ◌⊎◌, inl, inr, refl, Bool, List, [], ◌∷◌, ◌++◌, true, false,
  none, some, length, replicate, ◌==◌, if◌then◌else◌, arith,
}
use chainring_contracts.Base.Bytes.{Bytes, bytes_eq, to_le_bytes, from_le_bytes, overwrite}
use chainring_contracts.Base.Outcome.{ok, err, custom}
use chainring_contracts.Types.{Adjustment, SettlementAdjustments, SettlementBatchParams}
use chainring_contracts.External.{External}
use chainring_contracts.Sdk.Account.{Account, Store, account_at}
use chainring_contracts.Contract.Settlement.{
  prepare_settlement_batch, submit_settlement_batch, open_program, prepare_idle, verify_settlements,
  verify_token, verify_decrements, verify_decrements_from, check_decrement, report_shortfall,
  verify_increments, verify_increments_from, finish_prepare, store_hash, hash, submit_matching,
  apply_settlement, settle_tokens, settle_token, settle_fee, pay_fee,
}
use chainring_contracts.Contract.Validate.{
  validate_account, validate_type, validate_related, related_key, account_type_eq,
  get_validated_index,
}
use chainring_contracts.Constants.{empty_hash}
use chainring_contracts.State.Token.Adjust.{total, amount_of}
use chainring_contracts.Contract.Deposit.Totals.{
  sum_amounts, Holds, handle_increments-Holds, handle_decrements-Holds,
}
use chainring_contracts.Contract.Settlement.Totals.{settle_token-Holds}
use chainring_contracts.Contract.Settlement.Prepare.{sum_gains, sum_losses}
use chainring_contracts.Contract.Settlement.Phases.{
  submit_settlement_batch_inv, submit_settlement_batch-once, submit_settlement_batch_branches,
}
use chainring_contracts.Contract.Settlement.Prepared.{
  Decided, OnlyAt, prepare_settlement_batch_inv, submit-after-prepare,
}
use chainring_contracts.Contract.Deposit.{
  handle_increments, handle_decrements, adjust_balance, handle_adjustments,
}
use chainring_contracts.State.Raw.{get_type, slice, write_at, hash_from_slice, get_wallet_last4}
use chainring_contracts.Codec.Io.{decode_from_slice, read_uint, read_exact, until_zero}
use chainring_contracts.Codec.Parts.{account_type_codable, account_type_of}
use chainring_contracts.State.Token.{
  get_num_balances, get_wallet_balance, set_wallet_balance, get_wallet_address_last4,
  increment_wallet_balance, decrement_wallet_balance, get_program_state_account_key,
}
use chainring_contracts.State.Program.{
  get_settlement_hash, set_settlement_hash, clear_settlement_hash, set_last_settlement_hash,
  clear_events, get_events_count, get_withdraw_account_key,
}

-- Third-party code that a settlement does not call, but for the digest.
abbrev pub host : External
host = record {
  rune_id_from_str = λ s. none;
  is_address = λ a. true;
  is_address_on = λ n a. true;
  script_pubkey = λ a. a;
  sha256 = λ data_. (length data_ % 256) ∷ replicate 31 1;
  hex_decode_32 = λ s. none;
  deserialize_tx = λ b. none;
  serialize_tx = λ t. [];
  compute_txid = λ t. replicate 32 0;
  encipher = λ e. [];
  hash_set_order = λ l. l;
  account_script_pubkey = λ k. k;
  bitcoin_tx = λ t. none;
  set_transaction_to_sign_code = λ b l. 0;
}

abbrev pub program_key : Bytes
program_key = replicate 32 9

abbrev pub account : Bytes → Bytes → Account
account key data_ = record {
  key = key;
  utxo = replicate 36 0;
  data_ = data_;
  original_data_len = length data_;
  is_signer = true;
  is_writable = true;
}

abbrev pub entry : ℕ → Bytes
entry amount = 65 ∷ 66 ∷ 67 ∷ 68 ∷ replicate 88 0 ++ to_le_bytes 8 amount

abbrev pub token_data : Bytes
token_data =
    2 ∷ replicate 4 0
    ++ program_key
    ++ replicate 32 0
    ++ to_le_bytes 4 3
    ++ entry 0
    ++ entry 700
    ++ entry 5

-- A preparation has the token account read-only, a submission writable.
abbrev pub accounts_with : Bytes → Bool → Store
accounts_with program_data writable p =
    if p == 10
    then account program_key program_data
    else record (account (replicate 32 8) token_data) { is_signer = false; is_writable = writable }

abbrev pub before : Store
before = accounts_with (1 ∷ replicate 399 0) false

abbrev pub adjust : ℕ → ℕ → Adjustment
adjust i amount = record {
  address_index = record { index = i; last4 = 65 ∷ 66 ∷ 67 ∷ 68 ∷ [] };
  amount = amount;
}

-- 50 from entry 1: 48 to entry 2 and 2 to the fee account.
abbrev pub one_token : SettlementAdjustments
one_token = record {
  account_index = 1;
  increments = adjust 2 48 ∷ [];
  decrements = adjust 1 50 ∷ [];
  fee_amount = 2;
}

abbrev pub batch : SettlementBatchParams
batch = record { settlements = one_token ∷ [] }

abbrev pub accounts : List ℕ
accounts = 10 ∷ 20 ∷ []

abbrev pub prepared : Store
prepared = (prepare_settlement_batch host accounts batch (1 ∷ []) before).1

-- The same data, with the flags of the next instruction.
abbrev pub between : Store
between p = record (prepared p) { is_writable = true }

abbrev pub submitted : Store
submitted = (submit_settlement_batch host accounts batch (1 ∷ []) between).1

pub prepares : prepare_settlement_batch host accounts batch (1 ∷ []) before ≡ (ok tt, prepared)
unfolding prepare_settlement_batch submit_settlement_batch open_program prepare_idle
    verify_settlements verify_token verify_decrements verify_decrements_from check_decrement
    report_shortfall verify_increments verify_increments_from finish_prepare store_hash hash
    submit_matching apply_settlement settle_tokens settle_token settle_fee pay_fee validate_account
    validate_type validate_related related_key account_type_eq get_validated_index adjust_balance
    handle_adjustments get_type slice write_at hash_from_slice get_wallet_last4 decode_from_slice
    read_uint read_exact until_zero account_type_codable account_type_of get_num_balances
    get_wallet_balance set_wallet_balance get_wallet_address_last4 increment_wallet_balance
    decrement_wallet_balance get_program_state_account_key get_settlement_hash set_settlement_hash
    clear_settlement_hash set_last_settlement_hash clear_events get_events_count
    get_withdraw_account_key bytes_eq to_le_bytes from_le_bytes overwrite
prepares = refl

pub submits : submit_settlement_batch host accounts batch (1 ∷ []) between ≡ (ok tt, submitted)
unfolding prepare_settlement_batch submit_settlement_batch open_program prepare_idle
    verify_settlements verify_token verify_decrements verify_decrements_from check_decrement
    report_shortfall verify_increments verify_increments_from finish_prepare store_hash hash
    submit_matching apply_settlement settle_tokens settle_token settle_fee pay_fee validate_account
    validate_type validate_related related_key account_type_eq get_validated_index adjust_balance
    handle_adjustments get_type slice write_at hash_from_slice get_wallet_last4 decode_from_slice
    read_uint read_exact until_zero account_type_codable account_type_of get_num_balances
    get_wallet_balance set_wallet_balance get_wallet_address_last4 increment_wallet_balance
    decrement_wallet_balance get_program_state_account_key get_settlement_hash set_settlement_hash
    clear_settlement_hash set_last_settlement_hash clear_events get_events_count
    get_withdraw_account_key bytes_eq to_le_bytes from_le_bytes overwrite
submits = refl
