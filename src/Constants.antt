-- ===== src/Constants.antt =====
-- The constants of arch/contracts/exchange/model/src/state.rs and error.rs: the layout of the
-- account data, and the codes of the contract's own errors.
use chainring_contracts.Base.{ℕ, ◌+◌, ◌*◌, replicate}
use chainring_contracts.Base.Bytes.{Bytes}

abbrev pub account_type_size : ℕ
account_type_size = 1

abbrev pub version_size : ℕ
version_size = 4

abbrev pub pubkey_size : ℕ
pubkey_size = 32

abbrev pub program_pubkey_offset : ℕ
program_pubkey_offset = version_size + account_type_size

abbrev pub max_token_id_size : ℕ
max_token_id_size = 32

abbrev pub token_id_offset : ℕ
token_id_offset = program_pubkey_offset + pubkey_size

abbrev pub balance_count_size : ℕ
balance_count_size = 4

abbrev pub balance_count_offset : ℕ
balance_count_offset = token_id_offset + max_token_id_size

abbrev pub balances_offset : ℕ
balances_offset = balance_count_offset + balance_count_size

abbrev pub max_address_size : ℕ
max_address_size = 92

abbrev pub balance_amount_size : ℕ
balance_amount_size = 8

abbrev pub balance_amount_offset : ℕ
balance_amount_offset = max_address_size

abbrev pub balance_size : ℕ
balance_size = max_address_size + balance_amount_size

abbrev pub network_type_size : ℕ
network_type_size = 1

abbrev pub hash_size : ℕ
hash_size = 32

abbrev pub withdraw_account_pubkey_offset : ℕ
withdraw_account_pubkey_offset = version_size + account_type_size

abbrev pub fee_account_offset : ℕ
fee_account_offset = withdraw_account_pubkey_offset + pubkey_size

abbrev pub program_change_address_offset : ℕ
program_change_address_offset = fee_account_offset + max_address_size

abbrev pub network_type_offset : ℕ
network_type_offset = program_change_address_offset + max_address_size

abbrev pub settlement_hash_offset : ℕ
settlement_hash_offset = network_type_offset + network_type_size

abbrev pub last_settlement_hash_offset : ℕ
last_settlement_hash_offset = settlement_hash_offset + hash_size

abbrev pub events_size_offset : ℕ
events_size_offset = last_settlement_hash_offset + hash_size

abbrev pub events_offset : ℕ
events_offset = events_size_offset + 2

abbrev pub event_size : ℕ
event_size = 64

abbrev pub max_events : ℕ
max_events = 100

abbrev pub rune_receiver_offset : ℕ
rune_receiver_offset = events_offset + event_size * max_events

abbrev pub fee_address_index : ℕ
fee_address_index = 0

abbrev pub empty_hash : Bytes
empty_hash = replicate 32 0

abbrev pub dust_threshold : ℕ
dust_threshold = 546

abbrev pub withdraw_hash_offset : ℕ
withdraw_hash_offset = program_pubkey_offset + pubkey_size

abbrev pub withdraw_account_size : ℕ
withdraw_account_size = withdraw_hash_offset + hash_size

abbrev pub rune_receiver_account_size : ℕ
rune_receiver_account_size = program_pubkey_offset + pubkey_size

abbrev pub error_invalid_address_index : ℕ
error_invalid_address_index = 601

abbrev pub error_invalid_account_index : ℕ
error_invalid_account_index = 602

abbrev pub error_insufficient_balance : ℕ
error_insufficient_balance = 603

abbrev pub error_address_mismatch : ℕ
error_address_mismatch = 604

abbrev pub error_settlement_in_progress : ℕ
error_settlement_in_progress = 605

abbrev pub error_no_settlement_in_progress : ℕ
error_no_settlement_in_progress = 606

abbrev pub error_settlement_batch_mismatch : ℕ
error_settlement_batch_mismatch = 607

abbrev pub error_netting : ℕ
error_netting = 608

abbrev pub error_already_initialized : ℕ
error_already_initialized = 609

abbrev pub error_state_account_mismatch : ℕ
error_state_account_mismatch = 610

abbrev pub error_no_outputs_allowed : ℕ
error_no_outputs_allowed = 611

abbrev pub error_invalid_address : ℕ
error_invalid_address = 612

abbrev pub error_invalid_account_flags : ℕ
error_invalid_account_flags = 613

abbrev pub error_value_too_large : ℕ
error_value_too_large = 614

abbrev pub error_wallet_last4_mismatch : ℕ
error_wallet_last4_mismatch = 615

abbrev pub error_invalid_address_network : ℕ
error_invalid_address_network = 616

abbrev pub error_invalid_input_tx : ℕ
error_invalid_input_tx = 617

abbrev pub error_withdrawal_in_progress : ℕ
error_withdrawal_in_progress = 618

abbrev pub error_withdrawal_batch_mismatch : ℕ
error_withdrawal_batch_mismatch = 619

abbrev pub error_no_tx_outputs : ℕ
error_no_tx_outputs = 620

abbrev pub error_invalid_account_type : ℕ
error_invalid_account_type = 621

abbrev pub error_invalid_utxo_types : ℕ
error_invalid_utxo_types = 622

abbrev pub error_no_rune_receiver : ℕ
error_no_rune_receiver = 622

abbrev pub error_withdrawal_not_allowed : ℕ
error_withdrawal_not_allowed = 623

abbrev pub error_invalid_rune_id : ℕ
error_invalid_rune_id = 624

abbrev pub error_rune_already_set : ℕ
error_rune_already_set = 625
