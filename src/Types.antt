-- ===== src/Types.antt =====
-- The types of arch/contracts/exchange/model/src/state.rs and instructions.rs. An integer is a
-- number, and its width is a condition of the theorems that need it; a `String`, `Pubkey`, `Hash` or
-- `WalletLast4` is its bytes.
use chainring_contracts.Base.{ℕ, List}
use chainring_contracts.Base.Bytes.{Bytes}

abbrev pub Pubkey : Type 0
Pubkey = Bytes

abbrev pub Hash : Type 0
Hash = Bytes

abbrev pub WalletLast4 : Type 0
WalletLast4 = Bytes

pub data NetworkType : Type 0 where
  bitcoin testnet signet regtest : NetworkType

pub data AccountType : Type 0 where
  program token withdraw rune_receiver unknown : AccountType

pub record Balance : Type 0 where
  pub address : Bytes
  pub balance : ℕ

pub record FailedSettlement : Type 0 where
  pub account_index : ℕ
  pub address_index : ℕ
  pub requested_amount : ℕ
  pub balance : ℕ
  pub error_code : ℕ

pub record FailedWithdrawal : Type 0 where
  pub account_index : ℕ
  pub address_index : ℕ
  pub fee_account_index : ℕ
  pub fee_address_index : ℕ
  pub requested_amount : ℕ
  pub fee_amount : ℕ
  pub balance : ℕ
  pub balance_in_fee_token : ℕ
  pub error_code : ℕ

pub data Event : Type 0 where
  failed_settlement : FailedSettlement → Event
  failed_withdrawal : FailedWithdrawal → Event

pub record TokenState : Type 0 where
  pub account_type : AccountType
  pub version : ℕ
  pub program_state_account : Pubkey
  pub token_id : Bytes
  pub balances : List Balance

pub record ProgramState : Type 0 where
  pub account_type : AccountType
  pub version : ℕ
  pub withdraw_account : Pubkey
  pub fee_account_address : Bytes
  pub program_change_address : Bytes
  pub network_type : NetworkType
  pub settlement_batch_hash : Hash
  pub last_settlement_batch_hash : Hash
  pub events : List Event

pub record WithdrawState : Type 0 where
  pub account_type : AccountType
  pub version : ℕ
  pub program_state_account : Pubkey
  pub batch_hash : Hash

pub record RuneReceiverState : Type 0 where
  pub account_type : AccountType
  pub version : ℕ
  pub program_state_account : Pubkey

-- instructions.rs

pub record AddressIndex : Type 0 where
  pub index : ℕ
  pub last4 : WalletLast4

pub record Adjustment : Type 0 where
  pub address_index : AddressIndex
  pub amount : ℕ

pub record TokenStateSetup : Type 0 where
  pub account_index : ℕ
  pub wallet_addresses : List Bytes

pub record Withdrawal : Type 0 where
  pub address_index : AddressIndex
  pub amount : ℕ
  pub fee_account_index : ℕ
  pub fee_address_index : AddressIndex
  pub fee_amount : ℕ

pub record TokenDeposits : Type 0 where
  pub account_index : ℕ
  pub deposits : List Adjustment

pub record TokenWithdrawals : Type 0 where
  pub account_index : ℕ
  pub withdrawals : List Withdrawal

pub record SettlementAdjustments : Type 0 where
  pub account_index : ℕ
  pub increments : List Adjustment
  pub decrements : List Adjustment
  pub fee_amount : ℕ

pub data InputUtxoType : Type 0 where
  bitcoin rune : InputUtxoType

pub record InitProgramStateParams : Type 0 where
  pub fee_account : Bytes
  pub program_change_address : Bytes
  pub network_type : NetworkType

pub record InitTokenStateParams : Type 0 where
  pub token_id : Bytes

pub record SetTokenRuneIdParams : Type 0 where
  pub rune_id : Bytes

pub record InitWalletBalancesParams : Type 0 where
  pub token_state_setups : List TokenStateSetup

pub record DepositBatchParams : Type 0 where
  pub token_deposits : List TokenDeposits

pub record WithdrawBatchParams : Type 0 where
  pub tx_hex : Bytes
  pub change_amount : ℕ
  pub token_withdrawals : List TokenWithdrawals
  pub input_utxo_types : List InputUtxoType

pub record SettlementBatchParams : Type 0 where
  pub settlements : List SettlementAdjustments

pub record RollbackWithdrawBatchParams : Type 0 where
  pub token_withdrawals : List TokenWithdrawals

pub record UpdateWithdrawStateUtxoParams : Type 0 where
  pub tx_id : Bytes
  pub vout : ℕ

pub data ProgramInstruction : Type 0 where
  init_program_state : InitProgramStateParams → ProgramInstruction
  init_token_state : InitTokenStateParams → ProgramInstruction
  init_wallet_balances : InitWalletBalancesParams → ProgramInstruction
  batch_deposit : DepositBatchParams → ProgramInstruction
  prepare_batch_withdraw : WithdrawBatchParams → ProgramInstruction
  prepare_batch_settlement : SettlementBatchParams → ProgramInstruction
  submit_batch_settlement : SettlementBatchParams → ProgramInstruction
  rollback_batch_settlement : ProgramInstruction
  rollback_batch_withdraw : RollbackWithdrawBatchParams → ProgramInstruction
  submit_batch_withdraw : WithdrawBatchParams → ProgramInstruction
  update_withdraw_state_utxo : UpdateWithdrawStateUtxoParams → ProgramInstruction
  init_rune_receiver_state : ProgramInstruction
  set_toke_rune_id : SetTokenRuneIdParams → ProgramInstruction
