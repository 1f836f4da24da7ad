-- ===== src/Codec/Valid.antt =====
-- The values that the Rust types of instructions.rs can hold, as far as the wire format carries
-- them: each integer within its width, each array of its length, each string in UTF-8, and each
-- `Vec` and `String` shorter than 2 ^ 16, since its length is written in two bytes.
use chainring_contracts.Base.{ℕ, ◌^◌, ◌<◌, ◌≡◌, List, length, All}
use chainring_contracts.Codec.Io.RoundTrip.{IsString}
use chainring_contracts.Types.{
  AddressIndex, Adjustment, TokenStateSetup, Withdrawal, TokenDeposits, TokenWithdrawals,
  SettlementAdjustments, InputUtxoType, InitProgramStateParams, WithdrawBatchParams,
  UpdateWithdrawStateUtxoParams, ProgramInstruction,
}

abbrev pub IsU8 : ℕ → Type 0
IsU8 v = v < 256

abbrev pub IsU16 : ℕ → Type 0
IsU16 v = v < 65536

abbrev pub IsU32 : ℕ → Type 0
IsU32 v = v < 2 ^ 32

abbrev pub IsU64 : ℕ → Type 0
IsU64 v = v < 2 ^ 64

-- Every value of an enum without fields is valid.
abbrev pub AnyOf : (A : Type 0) → A → Type 0
AnyOf A a = Unit {0}

abbrev pub IsVec : {A : Type 0} → (A → Type 0) → List A → Type 0
IsVec P xs = IsU16 (length xs) × All P xs

pub record IsAddressIndex (a : AddressIndex) : Type 0 where
  pub index : IsU32 a.index
  pub last4 : length a.last4 ≡ 4

pub record IsAdjustment (a : Adjustment) : Type 0 where
  pub address_index : IsAddressIndex a.address_index
  pub amount : IsU64 a.amount

pub record IsWithdrawal (w : Withdrawal) : Type 0 where
  pub address_index : IsAddressIndex w.address_index
  pub amount : IsU64 w.amount
  pub fee_account_index : IsU8 w.fee_account_index
  pub fee_address_index : IsAddressIndex w.fee_address_index
  pub fee_amount : IsU64 w.fee_amount

pub record IsTokenStateSetup (t : TokenStateSetup) : Type 0 where
  pub account_index : IsU8 t.account_index
  pub wallet_addresses : IsVec IsString t.wallet_addresses

pub record IsTokenDeposits (t : TokenDeposits) : Type 0 where
  pub account_index : IsU8 t.account_index
  pub deposits : IsVec IsAdjustment t.deposits

pub record IsTokenWithdrawals (t : TokenWithdrawals) : Type 0 where
  pub account_index : IsU8 t.account_index
  pub withdrawals : IsVec IsWithdrawal t.withdrawals

pub record IsSettlementAdjustments (t : SettlementAdjustments) : Type 0 where
  pub account_index : IsU8 t.account_index
  pub increments : IsVec IsAdjustment t.increments
  pub decrements : IsVec IsAdjustment t.decrements
  pub fee_amount : IsU64 t.fee_amount

pub record IsInitProgramState (p : InitProgramStateParams) : Type 0 where
  pub fee_account : IsString p.fee_account
  pub program_change_address : IsString p.program_change_address

pub record IsWithdrawBatch (p : WithdrawBatchParams) : Type 0 where
  pub tx_hex : IsU16 (length p.tx_hex)
  pub change_amount : IsU64 p.change_amount
  pub token_withdrawals : IsVec IsTokenWithdrawals p.token_withdrawals
  pub input_utxo_types : IsVec (AnyOf InputUtxoType) p.input_utxo_types

pub record IsUpdateWithdrawStateUtxo (p : UpdateWithdrawStateUtxoParams) : Type 0 where
  pub tx_id : IsString p.tx_id
  pub vout : IsU32 p.vout

abbrev pub IsInstruction : ProgramInstruction → Type 0
IsInstruction (ProgramInstruction.init_program_state p) = IsInitProgramState p
IsInstruction (ProgramInstruction.init_token_state p) = IsString p.token_id
IsInstruction (ProgramInstruction.init_wallet_balances p) =
    IsVec IsTokenStateSetup p.token_state_setups
IsInstruction (ProgramInstruction.batch_deposit p) = IsVec IsTokenDeposits p.token_deposits
IsInstruction (ProgramInstruction.prepare_batch_withdraw p) = IsWithdrawBatch p
IsInstruction (ProgramInstruction.prepare_batch_settlement p) =
    IsVec IsSettlementAdjustments p.settlements
IsInstruction (ProgramInstruction.submit_batch_settlement p) =
    IsVec IsSettlementAdjustments p.settlements
IsInstruction ProgramInstruction.rollback_batch_settlement = Unit
IsInstruction (ProgramInstruction.rollback_batch_withdraw p) =
    IsVec IsTokenWithdrawals p.token_withdrawals
IsInstruction (ProgramInstruction.submit_batch_withdraw p) = IsWithdrawBatch p
IsInstruction (ProgramInstruction.update_withdraw_state_utxo p) = IsUpdateWithdrawStateUtxo p
IsInstruction ProgramInstruction.init_rune_receiver_state = Unit
IsInstruction (ProgramInstruction.set_toke_rune_id p) = IsString p.rune_id
