-- ===== src/Contract/Dispatch.antt =====
-- `process_instruction`: the entry point decodes the instruction and calls its handler.
pub mod Batches
use chainring_contracts.Base.{ℕ, List}
use chainring_contracts.Base.Bytes.{Bytes}
use chainring_contracts.Base.Outcome.{invalid_instruction_data, map_err}
use chainring_contracts.Types.{ProgramInstruction, Pubkey}
use chainring_contracts.External.{External}
use chainring_contracts.Codec.Io.{decode_from_slice}
use chainring_contracts.Codec.Instruction.{instruction_codable, params_raw_data}
use chainring_contracts.Sdk.Account.{M, ◌>>=◌, lift}
use chainring_contracts.Contract.Init.{
  init_program_state, init_token_state, init_wallet_balances, init_rune_receiver_state,
  set_token_rune_id,
}
use chainring_contracts.Contract.Deposit.{deposit_batch}
use chainring_contracts.Contract.Settlement.{
  prepare_settlement_batch, submit_settlement_batch, rollback_settlement_batch,
}
use chainring_contracts.Contract.Withdrawal.{
  submit_withdraw_batch, rollback_withdraw_batch, update_withdraw_state_utxo,
}
use chainring_contracts.Contract.Withdrawal.Prepare.{prepare_withdraw_batch}

module _ (x : External) where
  unfoldable pub handle : Pubkey → List ℕ → Bytes → ProgramInstruction → M (Unit {0})
  handle program_id accounts raw (ProgramInstruction.init_program_state p) =
      init_program_state x accounts p
  handle program_id accounts raw (ProgramInstruction.init_token_state p) =
      init_token_state x accounts p
  handle program_id accounts raw (ProgramInstruction.init_wallet_balances p) =
      init_wallet_balances x accounts p
  handle program_id accounts raw (ProgramInstruction.batch_deposit p) = deposit_batch accounts p
  handle program_id accounts raw (ProgramInstruction.prepare_batch_withdraw p) =
      prepare_withdraw_batch x accounts p raw
  handle program_id accounts raw (ProgramInstruction.submit_batch_settlement p) =
      submit_settlement_batch x accounts p raw
  handle program_id accounts raw (ProgramInstruction.prepare_batch_settlement p) =
      prepare_settlement_batch x accounts p raw
  handle program_id accounts raw ProgramInstruction.rollback_batch_settlement =
      rollback_settlement_batch accounts
  handle program_id accounts raw (ProgramInstruction.rollback_batch_withdraw p) =
      rollback_withdraw_batch accounts p
  handle program_id accounts raw (ProgramInstruction.submit_batch_withdraw p) =
      submit_withdraw_batch x program_id accounts p raw
  handle program_id accounts raw (ProgramInstruction.update_withdraw_state_utxo p) =
      update_withdraw_state_utxo x accounts p
  handle program_id accounts raw ProgramInstruction.init_rune_receiver_state =
      init_rune_receiver_state accounts
  handle program_id accounts raw (ProgramInstruction.set_toke_rune_id p) =
      set_token_rune_id x accounts p

  unfoldable pub process_instruction : Pubkey → List ℕ → Bytes → M (Unit {0})
  process_instruction program_id accounts instruction_data = do
    instruction ← lift (map_err invalid_instruction_data (decode_from_slice instruction_data))
    raw ← lift (params_raw_data instruction_data)
    handle program_id accounts raw instruction
