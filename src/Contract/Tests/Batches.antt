-- ===== src/Contract/Tests/Batches.antt =====
-- Batches that reach the handlers through `process_instruction`.
use chainring_contracts.Base.{◌≡◌, [], ◌∷◌, replicate, arith}
use chainring_contracts.Base.Bytes.{Bytes}
use chainring_contracts.Types.{ProgramInstruction, WithdrawBatchParams}
use chainring_contracts.Codec.Io.{encode, encode_to_vec}
use chainring_contracts.Codec.Valid.{IsInstruction}
use chainring_contracts.Codec.Instruction.{
  instruction_codable, settlement_batch_codable, withdraw_batch_codable,
}
use chainring_contracts.Contract.Settlement.{prepare_settlement_batch, submit_settlement_batch}
use chainring_contracts.Contract.Withdrawal.{submit_withdraw_batch}
use chainring_contracts.Contract.Withdrawal.Prepare.{prepare_withdraw_batch}
use chainring_contracts.Contract.Dispatch.{process_instruction}
use chainring_contracts.Contract.Dispatch.Batches.{process_instruction-batch}
use chainring_contracts.Contract.Tests.{host, before, batch, accounts}

abbrev withdrawals : WithdrawBatchParams
withdrawals = record {
  tx_hex = 1 ∷ 2 ∷ [];
  change_amount = 9;
  token_withdrawals = record { account_index = 2; withdrawals = [] } ∷ [];
  input_utxo_types = [];
}

abbrev program_id : Bytes
program_id = replicate 32 4

settlements-IsInstruction : IsInstruction (ProgramInstruction.prepare_batch_settlement batch)
settlements-IsInstruction = omega arith

withdrawals-IsInstruction : IsInstruction (ProgramInstruction.prepare_batch_withdraw withdrawals)
withdrawals-IsInstruction = omega arith

process_instruction-batch_example :
    let run = λ (i : ProgramInstruction).
      process_instruction host program_id accounts (encode_to_vec i) before in
    (run (ProgramInstruction.prepare_batch_settlement batch)
      ≡ prepare_settlement_batch host accounts batch (encode batch).bytes before)
    × (run (ProgramInstruction.submit_batch_settlement batch)
        ≡ submit_settlement_batch host accounts batch (encode batch).bytes before)
    × (run (ProgramInstruction.prepare_batch_withdraw withdrawals)
        ≡ prepare_withdraw_batch host accounts withdrawals (encode withdrawals).bytes before)
    × (run (ProgramInstruction.submit_batch_withdraw withdrawals)
        ≡ submit_withdraw_batch host program_id accounts withdrawals
            (encode withdrawals).bytes
            before)
process_instruction-batch_example =
    process_instruction-batch host program_id accounts before batch withdrawals
      settlements-IsInstruction withdrawals-IsInstruction
