-- ===== src/Contract/Dispatch/Batches.antt =====
-- What reaches the handlers of `process_instruction` for the two phases of a batch.
use chainring_contracts.Base.{ℕ, ◌≡◌, refl, List}
use chainring_contracts.Base.Bytes.{Bytes}
use chainring_contracts.Base.Outcome.{ok, ProgramError}
use chainring_contracts.Types.{
  ProgramInstruction, Pubkey, SettlementBatchParams, WithdrawBatchParams,
}
use chainring_contracts.External.{External}
use chainring_contracts.Codec.Io.{encode, encode_to_vec}
use chainring_contracts.Codec.Valid.{IsInstruction}
use chainring_contracts.Codec.Instruction.{
  instruction_codable, settlement_batch_codable, withdraw_batch_codable, params_raw_data,
}
use chainring_contracts.Codec.Instruction.RoundTrip.{
  decode_from_slice-encode_to_vec, params_raw_data-batch,
}
use chainring_contracts.Sdk.Account.{Store, continue}
use chainring_contracts.Contract.Settlement.{prepare_settlement_batch, submit_settlement_batch}
use chainring_contracts.Contract.Withdrawal.{submit_withdraw_batch}
use chainring_contracts.Contract.Withdrawal.Prepare.{prepare_withdraw_batch}
use chainring_contracts.Contract.Dispatch.{handle, process_instruction}

module _ (x : External) (program_id : Pubkey) (accounts : List ℕ) (st : Store) where
  -- An instruction that is valid reaches its handler, with its raw parameters.
  process_instruction-encode_to_vec :
      (i : ProgramInstruction) (raw : Bytes)
      → IsInstruction i
      → params_raw_data {E = ProgramError} (encode_to_vec i) ≡ ok raw
      → process_instruction x program_id accounts (encode_to_vec i) st
        ≡ handle x program_id accounts raw i st
  unfolding process_instruction
  process_instruction-encode_to_vec i raw is parameters =
      rw (decode_from_slice-encode_to_vec i is, continue, parameters, continue) refl

  -- Both phases of a batch hash the same bytes: for every valid batch of settlements or withdrawals,
  -- the instruction that prepares it and the one that submits it reach their handlers with these
  -- parameters, and with the same raw parameters for the digest, which are the encoded parameters.
  pub process_instruction-batch :
      (s : SettlementBatchParams) (w : WithdrawBatchParams)
      → IsInstruction (ProgramInstruction.prepare_batch_settlement s)
      → IsInstruction (ProgramInstruction.prepare_batch_withdraw w)
      → let run = λ (i : ProgramInstruction).
        process_instruction x program_id accounts (encode_to_vec i) st in
        (run (ProgramInstruction.prepare_batch_settlement s)
          ≡ prepare_settlement_batch x accounts s (encode s).bytes st)
        × (run (ProgramInstruction.submit_batch_settlement s)
            ≡ submit_settlement_batch x accounts s (encode s).bytes st)
        × (run (ProgramInstruction.prepare_batch_withdraw w)
            ≡ prepare_withdraw_batch x accounts w (encode w).bytes st)
        × (run (ProgramInstruction.submit_batch_withdraw w)
            ≡ submit_withdraw_batch x program_id accounts w (encode w).bytes st)
  unfolding handle
  process_instruction-batch s w is_s is_w =
      let (prepare_s, submit_s, prepare_w, submit_w) = params_raw_data-batch s w in
      (
        process_instruction-encode_to_vec (ProgramInstruction.prepare_batch_settlement s) _ is_s
            prepare_s,
        process_instruction-encode_to_vec (ProgramInstruction.submit_batch_settlement s) _ is_s
            submit_s,
        process_instruction-encode_to_vec (ProgramInstruction.prepare_batch_withdraw w) _ is_w
            prepare_w,
        process_instruction-encode_to_vec (ProgramInstruction.submit_batch_withdraw w) _ is_w
            submit_w,
      )
