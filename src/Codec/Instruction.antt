-- ===== src/Codec/Instruction.antt =====
-- `Codable` for the parameters of each instruction and for `ProgramInstruction`: serialization.rs.
pub mod RoundTrip
use chainring_contracts.Base.{ℕ, length, ◌==◌, if◌then◌else◌, drop}
use chainring_contracts.Base.Bytes.{Bytes}
use chainring_contracts.Base.Outcome.{Result, ok, err, panic}
use chainring_contracts.Types.{
  InitProgramStateParams, InitTokenStateParams, SetTokenRuneIdParams, InitWalletBalancesParams,
  DepositBatchParams, WithdrawBatchParams, SettlementBatchParams, RollbackWithdrawBatchParams,
  UpdateWithdrawStateUtxoParams, ProgramInstruction,
}
use chainring_contracts.Codec.Io.{
  Codable, Reader, Written, ◌>>=◌, ◌⊕◌, pure, fail, decode, encode, read_u8, read_u16, read_u32,
  read_u64, read_up_to, read_string, read_vec, write_u8, write_u16, write_u32, write_u64, write_all,
  write_string, write_vec, invalid_instruction_type,
}
use chainring_contracts.Codec.Parts.{
  network_type_codable, input_utxo_type_codable, token_state_setup_codable, token_deposits_codable,
  token_withdrawals_codable, settlement_adjustments_codable,
}

instance unfoldable pub init_program_state_codable : Codable InitProgramStateParams
init_program_state_codable = record {
  decode = do
    fee_account ← read_string
    program_change_address ← read_string
    network_type ← decode
    pure (record {
      fee_account = fee_account;
      program_change_address = program_change_address;
      network_type = network_type;
    });
  encode = λ p.
      write_string p.fee_account ⊕ write_string p.program_change_address ⊕ encode p.network_type;
}

instance unfoldable pub init_token_state_codable : Codable InitTokenStateParams
init_token_state_codable = record {
  decode = (do token_id ← read_string; pure (record { token_id = token_id }));
  encode = λ p. write_string p.token_id;
}

instance unfoldable pub set_token_rune_id_codable : Codable SetTokenRuneIdParams
set_token_rune_id_codable = record {
  decode = (do rune_id ← read_string; pure (record { rune_id = rune_id }));
  encode = λ p. write_string p.rune_id;
}

instance unfoldable pub init_wallet_balances_codable : Codable InitWalletBalancesParams
init_wallet_balances_codable = record {
  decode = (do setups ← read_vec; pure (record { token_state_setups = setups }));
  encode = λ p. write_vec p.token_state_setups;
}

instance unfoldable pub deposit_batch_codable : Codable DepositBatchParams
deposit_batch_codable = record {
  decode = (do deposits ← read_vec; pure (record { token_deposits = deposits }));
  encode = λ p. write_vec p.token_deposits;
}

instance unfoldable pub withdraw_batch_codable : Codable WithdrawBatchParams
withdraw_batch_codable = record {
  decode = do
    tx_hex_size ← read_u16
    tx_hex ← read_up_to tx_hex_size
    change_amount ← read_u64
    token_withdrawals ← read_vec
    input_utxo_types ← read_vec
    pure (record {
      tx_hex = tx_hex;
      change_amount = change_amount;
      token_withdrawals = token_withdrawals;
      input_utxo_types = input_utxo_types;
    });
  encode = λ p.
      write_u16 (length p.tx_hex)
      ⊕ write_all p.tx_hex
      ⊕ write_u64 p.change_amount
      ⊕ write_vec p.token_withdrawals
      ⊕ write_vec p.input_utxo_types;
}

instance unfoldable pub update_withdraw_state_utxo_codable : Codable UpdateWithdrawStateUtxoParams
update_withdraw_state_utxo_codable = record {
  decode = (do tx_id ← read_string; vout ← read_u32; pure (record { tx_id = tx_id; vout = vout }));
  encode = λ p. write_string p.tx_id ⊕ write_u32 p.vout;
}

instance unfoldable pub settlement_batch_codable : Codable SettlementBatchParams
settlement_batch_codable = record {
  decode = (do settlements ← read_vec; pure (record { settlements = settlements }));
  encode = λ p. write_vec p.settlements;
}

instance unfoldable pub rollback_withdraw_batch_codable : Codable RollbackWithdrawBatchParams
rollback_withdraw_batch_codable = record {
  decode = (do withdrawals ← read_vec; pure (record { token_withdrawals = withdrawals }));
  encode = λ p. write_vec p.token_withdrawals;
}

-- The reader of the parameters behind an instruction's first byte.
unfoldable pub decode_params : ℕ → Reader ProgramInstruction
decode_params t =
    if t == 0
    then (do p ← decode; pure (ProgramInstruction.init_program_state p))
    else if t == 1
    then (do p ← decode; pure (ProgramInstruction.init_token_state p))
    else if t == 2
    then (do p ← decode; pure (ProgramInstruction.init_wallet_balances p))
    else if t == 3
    then (do p ← decode; pure (ProgramInstruction.batch_deposit p))
    else if t == 4
    then (do p ← decode; pure (ProgramInstruction.prepare_batch_withdraw p))
    else if t == 5
    then (do p ← decode; pure (ProgramInstruction.prepare_batch_settlement p))
    else if t == 6
    then (do p ← decode; pure (ProgramInstruction.submit_batch_settlement p))
    else if t == 7
    then pure ProgramInstruction.rollback_batch_settlement
    else if t == 8
    then (do p ← decode; pure (ProgramInstruction.rollback_batch_withdraw p))
    else if t == 9
    then (do p ← decode; pure (ProgramInstruction.submit_batch_withdraw p))
    else if t == 10
    then (do p ← decode; pure (ProgramInstruction.update_withdraw_state_utxo p))
    else if t == 11
    then pure ProgramInstruction.init_rune_receiver_state
    else if t == 12
    then (do p ← decode; pure (ProgramInstruction.set_toke_rune_id p))
    else fail invalid_instruction_type

unfoldable pub encode_instruction : ProgramInstruction → Written
encode_instruction (ProgramInstruction.init_program_state p) = write_u8 0 ⊕ encode p
encode_instruction (ProgramInstruction.init_token_state p) = write_u8 1 ⊕ encode p
encode_instruction (ProgramInstruction.init_wallet_balances p) = write_u8 2 ⊕ encode p
encode_instruction (ProgramInstruction.batch_deposit p) = write_u8 3 ⊕ encode p
encode_instruction (ProgramInstruction.prepare_batch_withdraw p) = write_u8 4 ⊕ encode p
encode_instruction (ProgramInstruction.prepare_batch_settlement p) = write_u8 5 ⊕ encode p
encode_instruction (ProgramInstruction.submit_batch_settlement p) = write_u8 6 ⊕ encode p
encode_instruction ProgramInstruction.rollback_batch_settlement = write_u8 7
encode_instruction (ProgramInstruction.rollback_batch_withdraw p) = write_u8 8 ⊕ encode p
encode_instruction (ProgramInstruction.submit_batch_withdraw p) = write_u8 9 ⊕ encode p
encode_instruction (ProgramInstruction.update_withdraw_state_utxo p) = write_u8 10 ⊕ encode p
encode_instruction ProgramInstruction.init_rune_receiver_state = write_u8 11
encode_instruction (ProgramInstruction.set_toke_rune_id p) = write_u8 12 ⊕ encode p

instance unfoldable pub instruction_codable : Codable ProgramInstruction
instruction_codable = record {
  decode = (do t ← read_u8; decode_params t);
  encode = encode_instruction;
}

-- `ProgramInstruction::params_raw_data`: a slice from 1, which panics on no data.
unfoldable pub params_raw_data : {E : Type 0} → Bytes → Result E Bytes
params_raw_data instruction_data =
    if length instruction_data == 0 then panic else ok (drop 1 instruction_data)
