-- ===== src/Codec/Instruction/RoundTrip.antt =====
-- An instruction is read back from its bytes: `decode_from_slice` after `encode_to_vec`.
use chainring_contracts.Base.{
  ℕ, ◌<◌, ◌∙◌, arith, ◌≡◌, refl, length, append_assoc, append-nil, [], ◌++◌,
}
use chainring_contracts.Base.Bytes.{Bytes, to_le_bytes}
use chainring_contracts.Base.Outcome.{ok, ProgramError}
use mathlib.Core.Path.{subst}
use chainring_contracts.Types.{ProgramInstruction, SettlementBatchParams, WithdrawBatchParams}
use chainring_contracts.Codec.Io.{
  Codable, write_uint, write_u8, decode, pure, ◌>>=◌, encode, decode_from_slice, encode_to_vec,
}
use chainring_contracts.Codec.Io.RoundTrip.{
  RoundTrips, IsString, read_uint-write_uint, read_up_to-write_all, read_string-write_string,
  read_vec-write_vec,
}
use chainring_contracts.Codec.Valid.{
  IsVec, IsTokenStateSetup, IsTokenDeposits, IsTokenWithdrawals, IsSettlementAdjustments,
  IsInitProgramState, IsWithdrawBatch, IsUpdateWithdrawStateUtxo, IsInstruction,
}
use chainring_contracts.Codec.Parts.{
  token_state_setup_codable, token_deposits_codable, token_withdrawals_codable,
  settlement_adjustments_codable, input_utxo_type_codable,
}
use chainring_contracts.Codec.Parts.RoundTrip.{
  network_type-RoundTrips, input_utxo_type-RoundTrips, IsTokenStateSetup-RoundTrips,
  IsTokenDeposits-RoundTrips, IsTokenWithdrawals-RoundTrips, IsSettlementAdjustments-RoundTrips,
}
use chainring_contracts.Codec.Instruction.{
  init_program_state_codable, init_token_state_codable, set_token_rune_id_codable,
  init_wallet_balances_codable, deposit_batch_codable, withdraw_batch_codable,
  update_withdraw_state_utxo_codable, settlement_batch_codable, rollback_withdraw_batch_codable,
  decode_params, encode_instruction, instruction_codable, params_raw_data,
}

IsInitProgramState-RoundTrips : RoundTrips init_program_state_codable IsInitProgramState
unfolding init_program_state_codable
IsInitProgramState-RoundTrips p h rest = simp (
  ◌>>=◌,
  append_assoc,
  read_string-write_string,
  h.fee_account,
  h.program_change_address,
  network_type-RoundTrips p.network_type tt,
)

init_token_state-RoundTrips : RoundTrips init_token_state_codable (λ p. IsString p.token_id)
unfolding init_token_state_codable
init_token_state-RoundTrips p h rest = simp (◌>>=◌, read_string-write_string, h)

set_token_rune_id-RoundTrips : RoundTrips set_token_rune_id_codable (λ p. IsString p.rune_id)
unfolding set_token_rune_id_codable
set_token_rune_id-RoundTrips p h rest = simp (◌>>=◌, read_string-write_string, h)

init_wallet_balances-RoundTrips :
    RoundTrips init_wallet_balances_codable (λ p. IsVec IsTokenStateSetup p.token_state_setups)
unfolding init_wallet_balances_codable
init_wallet_balances-RoundTrips p h rest =
    simp
      (◌>>=◌, read_vec-write_vec token_state_setup_codable IsTokenStateSetup-RoundTrips, h.0, h.1)

deposit_batch-RoundTrips :
    RoundTrips deposit_batch_codable (λ p. IsVec IsTokenDeposits p.token_deposits)
unfolding deposit_batch_codable
deposit_batch-RoundTrips p h rest =
    simp (◌>>=◌, read_vec-write_vec token_deposits_codable IsTokenDeposits-RoundTrips, h.0, h.1)

IsWithdrawBatch-RoundTrips : RoundTrips withdraw_batch_codable IsWithdrawBatch
unfolding withdraw_batch_codable
IsWithdrawBatch-RoundTrips p h rest = simp (
  ◌>>=◌,
  append_assoc,
  read_uint-write_uint,
  h.tx_hex,
  read_up_to-write_all (length p.tx_hex) p.tx_hex _ refl,
  h.change_amount,
  read_vec-write_vec token_withdrawals_codable IsTokenWithdrawals-RoundTrips,
  h.token_withdrawals.0,
  h.token_withdrawals.1,
  read_vec-write_vec input_utxo_type_codable input_utxo_type-RoundTrips,
  h.input_utxo_types.0,
  h.input_utxo_types.1,
)

IsUpdateWithdrawStateUtxo-RoundTrips :
    RoundTrips update_withdraw_state_utxo_codable IsUpdateWithdrawStateUtxo
unfolding update_withdraw_state_utxo_codable
IsUpdateWithdrawStateUtxo-RoundTrips p h rest =
    simp (◌>>=◌, append_assoc, read_string-write_string, h.tx_id, read_uint-write_uint, h.vout)

settlement_batch-RoundTrips :
    RoundTrips settlement_batch_codable (λ p. IsVec IsSettlementAdjustments p.settlements)
unfolding settlement_batch_codable
settlement_batch-RoundTrips p h rest = simp (
  ◌>>=◌,
  read_vec-write_vec settlement_adjustments_codable IsSettlementAdjustments-RoundTrips,
  h.0,
  h.1,
)

rollback_withdraw_batch-RoundTrips :
    RoundTrips rollback_withdraw_batch_codable (λ p. IsVec IsTokenWithdrawals p.token_withdrawals)
unfolding rollback_withdraw_batch_codable
rollback_withdraw_batch-RoundTrips p h rest =
    simp
      (◌>>=◌, read_vec-write_vec token_withdrawals_codable IsTokenWithdrawals-RoundTrips, h.0, h.1)

-- The first byte chooses the reader of the parameters.
decode-tag :
    (t : ℕ) (bs : Bytes)
    → t < 256
    → instruction_codable.decode ((write_u8 t).bytes ++ bs) ≡ decode_params t bs
unfolding instruction_codable
decode-tag t bs h = simp (◌>>=◌, read_uint-write_uint 1 t bs h)

-- A reader that is followed by a constructor.
decode-then :
    {A : Type 0} ⦃c : Codable A⦄ (k : A → ProgramInstruction) (a : A) (bs rest : Bytes)
    → decode ⦃c = c⦄ bs ≡ ok (a, rest)
    → (do p ← decode ⦃c = c⦄; pure (k p)) bs ≡ ok (k a, rest)
decode-then k a bs rest h = simp (◌>>=◌, h)

-- Every instruction, whatever its kind, is read back with the bytes behind it left over.
pub IsInstruction-RoundTrips : RoundTrips instruction_codable IsInstruction
unfolding instruction_codable encode_instruction decode_params
IsInstruction-RoundTrips (ProgramInstruction.init_program_state p) h rest =
    rw append_assoc (decode-tag 0 _ (omega arith))
    ∙ decode-then ProgramInstruction.init_program_state p _ rest
        (IsInitProgramState-RoundTrips p h rest)
IsInstruction-RoundTrips (ProgramInstruction.init_token_state p) h rest =
    rw append_assoc (decode-tag 1 _ (omega arith))
    ∙ decode-then ProgramInstruction.init_token_state p _ rest
        (init_token_state-RoundTrips p h rest)
IsInstruction-RoundTrips (ProgramInstruction.init_wallet_balances p) h rest =
    rw append_assoc (decode-tag 2 _ (omega arith))
    ∙ decode-then ProgramInstruction.init_wallet_balances p _ rest
        (init_wallet_balances-RoundTrips p h rest)
IsInstruction-RoundTrips (ProgramInstruction.batch_deposit p) h rest =
    rw append_assoc (decode-tag 3 _ (omega arith))
    ∙ decode-then ProgramInstruction.batch_deposit p _ rest (deposit_batch-RoundTrips p h rest)
IsInstruction-RoundTrips (ProgramInstruction.prepare_batch_withdraw p) h rest =
    rw append_assoc (decode-tag 4 _ (omega arith))
    ∙ decode-then ProgramInstruction.prepare_batch_withdraw p _ rest
        (IsWithdrawBatch-RoundTrips p h rest)
IsInstruction-RoundTrips (ProgramInstruction.prepare_batch_settlement p) h rest =
    rw append_assoc (decode-tag 5 _ (omega arith))
    ∙ decode-then ProgramInstruction.prepare_batch_settlement p _ rest
        (settlement_batch-RoundTrips p h rest)
IsInstruction-RoundTrips (ProgramInstruction.submit_batch_settlement p) h rest =
    rw append_assoc (decode-tag 6 _ (omega arith))
    ∙ decode-then ProgramInstruction.submit_batch_settlement p _ rest
        (settlement_batch-RoundTrips p h rest)
IsInstruction-RoundTrips ProgramInstruction.rollback_batch_settlement h rest =
    decode-tag 7 rest (omega arith)
IsInstruction-RoundTrips (ProgramInstruction.rollback_batch_withdraw p) h rest =
    rw append_assoc (decode-tag 8 _ (omega arith))
    ∙ decode-then ProgramInstruction.rollback_batch_withdraw p _ rest
        (rollback_withdraw_batch-RoundTrips p h rest)
IsInstruction-RoundTrips (ProgramInstruction.submit_batch_withdraw p) h rest =
    rw append_assoc (decode-tag 9 _ (omega arith))
    ∙ decode-then ProgramInstruction.submit_batch_withdraw p _ rest
        (IsWithdrawBatch-RoundTrips p h rest)
IsInstruction-RoundTrips (ProgramInstruction.update_withdraw_state_utxo p) h rest =
    rw append_assoc (decode-tag 10 _ (omega arith))
    ∙ decode-then ProgramInstruction.update_withdraw_state_utxo p _ rest
        (IsUpdateWithdrawStateUtxo-RoundTrips p h rest)
IsInstruction-RoundTrips ProgramInstruction.init_rune_receiver_state h rest =
    decode-tag 11 rest (omega arith)
IsInstruction-RoundTrips (ProgramInstruction.set_toke_rune_id p) h rest =
    rw append_assoc (decode-tag 12 _ (omega arith))
    ∙ decode-then ProgramInstruction.set_toke_rune_id p _ rest
        (set_token_rune_id-RoundTrips p h rest)

decode_from_slice-eq-ok :
    (bs : Bytes) (i : ProgramInstruction) (rest : Bytes)
    → decode bs ≡ ok (i, rest)
    → decode_from_slice bs ≡ ok i
unfolding decode_from_slice
decode_from_slice-eq-ok bs i rest h = rw (h, decode_from_slice) refl

-- For every instruction whose integers, arrays, strings and lists are within the widths of their
-- Rust types and whose lists and strings are shorter than 2 ^ 16, `decode_from_slice` of the bytes
-- of `encode_to_vec` returns the instruction.
pub decode_from_slice-encode_to_vec :
    (i : ProgramInstruction) → IsInstruction i → decode_from_slice (encode_to_vec i) ≡ ok i
unfolding encode_to_vec
decode_from_slice-encode_to_vec i h = decode_from_slice-eq-ok _ i [] (
    subst (λ (bs : Bytes). decode bs ≡ ok (i, [])) (append-nil (encode i).bytes)
      (IsInstruction-RoundTrips i h []))

-- The raw parameters of both instructions of a batch are the encoded parameters.
pub params_raw_data-batch :
    (s : SettlementBatchParams) (w : WithdrawBatchParams)
    → let raw = λ (i : ProgramInstruction). params_raw_data {E = ProgramError} (encode_to_vec i) in
      (raw (ProgramInstruction.prepare_batch_settlement s) ≡ ok (encode s).bytes)
      × (raw (ProgramInstruction.submit_batch_settlement s) ≡ ok (encode s).bytes)
      × (raw (ProgramInstruction.prepare_batch_withdraw w) ≡ ok (encode w).bytes)
      × (raw (ProgramInstruction.submit_batch_withdraw w) ≡ ok (encode w).bytes)
unfolding params_raw_data encode_to_vec instruction_codable encode_instruction write_uint
    to_le_bytes
params_raw_data-batch s w = (ground arith, ground arith, ground arith, ground arith)
