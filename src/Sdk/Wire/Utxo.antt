-- ===== src/Sdk/Wire/Utxo.antt =====
-- `UtxoMeta` (utxo.rs) and `SystemInstruction` (system_instruction.rs) of arch/program/src.
use chainring_contracts.Base.{ℕ, true, [], ◌∷◌, ◌==◌, if◌then◌else◌}
use chainring_contracts.Base.Bytes.{Bytes}
use chainring_contracts.Base.Outcome.{ok, panic, ◌>>=◌}
use chainring_contracts.Types.{Pubkey}
use chainring_contracts.State.Raw.{ProgramResult, slice}
use chainring_contracts.Sdk.Account.{utxo_meta}
use chainring_contracts.Sdk.Wire.{byte_at, tail_from}
use chainring_contracts.Sdk.Wire.Keys.{system_program}
use chainring_contracts.Sdk.Wire.Message.{Instruction}

-- `UtxoMeta::from_slice`: the first 36 bytes.
unfoldable pub utxo_from_slice : Bytes → ProgramResult Bytes
utxo_from_slice = slice 0 36

pub data SystemInstruction : Type 0 where
  create_account : Bytes → SystemInstruction
  extend_bytes : Bytes → SystemInstruction

unfoldable pub serialise_system : SystemInstruction → Bytes
serialise_system (create_account utxo) = 0 ∷ utxo
serialise_system (extend_bytes bytes) = 1 ∷ bytes

-- `SystemInstruction::from_slice`: another first byte is `unreachable!`.
unfoldable pub system_from_slice : Bytes → ProgramResult SystemInstruction
system_from_slice data_ = do
  kind ← byte_at 0 data_
  rest ← tail_from 1 data_
  if kind == 0
      then (utxo_from_slice rest >>= λ utxo. ok (create_account utxo))
      else if kind == 1
      then ok (extend_bytes rest)
      else panic

-- The one account of a system instruction signs and is writable.
abbrev system_call : SystemInstruction → Pubkey → Instruction
system_call call pubkey = record {
  program_id = system_program;
  accounts = record { pubkey = pubkey; is_signer = true; is_writable = true } ∷ [];
  data_ = serialise_system call;
}

unfoldable pub new_create_account_instruction : Bytes → ℕ → Pubkey → Instruction
new_create_account_instruction txid vout = system_call (create_account (utxo_meta txid vout))

unfoldable pub new_extend_bytes_instruction : Bytes → Pubkey → Instruction
new_extend_bytes_instruction data_ = system_call (extend_bytes data_)
