-- ===== src/Sdk/Wire/Message.antt =====
-- `Instruction` (instruction.rs) and `Message` (message.rs) of arch/program/src.
use chainring_contracts.Base.{
  ℕ, zero, suc, ◌+◌, ◌-◌, ◌*◌, ◌%◌, ◌^◌, List, [], ◌∷◌, ◌++◌, length, leb, if◌then◌else◌,
}
use chainring_contracts.Base.Bytes.{Bytes, to_le_bytes, from_le_bytes}
use chainring_contracts.Base.Outcome.{ok, panic, ◌>>=◌}
use chainring_contracts.Types.{Pubkey}
use chainring_contracts.State.Raw.{ProgramResult, slice}
use chainring_contracts.Sdk.Wire.{byte_at, tail_from, parse_times, serialize_each}
use chainring_contracts.Sdk.Wire.Keys.{
  AccountMeta, serialize_meta, meta_from_slice, pubkey_from_slice,
}

pub record Instruction : Type 0 where
  pub program_id : Pubkey
  pub accounts : List AccountMeta
  pub data_ : Bytes

-- `Instruction::serialize`: `len() as u8` drops the upper bytes of the number of accounts.
unfoldable pub serialize_instruction : Instruction → Bytes
serialize_instruction i =
    i.program_id
    ++ (to_le_bytes 1 (length i.accounts)
        ++ (serialize_each serialize_meta i.accounts
            ++ (to_le_bytes 8 (length i.data_) ++ i.data_)))

-- `AccountMeta::from_slice(&data[size..(size + 34)])`
unfoldable pub meta_at : Bytes → ℕ → ProgramResult AccountMeta
meta_at bytes size = slice size 34 bytes >>= meta_from_slice

-- `data[size..(size + data_len as usize)]`: the end of the range wraps at 64 bits, and a range that
-- then ends in front of its start panics.
unfoldable pub data_at : ℕ → ℕ → Bytes → ProgramResult Bytes
data_at size data_len bytes =
    let end = (size + data_len) % 2 ^ 64 in
    if leb size end then slice size (end - size) bytes else panic

-- `Instruction::from_slice`
unfoldable pub instruction_from_slice : Bytes → ProgramResult Instruction
instruction_from_slice bytes = do
  accounts_len ← byte_at 32 bytes
  accounts ← parse_times meta_at 34 accounts_len bytes 33
  len ← slice (33 + accounts_len * 34) 8 bytes
  key ← slice 0 32 bytes
  program_id ← pubkey_from_slice key
  data_ ← data_at (41 + accounts_len * 34) (from_le_bytes len) bytes
  ok (record { program_id = program_id; accounts = accounts; data_ = data_ })

pub record Message : Type 0 where
  pub signers : List Pubkey
  pub instructions : List Instruction

-- `Message::serialize`
unfoldable pub serialize_message : Message → Bytes
serialize_message m =
    to_le_bytes 1 (length m.signers)
    ++ (serialize_each (λ key. key) m.signers
        ++ (to_le_bytes 1 (length m.instructions)
            ++ serialize_each serialize_instruction m.instructions))

-- `Pubkey::from_slice(&data[size..(size + 32)])`
unfoldable pub pubkey_at : Bytes → ℕ → ProgramResult Pubkey
pubkey_at bytes size = slice size 32 bytes >>= pubkey_from_slice

-- The loop over the instructions: the offset moves on by the length of what the instruction that has
-- been read serializes to.
unfoldable pub instructions_at : ℕ → Bytes → ℕ → ProgramResult (List Instruction)
instructions_at zero bytes size = ok []
instructions_at (suc count) bytes size = do
  tail ← tail_from size bytes
  i ← instruction_from_slice tail
  rest ← instructions_at count bytes (size + length (serialize_instruction i))
  ok (i ∷ rest)

-- `Message::from_slice`
unfoldable pub message_from_slice : Bytes → ProgramResult Message
message_from_slice bytes = do
  signers_len ← byte_at 0 bytes
  signers ← parse_times pubkey_at 32 signers_len bytes 1
  instructions_len ← byte_at (1 + signers_len * 32) bytes
  instructions ← instructions_at instructions_len bytes (2 + signers_len * 32)
  ok (record { signers = signers; instructions = instructions })

-- `Message::hash`, over the hexadecimal digest of the sha256 crate.
module _ (digest : Bytes → Bytes) where
  unfoldable pub message_hash : Message → Bytes
  message_hash m = digest (digest (serialize_message m))
