-- ===== src/Sdk/Wire/Messages.antt =====
-- Messages, transactions and system instructions are read back from what they serialize to.
use chainring_contracts.Base.{ℕ, ◌+◌, ◌*◌, ◌<◌, ◌≡◌, refl, List, [], ◌∷◌, ◌++◌, length, All, arith}
use chainring_contracts.Base.Bytes.{Bytes, to_le_bytes, length-to_le_bytes}
use chainring_contracts.Base.Outcome.{ok}
use chainring_contracts.Types.{Pubkey}
use chainring_contracts.Sdk.Wire.{serialize_each}
use chainring_contracts.Sdk.Wire.Message.{
  Instruction, serialize_instruction, Message, serialize_message, pubkey_at, instructions_at,
  message_from_slice,
}
use chainring_contracts.Sdk.Wire.RoundTrip.{
  At, At-start, At-left, At-right, tail_from-At, byte_at-count, parse_times-serialize_each,
  length-serialize_each,
}
use chainring_contracts.Sdk.Wire.Read.{
  IsKey, IsInstruction, pubkey_at-At, instruction_from_slice-At,
}

instructions_at-At :
    (list : List Instruction)
    → All IsInstruction list
    → (bytes : Bytes) (size : ℕ) → At size (serialize_each serialize_instruction list) bytes
    → instructions_at (length list) bytes size ≡ ok list
unfolding instructions_at serialize_each
instructions_at-At [] all bytes size a = refl
instructions_at-At (i ∷ rest) (is, all) bytes size a =
    let here = serialize_instruction i in
    let later = serialize_each serialize_instruction rest in
    let tail = (here ++ later) ++ a.behind in
    rw
      (
        tail_from-At a,
        instruction_from_slice-At i is tail
            (At-left here later (At-start (here ++ later) a.behind)),
        instructions_at-At rest all bytes (size + length here) (At-right here later a refl),
      )
      refl

-- What a message must keep to: one byte counts its signers, and one its instructions.
pub record IsMessage (m : Message) : Type 0 where
  pub signers : All IsKey m.signers
  pub signers_fit : length m.signers < 256
  pub instructions : All IsInstruction m.instructions
  pub instructions_fit : length m.instructions < 256

pub message_from_slice-At :
    (m : Message)
    → IsMessage m
    → (bytes : Bytes) → At 0 (serialize_message m) bytes
    → message_from_slice bytes ≡ ok m
unfolding message_from_slice serialize_message
message_from_slice-At m is bytes whole =
    let n = to_le_bytes 1 (length m.signers) in
    let keys = serialize_each (λ key. key) m.signers in
    let k = to_le_bytes 1 (length m.instructions) in
    let is_bytes = serialize_each serialize_instruction m.instructions in
    let reads : (key : Pubkey)
        → IsKey key
        → (bytes : Bytes) (size : ℕ) → At size key bytes
        → pubkey_at bytes size ≡ ok key =
      λ key e bytes size a. pubkey_at-At e a in
    let width = length-serialize_each IsKey (λ key. key) 32 (λ key e. e) m.signers is.signers in
    let at_keys =
      At-right n (keys ++ (k ++ is_bytes)) whole {next = 1}
        (omega (arith, length-to_le_bytes 1 (length m.signers))) in
    let at_count =
      At-right keys (k ++ is_bytes) at_keys {next = 1 + length m.signers * 32}
        (omega (arith, width)) in
    let at_instructions =
      At-right k is_bytes at_count {next = 2 + length m.signers * 32}
        (omega (arith, length-to_le_bytes 1 (length m.instructions))) in
    rw
      (
        byte_at-count (keys ++ (k ++ is_bytes)) is.signers_fit whole,
        parse_times-serialize_each IsKey (λ key. key) pubkey_at 32 (λ key e. e) reads m.signers
            is.signers bytes 1 (At-left keys (k ++ is_bytes) at_keys),
        byte_at-count is_bytes is.instructions_fit at_count,
        instructions_at-At m.instructions is.instructions bytes (2 + length m.signers * 32)
            at_instructions,
      )
      refl

-- A message is read back from the bytes that it serializes to, whatever follows them, when its keys have
-- 32 bytes, its signers, instructions and their accounts are each fewer than 256, and the bytes of each
-- instruction are fewer than 2 ^ 64.
pub message_from_slice-serialize_message :
    (m : Message) (rest : Bytes)
    → IsMessage m
    → message_from_slice (serialize_message m ++ rest) ≡ ok m
message_from_slice-serialize_message m rest is =
    message_from_slice-At m is (serialize_message m ++ rest) (At-start (serialize_message m) rest)
