-- ===== src/Sdk/Wire/Signed.antt =====
-- Transactions to sign and runtime transactions are read back from what they serialize to.
use chainring_contracts.Base.{
  ℕ, ◌+◌, ◌*◌, ◌^◌, ◌≤◌, ◌<◌, ◌≡◌, refl, sym, [], ◌++◌, append-nil, length, length-append, All,
  arith,
}
use chainring_contracts.Base.Bytes.{
  Bytes, to_le_bytes, length-to_le_bytes, from_le_bytes-to_le_bytes,
}
use chainring_contracts.Base.Outcome.{ok}
use chainring_contracts.External.{InputToSign}
use chainring_contracts.Sdk.Wire.{serialize_each}
use chainring_contracts.Sdk.Wire.Message.{Message, serialize_instruction, serialize_message}
use chainring_contracts.Sdk.Wire.Messages.{IsMessage, message_from_slice-At}
use chainring_contracts.Sdk.Wire.Transaction.{
  TransactionToSign, serialise_input, serialise_to_sign, input_at, to_sign_from_slice,
  signature_from_slice, signature_at, RuntimeTransaction, serialize_runtime, runtime_from_slice,
}
use chainring_contracts.Sdk.Wire.RoundTrip.{
  At, At-start, At-left, At-right, At-length, slice-At, tail_from-At, byte_at-count, byte_at-within,
  parse_times-serialize_each, length-serialize_each,
}
use chainring_contracts.Sdk.Wire.Read.{IsKey, pubkey_at-At}

abbrev pub IsInput : InputToSign → Type 0
IsInput i = (i.index < 2 ^ 32) × IsKey i.signer

length-serialise_input : (i : InputToSign) → IsInput i → length (serialise_input i) ≡ 36
length-serialise_input i (_, e) =
    omega (arith, e, length-append (to_le_bytes 4 i.index) i.signer, length-to_le_bytes 4 i.index)

input_at-At :
    (i : InputToSign)
    → IsInput i
    → (bytes : Bytes) (size : ℕ) → At size (serialise_input i) bytes
    → input_at bytes size ≡ ok i
unfolding input_at
input_at-At i (small, e) bytes size a =
    let index = to_le_bytes 4 i.index in
    let width = length-to_le_bytes 4 i.index in
    rw
      (
        slice-At 4 width (At-left index i.signer a),
        pubkey_at-At e (At-right index i.signer a {next = size + 4} (omega (arith, width))),
        from_le_bytes-to_le_bytes 4 i.index (omega (arith, small)),
      )
      refl

-- What a transaction to sign must keep to: its lengths fit in 32 bits.
pub record IsToSign (t : TransactionToSign) : Type 0 where
  pub tx_fits : length t.tx_bytes < 2 ^ 32
  pub inputs : All IsInput t.inputs_to_sign
  pub inputs_fit : length t.inputs_to_sign < 2 ^ 32

-- A transaction to sign is read back from the bytes that it serializes to, whatever follows them, when
-- its lengths and indices fit in 32 bits and its keys have 32 bytes.
pub to_sign_from_slice-serialise_to_sign :
    (t : TransactionToSign) (rest : Bytes)
    → IsToSign t
    → to_sign_from_slice (serialise_to_sign t ++ rest) ≡ ok t
unfolding to_sign_from_slice serialise_to_sign
to_sign_from_slice-serialise_to_sign t rest is =
    let n = to_le_bytes 4 (length t.tx_bytes) in
    let k = to_le_bytes 4 (length t.inputs_to_sign) in
    let inputs = serialize_each serialise_input t.inputs_to_sign in
    let bytes = (n ++ (t.tx_bytes ++ (k ++ inputs))) ++ rest in
    let whole = At-start (n ++ (t.tx_bytes ++ (k ++ inputs))) rest in
    let width = length-to_le_bytes 4 (length t.tx_bytes) in
    let width' = length-to_le_bytes 4 (length t.inputs_to_sign) in
    let at_tx = At-right n (t.tx_bytes ++ (k ++ inputs)) whole {next = 4} (omega (arith, width)) in
    let at_count =
      At-right t.tx_bytes (k ++ inputs) at_tx {next = 4 + length t.tx_bytes} (omega arith) in
    let at_inputs =
      At-right k inputs at_count {next = 8 + length t.tx_bytes} (omega (arith, width')) in
    rw
      (
        slice-At 4 width (At-left n (t.tx_bytes ++ (k ++ inputs)) whole),
        from_le_bytes-to_le_bytes 4 (length t.tx_bytes) (omega (arith, is.tx_fits)),
        slice-At (length t.tx_bytes) refl (At-left t.tx_bytes (k ++ inputs) at_tx),
        slice-At 4 width' (At-left k inputs at_count),
        from_le_bytes-to_le_bytes 4 (length t.inputs_to_sign) (omega (arith, is.inputs_fit)),
        parse_times-serialize_each IsInput serialise_input input_at 36 length-serialise_input
            input_at-At t.inputs_to_sign is.inputs bytes (8 + length t.tx_bytes) at_inputs,
      )
      refl

abbrev pub IsSignature : Bytes → Type 0
IsSignature signature = length signature ≡ 64

signature_at-At :
    (signature : Bytes)
    → IsSignature signature
    → (bytes : Bytes) (size : ℕ) → At size signature bytes
    → signature_at bytes size ≡ ok signature
unfolding signature_at signature_from_slice
signature_at-At signature e bytes size a =
    let itself : At 0 signature signature = record {
      before = [];
      behind = [];
      whole = sym (append-nil signature);
      offset = refl;
    } in
    rw (slice-At 64 e a) (slice-At 64 e itself)

-- What a runtime transaction must keep to: one byte counts its signatures, of 64 bytes each.
pub record IsRuntime (t : RuntimeTransaction) : Type 0 where
  pub version : t.version < 2 ^ 32
  pub signatures : All IsSignature t.signatures
  pub signatures_fit : length t.signatures < 256
  pub message : IsMessage t.message

-- The number of signers is there.
length-serialize_message : (m : Message) → 1 ≤ length (serialize_message m)
unfolding serialize_message
length-serialize_message m =
    let n = to_le_bytes 1 (length m.signers) in
    let k =
      serialize_each (λ key. key) m.signers
      ++ (to_le_bytes 1 (length m.instructions)
          ++ serialize_each serialize_instruction m.instructions) in
    omega (arith, length-append n k, length-to_le_bytes 1 (length m.signers))

-- A runtime transaction is read back from the bytes that it serializes to, whatever follows them, when
-- its version fits in 32 bits, its signatures have 64 bytes and are fewer than 256, and its message
-- keeps to the widths of the format.
pub runtime_from_slice-serialize_runtime :
    (t : RuntimeTransaction) (rest : Bytes)
    → IsRuntime t
    → runtime_from_slice (serialize_runtime t ++ rest) ≡ ok t
unfolding runtime_from_slice serialize_runtime
runtime_from_slice-serialize_runtime t rest is =
    let v = to_le_bytes 4 t.version in
    let n = to_le_bytes 1 (length t.signatures) in
    let signatures = serialize_each (λ signature. signature) t.signatures in
    let message = serialize_message t.message in
    let bytes = (v ++ (n ++ (signatures ++ message))) ++ rest in
    let whole = At-start (v ++ (n ++ (signatures ++ message))) rest in
    let width =
      length-serialize_each IsSignature (λ signature. signature) 64 (λ signature e. e) t.signatures
        is.signatures in
    let at_count =
      At-right v (n ++ (signatures ++ message)) whole {next = 4}
        (omega (arith, length-to_le_bytes 4 t.version)) in
    let at_signatures =
      At-right n (signatures ++ message) at_count {next = 5}
        (omega (arith, length-to_le_bytes 1 (length t.signatures))) in
    let at_message =
      At-right signatures message at_signatures {next = 5 + length t.signatures * 64}
        (omega (arith, width)) in
    let (_, capacity) =
      byte_at-within 5 bytes
        (omega (arith, At-length at_message, length-serialize_message t.message)) in
    rw
      (
        byte_at-count (signatures ++ message) is.signatures_fit at_count,
        capacity,
        parse_times-serialize_each IsSignature (λ signature. signature) signature_at 64
            (λ signature e. e) signature_at-At t.signatures is.signatures bytes 5
            (At-left signatures message at_signatures),
        tail_from-At at_message,
        message_from_slice-At t.message is.message (message ++ at_message.behind)
            (At-start message at_message.behind),
        slice-At 4 (length-to_le_bytes 4 t.version)
            (At-left v (n ++ (signatures ++ message)) whole),
        from_le_bytes-to_le_bytes 4 t.version (omega (arith, is.version)),
      )
      refl
