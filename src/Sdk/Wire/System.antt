-- ===== src/Sdk/Wire/System.antt =====
-- UTXOs and system instructions are read back from what they serialize to.
use chainring_contracts.Base.{
  ℕ, ◌^◌, ◌<◌, ◌≡◌, ◌∙◌, refl, sym, ap, true, leb, le→leb, [], ◌∷◌, ◌++◌, append-nil, length,
  length-append, take-append, drop-append, All, arith,
}
use chainring_contracts.Base.Bytes.{
  Bytes, to_le_bytes, from_le_bytes, length-to_le_bytes, from_le_bytes-to_le_bytes,
}
use chainring_contracts.Base.Outcome.{ok}
use chainring_contracts.Types.{Pubkey}
use chainring_contracts.Sdk.Account.{utxo_meta}
use chainring_contracts.Sdk.Transition.{txid, vout}
use chainring_contracts.Sdk.Wire.{tail_from}
use chainring_contracts.Sdk.Wire.Message.{serialize_instruction, instruction_from_slice}
use chainring_contracts.Sdk.Wire.Utxo.{
  utxo_from_slice, SystemInstruction, create_account, extend_bytes, serialise_system,
  system_from_slice, new_create_account_instruction,
}
use chainring_contracts.Sdk.Wire.Read.{
  IsKey, IsMeta, IsInstruction, length-serialize_instruction, instruction_from_slice-At,
}
use chainring_contracts.Sdk.Wire.RoundTrip.{At, At-start, slice-At, byte_at-At}

-- A UTXO that is made of an id of 32 bytes and an index of 32 bits has 36 bytes, and gives both back.
pub utxo_meta_lem :
    (id : Bytes) (index : ℕ)
    → length id ≡ 32
    → index < 2 ^ 32
    → (length (utxo_meta id index) ≡ 36)
      × (txid (utxo_meta id index) ≡ id)
      × (vout (utxo_meta id index) ≡ index)
unfolding utxo_meta
utxo_meta_lem id index e small =
    let tail = to_le_bytes 4 index in
    (
      omega (arith, e, length-append id tail, length-to_le_bytes 4 index),
      take-append 32 id tail e,
      ap from_le_bytes (drop-append 32 id tail e)
          ∙ from_le_bytes-to_le_bytes 4 index (omega (arith, small)),
    )

whole : (bytes : Bytes) → At 0 bytes bytes
whole bytes = record { before = []; behind = []; whole = sym (append-nil bytes); offset = refl }

tail_from-one : (b : ℕ) (bytes : Bytes) → tail_from 1 (b ∷ bytes) ≡ ok bytes
unfolding tail_from
tail_from-one b bytes =
    let fits : leb 1 (length (b ∷ bytes)) ≡ true = le→leb _ _ (omega arith) in rw fits refl

abbrev pub IsSystem : SystemInstruction → Type 0
IsSystem (create_account utxo) = length utxo ≡ 36
IsSystem (extend_bytes bytes) = Unit {0}

-- A system instruction is read back from the bytes that it serializes to; the UTXO of a new account
-- has 36 bytes.
pub system_from_slice-serialise_system :
    (i : SystemInstruction) → IsSystem i → system_from_slice (serialise_system i) ≡ ok i
unfolding system_from_slice serialise_system utxo_from_slice
system_from_slice-serialise_system (create_account utxo) e =
    rw (byte_at-At utxo (whole (0 ∷ utxo)), tail_from-one 0 utxo, slice-At 36 e (whole utxo)) refl
system_from_slice-serialise_system (extend_bytes bytes) _ =
    rw (byte_at-At bytes (whole (1 ∷ bytes)), tail_from-one 1 bytes) refl

-- The instruction that creates an account of an id of 32 bytes, an index of 32 bits and a key of 32
-- bytes is read back from its bytes, whatever follows them, and its data is read back as the creation
-- of an account with a UTXO of that id and index.
pub new_create_account_instruction_lem :
    (id : Bytes) (index : ℕ) (key : Pubkey) (rest : Bytes)
    → length id ≡ 32
    → index < 2 ^ 32
    → IsKey key
    → (instruction_from_slice
          (serialize_instruction (new_create_account_instruction id index key) ++ rest)
        ≡ ok (new_create_account_instruction id index key))
      × (utxo : Bytes) × (system_from_slice (new_create_account_instruction id index key).data_
          ≡ ok (create_account utxo))
      × (txid utxo ≡ id)
      × (vout utxo ≡ index)
unfolding new_create_account_instruction serialise_system
new_create_account_instruction_lem id index key rest e small is_key =
    let i = new_create_account_instruction id index key in
    let (size, same_id, same_index) = utxo_meta_lem id index e small in
    let metas : All IsMeta i.accounts = (is_key, tt) in
    let is : IsInstruction i = record {
      program_id = refl;
      metas = metas;
      accounts_fit = omega arith;
      fits = omega (arith, length-serialize_instruction i refl metas, size);
    } in
    (
      instruction_from_slice-At i is (serialize_instruction i ++ rest)
          (At-start (serialize_instruction i) rest),
      utxo_meta id index,
      system_from_slice-serialise_system (create_account (utxo_meta id index)) size,
      same_id,
      same_index,
    )
