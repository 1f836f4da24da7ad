-- ===== src/Sdk/Wire/Read.antt =====
-- Account metas, instructions and messages are read back from what they serialize to.
use chainring_contracts.Base.{
  ℕ, ◌+◌, ◌-◌, ◌*◌, ◌%◌, ◌^◌, ◌<◌, ◌≡◌, ◌∙◌, refl, sym, ap, Bool, true, false, not, [], ◌∷◌, ◌++◌,
  append-nil, length, length-append, leb, ◌==◌, le→leb, All, arith,
}
use chainring_contracts.Base.Bytes.{
  Bytes, to_le_bytes, length-to_le_bytes, from_le_bytes-to_le_bytes,
}
use chainring_contracts.Base.Outcome.{ok}
use chainring_contracts.Types.{Pubkey}
use chainring_contracts.Sdk.Wire.{serialize_each}
use chainring_contracts.Sdk.Wire.Keys.{
  AccountMeta, bool_byte, serialize_meta, meta_from_slice, pubkey_from_slice,
}
use chainring_contracts.Sdk.Wire.Message.{
  Instruction, serialize_instruction, meta_at, data_at, instruction_from_slice, pubkey_at,
}
use chainring_contracts.Sdk.Wire.RoundTrip.{
  At, At-left, At-right, slice-At, byte_at-At, byte_at-count, parse_times-serialize_each,
  length-serialize_each,
}

abbrev pub IsKey : Pubkey → Type 0
IsKey key = length key ≡ 32

abbrev pub IsMeta : AccountMeta → Type 0
IsMeta m = IsKey m.pubkey

pub pubkey_from_slice_lem : (key : Pubkey) → IsKey key → pubkey_from_slice key ≡ ok key
unfolding pubkey_from_slice
pubkey_from_slice_lem key e = rw e (ap ok (append-nil key))

pub pubkey_at-At :
    {key : Pubkey} {bytes : Bytes} {size : ℕ}
    → IsKey key
    → At size key bytes
    → pubkey_at bytes size ≡ ok key
unfolding pubkey_at
pubkey_at-At {key = key} e a = rw (slice-At 32 e a) (pubkey_from_slice_lem key e)

pub length-serialize_meta : (m : AccountMeta) → IsMeta m → length (serialize_meta m) ≡ 34
unfolding serialize_meta
length-serialize_meta m e =
    length-append m.pubkey (bool_byte m.is_signer ∷ bool_byte m.is_writable ∷ []) ∙ omega (arith, e)

bool_byte_lem : (b : Bool) → not (bool_byte b == 0) ≡ b
bool_byte_lem true = refl
bool_byte_lem false = refl

meta_from_slice-serialize_meta :
    (m : AccountMeta) → IsMeta m → meta_from_slice (serialize_meta m) ≡ ok m
unfolding meta_from_slice serialize_meta
meta_from_slice-serialize_meta m e =
    let s = bool_byte m.is_signer in
    let w = bool_byte m.is_writable in
    let bytes = m.pubkey ++ s ∷ w ∷ [] in
    let whole : At 0 bytes bytes = record {
      before = [];
      behind = [];
      whole = sym (append-nil bytes);
      offset = refl;
    } in
    let key = At-left m.pubkey (s ∷ w ∷ []) whole in
    let flags = At-right m.pubkey (s ∷ w ∷ []) whole {next = 32} (omega (arith, e)) in
    let last = At-right (s ∷ []) (w ∷ []) flags {next = 33} refl in
    rw
      (
        slice-At 32 e key,
        pubkey_from_slice_lem m.pubkey e,
        byte_at-At (w ∷ []) flags,
        byte_at-At [] last,
        bool_byte_lem m.is_signer,
        bool_byte_lem m.is_writable,
      )
      refl

pub meta_at-At :
    (m : AccountMeta)
    → IsMeta m
    → (bytes : Bytes) (size : ℕ) → At size (serialize_meta m) bytes
    → meta_at bytes size ≡ ok m
unfolding meta_at
meta_at-At m e bytes size a =
    rw (slice-At 34 (length-serialize_meta m e) a) (meta_from_slice-serialize_meta m e)

-- What an instruction must keep to: the widths of its keys, the byte that counts the accounts, and an
-- address space of 64 bits.
pub record IsInstruction (i : Instruction) : Type 0 where
  pub program_id : IsKey i.program_id
  pub metas : All IsMeta i.accounts
  pub accounts_fit : length i.accounts < 256
  pub fits : length (serialize_instruction i) < 2 ^ 64

pub data_at-At :
    (size : ℕ) (data_ bytes : Bytes)
    → size + length data_ < 2 ^ 64
    → At size data_ bytes
    → data_at size (length data_) bytes ≡ ok data_
unfolding data_at
data_at-At size data_ bytes small a =
    let whole : (size + length data_) % 2 ^ 64 ≡ size + length data_ = omega (arith, small) in
    let ordered : leb size (size + length data_) ≡ true = le→leb _ _ (omega arith) in
    rw (whole, ordered) (slice-At (size + length data_ - size) (omega arith) a)

pub length-serialize_instruction :
    (i : Instruction)
    → IsKey i.program_id
    → All IsMeta i.accounts
    → length (serialize_instruction i) ≡ 41 + length i.accounts * 34 + length i.data_
unfolding serialize_instruction
length-serialize_instruction i e metas =
    let n = to_le_bytes 1 (length i.accounts) in
    let ms = serialize_each serialize_meta i.accounts in
    let len = to_le_bytes 8 (length i.data_) in
    omega (
      arith,
      e,
      length-append i.program_id (n ++ (ms ++ (len ++ i.data_))),
      length-append n (ms ++ (len ++ i.data_)),
      length-append ms (len ++ i.data_),
      length-append len i.data_,
      length-to_le_bytes 1 (length i.accounts),
      length-to_le_bytes 8 (length i.data_),
      length-serialize_each IsMeta serialize_meta 34 length-serialize_meta i.accounts metas,
    )

pub instruction_from_slice-At :
    (i : Instruction)
    → IsInstruction i
    → (bytes : Bytes) → At 0 (serialize_instruction i) bytes
    → instruction_from_slice bytes ≡ ok i
unfolding instruction_from_slice serialize_instruction
instruction_from_slice-At i is bytes whole =
    let n = to_le_bytes 1 (length i.accounts) in
    let ms = serialize_each serialize_meta i.accounts in
    let len = to_le_bytes 8 (length i.data_) in
    let size = length-serialize_instruction i is.program_id is.metas in
    let width =
      length-serialize_each IsMeta serialize_meta 34 length-serialize_meta i.accounts is.metas in
    let key = At-left i.program_id (n ++ (ms ++ (len ++ i.data_))) whole in
    let at_count =
      At-right i.program_id (n ++ (ms ++ (len ++ i.data_))) whole {next = 32}
        (omega (arith, is.program_id)) in
    let at_metas =
      At-right n (ms ++ (len ++ i.data_)) at_count {next = 33}
        (omega (arith, length-to_le_bytes 1 (length i.accounts))) in
    let at_len =
      At-right ms (len ++ i.data_) at_metas {next = 33 + length i.accounts * 34}
        (omega (arith, width)) in
    let at_data =
      At-right len i.data_ at_len {next = 41 + length i.accounts * 34}
        (omega (arith, length-to_le_bytes 8 (length i.data_))) in
    rw
      (
        byte_at-count (ms ++ (len ++ i.data_)) is.accounts_fit at_count,
        parse_times-serialize_each IsMeta serialize_meta meta_at 34 length-serialize_meta meta_at-At
            i.accounts is.metas bytes 33 (At-left ms (len ++ i.data_) at_metas),
        slice-At 8 (length-to_le_bytes 8 (length i.data_)) (At-left len i.data_ at_len),
        slice-At 32 is.program_id key,
        pubkey_from_slice_lem i.program_id is.program_id,
        from_le_bytes-to_le_bytes 8 (length i.data_) (omega (arith, size, is.fits)),
        data_at-At (41 + length i.accounts * 34) i.data_ bytes (omega (arith, size, is.fits))
            at_data,
      )
      refl
