-- ===== src/Codec/Io.antt =====
-- `ReadExt`, `WriteExt` and `Codable` of arch/contracts/exchange/model/src/serialization.rs.
-- A reader is the list of the bytes that are left. A writer into a `Vec` does not fail, so a write
-- is what it appends and the number of bytes that it reports. A `String` is its bytes in UTF-8.
pub mod Utf8
pub mod RoundTrip
use Utf8.{from_utf8}
use chainring_contracts.Base.{
  ℕ, ◌-◌, ◌+◌, Bool, List, [], ◌∷◌, ◌++◌, length, take, drop, replicate, leb, ltb, ◌==◌,
  if◌then◌else◌, zero, suc, true, false,
}
use chainring_contracts.Base.Outcome.{Result, ok, err, panic}
use chainring_contracts.Base.Bytes.{Bytes, to_le_bytes, from_le_bytes}

-- `io::Error`, by what raised it: `read_exact` at the end of the data, `read_to_string` on bytes
-- that are no UTF-8, and the errors that the code makes itself.
pub data IoError : Type 0 where
  unexpected_eof invalid_data : IoError
  invalid_utf8_string invalid_instruction_type invalid_event_type event_too_large : IoError

abbrev pub IoResult : Type 0 → Type 0
IoResult A = Result IoError A

abbrev pub Reader : Type 0 → Type 0
Reader A = Bytes → IoResult (A × Bytes)

infixl 5 ◌>>=◌
abbrev pub ◌>>=◌ : {A B : Type 0} → Reader A → (A → Reader B) → Reader B
◌>>=◌ m f bs = elim (m bs) [ ok (a, rest) ↦ f a rest | err e ↦ err e | panic ↦ panic ]

abbrev pub pure : {A : Type 0} → A → Reader A
pure a bs = ok (a, bs)

abbrev pub fail : {A : Type 0} → IoError → Reader A
fail e bs = err e

-- `read_exact` into a buffer of `n` bytes.
unfoldable pub read_exact : ℕ → Reader Bytes
read_exact n bs = if leb n (length bs) then ok (take n bs, drop n bs) else err unexpected_eof

-- `take(n).read_to_end`: at most `n` bytes, and no error when fewer are left.
unfoldable pub read_up_to : ℕ → Reader Bytes
read_up_to n bs = ok (take n bs, drop n bs)

unfoldable pub read_uint : ℕ → Reader ℕ
read_uint k = do bs ← read_exact k; pure (from_le_bytes bs)

abbrev pub read_u8 : Reader ℕ
read_u8 = read_uint 1

abbrev pub read_u16 : Reader ℕ
read_u16 = read_uint 2

abbrev pub read_u32 : Reader ℕ
read_u32 = read_uint 4

abbrev pub read_u64 : Reader ℕ
read_u64 = read_uint 8

abbrev pub read_pubkey : Reader Bytes
read_pubkey = read_exact 32

abbrev pub read_hash : Reader Bytes
read_hash = read_exact 32

unfoldable pub read_string : Reader Bytes
read_string = do
  str_size ← read_u16
  bs ← read_up_to str_size
  if from_utf8 bs then pure bs else fail invalid_data

-- The bytes before the first zero: `position(|&b| b == 0)` and `truncate`.
unfoldable pub until_zero : Bytes → Bytes
until_zero [] = []
until_zero (b ∷ bs) = if b == 0 then [] else b ∷ until_zero bs

unfoldable pub read_string_with_padding : ℕ → Reader Bytes
read_string_with_padding size = do
  bs ← read_up_to size
  let s = until_zero bs
  if from_utf8 s then pure s else fail invalid_utf8_string

-- `for _ in 0..count { push(decode(reader)?) }`
unfoldable pub read_times : {A : Type 0} → ℕ → Reader A → Reader (List A)
read_times zero decode = pure []
read_times (suc n) decode = do a ← decode; as' ← read_times n decode; pure (a ∷ as')

pub record Written : Type 0 where
  pub bytes : Bytes
  pub count : ℕ

-- Two writes, one after the other, with their counts added.
infixr 65 ◌⊕◌
abbrev pub ◌⊕◌ : Written → Written → Written
a ⊕ b = record { bytes = a.bytes ++ b.bytes; count = a.count + b.count }

-- `write_all`, with the number of bytes.
unfoldable pub write_all : Bytes → Written
write_all bs = record { bytes = bs; count = length bs }

-- An integer of `k` bytes; a wider value loses its upper bytes, as `as u16` does.
unfoldable pub write_uint : ℕ → ℕ → Written
write_uint k v = record { bytes = to_le_bytes k v; count = k }

abbrev pub write_u8 : ℕ → Written
write_u8 = write_uint 1

abbrev pub write_u16 : ℕ → Written
write_u16 = write_uint 2

abbrev pub write_u32 : ℕ → Written
write_u32 = write_uint 4

abbrev pub write_u64 : ℕ → Written
write_u64 = write_uint 8

unfoldable pub write_string : Bytes → Written
write_string s = write_u16 (length s) ⊕ write_all s

-- A run of zero bytes.
unfoldable pub write_padding : ℕ → Written
write_padding n = record { bytes = replicate n 0; count = n }

-- A longer string makes `size - bytes.len()` wrap, and the allocation of that padding panics.
unfoldable pub write_string_with_padding : Bytes → ℕ → IoResult Written
write_string_with_padding s size =
    if leb (length s) size then ok (write_all s ⊕ write_padding (size - length s)) else panic

-- The writes of a loop over a `Vec`, one element after the other.
unfoldable pub write_each : {A : Type 0} → (A → Written) → List A → Written
write_each encode [] = record { bytes = []; count = 0 }
write_each encode (a ∷ as') = encode a ⊕ write_each encode as'

-- The trait `Codable`, for types whose `encode` cannot fail.
pub record Codable (A : Type 0) : Type 0 where
  pub decode : Reader A
  pub encode : A → Written

abbrev pub decode : {A : Type 0} ⦃c : Codable A⦄ → Reader A
decode ⦃c⦄ = c.decode

abbrev pub encode : {A : Type 0} ⦃c : Codable A⦄ → A → Written
encode ⦃c⦄ = c.encode

-- A `Vec` behind its length in two bytes. The reservation that the source makes for all elements
-- before it reads the first, `Vec::with_capacity(n)`, is not modelled: the memory is taken to have room
-- for it. Where it has not, as for a large `n` on the 32 KiB heap of the program, the run ends there.
unfoldable pub read_vec : {A : Type 0} ⦃c : Codable A⦄ → Reader (List A)
read_vec = do n ← read_u16; read_times n decode

unfoldable pub write_vec : {A : Type 0} ⦃c : Codable A⦄ → List A → Written
write_vec xs = write_u16 (length xs) ⊕ write_each encode xs

-- `decode_from_slice` does not ask that all of the data is read.
unfoldable pub decode_from_slice : {A : Type 0} ⦃c : Codable A⦄ → Bytes → IoResult A
decode_from_slice {A} bs = elim (decode {A = A} bs) [
  | ok (a, _) ↦ ok a
  | err e ↦ err e
  | panic ↦ panic
]

unfoldable pub encode_to_vec : {A : Type 0} ⦃c : Codable A⦄ → A → Bytes
encode_to_vec a = (encode a).bytes
