-- ===== src/Sdk/Wire/Ids.antt =====
-- The ids of a processed transaction, which are hexadecimal texts: what is serialized and read back for
-- each of them.
use chainring_contracts.Base.{
  ℕ, ◌+◌, ◌≡◌, refl, ap, Option, none, some, List, [], ◌∷◌, length, All, arith,
}
use chainring_contracts.Base.Bytes.{Bytes}
use chainring_contracts.Base.Outcome.{ok}
use chainring_contracts.Sdk.Wire.{serialize_each}
use chainring_contracts.Sdk.Wire.Processed.{
  decode_hex, serialize_txid, serialize_tags, hex_at, txid_at,
}
use chainring_contracts.Sdk.Wire.RoundTrip.{At, At-right, slice-At, byte_at-At}

module _ (hex_encode : Bytes → Bytes) (hex_decode : Bytes → Option Bytes) where
  -- A text that the hex crate decodes to 32 bytes, in upper or lower case.
  pub record IsHex (text : Bytes) : Type 0 where
    pub id : Bytes
    pub decoded : hex_decode text ≡ some id
    pub width : length id ≡ 32

  abbrev pub raw : Bytes → Bytes
  raw text = elim (hex_decode text) [ none ↦ [] | some id ↦ id ]

  -- The text of the same id as the hex crate writes it.
  abbrev pub rewritten : Bytes → Bytes
  rewritten text = hex_encode (raw text)

  raw-eq-id : (text : Bytes) (is : IsHex text) → raw text ≡ is.id
  raw-eq-id text is = rw (raw, is.decoded) refl

  pub length-raw : (text : Bytes) → IsHex text → length (raw text) ≡ 32
  length-raw text is = rw (raw-eq-id text is) is.width

  pub hex_at-At :
      (text : Bytes)
      → IsHex text
      → (bytes : Bytes) (size : ℕ) → At size (raw text) bytes
      → hex_at hex_encode hex_decode bytes size ≡ ok (rewritten text)
  unfolding hex_at
  hex_at-At text is bytes size a = rw (slice-At 32 (length-raw text is) a) refl

  decode_hex-eq-raw :
      (text : Bytes) → IsHex text → decode_hex hex_encode hex_decode text ≡ ok (raw text)
  unfolding decode_hex
  decode_hex-eq-raw text is = rw (decode_hex, raw, is.decoded) refl

  pub serialize_tags-eq-raw :
      (tags : List Bytes)
      → All IsHex tags
      → serialize_tags hex_encode hex_decode tags ≡ ok (serialize_each raw tags)
  unfolding serialize_tags serialize_each
  serialize_tags-eq-raw [] all = refl
  serialize_tags-eq-raw (tag ∷ rest) (is, all) =
      rw (decode_hex-eq-raw tag is, serialize_tags-eq-raw rest all) refl

  abbrev pub IsTxid : Option Bytes → Type 0
  IsTxid none = Unit {0}
  IsTxid (some text) = IsHex text

  abbrev pub txid_bytes : Option Bytes → Bytes
  txid_bytes none = 0 ∷ []
  txid_bytes (some text) = 1 ∷ raw text

  abbrev pub rewritten_txid : Option Bytes → Option Bytes
  rewritten_txid none = none
  rewritten_txid (some text) = some (rewritten text)

  pub serialize_txid-eq-bytes :
      (txid : Option Bytes)
      → IsTxid txid
      → serialize_txid hex_encode hex_decode txid ≡ ok (txid_bytes txid)
  unfolding serialize_txid
  serialize_txid-eq-bytes none is = refl
  serialize_txid-eq-bytes (some text) is = rw (decode_hex-eq-raw text is) refl

  pub txid_at-At :
      (txid : Option Bytes)
      → IsTxid txid
      → (bytes : Bytes) (size : ℕ) → At size (txid_bytes txid) bytes
      → txid_at hex_encode hex_decode bytes size
        ≡ ok (rewritten_txid txid, size + length (txid_bytes txid))
  unfolding txid_at
  txid_at-At none is bytes size a = rw (byte_at-At [] a) refl
  txid_at-At (some text) is bytes size a =
      let at_id = At-right (1 ∷ []) (raw text) a {next = size + 1} refl in
      let widths : size + 33 ≡ size + length (1 ∷ raw text) = omega (arith, length-raw text is) in
      rw (byte_at-At (raw text) a, hex_at-At text is bytes (size + 1) at_id)
        (ap (λ n. ok (some (rewritten text), n)) widths)
