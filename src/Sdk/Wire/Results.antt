-- ===== src/Sdk/Wire/Results.antt =====
-- Processed transactions are read back from what they serialize to, with the texts of their ids as the
-- hex crate writes them.
use chainring_contracts.Base.{
  ℕ, ◌+◌, ◌*◌, ◌^◌, ◌<◌, ◌≡◌, refl, sym, true, Option, [], ◌∷◌, ◌++◌, append-nil, map, length, All,
  arith,
}
use chainring_contracts.Base.Bytes.{
  Bytes, to_le_bytes, length-to_le_bytes, from_le_bytes-to_le_bytes,
}
use chainring_contracts.Base.Outcome.{ok}
use chainring_contracts.Codec.Io.Utf8.{from_utf8}
use chainring_contracts.Sdk.Wire.{serialize_each}
use chainring_contracts.Sdk.Wire.Transaction.{serialize_runtime, runtime_from_slice}
use chainring_contracts.Sdk.Wire.Processed.{
  Status, processing, processed, failed, ProcessedTransaction, serialize_status, to_vec, hex_at,
  status_at, from_vec,
}
use chainring_contracts.Sdk.Wire.RoundTrip.{
  At, At-start, At-left, At-right, At-length, slice-At, byte_at-At, parse_times-normal,
  length-serialize_each,
}
use chainring_contracts.Sdk.Wire.Read.{data_at-At}
use chainring_contracts.Sdk.Wire.Ids.{
  IsHex, raw, rewritten, length-raw, hex_at-At, serialize_tags-eq-raw, IsTxid, txid_bytes,
  rewritten_txid, serialize_txid-eq-bytes, txid_at-At,
}
use chainring_contracts.Sdk.Wire.Signed.{IsRuntime, runtime_from_slice-serialize_runtime}

-- The text of an error is UTF-8.
abbrev pub IsStatus : Status → Type 0
IsStatus (failed error) = from_utf8 error ≡ true
IsStatus _ = Unit {0}

status_at-At :
    (status : Status)
    → IsStatus status
    → (bytes : Bytes) (size : ℕ) → length bytes < 2 ^ 64
    → At size (serialize_status status) bytes
    → status_at bytes size ≡ ok status
unfolding status_at serialize_status
status_at-At processing is bytes size small a = rw (byte_at-At [] a) refl
status_at-At processed is bytes size small a = rw (byte_at-At [] a) refl
status_at-At (failed error) is bytes size small a =
    let n = to_le_bytes 8 (length error) in
    let width = length-to_le_bytes 8 (length error) in
    let at_len = At-right (2 ∷ []) (n ++ error) a {next = size + 1} refl in
    let at_error = At-right n error at_len {next = size + 9} (omega (arith, width)) in
    let within : size + 9 + length error < 2 ^ 64 = omega (arith, At-length at_error, small) in
    rw
      (
        byte_at-At (n ++ error) a,
        slice-At 8 width (At-left n error at_len),
        from_le_bytes-to_le_bytes 8 (length error) (omega (arith, within)),
        data_at-At (size + 9) error bytes within at_error,
        is,
      )
      refl

-- What a processed transaction must keep to.
pub record IsProcessed (hex_encode : Bytes → Bytes) (hex_decode : Bytes → Option Bytes)
    (p : ProcessedTransaction) : Type 0 where
  pub runtime : IsRuntime p.runtime_transaction
  pub status : IsStatus p.status
  pub txid : IsTxid hex_encode hex_decode p.bitcoin_txid
  pub tags : All (IsHex hex_encode hex_decode) p.accounts_tags

module _ (hex_encode : Bytes → Bytes) (hex_decode : Bytes → Option Bytes)
    (p : ProcessedTransaction) where
  -- The bytes of a processed transaction.
  abbrev pub tail : Bytes
  tail =
      to_le_bytes 8 (length p.accounts_tags)
      ++ (serialize_each (raw hex_encode hex_decode) p.accounts_tags ++ serialize_status p.status)

  abbrev pub wire : Bytes
  wire =
      to_le_bytes 8 (length (serialize_runtime p.runtime_transaction))
      ++ (serialize_runtime p.runtime_transaction
          ++ (txid_bytes hex_encode hex_decode p.bitcoin_txid ++ tail))

  -- The transaction with its ids as the hex crate writes them.
  abbrev pub normal : ProcessedTransaction
  normal = record p {
    bitcoin_txid = rewritten_txid hex_encode hex_decode p.bitcoin_txid;
    accounts_tags = map (rewritten hex_encode hex_decode) p.accounts_tags;
  }

  to_vec-eq-wire : IsProcessed hex_encode hex_decode p → to_vec hex_encode hex_decode p ≡ ok wire
  unfolding to_vec
  to_vec-eq-wire is =
      rw
        (
          serialize_txid-eq-bytes hex_encode hex_decode p.bitcoin_txid is.txid,
          serialize_tags-eq-raw hex_encode hex_decode p.accounts_tags is.tags,
        )
        refl

  from_vec-wire :
      (bytes : Bytes)
      → IsProcessed hex_encode hex_decode p
      → length bytes < 2 ^ 64
      → At 0 wire bytes
      → from_vec hex_encode hex_decode bytes ≡ ok normal
  unfolding from_vec
  from_vec-wire bytes is small whole =
      let runtime = serialize_runtime p.runtime_transaction in
      let n = to_le_bytes 8 (length runtime) in
      let txid = txid_bytes hex_encode hex_decode p.bitcoin_txid in
      let k = to_le_bytes 8 (length p.accounts_tags) in
      let tags = serialize_each (raw hex_encode hex_decode) p.accounts_tags in
      let status = serialize_status p.status in
      let widths = length-raw hex_encode hex_decode in
      let reads = hex_at-At hex_encode hex_decode in
      let width = length-to_le_bytes 8 (length runtime) in
      let width' = length-to_le_bytes 8 (length p.accounts_tags) in
      let tags_width =
        length-serialize_each (IsHex hex_encode hex_decode) (raw hex_encode hex_decode) 32 widths
          p.accounts_tags is.tags in
      let at_runtime =
        At-right n (runtime ++ (txid ++ tail)) whole {next = 8} (omega (arith, width)) in
      let at_txid =
        At-right runtime (txid ++ tail) at_runtime {next = 8 + length runtime} (omega arith) in
      let size = 8 + length runtime + length txid in
      let at_count = At-right txid tail at_txid {next = size} (omega arith) in
      let at_tags =
        At-right k (tags ++ status) at_count {next = size + 8} (omega (arith, width')) in
      let at_status =
        At-right tags status at_tags {next = size + 8 + length p.accounts_tags * 32}
          (omega (arith, tags_width)) in
      let itself : runtime_from_slice runtime ≡ ok p.runtime_transaction =
        rw (sym (append-nil runtime))
          (runtime_from_slice-serialize_runtime p.runtime_transaction [] is.runtime) in
      let many : length p.accounts_tags < 2 ^ 64 = omega (arith, At-length at_status, small) in
      rw
        (
          slice-At 8 width (At-left n (runtime ++ (txid ++ tail)) whole),
          from_le_bytes-to_le_bytes 8 (length runtime) (omega (arith, At-length at_txid, small)),
          data_at-At 8 runtime bytes (omega (arith, At-length at_txid, small))
              (At-left runtime (txid ++ tail) at_runtime),
          itself,
          txid_at-At hex_encode hex_decode p.bitcoin_txid is.txid bytes (8 + length runtime)
              (At-left txid tail at_txid),
          slice-At 8 width' (At-left k (tags ++ status) at_count),
          from_le_bytes-to_le_bytes 8 (length p.accounts_tags) (omega (arith, many)),
          parse_times-normal (rewritten hex_encode hex_decode) (IsHex hex_encode hex_decode)
              (raw hex_encode hex_decode) (hex_at hex_encode hex_decode) 32 widths reads
              p.accounts_tags is.tags bytes (size + 8) (At-left tags status at_tags),
          status_at-At p.status is.status bytes (size + 8 + length p.accounts_tags * 32) small
              at_status,
        )
        refl

-- A processed transaction serializes without an error, and is read back from its bytes, whatever follows
-- them, with each of its ids as the text that the hex crate writes for what the id decodes to (an
-- upper-case id comes back in lower case), when its runtime transaction keeps to its format, its ids
-- decode to 32 bytes each, the text of its error is UTF-8, and all the bytes are fewer than 2 ^ 64.
pub from_vec-to_vec :
    (hex_encode : Bytes → Bytes) (hex_decode : Bytes → Option Bytes) (p : ProcessedTransaction)
    (rest : Bytes)
    → IsProcessed hex_encode hex_decode p
    → length (wire hex_encode hex_decode p ++ rest) < 2 ^ 64
    → (bytes : Bytes) × (to_vec hex_encode hex_decode p ≡ ok bytes)
      × (from_vec hex_encode hex_decode (bytes ++ rest) ≡ ok (normal hex_encode hex_decode p))
from_vec-to_vec hex_encode hex_decode p rest is small =
    let bytes = wire hex_encode hex_decode p in
    (
      bytes,
      to_vec-eq-wire hex_encode hex_decode p is,
      from_vec-wire hex_encode hex_decode p (bytes ++ rest) is small (At-start bytes rest),
    )
