-- ===== src/Sdk/Wire/Processed.antt =====
-- `ProcessedTransaction` (arch/common/src/processed_transaction.rs). Its ids are hexadecimal texts, which
-- the hex crate encodes and decodes; both functions are parameters. An error of `anyhow` has a text,
-- which is not kept.
use chainring_contracts.Base.{
  ℕ, ◌+◌, ◌*◌, Option, none, some, List, [], ◌∷◌, ◌++◌, length, ◌==◌, if◌then◌else◌,
}
use chainring_contracts.Base.Bytes.{Bytes, to_le_bytes, from_le_bytes}
use chainring_contracts.Base.Outcome.{Result, ok, err, panic, unwrap, ◌>>=◌}
use chainring_contracts.Codec.Io.Utf8.{from_utf8}
use chainring_contracts.State.Raw.{ProgramResult, slice}
use chainring_contracts.Sdk.Wire.{byte_at, parse_times}
use chainring_contracts.Sdk.Wire.Message.{data_at}
use chainring_contracts.Sdk.Wire.Transaction.{
  RuntimeTransaction, serialize_runtime, runtime_from_slice,
}

abbrev pub AnyResult : Type 0 → Type 0
AnyResult A = Result (Unit {0}) A

pub data Status : Type 0 where
  processing processed : Status
  failed : Bytes → Status

pub record ProcessedTransaction : Type 0 where
  pub runtime_transaction : RuntimeTransaction
  pub status : Status
  pub bitcoin_txid : Option Bytes
  pub accounts_tags : List Bytes

-- `serialized.extend(match &self.status { ... })`
unfoldable pub serialize_status : Status → Bytes
serialize_status processing = 0 ∷ []
serialize_status processed = 1 ∷ []
serialize_status (failed error) = 2 ∷ (to_le_bytes 8 (length error) ++ error)

-- `match data[size] { ... }`: bytes that are no UTF-8 are an error, another status panics.
unfoldable pub status_at : Bytes → ℕ → AnyResult Status
status_at bytes size = do
  kind ← unwrap (byte_at size bytes)
  if kind == 0
      then ok processing
      else if kind == 1
      then ok processed
      else if kind == 2
      then (do
        len ← unwrap (slice (size + 1) 8 bytes)
        error ← unwrap (data_at (size + 9) (from_le_bytes len) bytes)
        if from_utf8 error then ok (failed error) else err tt)
      else panic

module _ (hex_encode : Bytes → Bytes) (hex_decode : Bytes → Option Bytes) where
  -- `hex::decode(...)?`
  unfoldable pub decode_hex : Bytes → AnyResult Bytes
  decode_hex text = elim (hex_decode text) [ none ↦ err tt | some bytes ↦ ok bytes ]

  unfoldable pub serialize_txid : Option Bytes → AnyResult Bytes
  serialize_txid none = ok (0 ∷ [])
  serialize_txid (some txid) = do bytes ← decode_hex txid; ok (1 ∷ bytes)

  unfoldable pub serialize_tags : List Bytes → AnyResult Bytes
  serialize_tags [] = ok []
  serialize_tags (tag ∷ rest) = do
    bytes ← decode_hex tag
    tags ← serialize_tags rest
    ok (bytes ++ tags)

  unfoldable pub to_vec : ProcessedTransaction → AnyResult Bytes
  to_vec p = do
    let runtime = serialize_runtime p.runtime_transaction
    txid ← serialize_txid p.bitcoin_txid
    tags ← serialize_tags p.accounts_tags
    ok (
        to_le_bytes 8 (length runtime)
        ++ (runtime
            ++ (txid
                ++ (to_le_bytes 8 (length p.accounts_tags)
                    ++ (tags ++ serialize_status p.status)))))

  -- `hex::encode(&data[size..(size + 32)])`
  unfoldable pub hex_at : Bytes → ℕ → ProgramResult Bytes
  hex_at bytes size = slice size 32 bytes >>= λ id. ok (hex_encode id)

  -- The optional id, and the offset behind it.
  unfoldable pub txid_at : Bytes → ℕ → ProgramResult (Option Bytes × ℕ)
  txid_at bytes size = do
    present ← byte_at size bytes
    if present == 1
        then (hex_at bytes (size + 1) >>= λ id. ok (some id, size + 33))
        else ok (none, size + 1)

  unfoldable pub from_vec : Bytes → AnyResult ProcessedTransaction
  from_vec bytes = do
    len ← unwrap (slice 0 8 bytes)
    runtime ← unwrap (data_at 8 (from_le_bytes len) bytes)
    runtime_transaction ← unwrap (runtime_from_slice runtime)
    (bitcoin_txid, size) ← unwrap (txid_at bytes (8 + from_le_bytes len))
    tags_len ← unwrap (slice size 8 bytes)
    tags ← unwrap (parse_times hex_at 32 (from_le_bytes tags_len) bytes (size + 8))
    status ← status_at bytes (size + 8 + from_le_bytes tags_len * 32)
    ok (record {
      runtime_transaction = runtime_transaction;
      status = status;
      bitcoin_txid = bitcoin_txid;
      accounts_tags = tags;
    })
