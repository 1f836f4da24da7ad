-- ===== src/Sdk/Wire/Transaction.antt =====
-- `TransactionToSign` (arch/program/src/transaction_to_sign.rs; clients have a copy in
-- arch/common/src/transaction_to_sign.rs), `Signature` and `RuntimeTransaction` (signature.rs and
-- runtime_transaction.rs of arch/common/src).
use chainring_contracts.Base.{ℕ, ◌+◌, ◌*◌, List, ◌++◌, length, ltb, if◌then◌else◌}
use chainring_contracts.Base.Bytes.{Bytes, to_le_bytes, from_le_bytes}
use chainring_contracts.Base.Outcome.{Result, ok, err, ◌>>=◌}
use chainring_contracts.External.{InputToSign}
use chainring_contracts.State.Raw.{ProgramResult, slice}
use chainring_contracts.Sdk.Wire.{byte_at, tail_from, parse_times, serialize_each}
use chainring_contracts.Sdk.Wire.Message.{Message, serialize_message, message_from_slice, pubkey_at}

pub record TransactionToSign : Type 0 where
  pub tx_bytes : Bytes
  pub inputs_to_sign : List InputToSign

abbrev pub serialise_input : InputToSign → Bytes
serialise_input i = to_le_bytes 4 i.index ++ i.signer

-- `TransactionToSign::serialise`
unfoldable pub serialise_to_sign : TransactionToSign → Bytes
serialise_to_sign t =
    to_le_bytes 4 (length t.tx_bytes)
    ++ (t.tx_bytes
        ++ (to_le_bytes 4 (length t.inputs_to_sign)
            ++ serialize_each serialise_input t.inputs_to_sign))

unfoldable pub input_at : Bytes → ℕ → ProgramResult InputToSign
input_at bytes size = do
  index ← slice size 4 bytes
  signer ← pubkey_at bytes (size + 4)
  ok (record { index = from_le_bytes index; signer = signer })

-- `TransactionToSign::from_slice`
unfoldable pub to_sign_from_slice : Bytes → ProgramResult TransactionToSign
to_sign_from_slice bytes = do
  tx_len ← slice 0 4 bytes
  tx_bytes ← slice 4 (from_le_bytes tx_len) bytes
  inputs_len ← slice (4 + from_le_bytes tx_len) 4 bytes
  inputs ← parse_times input_at 36 (from_le_bytes inputs_len) bytes (8 + from_le_bytes tx_len)
  ok (record { tx_bytes = tx_bytes; inputs_to_sign = inputs })

-- `Signature::from_slice`: the first 64 bytes.
unfoldable pub signature_from_slice : Bytes → ProgramResult Bytes
signature_from_slice = slice 0 64

unfoldable pub signature_at : Bytes → ℕ → ProgramResult Bytes
signature_at bytes size = slice size 64 bytes >>= signature_from_slice

pub record RuntimeTransaction : Type 0 where
  pub version : ℕ
  pub signatures : List Bytes
  pub message : Message

-- `RuntimeTransaction::serialize`
unfoldable pub serialize_runtime : RuntimeTransaction → Bytes
serialize_runtime t =
    to_le_bytes 4 t.version
    ++ (to_le_bytes 1 (length t.signatures)
        ++ (serialize_each (λ signature. signature) t.signatures ++ serialize_message t.message))

-- `RuntimeTransaction::from_slice`: the capacity of the vector is read from the byte behind the number
-- of signatures.
unfoldable pub runtime_from_slice : Bytes → ProgramResult RuntimeTransaction
runtime_from_slice bytes = do
  signatures_len ← byte_at 4 bytes
  _ ← byte_at 5 bytes
  signatures ← parse_times signature_at 64 signatures_len bytes 5
  tail ← tail_from (5 + signatures_len * 64) bytes
  message ← message_from_slice tail
  version ← slice 0 4 bytes
  ok (record { version = from_le_bytes version; signatures = signatures; message = message })

abbrev pub runtime_tx_size_limit : ℕ
runtime_tx_size_limit = 10240

-- `check_tx_size_limit`; the error carries a text, which is not kept.
unfoldable pub check_tx_size_limit : RuntimeTransaction → Result (Unit {0}) (Unit {0})
check_tx_size_limit t =
    if ltb runtime_tx_size_limit (length (serialize_runtime t)) then err tt else ok tt

-- `txid` and `hash`, over the hexadecimal digest of the sha256 crate.
module _ (digest : Bytes → Bytes) where
  unfoldable pub runtime_txid : RuntimeTransaction → Bytes
  runtime_txid t = digest (digest (serialize_runtime t))
