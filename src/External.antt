-- ===== src/External.antt =====
-- What the contract calls and this repository does not implement: the crates `bitcoin`, `ordinals`,
-- `sha256` and `hex`, and the host's syscalls behind arch/program/src/program.rs. The functions of
-- the model that use one of them take an `External`.
use chainring_contracts.Base.{ℕ, Bool, Option, List}
use chainring_contracts.Base.Bytes.{Bytes}
use chainring_contracts.Types.{NetworkType, Pubkey}

-- `ordinals::RuneId`
pub record RuneId : Type 0 where
  pub block : ℕ
  pub tx : ℕ

-- `ordinals::Edict`
pub record Edict : Type 0 where
  pub id : RuneId
  pub amount : ℕ
  pub output : ℕ

-- `bitcoin::TxIn`, with its previous output in the order of `UtxoMeta`.
pub record TxIn : Type 0 where
  pub txid : Bytes
  pub vout : ℕ
  pub script_sig : Bytes
  pub sequence : ℕ
  pub witness : List Bytes

-- `bitcoin::TxOut`
pub record TxOut : Type 0 where
  pub value : ℕ
  pub script_pubkey : Bytes

-- `bitcoin::Transaction`
pub record Transaction : Type 0 where
  pub version : ℕ
  pub lock_time : ℕ
  pub input : List TxIn
  pub output : List TxOut

-- arch/program/src/input_to_sign.rs
pub record InputToSign : Type 0 where
  pub index : ℕ
  pub signer : Pubkey

pub record External : Type 0 where
  -- `RuneId::from_str`
  pub rune_id_from_str : Bytes → Option RuneId
  -- Does `Address::from_str` succeed, and then `require_network`?
  pub is_address : Bytes → Bool
  pub is_address_on : NetworkType → Bytes → Bool
  -- `script_pubkey` of an address that passes both.
  pub script_pubkey : Bytes → Bytes
  -- `hex::decode(sha256::digest(data))`
  pub sha256 : Bytes → Bytes
  -- `hex::decode` into an array of 32 bytes.
  pub hex_decode_32 : Bytes → Option Bytes
  -- `bitcoin::consensus::deserialize` and `serialize` of a transaction, and `compute_txid`.
  pub deserialize_tx : Bytes → Option Transaction
  pub serialize_tx : Transaction → Bytes
  pub compute_txid : Transaction → Bytes
  -- `Runestone { edicts, .. }.encipher().to_bytes()`
  pub encipher : List Edict → Bytes
  -- The elements of a `HashSet<RuneId>` made from a list, in the order that its iterator takes.
  pub hash_set_order : List RuneId → List RuneId
  -- `get_account_script_pubkey` and `get_bitcoin_tx`
  pub account_script_pubkey : Pubkey → Bytes
  pub bitcoin_tx : Bytes → Option Bytes
  -- The result code of the syscall `arch_set_transaction_to_sign`; 0 is success.
  pub set_transaction_to_sign_code : Bytes → List InputToSign → ℕ
