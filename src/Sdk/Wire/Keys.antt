-- ===== src/Sdk/Wire/Keys.antt =====
-- `Pubkey` (pubkey.rs) and `AccountMeta` (account.rs) of arch/program/src.
use chainring_contracts.Base.{
  ℕ, ◌-◌, Bool, not, [], ◌∷◌, ◌++◌, length, replicate, leb, ◌==◌, if◌then◌else◌,
}
use chainring_contracts.Base.Bytes.{Bytes, bytes_eq}
use chainring_contracts.Base.Outcome.{ok, panic, ◌>>=◌}
use chainring_contracts.Types.{Pubkey}
use chainring_contracts.State.Raw.{ProgramResult, slice}
use chainring_contracts.Sdk.Wire.{byte_at}

-- `Pubkey::from_slice`: shorter data is filled up with zeros, longer data panics.
unfoldable pub pubkey_from_slice : Bytes → ProgramResult Pubkey
pubkey_from_slice data_ =
    if leb (length data_) 32 then ok (data_ ++ replicate (32 - length data_) 0) else panic

abbrev pub system_program : Pubkey
system_program = replicate 31 0 ++ 1 ∷ []

unfoldable pub is_system_program : Pubkey → Bool
is_system_program key = bytes_eq key system_program

pub record AccountMeta : Type 0 where
  pub pubkey : Pubkey
  pub is_signer : Bool
  pub is_writable : Bool

-- `b as u8`
abbrev pub bool_byte : Bool → ℕ
bool_byte b = if b then 1 else 0

-- `AccountMeta::serialize`
unfoldable pub serialize_meta : AccountMeta → Bytes
serialize_meta m = m.pubkey ++ bool_byte m.is_signer ∷ bool_byte m.is_writable ∷ []

-- `AccountMeta::from_slice`
unfoldable pub meta_from_slice : Bytes → ProgramResult AccountMeta
meta_from_slice data_ = do
  key ← slice 0 32 data_
  pubkey ← pubkey_from_slice key
  signer ← byte_at 32 data_
  writable ← byte_at 33 data_
  ok (record { pubkey = pubkey; is_signer = not (signer == 0); is_writable = not (writable == 0) })
