-- ===== src/Sdk/Wire.antt =====
-- The byte format of the chain's messages (arch/program/src: pubkey.rs, account.rs, instruction.rs,
-- message.rs, utxo.rs, system_instruction.rs, transaction_to_sign.rs, and
-- arch/common/src/runtime_transaction.rs). A parser walks over the whole slice with an offset, and
-- panics where an index or a range is out of the slice.
pub mod Keys
pub mod Utxo
pub mod Message
pub mod Transaction
pub mod RoundTrip
pub mod Read
pub mod Messages
pub mod Signed
pub mod System
pub mod Processed
pub mod Ids
pub mod Results
mod Tests
use chainring_contracts.Base.{
  ℕ, zero, suc, ◌+◌, none, some, List, [], ◌∷◌, ◌++◌, length, drop, leb, get_elem?, if◌then◌else◌,
}
use chainring_contracts.Base.Bytes.{Bytes}
use chainring_contracts.Base.Outcome.{ok, panic, ◌>>=◌}
use chainring_contracts.State.Raw.{ProgramResult}

-- `data[i]`
unfoldable pub byte_at : ℕ → Bytes → ProgramResult ℕ
byte_at i data_ = elim (get_elem? data_ i) [ some b ↦ ok b | none ↦ panic ]

-- `&data[from..]`
unfoldable pub tail_from : ℕ → Bytes → ProgramResult Bytes
tail_from from data_ = if leb from (length data_) then ok (drop from data_) else panic

-- `for _ in 0..count { push(parse at size); size += width }`
unfoldable pub parse_times :
    {A : Type 0} → (Bytes → ℕ → ProgramResult A) → ℕ → ℕ → Bytes → ℕ → ProgramResult (List A)
parse_times parse width zero data_ size = ok []
parse_times parse width (suc count) data_ size = do
  a ← parse data_ size
  rest ← parse_times parse width count data_ (size + width)
  ok (a ∷ rest)

-- `for a in list { serialized.extend(&a.serialize()) }`
unfoldable pub serialize_each : {A : Type 0} → (A → Bytes) → List A → Bytes
serialize_each serialize [] = []
serialize_each serialize (a ∷ rest) = serialize a ++ serialize_each serialize rest
