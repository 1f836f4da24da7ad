-- ===== src/Base/Bytes.antt =====
-- Byte strings as lists of numbers, little-endian integers, and writes into a byte slice.
pub mod Overwrite
use chainring_contracts.Base.Tests.{ltb, leb, ◌==◌, if◌then◌else◌, ==_iff}
use chainring_contracts.Base.Lists.{length, take, drop, All}
use Prim.Native.Nat.{ℕ, zero, suc, ◌+◌, ◌-◌, ◌*◌, ◌/◌, ◌%◌, ◌^◌, ◌≤◌, ◌<◌}
use mathlib.Core.Path.{◌≡◌, refl, ap}
use mathlib.Core.Logic.{◌↔◌, ◌≢◌}
use mathlib.Core.Bool.{Bool, true, false, ◌&&◌}
use mathlib.Core.List.{List, [], ◌∷◌, ◌++◌}
use native.Mathlib.Omega.{arith}
use native.Mathlib.Nat.{pow-suc}

abbrev pub Bytes : Type 0
Bytes = List ℕ

abbrev pub IsByte : ℕ → Type 0
IsByte b = b < 256

-- `a == b` on byte arrays, slices and strings.
unfoldable pub bytes_eq : Bytes → Bytes → Bool
bytes_eq [] [] = true
bytes_eq (a ∷ as') (b ∷ bs) = (a == b) && bytes_eq as' bs
bytes_eq _ _ = false

pub bytes_eq→eq : (a b : Bytes) → bytes_eq a b ≡ true → a ≡ b
unfolding bytes_eq
bytes_eq→eq [] [] h = refl
bytes_eq→eq (a ∷ as') (b ∷ bs) h = ground (arith, bytes_eq→eq as' bs)
bytes_eq→eq [] (b ∷ bs) h = cc
bytes_eq→eq (a ∷ as') [] h = cc

pub bytes_eq_refl : (a : Bytes) → bytes_eq a a ≡ true
unfolding bytes_eq
bytes_eq_refl [] = refl
bytes_eq_refl (a ∷ as') = ground (arith, bytes_eq_refl as')

pub bytes_eq_iff : (a b : Bytes) → (bytes_eq a b ≡ true) ↔ (a ≡ b)
bytes_eq_iff a b = (bytes_eq→eq a b, λ e. rw e (bytes_eq_refl b))

pub bytes_eq→ne : (a b : Bytes) → bytes_eq a b ≡ false → a ≢ b
bytes_eq→ne a b h e = let same : bytes_eq a b ≡ true = (bytes_eq_iff a b).1 e in cc

-- `v.to_le_bytes()` for an integer of `k` bytes.
unfoldable pub to_le_bytes : ℕ → ℕ → Bytes
to_le_bytes zero v = []
to_le_bytes (suc k) v = (v % 256) ∷ to_le_bytes k (v / 256)

-- `from_le_bytes`
unfoldable pub from_le_bytes : Bytes → ℕ
from_le_bytes [] = 0
from_le_bytes (b ∷ bs) = b + 256 * from_le_bytes bs

pub length-to_le_bytes : (k v : ℕ) → length (to_le_bytes k v) ≡ k
unfolding to_le_bytes
length-to_le_bytes zero v = refl
length-to_le_bytes (suc k) v = ap suc (length-to_le_bytes k (v / 256))

pub from_le_bytes-to_le_bytes : (k v : ℕ) → v < 256 ^ k → from_le_bytes (to_le_bytes k v) ≡ v
unfolding to_le_bytes from_le_bytes
from_le_bytes-to_le_bytes zero v h = omega arith
from_le_bytes-to_le_bytes (suc k) v h =
    let small : v / 256 < 256 ^ k = omega (arith, pow-suc 256 k) in
    omega (arith, from_le_bytes-to_le_bytes k (v / 256) small)

pub to_le_bytes-IsByte : (k v : ℕ) → All IsByte (to_le_bytes k v)
unfolding to_le_bytes
to_le_bytes-IsByte zero v = tt
to_le_bytes-IsByte (suc k) v = (omega arith, to_le_bytes-IsByte k (v / 256))

-- `data[off..off + bs.len()].copy_from_slice(bs)`, where the range lies within `data`.
unfoldable pub overwrite : ℕ → Bytes → Bytes → Bytes
overwrite off bs [] = []
overwrite (suc off) bs (x ∷ xs) = x ∷ overwrite off bs xs
overwrite zero [] (x ∷ xs) = x ∷ xs
overwrite zero (b ∷ bs) (x ∷ xs) = b ∷ overwrite zero bs xs
