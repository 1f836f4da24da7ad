-- ===== src/Base/Bytes/Overwrite.antt =====
-- Reads of a byte slice after a write to a range of it: the range itself, and what lies before or
-- behind it.
use chainring_contracts.Base.Lists.{length, take, drop}
use chainring_contracts.Base.Bytes.{Bytes, overwrite}
use Prim.Native.Nat.{ℕ, zero, suc, ◌+◌, ◌≤◌}
use mathlib.Core.Path.{◌≡◌, refl, ap}
use mathlib.Core.List.{[], ◌∷◌, ◌++◌}
use native.Mathlib.Omega.{arith}
use native.Mathlib.Nat.{zero-add}

pub length-overwrite : (off : ℕ) (bs xs : Bytes) → length (overwrite off bs xs) ≡ length xs
unfolding overwrite
length-overwrite off bs [] = refl
length-overwrite (suc off) bs (x ∷ xs) = ap suc (length-overwrite off bs xs)
length-overwrite zero [] (x ∷ xs) = refl
length-overwrite zero (b ∷ bs) (x ∷ xs) = ap suc (length-overwrite zero bs xs)

-- What was written is read back.
pub take-drop-overwrite :
    (off n : ℕ) (bs xs : Bytes)
    → length bs ≡ n
    → off + n ≤ length xs
    → take n (drop off (overwrite off bs xs)) ≡ bs
unfolding overwrite
take-drop-overwrite (suc off) n bs [] e h = absurd (omega arith)
take-drop-overwrite (suc off) n bs (x ∷ xs) e h = take-drop-overwrite off n bs xs e (omega arith)
take-drop-overwrite zero zero [] xs e h = refl
take-drop-overwrite zero zero (b ∷ bs) xs e h = absurd (omega arith)
take-drop-overwrite zero (suc n) [] xs e h = absurd (omega arith)
take-drop-overwrite zero (suc n) (b ∷ bs) [] e h = absurd (omega arith)
take-drop-overwrite zero (suc n) (b ∷ bs) (x ∷ xs) e h =
    ap (λ t. b ∷ t) (take-drop-overwrite zero n bs xs (omega arith) (omega arith))

-- A read that ends where the write begins, or earlier, sees the old bytes.
pub take-drop-overwrite_before :
    (m n off : ℕ) (bs xs : Bytes)
    → m + n ≤ off
    → take n (drop m (overwrite off bs xs)) ≡ take n (drop m xs)
unfolding overwrite
take-drop-overwrite_before m n off bs [] h = refl
take-drop-overwrite_before (suc m) n zero bs (x ∷ xs) h = absurd (omega arith)
take-drop-overwrite_before (suc m) n (suc off) bs (x ∷ xs) h =
    take-drop-overwrite_before m n off bs xs (omega arith)
take-drop-overwrite_before zero zero off bs (x ∷ xs) h = refl
take-drop-overwrite_before zero (suc n) zero bs (x ∷ xs) h = absurd (omega arith)
take-drop-overwrite_before zero (suc n) (suc off) bs (x ∷ xs) h =
    ap (λ t. x ∷ t) (take-drop-overwrite_before zero n off bs xs (omega arith))

-- Behind the write the old bytes stay.
pub drop-overwrite_behind :
    (m off : ℕ) (bs xs : Bytes) → off + length bs ≤ m → drop m (overwrite off bs xs) ≡ drop m xs
unfolding overwrite
drop-overwrite_behind m off bs [] h = refl
drop-overwrite_behind zero zero [] (x ∷ xs) h = refl
drop-overwrite_behind zero zero (b ∷ bs) (x ∷ xs) h = absurd (omega arith)
drop-overwrite_behind zero (suc off) bs (x ∷ xs) h = absurd (omega arith)
drop-overwrite_behind (suc m) zero [] (x ∷ xs) h = refl
drop-overwrite_behind (suc m) zero (b ∷ bs) (x ∷ xs) h =
    drop-overwrite_behind m zero bs xs (omega arith)
drop-overwrite_behind (suc m) (suc off) bs (x ∷ xs) h =
    drop-overwrite_behind m off bs xs (omega arith)

-- A write into the first part of a concatenation leaves the second.
pub overwrite-append :
    (off : ℕ) (bs xs ys : Bytes)
    → off + length bs ≤ length xs
    → overwrite off bs (xs ++ ys) ≡ overwrite off bs xs ++ ys
unfolding overwrite
overwrite-append zero [] [] [] h = refl
overwrite-append zero [] [] (y ∷ ys) h = refl
overwrite-append zero [] (x ∷ xs) ys h = refl
overwrite-append zero (b ∷ bs) [] ys h = absurd (omega arith)
overwrite-append zero (b ∷ bs) (x ∷ xs) ys h =
    ap (λ t. b ∷ t) (overwrite-append zero bs xs ys (omega arith))
overwrite-append (suc off) bs [] ys h = absurd (omega arith)
overwrite-append (suc off) bs (x ∷ xs) ys h =
    ap (λ t. x ∷ t) (overwrite-append off bs xs ys (omega arith))

-- A write behind the first part of a concatenation goes to the second.
pub overwrite-append_behind :
    (off k : ℕ) (bs xs ys : Bytes)
    → length xs ≡ k
    → overwrite (k + off) bs (xs ++ ys) ≡ xs ++ overwrite off bs ys
unfolding overwrite
overwrite-append_behind off zero bs [] ys h = rw zero-add
overwrite-append_behind off (suc k) bs [] ys h = absurd (omega arith)
overwrite-append_behind off zero bs (x ∷ xs) ys h = absurd (omega arith)
overwrite-append_behind off (suc k) bs (x ∷ xs) ys h =
    rw suc_add (ap (λ t. x ∷ t) (overwrite-append_behind off k bs xs ys (omega arith)))
  where
    suc_add : suc k + off ≡ suc (k + off)
    suc_add = omega arith
