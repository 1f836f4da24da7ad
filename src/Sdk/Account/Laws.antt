-- ===== src/Sdk/Account/Laws.antt =====
-- Runs that succeed, taken apart: what each step of a computation over the accounts gave, and which
-- account a write has changed.
use chainring_contracts.Base.{ℕ, ◌≡◌, ◌≢◌, refl, ap, true, ◌==◌, arith}
use chainring_contracts.Base.Bytes.{Bytes}
use chainring_contracts.Base.Outcome.{ProgramError, ok, err, panic}
use chainring_contracts.State.Raw.{ProgramResult}
use chainring_contracts.Sdk.Account.{
  Store, M, update, continue, raise, replace, with_data, ◌>>=◌, read, write,
}

module _ {A C : Type 0} (next : A → M C) {c : C} {s' : Store} where
  continue_inv :
      (r : ProgramResult A × Store)
      → continue next r ≡ (ok c, s')
      → (a : A) × (t : Store) × (r ≡ (ok a, t)) × (next a t ≡ (ok c, s'))
  continue_inv (ok a, t) h = (a, t, refl, h)
  continue_inv (err e, t) h = cc
  continue_inv (panic, t) h = cc

  -- A sequence that succeeds has two steps that do.
  pub bind_inv :
      (step : M A) (s : Store)
      → (step >>= next) s ≡ (ok c, s')
      → (a : A) × (t : Store) × (step s ≡ (ok a, t)) × (next a t ≡ (ok c, s'))
  bind_inv step s h = continue_inv (step s) h

module _ {A : Type 0} (f : Bytes → ProgramResult A) (p : ℕ) (s : Store) {a : A} {s' : Store} where
  -- A read that succeeds leaves the store.
  pub read_inv : read f p s ≡ (ok a, s') → (f (s p).data_ ≡ ok a) × (s ≡ s')
  read_inv h = (ap (λ q. q.0) h, ap (λ q. q.1) h)

-- The data at one place has become `bs`, its key is the same, and so is every other account.
pub record Wrote (p : ℕ) (bs : Bytes) (s s' : Store) : Type 0 where
  pub data_at : (s' p).data_ ≡ bs
  pub key_at : (s' p).key ≡ (s p).key
  pub elsewhere : (q : ℕ) → q ≢ p → s' q ≡ s q

update-Wrote :
    (p : ℕ) (bs : Bytes) (s : Store) → Wrote p bs s (update p (record (s p) { data_ = bs }) s)
update-Wrote p bs s =
    let here : (p == p) ≡ true = ground arith in
    record { data_at = rw here refl; key_at = rw here refl; elsewhere = λ q ne. ground arith }

replace_inv :
    (p : ℕ) (s : Store) {s' : Store} (r : ProgramResult Bytes)
    → replace p (with_data (s p) r) s ≡ (ok tt, s')
    → (bs : Bytes) × (r ≡ ok bs) × Wrote p bs s s'
replace_inv p s (ok bs) h =
    let same = ap (λ q. q.1) h in (bs, refl, rw (← same) (update-Wrote p bs s))
replace_inv p s (err e) h = cc
replace_inv p s panic h = cc

-- A write that succeeds has computed the new data of its account.
pub write_inv :
    (f : Bytes → ProgramResult Bytes) (p : ℕ) (s : Store) {s' : Store}
    → write f p s ≡ (ok tt, s')
    → (bs : Bytes) × (f (s p).data_ ≡ ok bs) × Wrote p bs s s'
write_inv f p s h = replace_inv p s (f (s p).data_) h

-- A computation that raises an error does not succeed.
pub refused :
    {A : Type 0} {e : ProgramError} {s s' : Store} {a : A} → raise {A = A} e s ≡ (ok a, s') → ⊥
refused h = cc
