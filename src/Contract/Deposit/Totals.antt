-- ===== src/Contract/Deposit/Totals.antt =====
-- Batches of increments and decrements against the sum of a token account's balances: no batch
-- creates or destroys an amount.
use chainring_contracts.Base.{
  ℕ, ◌+◌, ◌-◌, ◌^◌, ◌<◌, ◌≡◌, inl, inr, ◌∙◌, refl, ap, true, false, List, [], ◌∷◌, arith,
}
use chainring_contracts.Base.Bytes.{Bytes}
use chainring_contracts.Base.Outcome.{ok, passed}
use chainring_contracts.Types.{Adjustment, AddressIndex}
use chainring_contracts.State.Raw.{ProgramResult}
use chainring_contracts.State.Token.{
  get_num_balances, get_wallet_balance, increment_wallet_balance, decrement_wallet_balance,
}
use chainring_contracts.State.Token.Adjust.{
  total, total-Stores, amount-le-total, increment_wallet_balance_lem, decrement_wallet_balance_lem,
}
use chainring_contracts.Sdk.Account.{Store, ◌>>=◌, read, write}
use chainring_contracts.Sdk.Account.Laws.{bind_inv, read_inv, write_inv}
use chainring_contracts.Contract.Validate.{get_validated_index}
use chainring_contracts.Contract.Deposit.{
  adjust_balance, handle_adjustments, handle_increments, handle_decrements,
}

-- The sum of the amounts of a batch.
unfoldable pub sum_amounts : List Adjustment → ℕ
sum_amounts [] = 0
sum_amounts (adjustment ∷ rest) = adjustment.amount + sum_amounts rest

-- A validated index is that of an entry of the account.
pub get_validated_index-lt :
    (bs : Bytes) (address_index : AddressIndex) {n i : ℕ}
    → get_num_balances bs ≡ ok n
    → get_validated_index bs address_index ≡ ok i
    → i < n
unfolding get_validated_index
get_validated_index-lt bs address_index held h = ground arith

-- An increment that succeeds adds to the sum, when the new sum fits in 64 bits.
increment-total :
    (i a n : ℕ) (bs : Bytes) {bs' : Bytes}
    → i < n
    → total n bs + a < 2 ^ 64
    → increment_wallet_balance i a bs ≡ ok bs'
    → (get_num_balances bs' ≡ get_num_balances bs) × (total n bs' ≡ total n bs + a)
unfolding increment_wallet_balance
increment-total i a n bs {bs' = bs'} lt fits h =
    let (b, held, _) = passed _ (get_wallet_balance i bs) h in
    let below = amount-le-total i b n bs held lt in
    let (bs'', done, stored) = increment_wallet_balance_lem i b a bs held (omega arith) in
    let same : bs'' ≡ bs' = cc in
    let sum = total-Stores i b (b + a) bs bs'' held stored n lt in
    rw (← same) (stored.1.entries.num_balances, omega (arith, sum))

-- A decrement that succeeds takes from the sum.
decrement-total :
    (i a n : ℕ) (bs : Bytes) {bs' : Bytes}
    → i < n
    → total n bs < 2 ^ 64
    → decrement_wallet_balance i a bs ≡ ok bs'
    → (get_num_balances bs' ≡ get_num_balances bs) × (total n bs' + a ≡ total n bs)
unfolding decrement_wallet_balance
decrement-total i a n bs {bs' = bs'} lt fits h =
    let (b, held, _) = passed _ (get_wallet_balance i bs) h in
    let below = amount-le-total i b n bs held lt in
    elim (decrement_wallet_balance_lem i b a bs held (omega arith)) [
      | inl (covered, bs'', done, stored) ↦
          let same : bs'' ≡ bs' = cc in
          let sum = total-Stores i b (b - a) bs bs'' held stored n lt in
          rw (← same) (stored.1.entries.num_balances, omega (arith, sum))
      | inr (short, refused) ↦ absurd cc
    ]

-- An adjustment that succeeds has checked the index of its entry and stored the new data.
module _ (p : ℕ) (adjustment : Adjustment) (s : Store) {s' : Store} where
  adjust_inv :
      (f : ℕ → Bytes → ProgramResult Bytes)
      → (read (λ bs. get_validated_index bs adjustment.address_index) p >>= λ i. write (f i) p) s
        ≡ (ok tt, s')
      → (i : ℕ) × (get_validated_index (s p).data_ adjustment.address_index ≡ ok i)
        × (f i (s p).data_ ≡ ok (s' p).data_)
  adjust_inv f h =
      let check : Bytes → ProgramResult ℕ = λ bs. get_validated_index bs adjustment.address_index in
      let (i, t, looked, wrote) = bind_inv (λ i. write (f i) p) (read check p) s h in
      let (checked, same) = read_inv check p s looked in
      let (bs, done, w) = write_inv (f i) p t wrote in (i, checked, rw (same, w.data_at) done)

-- An account whose `n` entries hold `sum`.
abbrev pub Holds : ℕ → ℕ → Bytes → Type 0
Holds n sum bs = (get_num_balances bs ≡ ok n) × (total n bs ≡ sum)

module _ (p n : ℕ) where
  increment-Holds :
      (adjustment : Adjustment) (s : Store) {t : Store} (sum : ℕ)
      → Holds n sum (s p).data_
      → sum + adjustment.amount < 2 ^ 64
      → adjust_balance p true adjustment s ≡ (ok tt, t)
      → Holds n (sum + adjustment.amount) (t p).data_
  unfolding adjust_balance
  increment-Holds adjustment s sum (counted, summed) fits h =
      let a = adjustment.amount in
      let (i, checked, done) = adjust_inv p adjustment s (λ i. increment_wallet_balance i a) h in
      let lt = get_validated_index-lt (s p).data_ adjustment.address_index counted checked in
      let (entries, added) =
        increment-total i a n (s p).data_ lt (omega (arith, summed, fits)) done in
      (entries ∙ counted, omega (arith, added, summed))

  decrement-Holds :
      (adjustment : Adjustment) (s : Store) {t : Store} (sum : ℕ)
      → Holds n sum (s p).data_
      → sum < 2 ^ 64
      → adjust_balance p false adjustment s ≡ (ok tt, t)
      → (left : ℕ) × (left + adjustment.amount ≡ sum) × Holds n left (t p).data_
  unfolding adjust_balance
  decrement-Holds adjustment s {t = t} sum (counted, summed) fits h =
      let a = adjustment.amount in
      let (i, checked, done) = adjust_inv p adjustment s (λ i. decrement_wallet_balance i a) h in
      let lt = get_validated_index-lt (s p).data_ adjustment.address_index counted checked in
      let (entries, taken) =
        decrement-total i a n (s p).data_ lt (omega (arith, summed, fits)) done in
      (total n (t p).data_, omega (arith, taken, summed), (entries ∙ counted, refl))

  -- A batch of increments that succeeds adds its amounts to the sum of the account's balances, when
  -- the new sum fits in 64 bits, and leaves the number of its entries.
  pub handle_increments-Holds :
      (adjustments : List Adjustment) (s : Store) {s' : Store} (sum : ℕ)
      → Holds n sum (s p).data_
      → sum + sum_amounts adjustments < 2 ^ 64
      → handle_increments p adjustments s ≡ (ok tt, s')
      → Holds n (sum + sum_amounts adjustments) (s' p).data_
  unfolding handle_adjustments sum_amounts
  handle_increments-Holds [] s {s' = s'} sum (counted, summed) fits h =
      let same : s ≡ s' = ap (λ q. q.1) h in rw (← same) (counted, omega (arith, summed))
  handle_increments-Holds (adjustment ∷ rest) s sum held fits h =
      let (_, t, first, later) =
        bind_inv (λ _. handle_increments p rest) (adjust_balance p true adjustment) s h in
      let a = adjustment.amount in
      let next = increment-Holds adjustment s sum held (omega (arith, fits)) first in
      let (counted, summed) =
        handle_increments-Holds rest t (sum + a) next (omega (arith, fits)) later in
      (counted, omega (arith, summed))

  -- A batch of decrements that succeeds takes exactly its amounts from the sum of the account's
  -- balances, when that sum fits in 64 bits, and leaves the number of its entries.
  pub handle_decrements-Holds :
      (adjustments : List Adjustment) (s : Store) {s' : Store} (sum : ℕ)
      → Holds n sum (s p).data_
      → sum < 2 ^ 64
      → handle_decrements p adjustments s ≡ (ok tt, s')
      → (left : ℕ) × (left + sum_amounts adjustments ≡ sum) × Holds n left (s' p).data_
  unfolding handle_adjustments sum_amounts
  handle_decrements-Holds [] s {s' = s'} sum (counted, summed) fits h =
      let same : s ≡ s' = ap (λ q. q.1) h in rw (← same) (sum, omega arith, (counted, summed))
  handle_decrements-Holds (adjustment ∷ rest) s sum held fits h =
      let (_, t, first, later) =
        bind_inv (λ _. handle_decrements p rest) (adjust_balance p false adjustment) s h in
      let (left, taken, next) = decrement-Holds adjustment s sum held fits first in
      let (left', taken', last) =
        handle_decrements-Holds rest t left next (omega (arith, taken, fits)) later in
      (left', omega (arith, taken, taken'), last)
