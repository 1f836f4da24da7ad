-- ===== src/State/Token/Adjust.antt =====
-- Increments and decrements of one balance, on every branch, and their effect on the sum of the
-- balances of a token account.
use chainring_contracts.Base.{
  ℕ, zero, suc, ◌+◌, ◌-◌, ◌%◌, ◌^◌, ◌≤◌, ◌<◌, ◌≡◌, ◌≢◌, ◌⊎◌, inl, inr, refl, true, false, length,
  ltb, arith, ◌∙◌,
}
use chainring_contracts.Base.Bytes.{Bytes, to_le_bytes, length-to_le_bytes, overwrite}
use chainring_contracts.Base.Outcome.{ProgramError, Result, ok, err, custom, ◌>>=◌}
use chainring_contracts.Constants.{error_insufficient_balance}
use chainring_contracts.State.Raw.{slice}
use chainring_contracts.State.Raw.Laws.{write_at-eq-ok}
use chainring_contracts.State.Token.{
  get_wallet_balance, set_wallet_balance, increment_wallet_balance, decrement_wallet_balance,
}
use chainring_contracts.State.Token.Balances.{SameBut, set_wallet_balance-SameBut, amount_offset}

-- A balance that is read lies within the data, so it can be written.
set_wallet_balance-after-get :
    (i b v : ℕ) (bs : Bytes)
    → get_wallet_balance i bs ≡ ok b
    → (bs' : Bytes) × (set_wallet_balance i v bs ≡ ok bs')
unfolding get_wallet_balance slice set_wallet_balance
set_wallet_balance-after-get i b v bs h =
    let fits : amount_offset i + 8 ≤ length bs = ground arith in
    (
      overwrite (amount_offset i) (to_le_bytes 8 v) bs,
      write_at-eq-ok (amount_offset i) (to_le_bytes 8 v) bs (rw (length-to_le_bytes 8 v) fits),
    )

-- The account after the amount of entry `i` has become `v`.
abbrev pub Stores : ℕ → ℕ → Bytes → Bytes → Type 0
Stores i v bs bs' = (get_wallet_balance i bs' ≡ ok v) × SameBut i bs bs'

module _ (i b a : ℕ) (bs : Bytes) (held : get_wallet_balance i bs ≡ ok b) where
  increment_step :
      b + a < 2 ^ 64 → increment_wallet_balance i a bs ≡ set_wallet_balance i (b + a) bs
  unfolding increment_wallet_balance
  increment_step h =
      let fits : (b + a) % 2 ^ 64 ≡ b + a = omega arith in rw (held, ◌>>=◌, fits) refl

  decrement_step : a ≤ b → decrement_wallet_balance i a bs ≡ set_wallet_balance i (b - a) bs
  unfolding decrement_wallet_balance
  decrement_step h = let t : ltb b a ≡ false = ground arith in rw (held, ◌>>=◌, t) refl

  decrement_short :
      b < a → decrement_wallet_balance i a bs ≡ err (custom error_insufficient_balance)
  unfolding decrement_wallet_balance
  decrement_short h = let t : ltb b a ≡ true = ground arith in rw (held, ◌>>=◌, t) refl

  -- For a balance `b` that is read from the account, an increment whose sum fits in 64 bits succeeds,
  -- adds the adjustment to that balance, and leaves every other part of the account as it is.
  pub increment_wallet_balance_lem :
      b + a < 2 ^ 64
      → (bs' : Bytes) × (increment_wallet_balance i a bs ≡ ok bs') × Stores i (b + a) bs bs'
  increment_wallet_balance_lem h =
      let (bs', written) = set_wallet_balance-after-get i b (b + a) bs held in
      (bs', increment_step h ∙ written, set_wallet_balance-SameBut i (b + a) bs written h)

  -- For a balance `b` that is read from the account and fits in 64 bits, a decrement that it covers
  -- succeeds, subtracts the adjustment, and leaves every other part of the account as it is; any other
  -- decrement is refused with `ERROR_INSUFFICIENT_BALANCE`.
  pub decrement_wallet_balance_lem :
      b < 2 ^ 64
      → ((a ≤ b)
          × (bs' : Bytes) × (decrement_wallet_balance i a bs ≡ ok bs')
          × Stores i (b - a) bs bs')
        ⊎ ((b < a) × (decrement_wallet_balance i a bs ≡ err (custom error_insufficient_balance)))
  decrement_wallet_balance_lem h =
      let order : (a ≤ b) ⊎ (b < a) = grind arith in
      elim order [
        | inl covered ↦
            let (bs', written) = set_wallet_balance-after-get i b (b - a) bs held in
            inl (
              covered,
              bs',
              decrement_step covered ∙ written,
              set_wallet_balance-SameBut i (b - a) bs written (omega arith),
            )
        | inr short ↦ inr (short, decrement_short short)
      ]

-- The sum of the first `n` balances; one that lies outside the data counts as 0.
unfoldable pub amount_of : Result ProgramError ℕ → ℕ
amount_of (ok v) = v
amount_of _ = 0

unfoldable pub total : ℕ → Bytes → ℕ
total zero bs = 0
total (suc n) bs = total n bs + amount_of (get_wallet_balance n bs)

module _ (i b v : ℕ) (bs bs' : Bytes) (held : get_wallet_balance i bs ≡ ok b)
    (st : Stores i v bs bs') where
  total_before : (n : ℕ) → n ≤ i → total n bs' ≡ total n bs
  unfolding total
  total_before zero h = refl
  total_before (suc n) h =
      let ne : n ≢ i = omega arith in rw (total_before n (omega arith), st.1.others n ne) refl

  -- When the amount of entry `i` was `b`, is now `v` and all else is as it was, the sum of the first
  -- `n` balances, that one among them, changes by the difference.
  pub total-Stores : (n : ℕ) → i < n → total n bs' + b ≡ total n bs + v
  unfolding total amount_of
  total-Stores zero h = absurd (omega arith)
  total-Stores (suc n) h = elim (lt_or_eq n h) [
    | inl earlier ↦
        let ne : n ≢ i = omega arith in
        rw (st.1.others n ne) (omega (arith, total-Stores n earlier))
    | inr same ↦ rw (same, st.0, held) (omega (arith, total_before i (omega arith)))
  ]
    where
      lt_or_eq : (n : ℕ) → i < suc n → (i < n) ⊎ (n ≡ i)
      lt_or_eq n h = grind arith

-- No balance exceeds the sum.
pub amount-le-total :
    (i b n : ℕ) (bs : Bytes) → get_wallet_balance i bs ≡ ok b → i < n → b ≤ total n bs
unfolding total amount_of
amount-le-total i b zero bs held h = absurd (omega arith)
amount-le-total i b (suc n) bs held h =
    let order : (i < n) ⊎ (i ≡ n) = grind arith in
    elim order [
      | inl earlier ↦ omega (arith, amount-le-total i b n bs held earlier)
      | inr same ↦ rw (← same, held) (omega arith)
    ]
