-- ===== src/Contract/Shifts.antt =====
-- What a run does to all balances of all accounts: for each entry, the amounts that it has lost and
-- gained. Sums wrap at 64 bits, as in the code, so the account of them is kept modulo 2 ^ 64.
pub mod Batches
pub mod Handlers
use chainring_contracts.Base.{
  ℕ, ◌+◌, ◌-◌, ◌%◌, ◌^◌, ◌≤◌, ◌<◌, ◌≡◌, ◌≢◌, ◌∙◌, inl, inr, refl, ap, true, false, ltb, ◌==◌,
  ==_iff, if◌then◌else◌, Bool-cases, arith,
}
use chainring_contracts.Base.Bytes.{Bytes}
use chainring_contracts.Base.Outcome.{ok, err, custom, ◌>>=◌, passed}
use chainring_contracts.State.Raw.{ProgramResult}
use chainring_contracts.State.Token.{
  get_wallet_balance, set_wallet_balance, increment_wallet_balance, decrement_wallet_balance,
}
use chainring_contracts.State.Token.Balances.{
  SameEntries, SameEntries-refl, SameEntries-trans, SameBut, set_wallet_balance-SameBut,
  set_wallet_balance-keeps,
}
use chainring_contracts.Sdk.Account.{Store, write}
use chainring_contracts.Sdk.Account.Laws.{Wrote, write_inv}

-- The balance of entry `j` of the account at place `q`.
abbrev pub balance_at : Store → ℕ → ℕ → ProgramResult ℕ
balance_at s q j = get_wallet_balance j (s q).data_

-- Amounts by place and entry.
abbrev pub Flow : Type 0
Flow = ℕ → ℕ → ℕ

abbrev pub no_flow : Flow
no_flow q j = 0

-- An amount at one entry of one account.
abbrev pub flow_at : ℕ → ℕ → ℕ → Flow
flow_at p i a q j = if q == p then (if j == i then a else 0) else 0

-- A balance that has lost `out` and gained `in_`, up to wrap-around.
abbrev pub Shifted : ℕ → ℕ → ℕ → ℕ → Type 0
Shifted b out in_ b' = (b' < 2 ^ 64) × ((b' + out) % 2 ^ 64 ≡ (b + in_) % 2 ^ 64)

pub record Shifts (out in_ : Flow) (s s' : Store) : Type 0 where
  pub key : (q : ℕ) → (s' q).key ≡ (s q).key
  pub entries : (q : ℕ) → SameEntries (s q).data_ (s' q).data_
  pub balance :
      (q j b : ℕ)
      → balance_at s q j ≡ ok b
      → b < 2 ^ 64
      → (b' : ℕ) × (balance_at s' q j ≡ ok b') × Shifted b (out q j) (in_ q j) b'

pub Shifts-refl : {s s' : Store} → s ≡ s' → Shifts no_flow no_flow s s'
Shifts-refl {s} e = rw (← e) (record {
  key = λ q. refl;
  entries = λ q. SameEntries-refl (s q).data_;
  balance = λ q j b h small. (b, h, (small, refl));
})

module _ {out in_ out' in_' : Flow} {s t u : Store} where
  pub Shifts-trans :
      Shifts out in_ s t
      → Shifts out' in_' t u
      → Shifts (λ q j. out q j + out' q j) (λ q j. in_ q j + in_' q j) s u
  Shifts-trans k l = record {
    key = λ q. l.key q ∙ k.key q;
    entries = λ q. SameEntries-trans (k.entries q) (l.entries q);
    balance = λ q j b h small.
        let (b', h', (small', moved)) = k.balance q j b h small in
        let (b'', h'', (small'', moved')) = l.balance q j b' h' small' in
        (b'', h'', (small'', omega (arith, moved, moved')));
  }

-- The same amounts written otherwise.
module _ {out in_ out' in_' : Flow} {s t : Store} where
  pub Shifts-flows :
      ((q j : ℕ) → out q j ≡ out' q j)
      → ((q j : ℕ) → in_ q j ≡ in_' q j)
      → Shifts out in_ s t
      → Shifts out' in_' s t
  Shifts-flows e e' k = record {
    key = k.key;
    entries = k.entries;
    balance = λ q j b h small.
        let (b', h', (small', moved)) = k.balance q j b h small in
        (b', h', (small', omega (arith, moved, e q j, e' q j)));
  }

-- A write of one balance.
module _ (p i b v out in_ : ℕ) {bs : Bytes} {s s' : Store}
    (held : get_wallet_balance i (s p).data_ ≡ ok b)
    (written : set_wallet_balance i v (s p).data_ ≡ ok bs) (w : Wrote p bs s s')
    (shifted : b < 2 ^ 64 → Shifted b out in_ v) where
  written_key : (q : ℕ) → (s' q).key ≡ (s q).key
  written_key q = elim (Bool-cases (q == p)) [
    | inl here ↦ let e : q ≡ p = (==_iff q p).0 here in rw e w.key_at
    | inr there ↦ let ne : q ≢ p = grind arith in rw (w.elsewhere q ne) refl
  ]

  written_entries : (q : ℕ) → SameEntries (s q).data_ (s' q).data_
  written_entries q = elim (Bool-cases (q == p)) [
    | inl here ↦
        let e : q ≡ p = (==_iff q p).0 here in
        let keeps = set_wallet_balance-keeps i v (s p).data_ written in
        rw (e, w.data_at) keeps.entries
    | inr there ↦
        let ne : q ≢ p = grind arith in rw (w.elsewhere q ne) (SameEntries-refl (s q).data_)
  ]

  written_here :
      (j c : ℕ)
      → get_wallet_balance j (s p).data_ ≡ ok c
      → c < 2 ^ 64
      → (c' : ℕ) × (get_wallet_balance j bs ≡ ok c')
        × Shifted c (if j == i then out else 0) (if j == i then in_ else 0) c'
  written_here j c h small = elim (Bool-cases (j == i)) [
    | inl here ↦
        let e : j ≡ i = (==_iff j i).0 here in
        let same : b ≡ c = cc in
        let moved : Shifted b out in_ v = shifted (rw same small) in
        let (stored, _) = set_wallet_balance-SameBut i v (s p).data_ written moved.0 in
        rw (here, e) (v, stored, rw (← same) moved)
    | inr other ↦
        let ne : j ≢ i = grind arith in
        let keeps = set_wallet_balance-keeps i v (s p).data_ written in
        rw other (c, keeps.others j ne ∙ h, (small, refl))
  ]

  written_balance :
      (q j c : ℕ)
      → balance_at s q j ≡ ok c
      → c < 2 ^ 64
      → (c' : ℕ) × (balance_at s' q j ≡ ok c')
        × Shifted c (flow_at p i out q j) (flow_at p i in_ q j) c'
  written_balance q j c h small = elim (Bool-cases (q == p)) [
    | inl here ↦
        let e : q ≡ p = (==_iff q p).0 here in
        let h' : get_wallet_balance j (s p).data_ ≡ ok c = rw (← e) h in
        rw (here, e, w.data_at) (written_here j c h' small)
    | inr there ↦ let ne : q ≢ p = grind arith in rw (there, w.elsewhere q ne) (c, h, (small, refl))
  ]

  write_balance-Shifts : Shifts (flow_at p i out) (flow_at p i in_) s s'
  write_balance-Shifts = record {
    key = written_key;
    entries = written_entries;
    balance = written_balance;
  }

pub flow_at-zero : (p i q j : ℕ) → flow_at p i 0 q j ≡ 0
flow_at-zero p i q j = ground arith

-- An increment and a decrement.
module _ (p i a : ℕ) (s : Store) {s' : Store} where
  pub increment-Shifts :
      write (increment_wallet_balance i a) p s ≡ (ok tt, s') → Shifts no_flow (flow_at p i a) s s'
  unfolding increment_wallet_balance
  increment-Shifts h =
      let (bs, done, w) = write_inv (increment_wallet_balance i a) p s h in
      let (b, held, written) = passed _ (get_wallet_balance i (s p).data_) done in
      Shifts-flows (flow_at-zero p i) (λ q j. refl)
        (write_balance-Shifts p i b ((b + a) % 2 ^ 64) 0 a held written w
          (λ small. (omega arith, omega arith)))

  pub decrement-Shifts :
      write (decrement_wallet_balance i a) p s ≡ (ok tt, s') → Shifts (flow_at p i a) no_flow s s'
  unfolding decrement_wallet_balance
  decrement-Shifts h =
      let (bs, done, w) = write_inv (decrement_wallet_balance i a) p s h in
      let (b, held, tested) = passed _ (get_wallet_balance i (s p).data_) done in
      elim (Bool-cases (ltb b a)) [
        | inl short ↦ absurd (cc (rw short at tested))
        | inr covered ↦
            let enough : a ≤ b = ground arith in
            Shifts-flows (λ q j. refl) (flow_at-zero p i)
              (write_balance-Shifts p i b (b - a) a 0 held (rw covered at tested) w
                (λ small. (omega arith, omega arith)))
      ]
