-- ===== src/Contract/Shifts/Batches.antt =====
-- What batches of deposits and settlements do to all balances, also where a batch names an account
-- more than once, or two of its accounts are one.
use chainring_contracts.Base.{
  ℕ, zero, suc, ◌+◌, ◌≡◌, ◌∙◌, refl, sym, ap, true, false, none, some, List, [], ◌∷◌, get_elem?,
  ltb, arith,
}
use chainring_contracts.Base.Bytes.{Bytes}
use chainring_contracts.Base.Outcome.{ok}
use chainring_contracts.Constants.{fee_address_index}
use chainring_contracts.Types.{
  AccountType, Adjustment, AddressIndex, TokenDeposits, SettlementAdjustments,
}
use chainring_contracts.State.Raw.{ProgramResult}
use chainring_contracts.State.Token.{
  increment_wallet_balance, decrement_wallet_balance, get_wallet_address_last4,
}
use chainring_contracts.Sdk.Account.{M, Store, ◌>>=◌, query, lift, read, write, account_at}
use chainring_contracts.Sdk.Account.Laws.{bind_inv, read_inv}
use chainring_contracts.Contract.Validate.{validate_account, get_validated_index}
use chainring_contracts.Contract.Deposit.{
  adjust_balance, handle_adjustments, handle_increments, handle_decrements, deposit_tokens,
}
use chainring_contracts.Contract.Settlement.{settle_fee, pay_fee, settle_token, settle_tokens}
use chainring_contracts.Contract.Shifts.{
  Flow, no_flow, flow_at, flow_at-zero, Shifts, Shifts-refl, Shifts-trans, Shifts-flows,
  increment-Shifts, decrement-Shifts,
}

-- The place of `accounts[i]`, where there is one.
abbrev pub place : List ℕ → ℕ → ℕ
place accounts i = elim (get_elem? accounts i) [ some p ↦ p | none ↦ 0 ]

-- The amounts of a list of adjustments of the account at `p`.
unfoldable pub sum_of : ℕ → List Adjustment → Flow
sum_of p [] q j = 0
sum_of p (a ∷ rest) q j = flow_at p a.address_index.index a.amount q j + sum_of p rest q j

-- A validated index is the one that was given.
pub get_validated_index_same :
    (bs : Bytes) (address_index : AddressIndex) {i : ℕ}
    → get_validated_index bs address_index ≡ ok i
    → address_index.index ≡ i
unfolding get_validated_index
get_validated_index_same bs address_index h = ground arith

-- A checked index and a write to its entry.
module _ (p : ℕ) (a : Adjustment) (s : Store) {s' : Store} where
  adjust_index :
      (f : ℕ → Bytes → ProgramResult Bytes)
      → (read (λ bs. get_validated_index bs a.address_index) p >>= λ i. write (f i) p) s
        ≡ (ok tt, s')
      → write (f a.address_index.index) p s ≡ (ok tt, s')
  adjust_index f h =
      let check : Bytes → ProgramResult ℕ = λ bs. get_validated_index bs a.address_index in
      let (i, t, looked, wrote) = bind_inv (λ i. write (f i) p) (read check p) s h in
      let (checked, same) = read_inv check p s looked in
      let index = get_validated_index_same (s p).data_ a.address_index checked in
      rw (index, same) wrote

  increment-adjust :
      adjust_balance p true a s ≡ (ok tt, s')
      → Shifts no_flow (flow_at p a.address_index.index a.amount) s s'
  unfolding adjust_balance
  increment-adjust h =
      increment-Shifts p a.address_index.index a.amount s
        (adjust_index (λ i. increment_wallet_balance i a.amount) h)

  decrement-adjust :
      adjust_balance p false a s ≡ (ok tt, s')
      → Shifts (flow_at p a.address_index.index a.amount) no_flow s s'
  unfolding adjust_balance
  decrement-adjust h =
      decrement-Shifts p a.address_index.index a.amount s
        (adjust_index (λ i. decrement_wallet_balance i a.amount) h)

module _ (p : ℕ) where
  pub handle_increments-Shifts :
      (adjustments : List Adjustment) (s : Store) {s' : Store}
      → handle_increments p adjustments s ≡ (ok tt, s')
      → Shifts no_flow (sum_of p adjustments) s s'
  unfolding handle_adjustments sum_of
  handle_increments-Shifts [] s h = Shifts-refl (ap (λ q. q.1) h)
  handle_increments-Shifts (a ∷ rest) s h =
      let (_, t, first, later) =
        bind_inv (λ _. handle_increments p rest) (adjust_balance p true a) s h in
      Shifts-trans (increment-adjust p a s first) (handle_increments-Shifts rest t later)

  pub handle_decrements-Shifts :
      (adjustments : List Adjustment) (s : Store) {s' : Store}
      → handle_decrements p adjustments s ≡ (ok tt, s')
      → Shifts (sum_of p adjustments) no_flow s s'
  unfolding handle_adjustments sum_of
  handle_decrements-Shifts [] s h = Shifts-refl (ap (λ q. q.1) h)
  handle_decrements-Shifts (a ∷ rest) s h =
      let (_, t, first, later) =
        bind_inv (λ _. handle_decrements p rest) (adjust_balance p false a) s h in
      Shifts-trans (decrement-adjust p a s first) (handle_decrements-Shifts rest t later)

-- What a batch of settlements takes from the entries, and what it gives, fees included.
unfoldable pub settled_out : List ℕ → List SettlementAdjustments → Flow
settled_out accounts [] q j = 0
settled_out accounts (t ∷ rest) q j =
    sum_of (place accounts t.account_index) t.decrements q j + settled_out accounts rest q j

unfoldable pub settled_in : List ℕ → List SettlementAdjustments → Flow
settled_in accounts [] q j = 0
settled_in accounts (t ∷ rest) q j =
    flow_at (place accounts t.account_index) fee_address_index t.fee_amount q j
    + sum_of (place accounts t.account_index) t.increments q j
    + settled_in accounts rest q j

-- What a batch of deposits gives.
unfoldable pub deposited : List ℕ → List TokenDeposits → Flow
deposited accounts [] q j = 0
deposited accounts (t ∷ rest) q j =
    sum_of (place accounts t.account_index) t.deposits q j + deposited accounts rest q j

pub place-account_at :
    (accounts : List ℕ) (i : ℕ) {p : ℕ} → account_at accounts i ≡ ok p → place accounts i ≡ p
place-account_at accounts i h = ground arith

pay_fee-Shifts :
    (p fee_amount : ℕ) (s : Store) {s' : Store}
    → pay_fee p fee_amount s ≡ (ok tt, s')
    → Shifts no_flow (flow_at p fee_address_index fee_amount) s s'
unfolding pay_fee sum_of
pay_fee-Shifts p fee_amount s {s' = s'} h =
    let fee : Bytes → Adjustment = λ last4. record {
      address_index = record { index = fee_address_index; last4 = last4 };
      amount = fee_amount;
    } in
    let pay : Bytes → M (Unit {0}) = λ last4. handle_increments p (fee last4 ∷ []) in
    let look = get_wallet_address_last4 fee_address_index in
    let (last4, t, looked, paid) = bind_inv pay (read look p) s h in
    let (_, same) = read_inv look p s looked in
    let gained : Shifts no_flow (flow_at p fee_address_index fee_amount) t s' =
      Shifts-flows (λ q j. refl) (λ q j. omega arith)
        (handle_increments-Shifts p (fee last4 ∷ []) t paid) in
    rw same gained

settle_fee-Shifts :
    (p fee_amount : ℕ) (s : Store) {s' : Store}
    → settle_fee p fee_amount s ≡ (ok tt, s')
    → Shifts no_flow (flow_at p fee_address_index fee_amount) s s'
unfolding settle_fee
settle_fee-Shifts p zero s h =
    Shifts-flows (λ q j. refl) (λ q j. sym (flow_at-zero p fee_address_index q j))
      (Shifts-refl (ap (λ q. q.1) h))
settle_fee-Shifts p (suc f) s h =
    let charged : ltb 0 (suc f) ≡ true = ground arith in
    pay_fee-Shifts p (suc f) s (rw charged at h)

settle_token-Shifts :
    (p : ℕ) (t : SettlementAdjustments) (s : Store) {s' : Store}
    → settle_token p t s ≡ (ok tt, s')
    → Shifts
        (sum_of p t.decrements)
        (λ q j. flow_at p fee_address_index t.fee_amount q j + sum_of p t.increments q j)
        s
        s'
unfolding settle_token
settle_token-Shifts p t s h =
    let last : M (Unit {0}) = handle_decrements p t.decrements in
    let (_, s1, paid, h1) =
      bind_inv (λ _. handle_increments p t.increments >>= λ _. last) (settle_fee p t.fee_amount) s
        h in
    let (_, s2, added, taken) = bind_inv (λ _. last) (handle_increments p t.increments) s1 h1 in
    Shifts-flows (λ q j. omega arith) (λ q j. omega arith)
      (Shifts-trans
        (Shifts-trans (settle_fee-Shifts p t.fee_amount s paid)
          (handle_increments-Shifts p t.increments s1 added))
        (handle_decrements-Shifts p t.decrements s2 taken))

module _ (accounts : List ℕ) where
  -- A token of a batch: its account is checked and looked up, and then `run` works on it.
  opened-Shifts :
      (i : ℕ) (valid : Store → ProgramResult (Unit {0})) (run : ℕ → M (Unit {0}))
      (out in_ : ℕ → Flow) (s : Store) {s' : Store}
      → ((p : ℕ) (t u : Store) → run p t ≡ (ok tt, u) → Shifts (out p) (in_ p) t u)
      → (query valid >>= λ _. lift (account_at accounts i) >>= run) s ≡ (ok tt, s')
      → Shifts (out (place accounts i)) (in_ (place accounts i)) s s'
  opened-Shifts i valid run out in_ s {s' = s'} each h =
      let find : M (Unit {0}) = lift (account_at accounts i) >>= run in
      let (_, t, checked, h1) = bind_inv (λ _. find) (query valid) s h in
      let (p, u, found, h2) = bind_inv run (lift (account_at accounts i)) t h1 in
      let same = ap (λ q. q.1) checked ∙ ap (λ q. q.1) found in
      let here = place-account_at accounts i (ap (λ q. q.0) found) in
      rw (here, same) (each p u s' h2)

  pub settle_tokens-Shifts :
      (tokens : List SettlementAdjustments) (s : Store) {s' : Store}
      → settle_tokens accounts tokens s ≡ (ok tt, s')
      → Shifts (settled_out accounts tokens) (settled_in accounts tokens) s s'
  unfolding settle_tokens settled_out settled_in
  settle_tokens-Shifts [] s h = Shifts-refl (ap (λ q. q.1) h)
  settle_tokens-Shifts (t ∷ rest) s h =
      opened-Shifts t.account_index
        (validate_account accounts t.account_index false true (some AccountType.token) (some 0))
        (λ p. settle_token p t >>= λ _. settle_tokens accounts rest)
        (λ p q j. sum_of p t.decrements q j + settled_out accounts rest q j)
        (λ p q j.
          flow_at p fee_address_index t.fee_amount q j
          + sum_of p t.increments q j
          + settled_in accounts rest q j)
        s
        (λ p u v g.
          let (_, w, now, later) =
            bind_inv (λ _. settle_tokens accounts rest) (settle_token p t) u g in
          Shifts-trans (settle_token-Shifts p t u now) (settle_tokens-Shifts rest w later))
        h

  pub deposit_tokens-Shifts :
      (tokens : List TokenDeposits) (s : Store) {s' : Store}
      → deposit_tokens accounts tokens s ≡ (ok tt, s')
      → Shifts no_flow (deposited accounts tokens) s s'
  unfolding deposit_tokens deposited
  deposit_tokens-Shifts [] s h = Shifts-refl (ap (λ q. q.1) h)
  deposit_tokens-Shifts (t ∷ rest) s h =
      opened-Shifts t.account_index
        (validate_account accounts t.account_index false true (some AccountType.token) (some 0))
        (λ p. handle_increments p t.deposits >>= λ _. deposit_tokens accounts rest) (λ p. no_flow)
        (λ p q j. sum_of p t.deposits q j + deposited accounts rest q j) s
        (λ p u v g.
          let (_, w, now, later) =
            bind_inv (λ _. deposit_tokens accounts rest) (handle_increments p t.deposits) u g in
          Shifts-trans (handle_increments-Shifts p t.deposits u now)
            (deposit_tokens-Shifts rest w later))
        h
