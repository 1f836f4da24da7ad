-- ===== src/Contract/Withdrawal/Fees.antt =====
-- What taking a fee and giving it back do to all balances of all accounts.
use chainring_contracts.Base.{
  ℕ, ◌+◌, ◌≡◌, ◌∙◌, ap, Bool, true, false, not, some, List, ltb, if◌then◌else◌, Bool-cases, inl,
  inr, arith,
}
use chainring_contracts.Base.Bytes.{Bytes, bytes_eq}
use chainring_contracts.Base.Outcome.{ok, custom}
use chainring_contracts.Constants.{fee_address_index, error_address_mismatch}
use chainring_contracts.Types.{AccountType, Withdrawal}
use chainring_contracts.State.Raw.{ProgramResult}
use chainring_contracts.State.Token.{
  get_wallet_address, increment_wallet_balance, decrement_wallet_balance,
}
use chainring_contracts.Sdk.Account.{
  M, Store, ◌>>=◌, pure, raise, query, lift, read, write, account_at,
}
use chainring_contracts.Sdk.Account.Laws.{bind_inv, read_inv, refused}
use chainring_contracts.Contract.Validate.{validate_account}
use chainring_contracts.Contract.Withdrawal.{
  fee_entry, same_key, charge_fee, take_fee, refund_fee, return_fee,
}
use chainring_contracts.Contract.Shifts.{
  Flow, no_flow, flow_at, Shifts, Shifts-refl, Shifts-trans, Shifts-flows, increment-Shifts,
  decrement-Shifts,
}
use chainring_contracts.Contract.Shifts.Batches.{place, place-account_at}

-- The keys of the accounts, which no instruction changes.
abbrev pub Keys : Type 0
Keys = ℕ → Bytes

abbrev pub HasKeys : Keys → Store → Type 0
HasKeys keys s = (q : ℕ) → (s q).key ≡ keys q

pub Shifts-HasKeys :
    {out in_ : Flow} {keys : Keys} {s t : Store}
    → Shifts out in_ s t
    → HasKeys keys s
    → HasKeys keys t
Shifts-HasKeys k h q = k.key q ∙ h q

-- The fee at the wallet's entry of the fee token, unless that is the token of the withdrawal.
abbrev pub unless_same : ℕ → Withdrawal → Bool → Flow
unless_same fee_p w same q j =
    if same then 0 else flow_at fee_p w.fee_address_index.index w.fee_amount q j

abbrev pub fee_charge : Keys → ℕ → ℕ → Withdrawal → Flow
fee_charge keys fee_p p w = unless_same fee_p w (bytes_eq (keys fee_p) (keys p))

abbrev pub fee_gain : ℕ → Withdrawal → Flow
fee_gain fee_p w = flow_at fee_p fee_address_index w.fee_amount

fee_entry_inv :
    (accounts : List ℕ) (fee_account_address : Bytes) (w : Withdrawal) (s : Store) {fee_p : ℕ}
    {s' : Store}
    → fee_entry accounts fee_account_address w s ≡ (ok fee_p, s')
    → (place accounts w.fee_account_index ≡ fee_p) × (s ≡ s')
unfolding fee_entry
fee_entry_inv accounts fee_account_address w s {fee_p = fee_p} {s' = s'} h =
    let (p, t, found, h1) = bind_inv look (lift (account_at accounts w.fee_account_index)) s h in
    let (address, u, seen, h2) =
      bind_inv (decide p) (read (get_wallet_address fee_address_index) p) t h1 in
    let (_, same') = read_inv (get_wallet_address fee_address_index) p t seen in
    let same = ap (λ q. q.1) found ∙ same' in
    elim (Bool-cases (bytes_eq address fee_account_address)) [
      | inl eq ↦
          let last : pure p u ≡ (ok fee_p, s') = rw eq at h2 in
          let one : p ≡ fee_p = cc in
          (
            place-account_at accounts w.fee_account_index (ap (λ q. q.0) found) ∙ one,
            same ∙ ap (λ q. q.1) last,
          )
      | inr other ↦ absurd (refused (rw other at h2))
    ]
  where
    decide : ℕ → Bytes → M ℕ
    decide p address =
        if not (bytes_eq address fee_account_address)
        then raise (custom error_address_mismatch)
        else pure p

    look : ℕ → M ℕ
    look p = read (get_wallet_address fee_address_index) p >>= decide p

same_key_inv :
    (keys : Keys) (fee_p p : ℕ) (s : Store) {same : Bool} {s' : Store}
    → HasKeys keys s
    → same_key fee_p p s ≡ (ok same, s')
    → (bytes_eq (keys fee_p) (keys p) ≡ same) × (s ≡ s')
unfolding same_key
same_key_inv keys fee_p p s {same = same} has h =
    let answer : bytes_eq (s fee_p).key (s p).key ≡ same = cc in
    (rw (← has fee_p, ← has p) answer, ap (λ q. q.1) h)

module _ (fee_p : ℕ) (w : Withdrawal) (same : Bool) (s : Store) {s' : Store} where
  charge_fee-Shifts :
      charge_fee fee_p w same s ≡ (ok tt, s') → Shifts (unless_same fee_p w same) no_flow s s'
  unfolding charge_fee
  charge_fee-Shifts h = elim (Bool-cases same) [
    | inl yes_same ↦ rw yes_same (Shifts-refl (ap (λ q. q.1) (rw yes_same at h)))
    | inr other ↦
        rw other (decrement-Shifts fee_p w.fee_address_index.index w.fee_amount s (rw other at h))
  ]

  refund_fee-Shifts :
      refund_fee fee_p w same s ≡ (ok tt, s') → Shifts no_flow (unless_same fee_p w same) s s'
  unfolding refund_fee
  refund_fee-Shifts h = elim (Bool-cases same) [
    | inl yes_same ↦ rw yes_same (Shifts-refl (ap (λ q. q.1) (rw yes_same at h)))
    | inr other ↦
        rw other (increment-Shifts fee_p w.fee_address_index.index w.fee_amount s (rw other at h))
  ]

-- A write of the fee account's entry, and then one of the wallet's unless the keys are the same.
module _ (keys : Keys) (fee_p p : ℕ) (w : Withdrawal) (f : Bytes → ProgramResult Bytes)
    (g : Bool → M (Unit {0})) (out in_ : Flow) (out' in_' : Bool → Flow)
    (first : (s t : Store) → write f fee_p s ≡ (ok tt, t) → Shifts out in_ s t)
    (second : (same : Bool) (s t : Store)
      → g same s ≡ (ok tt, t)
      → Shifts (out' same) (in_' same) s t) where
  move_fee-Shifts :
      (s s' : Store)
      → HasKeys keys s
      → (write f fee_p >>= λ _. same_key fee_p p >>= g) s ≡ (ok tt, s')
      → Shifts
          (λ q j. out q j + out' (bytes_eq (keys fee_p) (keys p)) q j)
          (λ q j. in_ q j + in_' (bytes_eq (keys fee_p) (keys p)) q j)
          s
          s'
  move_fee-Shifts s s' has h =
      let (_, t, moved, h1) = bind_inv (λ _. same_key fee_p p >>= g) (write f fee_p) s h in
      let one = first s t moved in
      let (same, u, asked, h2) = bind_inv g (same_key fee_p p) t h1 in
      let (answer, unmoved) = same_key_inv keys fee_p p t (Shifts-HasKeys one has) asked in
      let two : Shifts (out' same) (in_' same) t s' = rw unmoved (second same u s' h2) in
      rw answer (Shifts-trans one two)

module _ (keys : Keys) (accounts : List ℕ) (p : ℕ) (fee_account_address : Bytes)
    (w : Withdrawal) where
  -- Where the fee of the withdrawal goes, and where it comes from.
  abbrev fee_p : ℕ
  fee_p = place accounts w.fee_account_index

  pub take_fee-Shifts :
      (s s' : Store)
      → HasKeys keys s
      → take_fee accounts p fee_account_address w s ≡ (ok tt, s')
      → Shifts (fee_charge keys fee_p p w) (fee_gain fee_p w) s s'
  unfolding take_fee
  take_fee-Shifts s s' has h = elim (Bool-cases (ltb 0 w.fee_amount)) [
    | inr free ↦
        let none_due : w.fee_amount ≡ 0 = ground arith in
        rw none_due (
          Shifts-flows (λ q j. ground arith) (λ q j. ground arith)
            (Shifts-refl (ap (λ q. q.1) (rw free at h))))
    | inl due ↦
        let (fp, t, found, h1) =
          bind_inv run (fee_entry accounts fee_account_address w) s (rw due at h) in
        let (here, same) = fee_entry_inv accounts fee_account_address w s found in
        let moved : Shifts (fee_charge keys fp p w) (fee_gain fp w) t s' =
          Shifts-flows (λ q j. omega arith) (λ q j. omega arith)
            (move_fee-Shifts keys fp p w (increment_wallet_balance fee_address_index w.fee_amount)
              (charge_fee fp w) no_flow (fee_gain fp w) (unless_same fp w) (λ _. no_flow)
              (λ s t. increment-Shifts fp fee_address_index w.fee_amount s)
              (λ same s t. charge_fee-Shifts fp w same s) t s' (rw (← same) has) h1) in
        rw (here, same) moved
  ]
    where
      run : ℕ → M (Unit {0})
      run fp = write (increment_wallet_balance fee_address_index w.fee_amount) fp >>= λ _.
          same_key fp p >>= charge_fee fp w

  abbrev return_run : ℕ → M (Unit {0})
  return_run fp = write (decrement_wallet_balance fee_address_index w.fee_amount) fp >>= λ _.
      same_key fp p >>= refund_fee fp w

  return_run-Shifts :
      (fp : ℕ) (s t s' : Store)
      → fee_p ≡ fp
      → s ≡ t
      → HasKeys keys s
      → return_run fp t ≡ (ok tt, s')
      → Shifts (fee_gain fee_p w) (fee_charge keys fee_p p w) s s'
  return_run-Shifts fp s t s' here same has h =
      let moved : Shifts (fee_gain fp w) (fee_charge keys fp p w) t s' =
        Shifts-flows (λ q j. omega arith) (λ q j. omega arith)
          (move_fee-Shifts keys fp p w (decrement_wallet_balance fee_address_index w.fee_amount)
            (refund_fee fp w) (fee_gain fp w) no_flow (λ _. no_flow) (unless_same fp w)
            (λ s t. decrement-Shifts fp fee_address_index w.fee_amount s)
            (λ same s t. refund_fee-Shifts fp w same s) t s' (rw (← same) has) h) in
      rw (here, same) moved

  pub return_fee-Shifts :
      (s s' : Store)
      → HasKeys keys s
      → return_fee accounts p fee_account_address w s ≡ (ok tt, s')
      → Shifts (fee_gain fee_p w) (fee_charge keys fee_p p w) s s'
  unfolding return_fee
  return_fee-Shifts s s' has h = elim (Bool-cases (ltb 0 w.fee_amount)) [
    | inr free ↦
        let none_due : w.fee_amount ≡ 0 = ground arith in
        rw none_due (
          Shifts-flows (λ q j. ground arith) (λ q j. ground arith)
            (Shifts-refl (ap (λ q. q.1) (rw free at h))))
    | inl due ↦
        let (_, r, valid, h0) =
          bind_inv (λ _. entry >>= return_run) (query checks) s (rw due at h) in
        let (fp, t, found, h1) = bind_inv return_run entry r h0 in
        let (here, same) = fee_entry_inv accounts fee_account_address w r found in
        return_run-Shifts fp s t s' here (ap (λ q. q.1) valid ∙ same) has h1
  ]
    where
      checks : Store → ProgramResult (Unit {0})
      checks =
          validate_account accounts w.fee_account_index false true (some AccountType.token) (some 0)

      entry : M ℕ
      entry = fee_entry accounts fee_account_address w
