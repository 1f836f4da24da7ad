-- ===== src/Contract/Withdrawal/Outcome.antt =====
-- The two outcomes of a preparation of withdrawals that succeeds: failures that are reported, or amounts
-- that are reserved.
use chainring_contracts.Base.{
  ℕ, ◌≡◌, ◌≢◌, ◌∙◌, ◌⊎◌, refl, ap, Bool, not, ◌&&◌, List, [], length, ◌==◌, ==_iff, if◌then◌else◌,
  Bool-cases, inl, inr, arith,
}
use chainring_contracts.Base.Bytes.{Bytes}
use chainring_contracts.Base.Outcome.{ok}
use chainring_contracts.Types.{Hash, NetworkType, WithdrawBatchParams}
use chainring_contracts.External.{External, Transaction}
use chainring_contracts.State.Program.{clear_events, get_network_type, get_events_count}
use chainring_contracts.State.Program.Laws.{clear_events-keeps}
use chainring_contracts.State.Withdraw.{get_hash, set_hash}
use chainring_contracts.State.Withdraw.Laws.{set_hash_inv}
use chainring_contracts.Sdk.Account.{M, Store, ◌>>=◌, pure, read, write, account_at}
use chainring_contracts.Sdk.Account.Laws.{Wrote, refused, bind_inv, read_inv, write_inv}
use chainring_contracts.Contract.Outputs.{Outputs}
use chainring_contracts.Contract.Settlement.{hash}
use chainring_contracts.Contract.Settlement.Prepare.{Kept, Kept-refl, Kept-trans, write-Kept}
use chainring_contracts.Contract.Withdrawal.Prepare.{
  verify_tokens, prepare_tokens, finish_withdrawals, apply_withdrawals, prepare_withdraw_batch,
}
use chainring_contracts.Contract.Withdrawal.Exclusive.{prepare_withdraw_batch-applies}
use chainring_contracts.Contract.Withdrawal.Balances.{batch_reserved, batch_fees}
use chainring_contracts.Contract.Withdrawal.Fees.{Keys, HasKeys, Shifts-HasKeys}
use chainring_contracts.Contract.Withdrawal.Reports.{verify_tokens-Kept}
use chainring_contracts.Contract.Withdrawal.Restore.{prepare_tokens-Shifts}
use chainring_contracts.Contract.Shifts.{Shifts}

Kept-HasKeys : {program : ℕ} {s t : Store} → Kept program s t → HasKeys (λ q. (s q).key) t
Kept-HasKeys {program = program} {s = s} k q = elim (Bool-cases (q == program)) [
  | inl here ↦ let e : q ≡ program = (==_iff q program).0 here in rw e k.key
  | inr there ↦ let ne : q ≢ program = grind arith in rw (k.elsewhere q ne) refl
]

Wrote-HasKeys :
    {p : ℕ} {bs : Bytes} {keys : Keys} {s t : Store}
    → Wrote p bs s t
    → HasKeys keys s
    → HasKeys keys t
Wrote-HasKeys {p = p} w has q = elim (Bool-cases (q == p)) [
  | inl here ↦ let e : q ≡ p = (==_iff q p).0 here in rw e (w.key_at ∙ has p)
  | inr there ↦ let ne : q ≢ p = grind arith in rw (w.elsewhere q ne) (has q)
]

-- All failures have been reported, and no balance has moved.
pub record Reported (program : ℕ) (s s' : Store) : Type 0 where
  pub kept : Kept program s s'
  pub failures : (n : ℕ) × (get_events_count (s' program).data_ ≡ ok n) × (n ≢ 0)

-- All amounts have been reserved, outside of the program account and the withdraw account, and the hash
-- of the batch is stored.
pub record Reserved (accounts : List ℕ) (params : WithdrawBatchParams) (params_hash : Hash)
    (program withdraw : ℕ) (s s' : Store) : Type 0 where
  pub checked : Store
  pub moved : Store
  pub kept : Kept program s checked
  pub shifts :
      Shifts
        (batch_reserved (λ q. (s q).key) accounts params.token_withdrawals)
        (batch_fees accounts params.token_withdrawals)
        checked
        moved
  pub same : (q : ℕ) → q ≢ withdraw → s' q ≡ moved q
  pub keys : HasKeys (λ q. (s q).key) s'
  pub stored : length params_hash ≡ 32 → get_hash (s' withdraw).data_ ≡ ok params_hash

module _ (x : External) (accounts : List ℕ) (params : WithdrawBatchParams) (raw : Bytes)
    (program withdraw : ℕ) (first : account_at accounts 0 ≡ ok program)
    (second : account_at accounts 1 ≡ ok withdraw) where
  finish_withdrawals-Wrote :
      (receiver : Bool) (o : Outputs) (s : Store) {s' : Store}
      → finish_withdrawals x accounts raw receiver o s ≡ (ok tt, s')
      → (bs : Bytes) × (set_hash (hash x raw) (s withdraw).data_ ≡ ok bs) × Wrote withdraw bs s s'
  unfolding finish_withdrawals
  finish_withdrawals-Wrote receiver o s h =
      elim (Bool-cases (not (length o.edicts == 0) && not receiver)) [
        | inl lost ↦ absurd (refused (rw lost at h))
        | inr fine ↦ elim (Bool-cases (length o.tx_outs == 0)) [
          | inl empty ↦ absurd (refused (rw (fine, empty) at h))
          | inr some_outputs ↦
              let run = rw (fine, some_outputs, second) at h in
              write_inv (set_hash (hash x raw)) withdraw s run
        ]
      ]

  abbrev pub Outcome : Store → Store → Type 0
  Outcome s s' = Reported program s s' ⊎ Reserved accounts params (hash x raw) program withdraw s s'

  abbrev reserve : Transaction → NetworkType → M Outputs
  reserve tx network_type =
      prepare_tokens x accounts network_type params.token_withdrawals
        (record { tx_outs = tx.output; edicts = [] })

  abbrev decide : Bool → Transaction → NetworkType → ℕ → M (Unit {0})
  decide receiver tx network_type count =
      if not (count == 0)
      then pure tt
      else (reserve tx network_type >>= finish_withdrawals x accounts raw receiver)

  decided :
      (receiver : Bool) (tx : Transaction) (network_type : NetworkType) (count : ℕ) (s v v' : Store)
      {s' : Store}
      → Kept program s v
      → v ≡ v'
      → get_events_count (v program).data_ ≡ ok count
      → decide receiver tx network_type count v' ≡ (ok tt, s')
      → Outcome s s'
  decided receiver tx network_type count s v v' {s' = s'} kept same held h =
      let kept' = Kept-trans kept (Kept-refl program same) in
      elim (Bool-cases (count == 0)) [
        | inr reported ↦
            let done : v' ≡ s' = ap (λ q. q.1) (rw reported at h) in
            inl (record {
              kept = Kept-trans kept' (Kept-refl program done);
              failures = (count, rw (← done, ← same) held, grind arith);
            })
        | inl none_failed ↦
            let end : Outputs → M (Unit {0}) = finish_withdrawals x accounts raw receiver in
            let run : (reserve tx network_type >>= end) v' ≡ (ok tt, s') = rw none_failed at h in
            let (o, w, prepared, ended) = bind_inv end (reserve tx network_type) v' run in
            let shifts =
              prepare_tokens-Shifts (λ q. (s q).key) accounts x network_type
                params.token_withdrawals (record { tx_outs = tx.output; edicts = [] }) v' w
                (Kept-HasKeys kept') prepared in
            let (bs, put, wrote) = finish_withdrawals-Wrote receiver o w ended in
            inr (record {
              checked = v';
              moved = w;
              kept = kept';
              shifts = shifts;
              same = wrote.elsewhere;
              keys = Wrote-HasKeys wrote (Shifts-HasKeys shifts (Kept-HasKeys kept'));
              stored =
                  λ size. rw wrote.data_at (set_hash_inv (hash x raw) (w withdraw).data_ size put);
            })
      ]

  apply_withdrawals-Outcome :
      (receiver : Bool) (tx : Transaction) (s : Store) {s' : Store}
      → apply_withdrawals x accounts params raw receiver tx s ≡ (ok tt, s')
      → Outcome s s'
  unfolding apply_withdrawals
  apply_withdrawals-Outcome receiver tx s {s' = s'} h =
      let verify : NetworkType → M (Unit {0}) =
        λ network_type. verify_tokens x accounts network_type params.token_withdrawals in
      let check : NetworkType → M (Unit {0}) = λ network_type. verify network_type >>= λ _.
      read get_events_count program >>= decide receiver tx network_type in
      let h0 : (write clear_events program >>= λ _. read get_network_type program >>= check) s
          ≡ (ok tt, s') =
        rw first at h in
      let (_, t, cleared, h1) =
        bind_inv (λ _. read get_network_type program >>= check) (write clear_events program) s h0 in
      let (network_type, u, typed, h2) = bind_inv check (read get_network_type program) t h1 in
      let (_, v, verified, h3) =
        bind_inv (λ _. read get_events_count program >>= decide receiver tx network_type)
          (verify network_type) u h2 in
      let (count, v', counted, h4) =
        bind_inv (decide receiver tx network_type) (read get_events_count program) v h3 in
      let (held, same) = read_inv get_events_count program v counted in
      let kept =
        Kept-trans (write-Kept clear_events program s (λ bs bs'. clear_events-keeps bs) cleared) (
          Kept-trans (Kept-refl program (ap (λ q. q.1) typed)) (
            verify_tokens-Kept x network_type accounts program first params.token_withdrawals u
              verified)) in
      decided receiver tx network_type count s v v' kept same held h4

  pub handled :
      (s : Store) {s' : Store}
      → prepare_withdraw_batch x accounts params raw s ≡ (ok tt, s')
      → Outcome s s'
  handled s h =
      let (_, (receiver, tx, applied)) = prepare_withdraw_batch-applies x accounts params raw s h in
      apply_withdrawals-Outcome receiver tx s applied
