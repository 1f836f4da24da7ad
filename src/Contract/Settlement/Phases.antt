-- ===== src/Contract/Settlement/Phases.antt =====
-- The second phase of a settlement: a batch is submitted once, after it was prepared.
use chainring_contracts.Base.{
  ℕ, ◌≡◌, ◌≢◌, ◌⊎◌, refl, ap, true, List, length, Bool-cases, inl, inr, some, none, ◌∙◌,
}
use chainring_contracts.Base.Bytes.{Bytes, bytes_eq, bytes_eq_iff, bytes_eq→ne}
use chainring_contracts.Base.Outcome.{ok, err, custom}
use chainring_contracts.Constants.{
  empty_hash, error_no_settlement_in_progress, error_settlement_batch_mismatch,
}
use chainring_contracts.Types.{AccountType, SettlementBatchParams, Hash}
use chainring_contracts.External.{External}
use chainring_contracts.State.Raw.{slice}
use chainring_contracts.State.Program.{
  get_settlement_hash, clear_settlement_hash, set_last_settlement_hash,
}
use chainring_contracts.State.Program.Laws.{clear_settlement_hash_inv, set_last_settlement_hash_inv}
use chainring_contracts.Sdk.Account.{
  M, Store, continue, ◌>>=◌, query, lift, read, write, account_at,
}
use chainring_contracts.Sdk.Account.Laws.{refused, bind_inv, read_inv, write_inv}
use chainring_contracts.Contract.Validate.{validate_account}
use chainring_contracts.Contract.Settlement.{
  open_program, settle_tokens, apply_settlement, submit_matching, hash, submit_settlement_batch,
}

pub open_program_inv :
    (accounts : List ℕ) (s : Store) {program : ℕ} {t : Store}
    → open_program accounts s ≡ (ok program, t)
    → (account_at accounts 0 ≡ ok program) × (s ≡ t)
unfolding open_program
open_program_inv accounts s h =
    let (_, t, checked, found) =
      bind_inv (λ _. lift (account_at accounts 0))
        (query (validate_account accounts 0 true true (some AccountType.program) none)) s h in
    (ap (λ q. q.0) found, ap (λ q. q.1) checked ∙ ap (λ q. q.1) found)

module _ (accounts : List ℕ) (params : SettlementBatchParams) (params_hash : Hash) (program : ℕ)
    (current_hash : Hash) (s : Store) {s' : Store} where
  submit_matching_inv :
      submit_matching accounts params params_hash program current_hash s ≡ (ok tt, s')
      → (current_hash ≢ empty_hash)
        × (current_hash ≡ params_hash)
        × (apply_settlement accounts params params_hash program s ≡ (ok tt, s'))
  unfolding submit_matching
  submit_matching_inv h = elim (Bool-cases (bytes_eq current_hash empty_hash)) [
    | inl idle ↦ absurd (refused (rw idle at h))
    | inr busy ↦ elim (Bool-cases (bytes_eq current_hash params_hash)) [
      | inl same ↦ (
        bytes_eq→ne current_hash empty_hash busy,
        (bytes_eq_iff current_hash params_hash).0 same,
        rw (busy, same) at h,
      )
      | inr other ↦ absurd (refused (rw (busy, other) at h))
    ]
  ]

module _ (accounts : List ℕ) (params : SettlementBatchParams) (params_hash : Hash) (program : ℕ)
    (s : Store) {s' : Store} where
  apply_settlement_inv :
      length params_hash ≡ 32
      → apply_settlement accounts params params_hash program s ≡ (ok tt, s')
      → (get_settlement_hash (s' program).data_ ≡ ok empty_hash)
        × (slice 254 32 (s' program).data_ ≡ ok params_hash)
  unfolding apply_settlement
  apply_settlement_inv size h =
      let finish : M (Unit {0}) = write clear_settlement_hash program in
      let (_, t, settled, h1) =
        bind_inv (λ _. write (set_last_settlement_hash params_hash) program >>= λ _. finish)
          (settle_tokens accounts params.settlements) s h in
      let (_, u, stored, h2) =
        bind_inv (λ _. finish) (write (set_last_settlement_hash params_hash) program) t h1 in
      let (bs, last, w) = write_inv (set_last_settlement_hash params_hash) program t stored in
      let (bs', cleared, w') = write_inv clear_settlement_hash program u h2 in
      let (gone, kept) = clear_settlement_hash_inv (u program).data_ cleared in
      let (put, _) = set_last_settlement_hash_inv params_hash (t program).data_ size last in
      (rw w'.data_at gone, rw w'.data_at (kept ∙ rw w.data_at put))

  -- Behind the loop over the tokens only the program account is written.
  pub apply_settlement-settles :
      apply_settlement accounts params params_hash program s ≡ (ok tt, s')
      → (t : Store) × (settle_tokens accounts params.settlements s ≡ (ok tt, t))
        × ((q : ℕ) → q ≢ program → s' q ≡ t q)
  unfolding apply_settlement
  apply_settlement-settles h =
      let finish : M (Unit {0}) = write clear_settlement_hash program in
      let (_, t, settled, h1) =
        bind_inv (λ _. write (set_last_settlement_hash params_hash) program >>= λ _. finish)
          (settle_tokens accounts params.settlements) s h in
      let (_, u, stored, h2) =
        bind_inv (λ _. finish) (write (set_last_settlement_hash params_hash) program) t h1 in
      let (_, _, w) = write_inv (set_last_settlement_hash params_hash) program t stored in
      let (_, _, w') = write_inv clear_settlement_hash program u h2 in
      (t, settled, λ q ne. w'.elsewhere q ne ∙ w.elsewhere q ne)

-- What a submission that succeeds has checked before it applied the settlement.
pub submit_applied :
    (x : External) (accounts : List ℕ) (params : SettlementBatchParams) (raw : Bytes) (s : Store)
    {s' : Store}
    → submit_settlement_batch x accounts params raw s ≡ (ok tt, s')
    → (program : ℕ) × (account_at accounts 0 ≡ ok program)
      × (get_settlement_hash (s program).data_ ≡ ok (hash x raw))
      × (hash x raw ≢ empty_hash)
      × (apply_settlement accounts params (hash x raw) program s ≡ (ok tt, s'))
unfolding submit_settlement_batch hash
submit_applied x accounts params raw s h =
    let submit : ℕ → Hash → M (Unit {0}) = submit_matching accounts params (hash x raw) in
    let (program, t, opened, h1) =
      bind_inv (λ p. read get_settlement_hash p >>= submit p) (open_program accounts) s h in
    let (found, same) = open_program_inv accounts s opened in
    let (current, u, looked, h2) =
      bind_inv (submit program) (read get_settlement_hash program) t h1 in
    let (stored, same') = read_inv get_settlement_hash program t looked in
    let (busy, agree, applied) =
      submit_matching_inv accounts params (hash x raw) program current u h2 in
    (program, found, rw (same, ← agree) stored, λ e. busy (agree ∙ e), rw (same, same') applied)

-- A submission that succeeds, with digests of 32 bytes, found a settlement in progress whose hash is
-- that of the submitted parameters; it leaves none in progress, and records that hash as the last
-- settlement.
pub submit_settlement_batch_inv :
    (x : External) (digest : (data_ : Bytes) → length (x.sha256 data_) ≡ 32) (accounts : List ℕ)
    (params : SettlementBatchParams) (raw : Bytes) (s : Store) {s' : Store}
    → submit_settlement_batch x accounts params raw s ≡ (ok tt, s')
    → (program : ℕ) × (account_at accounts 0 ≡ ok program)
      × (get_settlement_hash (s program).data_ ≡ ok (hash x raw))
      × (hash x raw ≢ empty_hash)
      × (get_settlement_hash (s' program).data_ ≡ ok empty_hash)
      × (slice 254 32 (s' program).data_ ≡ ok (hash x raw))
unfolding hash
submit_settlement_batch_inv x digest accounts params raw s h =
    let (program, found, stored, busy, applied) = submit_applied x accounts params raw s h in
    let (cleared, last) =
      apply_settlement_inv accounts params (hash x raw) program s (digest raw) applied in
    (program, found, stored, busy, cleared, last)

-- Two instructions in a row: the host sets the flags of the accounts anew and may pass other
-- accounts, but the program account comes first in both, and all data stays.
pub record Follows (accounts accounts' : List ℕ) (s t : Store) : Type 0 where
  pub same_program : account_at accounts' 0 ≡ account_at accounts 0
  pub same_data : (p : ℕ) → (t p).data_ ≡ (s p).data_

-- After a submission that succeeds, with digests of 32 bytes, the instruction that follows is no
-- submission that succeeds, with the same parameters or others.
pub submit_settlement_batch-once :
    (x : External) (accounts accounts' : List ℕ) (params params' : SettlementBatchParams)
    (raw raw' : Bytes) (s s' t t' : Store)
    → ((data_ : Bytes) → length (x.sha256 data_) ≡ 32)
    → Follows accounts accounts' s' t
    → submit_settlement_batch x accounts params raw s ≡ (ok tt, s')
    → submit_settlement_batch x accounts' params' raw' t ≢ (ok tt, t')
submit_settlement_batch-once x accounts accounts' params params' raw raw' s s' t t' digest next h
      again =
    let (program, found, _, _, cleared, _) =
      submit_settlement_batch_inv x digest accounts params raw s h in
    let (program', found', stored, busy, _, _) =
      submit_settlement_batch_inv x digest accounts' params' raw' t again in
    let at_first = next.same_program in
    let one : program' ≡ program = cc in
    let stored' : get_settlement_hash (s' program).data_ ≡ ok (hash x raw') =
      rw (← next.same_data program, ← one) stored in
    busy cc

module _ (x : External) (accounts : List ℕ) (params : SettlementBatchParams) (raw : Bytes)
    (s : Store) (program : ℕ) (current : Hash) (opened : open_program accounts s ≡ (ok program, s))
    (stored : get_settlement_hash (s program).data_ ≡ ok current) where
  -- With the program account checked and its hash read, a submission is refused with
  -- `ERROR_NO_SETTLEMENT_IN_PROGRESS` when the hash is empty and with
  -- `ERROR_SETTLEMENT_BATCH_MISMATCH` when it is that of other parameters, in both cases without
  -- a change of an account; otherwise the settlement is applied.
  pub submit_settlement_batch_branches :
      ((current ≡ empty_hash)
        × (submit_settlement_batch x accounts params raw s
            ≡ (err (custom error_no_settlement_in_progress), s)))
      ⊎ (((current ≢ empty_hash)
            × (current ≢ hash x raw)
            × (submit_settlement_batch x accounts params raw s
                ≡ (err (custom error_settlement_batch_mismatch), s)))
          ⊎ ((current ≢ empty_hash)
              × (current ≡ hash x raw)
              × (submit_settlement_batch x accounts params raw s
                  ≡ apply_settlement accounts params (hash x raw) program s)))
  unfolding submit_settlement_batch submit_matching
  submit_settlement_batch_branches = elim (Bool-cases (bytes_eq current empty_hash)) [
    | inl idle ↦ inl (
      (bytes_eq_iff current empty_hash).0 idle,
      rw (opened, continue, stored, continue, idle) refl,
    )
    | inr busy ↦ elim (Bool-cases (bytes_eq current (hash x raw))) [
      | inl same ↦ inr (
          inr (
            bytes_eq→ne current empty_hash busy,
            (bytes_eq_iff current (hash x raw)).0 same,
            rw (opened, continue, stored, continue, busy, same) refl,
          ))
      | inr other ↦ inr (
          inl (
            bytes_eq→ne current empty_hash busy,
            bytes_eq→ne current (hash x raw) other,
            rw (opened, continue, stored, continue, busy, other) refl,
          ))
    ]
  ]
