-- ===== src/Contract/Settlement/Prepared.antt =====
-- What `prepare_settlement_batch` has checked and stored when it succeeds.
use chainring_contracts.Base.{
  ℕ, ◌%◌, ◌^◌, ◌≡◌, ◌≢◌, ◌⊎◌, ◌∙◌, refl, sym, ap, List, length, ◌==◌, ==_iff, Bool-cases, inl, inr,
  if◌then◌else◌, arith,
}
use chainring_contracts.Base.Bytes.{Bytes, bytes_eq, bytes_eq_iff}
use chainring_contracts.Base.Outcome.{ok, err, custom}
use chainring_contracts.Constants.{empty_hash, error_settlement_in_progress}
use chainring_contracts.Types.{SettlementBatchParams, Hash}
use chainring_contracts.External.{External}
use chainring_contracts.State.Raw.{hash_from_slice}
use chainring_contracts.State.Program.{
  get_settlement_hash, set_settlement_hash, clear_events, get_events_count,
}
use chainring_contracts.State.Program.Laws.{set_settlement_hash_inv, clear_events-keeps}
use chainring_contracts.Sdk.Account.{M, Store, continue, ◌>>=◌, raise, read, write, account_at}
use chainring_contracts.Sdk.Account.Laws.{refused, bind_inv, read_inv, write_inv}
use chainring_contracts.Contract.Settlement.{
  open_program, verify_settlements, hash, store_hash, finish_prepare, prepare_idle,
  prepare_settlement_batch, submit_settlement_batch,
}
use chainring_contracts.Contract.Settlement.Phases.{
  Follows, open_program_inv, submit_settlement_batch_inv,
}
use chainring_contracts.Contract.Settlement.Prepare.{
  Kept-trans, write-Kept, sum_gains, sum_losses, verify_settlements_lem,
}

-- The hash is stored, or a shortfall was reported and the hash stays as it was.
abbrev pub Decided : ℕ → Hash → Store → Store → Type 0
Decided program params_hash s s' =
    ((get_events_count (s' program).data_ ≡ ok 0)
      × (get_settlement_hash (s' program).data_ ≡ ok params_hash))
    ⊎ ((n : ℕ) × (n ≢ 0)
        × (get_events_count (s' program).data_ ≡ ok n)
        × (get_settlement_hash (s' program).data_ ≡ get_settlement_hash (s program).data_))

-- No account but the one at `program` has changed.
abbrev pub OnlyAt : ℕ → Store → Store → Type 0
OnlyAt program s s' = (q : ℕ) → q ≢ program → s' q ≡ s q

module _ (x : External) (program : ℕ) (raw : Bytes) (size : length (hash x raw) ≡ 32) where
  store_hash_inv :
      (n : ℕ) (s : Store) {s' : Store}
      → get_events_count (s program).data_ ≡ ok n
      → store_hash x program raw n s ≡ (ok tt, s')
      → Decided program (hash x raw) s s' × OnlyAt program s s'
  unfolding store_hash
  store_hash_inv n s {s' = s'} count h = elim (Bool-cases (n == 0)) [
    | inl clean ↦
        let (bs, stored, w) =
          write_inv (set_settlement_hash (hash x raw)) program s (rw clean at h) in
        let (put, _, events) = set_settlement_hash_inv (hash x raw) (s program).data_ size stored in
        let none_left : n ≡ 0 = (==_iff n 0).0 clean in
        (inl (rw w.data_at (events ∙ count ∙ ap ok none_left), rw w.data_at put), w.elsewhere)
    | inr short ↦
        let same : s ≡ s' = ap (λ q. q.1) (rw short at h) in
        let some_left : n ≢ 0 = grind arith in
        rw (← same) (inr (n, some_left, count, refl), λ q ne. refl)
  ]

  finish_prepare_inv :
      (total : ℕ) (s : Store) {s' : Store}
      → finish_prepare x program raw total s ≡ (ok tt, s')
      → (total ≡ 0) × Decided program (hash x raw) s s' × OnlyAt program s s'
  unfolding finish_prepare
  finish_prepare_inv total s h = elim (Bool-cases (total == 0)) [
    | inr off ↦ absurd (refused (rw off at h))
    | inl net ↦
        let (n, t, counted, h1) =
          bind_inv (store_hash x program raw) (read get_events_count program) s (rw net at h) in
        let (count, same) = read_inv get_events_count program s counted in
        let (decided, only) = store_hash_inv n t (rw (← same) count) h1 in
        ((==_iff total 0).0 net, rw same decided, rw same only)
  ]

  -- What a check of a batch that succeeds has found, and left.
  prepare_idle_inv :
      (accounts : List ℕ) (params : SettlementBatchParams) (s : Store) {s' : Store}
      → account_at accounts 0 ≡ ok program
      → prepare_idle x accounts params raw program s ≡ (ok tt, s')
      → (sum_losses params.settlements % 2 ^ 64 ≡ sum_gains params.settlements % 2 ^ 64)
        × Decided program (hash x raw) s s'
        × OnlyAt program s s'
  unfolding prepare_idle get_settlement_hash hash_from_slice
  prepare_idle_inv accounts params s first h =
      let verify = verify_settlements accounts 0 params.settlements in
      let (_, t, cleared, h1) =
        bind_inv (λ _. verify >>= finish_prepare x program raw) (write clear_events program) s h in
      let (total, u, verified, h2) = bind_inv (finish_prepare x program raw) verify t h1 in
      let kept = write-Kept clear_events program s (λ bs bs'. clear_events-keeps bs) cleared in
      let (sums, kept') =
        verify_settlements_lem accounts program first params.settlements 0 t verified in
      let (net, decided, only) = finish_prepare_inv total u h2 in
      let both = Kept-trans kept kept' in
      (
        omega (arith, sums, net),
        rw (← both.hashes) decided,
        λ q ne. only q ne ∙ both.elsewhere q ne,
      )

module _ (x : External) (digest : (data_ : Bytes) → length (x.sha256 data_) ≡ 32)
    (accounts : List ℕ) (params : SettlementBatchParams) (raw : Bytes) (s : Store)
    {s' : Store} where
  -- A preparation that succeeds, with digests of 32 bytes, found no settlement in progress; its fees
  -- and increments, summed over all tokens, equal its decrements modulo 2 ^ 64; it has changed no
  -- account but the program's; and either no event is left and the hash of the parameters is
  -- stored, or events are left and there is still no settlement in progress.
  pub prepare_settlement_batch_inv :
      prepare_settlement_batch x accounts params raw s ≡ (ok tt, s')
      → (program : ℕ) × (account_at accounts 0 ≡ ok program)
        × (get_settlement_hash (s program).data_ ≡ ok empty_hash)
        × (sum_losses params.settlements % 2 ^ 64 ≡ sum_gains params.settlements % 2 ^ 64)
        × Decided program (hash x raw) s s'
        × OnlyAt program s s'
  unfolding prepare_settlement_batch hash
  prepare_settlement_batch_inv h =
      let (program, t, opened, h1) =
        bind_inv (λ p. read get_settlement_hash p >>= begin p) (open_program accounts) s h in
      let (found, same) = open_program_inv accounts s opened in
      let (current, u, looked, h2) =
        bind_inv (begin program) (read get_settlement_hash program) t h1 in
      let (stored, same') = read_inv get_settlement_hash program t looked in
      elim (Bool-cases (bytes_eq current empty_hash)) [
        | inr busy ↦ absurd (refused (rw busy at h2))
        | inl idle ↦
            let none_stored = (bytes_eq_iff current empty_hash).0 idle in
            let (net, decided, only) =
              prepare_idle_inv x program raw (digest raw) accounts params u found (rw idle at h2) in
            let back : u ≡ s = sym (same ∙ same') in
            (
              program,
              found,
              rw same (stored ∙ ap ok none_stored),
              net,
              rw (← back) decided,
              rw (← back) only,
            )
      ]
    where
      begin : ℕ → Hash → M (Unit {0})
      begin program current_hash =
          if bytes_eq current_hash empty_hash
          then prepare_idle x accounts params raw program
          else raise (custom error_settlement_in_progress)

-- With the program account checked, a preparation while a settlement is in progress is refused with
-- `ERROR_SETTLEMENT_IN_PROGRESS`, and changes no account.
prepare_settlement_batch-in_progress :
    (x : External) (accounts : List ℕ) (params : SettlementBatchParams) (raw : Bytes) (s : Store)
    (program : ℕ) (current : Hash)
    → open_program accounts s ≡ (ok program, s)
    → get_settlement_hash (s program).data_ ≡ ok current
    → current ≢ empty_hash
    → prepare_settlement_batch x accounts params raw s
      ≡ (err (custom error_settlement_in_progress), s)
unfolding prepare_settlement_batch
prepare_settlement_batch-in_progress x accounts params raw s program current opened stored busy =
    elim (Bool-cases (bytes_eq current empty_hash)) [
      | inl idle ↦ absurd (busy ((bytes_eq_iff current empty_hash).0 idle))
      | inr b ↦ rw (opened, continue, stored, continue, b) refl
    ]

-- The batch that was prepared is the only one that can be submitted next: after a preparation that
-- succeeds, with digests of 32 bytes, a submission that follows and succeeds has the same digest.
pub submit-after-prepare :
    (x : External) (accounts accounts' : List ℕ) (params params' : SettlementBatchParams)
    (raw raw' : Bytes) (s s' t t' : Store)
    → ((data_ : Bytes) → length (x.sha256 data_) ≡ 32)
    → Follows accounts accounts' s' t
    → prepare_settlement_batch x accounts params raw s ≡ (ok tt, s')
    → submit_settlement_batch x accounts' params' raw' t ≡ (ok tt, t')
    → hash x raw' ≡ hash x raw
submit-after-prepare x accounts accounts' params params' raw raw' s s' t t' digest next prepared
      submitted =
    let (program, found, idle, _, decided, _) =
      prepare_settlement_batch_inv x digest accounts params raw s prepared in
    let (program', found', stored, busy, _, _) =
      submit_settlement_batch_inv x digest accounts' params' raw' t submitted in
    let at_first = next.same_program in
    let one : program' ≡ program = cc in
    let stored' : get_settlement_hash (s' program).data_ ≡ ok (hash x raw') =
      rw (← next.same_data program, ← one) stored in
    elim decided [ inl (_, put) ↦ cc | inr (_, _, _, kept) ↦ absurd (busy cc) ]

-- A prepared settlement is not overwritten: after a preparation that succeeds with no event left, with
-- digests of 32 bytes and a digest of its parameters that is not the empty hash, any preparation that
-- follows, on a program account that passes its checks, is refused with `ERROR_SETTLEMENT_IN_PROGRESS`
-- and changes no account, also with the same batch.
pub prepare-after-prepare :
    (x : External) (accounts accounts' : List ℕ) (params params' : SettlementBatchParams)
    (raw raw' : Bytes) (s s' t : Store) (program : ℕ)
    → ((data_ : Bytes) → length (x.sha256 data_) ≡ 32)
    → hash x raw ≢ empty_hash
    → Follows accounts accounts' s' t
    → prepare_settlement_batch x accounts params raw s ≡ (ok tt, s')
    → get_events_count (s' program).data_ ≡ ok 0
    → open_program accounts' t ≡ (ok program, t)
    → prepare_settlement_batch x accounts' params' raw' t
      ≡ (err (custom error_settlement_in_progress), t)
prepare-after-prepare x accounts accounts' params params' raw raw' s s' t program digest filled next
      prepared clean opened =
    let (program', found, _, _, decided, _) =
      prepare_settlement_batch_inv x digest accounts params raw s prepared in
    let (found', _) = open_program_inv accounts' t opened in
    let at_first = next.same_program in
    let one : program ≡ program' = cc in
    let clean' : get_events_count (s' program').data_ ≡ ok 0 = rw (← one) clean in
    let stored : get_settlement_hash (t program).data_ ≡ ok (hash x raw) = elim decided [
      | inl (_, put) ↦ rw (one, next.same_data program') put
      | inr (n, some_left, count, _) ↦ absurd (some_left cc)
    ] in
    prepare_settlement_batch-in_progress x accounts' params' raw' t program (hash x raw) opened
      stored filled
