-- ===== src/Contract/Settlement/Trace.antt =====
-- The settlement instructions of a chain of runs: which of them can follow which.
use chainring_contracts.Base.{ℕ, ◌≡◌, ◌≢◌, ◌∙◌, ◌⊎◌, inl, inr, ap, List, [], ◌∷◌, length}
use chainring_contracts.Base.Bytes.{Bytes}
use chainring_contracts.Base.Outcome.{ok}
use chainring_contracts.Constants.{empty_hash}
use chainring_contracts.Types.{Hash, SettlementBatchParams}
use chainring_contracts.External.{External}
use chainring_contracts.State.Program.{get_settlement_hash, clear_settlement_hash}
use chainring_contracts.State.Program.Laws.{clear_settlement_hash_inv}
use chainring_contracts.Sdk.Account.{Store, account_at, write}
use chainring_contracts.Sdk.Account.Laws.{bind_inv, write_inv}
use chainring_contracts.Contract.Settlement.{
  hash, open_program, prepare_settlement_batch, submit_settlement_batch, rollback_settlement_batch,
}
use chainring_contracts.Contract.Settlement.Phases.{open_program_inv, submit_settlement_batch_inv}
use chainring_contracts.Contract.Settlement.Prepared.{prepare_settlement_batch_inv}

-- The settlement instructions that have succeeded.
pub data Action : Type 0 where
  prepared : Hash → Action
  submitted : Hash → Action
  rolled_back : Action

-- Each submission comes right after a preparation of the same digest; the latest action is first.
abbrev pub Matched : List Action → Type 0
Matched [] = Unit
Matched (prepared h ∷ log) = Matched log
Matched (rolled_back ∷ log) = Matched log
Matched (submitted h ∷ log) = ((earlier : List Action) × (log ≡ prepared h ∷ earlier)) × Matched log

module _ (x : External) (accounts : List ℕ) (program : ℕ) where
  -- The runs from `start` that give a log of settlement instructions and lead to a store. Between
  -- two of them other instructions run, and the host sets flags anew: they keep the settlement hash.
  pub data Trace (start : Store) : List Action → Store → Type 0 where
    begin : Trace start [] start
    other :
        {log : List Action} {s : Store} (t : Store)
        → Trace start log s
        → get_settlement_hash (t program).data_ ≡ get_settlement_hash (s program).data_
        → Trace start log t
    prepare :
        {log : List Action} {s : Store} (s' : Store) (params : SettlementBatchParams) (raw : Bytes)
        → Trace start log s
        → prepare_settlement_batch x accounts params raw s ≡ (ok tt, s')
        → Trace start (prepared (hash x raw) ∷ log) s'
    submit :
        {log : List Action} {s : Store} (s' : Store) (params : SettlementBatchParams) (raw : Bytes)
        → Trace start log s
        → submit_settlement_batch x accounts params raw s ≡ (ok tt, s')
        → Trace start (submitted (hash x raw) ∷ log) s'
    rollback :
        {log : List Action} {s : Store} (s' : Store)
        → Trace start log s
        → rollback_settlement_batch accounts s ≡ (ok tt, s')
        → Trace start (rolled_back ∷ log) s'

-- The settlement hash after a log.
abbrev Held : ℕ → List Action → Store → Type 0
Held program (prepared h ∷ log) s =
    (get_settlement_hash (s program).data_ ≡ ok h)
    ⊎ (get_settlement_hash (s program).data_ ≡ ok empty_hash)
Held program _ s = get_settlement_hash (s program).data_ ≡ ok empty_hash

rollback_inv :
    (accounts : List ℕ) (s : Store) {s' : Store}
    → rollback_settlement_batch accounts s ≡ (ok tt, s')
    → (program : ℕ) × (account_at accounts 0 ≡ ok program)
      × (get_settlement_hash (s' program).data_ ≡ ok empty_hash)
unfolding rollback_settlement_batch
rollback_inv accounts s h =
    let (program, t, opened, h1) =
      bind_inv (write clear_settlement_hash) (open_program accounts) s h in
    let (found, _) = open_program_inv accounts s opened in
    let (bs, cleared, w) = write_inv clear_settlement_hash program t h1 in
    let (gone, _) = clear_settlement_hash_inv (t program).data_ cleared in
    (program, found, rw w.data_at gone)

Held-same :
    (program : ℕ) (log : List Action) (s t : Store)
    → get_settlement_hash (t program).data_ ≡ get_settlement_hash (s program).data_
    → Held program log s
    → Held program log t
Held-same program [] s t e h = e ∙ h
Held-same program (prepared _ ∷ log) s t e (inl h) = inl (e ∙ h)
Held-same program (prepared _ ∷ log) s t e (inr h) = inr (e ∙ h)
Held-same program (submitted _ ∷ log) s t e h = e ∙ h
Held-same program (rolled_back ∷ log) s t e h = e ∙ h

-- A hash in progress is that of the preparation that is the latest action.
Held-pending :
    (program : ℕ) (log : List Action) (s : Store) (h : Hash)
    → Held program log s
    → get_settlement_hash (s program).data_ ≡ ok h
    → h ≢ empty_hash
    → (earlier : List Action) × (log ≡ prepared h ∷ earlier)
Held-pending program [] s h held stored busy = absurd (busy cc)
Held-pending program (prepared k ∷ log) s h (inl held) stored busy =
    let same : k ≡ h = cc in (log, ap (λ d. prepared d ∷ log) same)
Held-pending program (prepared k ∷ log) s h (inr held) stored busy = absurd (busy cc)
Held-pending program (submitted _ ∷ log) s h held stored busy = absurd (busy cc)
Held-pending program (rolled_back ∷ log) s h held stored busy = absurd (busy cc)

module _ (x : External) (digest : (data_ : Bytes) → length (x.sha256 data_) ≡ 32)
    (accounts : List ℕ) (program : ℕ) (first : account_at accounts 0 ≡ ok program) (start : Store)
    (idle : get_settlement_hash (start program).data_ ≡ ok empty_hash) where
  trace_lem :
      (log : List Action) (s : Store)
      → Trace x accounts program start log s
      → Held program log s × Matched log
  trace_lem _ _ begin = (idle, tt)
  trace_lem log _ (other {s = s} t run same) =
      let (held, matched) = trace_lem log s run in (Held-same program log s t same held, matched)
  trace_lem _ _ (prepare {log = log'} {s = s} s' params raw run done) =
      let (_, matched) = trace_lem log' s run in
      let (p, found, none_stored, _, decided, _) =
        prepare_settlement_batch_inv x digest accounts params raw s done in
      let one : p ≡ program = cc in
      (
        elim decided [
          | inl (_, put) ↦ inl (rw (← one) put)
          | inr (_, _, _, kept) ↦ inr (rw (← one) (kept ∙ none_stored))
        ],
        matched,
      )
  trace_lem _ _ (submit {log = log'} {s = s} s' params raw run done) =
      let (held, matched) = trace_lem log' s run in
      let (p, found, stored, busy, cleared, _) =
        submit_settlement_batch_inv x digest accounts params raw s done in
      let one : p ≡ program = cc in
      (
        rw (← one) cleared,
        (Held-pending program log' s (hash x raw) held (rw (← one) stored) busy, matched),
      )
  trace_lem _ _ (rollback {log = log'} {s = s} s' run done) =
      let (_, matched) = trace_lem log' s run in
      let (p, found, gone) = rollback_inv accounts s done in
      let one : p ≡ program = cc in (rw (← one) gone, matched)

  -- In any chain of runs over the same accounts that begins with no settlement in progress, with
  -- digests of 32 bytes, each submission that succeeds comes right after a preparation of the same
  -- digest: neither a rollback nor another submission lies between.
  pub Trace-Matched :
      (log : List Action) (s : Store) → Trace x accounts program start log s → Matched log
  Trace-Matched log s run = (trace_lem log s run).1
