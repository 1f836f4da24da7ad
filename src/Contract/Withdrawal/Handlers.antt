-- ===== src/Contract/Withdrawal/Handlers.antt =====
-- `prepare_withdraw_batch` and `rollback_withdraw_batch` against every balance of every account.
use chainring_contracts.Base.{
  ℕ, ◌^◌, ◌<◌, ◌≡◌, ◌≢◌, ◌∙◌, ◌⊎◌, ap, true, false, some, List, inl, inr,
}
use chainring_contracts.Base.Bytes.{Bytes}
use chainring_contracts.Base.Outcome.{ok}
use chainring_contracts.Types.{AccountType, WithdrawBatchParams, RollbackWithdrawBatchParams}
use chainring_contracts.External.{External}
use chainring_contracts.State.Program.{get_events_count}
use chainring_contracts.State.Withdraw.{clear_hash}
use chainring_contracts.Sdk.Account.{M, Store, ◌>>=◌, query, write, account_at}
use chainring_contracts.Sdk.Account.Laws.{bind_inv, write_inv}
use chainring_contracts.Contract.Validate.{validate_account}
use chainring_contracts.Contract.Withdrawal.{rollback_tokens, rollback_withdraw_batch}
use chainring_contracts.Contract.Withdrawal.Prepare.{prepare_withdraw_batch}
use chainring_contracts.Contract.Withdrawal.Balances.{batch_reserved, batch_fees}
use chainring_contracts.Contract.Withdrawal.Fees.{Keys, HasKeys}
use chainring_contracts.Contract.Withdrawal.Restore.{rollback_tokens-Shifts, Shifts-back}
use chainring_contracts.Contract.Shifts.{balance_at, Shifted, Shifts}
use chainring_contracts.Contract.Withdrawal.Outcome.{handled}

-- A rollback that succeeds, outside of the withdraw account, behind its checks and as a whole.
rolled_back :
    (accounts : List ℕ) (params : RollbackWithdrawBatchParams) (withdraw : ℕ) (keys : Keys)
    (s u v : Store) {s' : Store}
    → s ≡ u
    → HasKeys keys s
    → rollback_tokens accounts params.token_withdrawals u ≡ (ok tt, v)
    → write clear_hash withdraw v ≡ (ok tt, s')
    → (t : Store) × Shifts
        (batch_fees accounts params.token_withdrawals)
        (batch_reserved keys accounts params.token_withdrawals)
        s
        t
      × ((q : ℕ) → q ≢ withdraw → s' q ≡ t q)
rolled_back accounts params withdraw keys s u v same has rolled cleared =
    let shifts =
      rollback_tokens-Shifts keys accounts params.token_withdrawals u v (rw (← same) has) rolled in
    let (_, _, w) = write_inv clear_hash withdraw v cleared in (v, rw same shifts, w.elsewhere)

rollback_withdraw_batch-Shifts :
    (accounts : List ℕ) (params : RollbackWithdrawBatchParams) (withdraw : ℕ) (keys : Keys)
    (s : Store) {s' : Store}
    → account_at accounts 1 ≡ ok withdraw
    → HasKeys keys s
    → rollback_withdraw_batch accounts params s ≡ (ok tt, s')
    → (t : Store) × Shifts
        (batch_fees accounts params.token_withdrawals)
        (batch_reserved keys accounts params.token_withdrawals)
        s
        t
      × ((q : ℕ) → q ≢ withdraw → s' q ≡ t q)
unfolding rollback_withdraw_batch
rollback_withdraw_batch-Shifts accounts params withdraw keys s {s' = s'} second has h =
    let clear : M (Unit {0}) = write clear_hash withdraw in
    let run : M (Unit {0}) = rollback_tokens accounts params.token_withdrawals in
    let program_ok = validate_account accounts 0 true false (some AccountType.program) (some 1) in
    let withdraw_ok = validate_account accounts 1 false true (some AccountType.withdraw) (some 0) in
    let h0 : (query program_ok >>= λ _. query withdraw_ok >>= λ _. run >>= λ _. clear) s
        ≡ (ok tt, s') =
      rw second at h in
    let (_, t, checked, h1) =
      bind_inv (λ _. query withdraw_ok >>= λ _. run >>= λ _. clear) (query program_ok) s h0 in
    let (_, u, checked', h2) = bind_inv (λ _. run >>= λ _. clear) (query withdraw_ok) t h1 in
    let (_, v, rolled, cleared) = bind_inv (λ _. clear) run u h2 in
    let same = ap (λ r. r.1) checked ∙ ap (λ r. r.1) checked' in
    rolled_back accounts params withdraw keys s u v same has rolled cleared

-- A preparation of withdrawals that succeeds either has reported failures, and then a balance is what
-- it was, or it has taken from each entry of each account what the batch withdraws from it, with
-- the fees in other tokens, and has given to entry 0 of each fee token its fees; modulo 2 ^ 64, for a
-- balance that fits in 64 bits, of an account that is neither the program's nor the withdraw account.
pub prepare_withdraw_batch-Shifted :
    (x : External) (accounts : List ℕ) (params : WithdrawBatchParams) (raw : Bytes) (s : Store)
    (program withdraw q j b : ℕ) {s' : Store}
    → account_at accounts 0 ≡ ok program
    → account_at accounts 1 ≡ ok withdraw
    → q ≢ program
    → q ≢ withdraw
    → balance_at s q j ≡ ok b
    → b < 2 ^ 64
    → prepare_withdraw_batch x accounts params raw s ≡ (ok tt, s')
    → ((n : ℕ) × (get_events_count (s' program).data_ ≡ ok n)
        × (n ≢ 0)
        × (balance_at s' q j ≡ ok b))
      ⊎ ((b' : ℕ) × (balance_at s' q j ≡ ok b')
          × Shifted b
              (batch_reserved (λ p. (s p).key) accounts params.token_withdrawals q j)
              (batch_fees accounts params.token_withdrawals q j)
              b')
prepare_withdraw_batch-Shifted x accounts params raw s program withdraw q j b first second ne ne'
      held small h =
    elim (handled x accounts params raw program withdraw first second s h) [
      | inl r ↦
          let (n, counted, some_failed) = r.failures in
          inl (n, counted, some_failed, rw (r.kept.elsewhere q ne) held)
      | inr r ↦
          let unmoved : balance_at r.checked q j ≡ ok b = rw (r.kept.elsewhere q ne) held in
          inr (rw (r.same q ne') (r.shifts.balance q j b unmoved small))
    ]

-- A preparation of withdrawals that succeeds and reports no failure, followed by a rollback of the
-- same withdrawals that succeeds, leaves each balance that fits in 64 bits as it was before both, of an
-- account that is neither the program's nor the withdraw account. Between the two, the keys of the
-- accounts and the data of that account stay.
pub rollback_withdraw_batch-prepare_withdraw_batch :
    (x : External) (accounts : List ℕ) (params : WithdrawBatchParams)
    (undo : RollbackWithdrawBatchParams) (raw : Bytes) (s t : Store) (program withdraw q j b : ℕ)
    {s' t' : Store}
    → account_at accounts 0 ≡ ok program
    → account_at accounts 1 ≡ ok withdraw
    → q ≢ program
    → q ≢ withdraw
    → balance_at s q j ≡ ok b
    → b < 2 ^ 64
    → prepare_withdraw_batch x accounts params raw s ≡ (ok tt, s')
    → get_events_count (s' program).data_ ≡ ok 0
    → HasKeys (λ p. (s' p).key) t
    → (t q).data_ ≡ (s' q).data_
    → undo.token_withdrawals ≡ params.token_withdrawals
    → rollback_withdraw_batch accounts undo t ≡ (ok tt, t')
    → balance_at t' q j ≡ ok b
rollback_withdraw_batch-prepare_withdraw_batch x accounts params undo raw s t program withdraw q j b
      first second ne ne' held small h no_events keys same batch h' =
    elim (handled x accounts params raw program withdraw first second s h) [
      | inl r ↦
          let (n, counted, some_failed) = r.failures in
          let zero_failed : n ≡ 0 = cc in absurd (some_failed zero_failed)
      | inr r ↦
          let has : HasKeys (λ p. (s p).key) t = λ p. keys p ∙ r.keys p in
          let (u, back, same') =
            rollback_withdraw_batch-Shifts accounts undo withdraw (λ p. (s p).key) t second has
              h' in
          let unmoved : balance_at r.checked q j ≡ ok b = rw (r.kept.elsewhere q ne) held in
          rw (same' q ne') (
            Shifts-back r.shifts (rw batch at back) q j b (same ∙ ap (λ a. a.data_) (r.same q ne'))
              unmoved small)
    ]
