-- ===== src/Contract/Settlement/Prepare.antt =====
-- The first phase of a settlement: what `prepare_settlement_batch` checks, and what it may change.
use chainring_contracts.Base.{
  ℕ, ◌+◌, ◌-◌, ◌%◌, ◌^◌, ◌<◌, ◌≡◌, ◌≢◌, ◌∙◌, refl, sym, ap, List, [], ◌∷◌, false, ltb, Bool-cases,
  inl, inr, arith, some,
}
use chainring_contracts.Base.Bytes.{Bytes}
use chainring_contracts.Base.Outcome.{ok}
use chainring_contracts.Constants.{error_insufficient_balance}
use chainring_contracts.Types.{
  Adjustment, SettlementAdjustments, AccountType, Event, failed_settlement,
}
use chainring_contracts.State.Raw.{ProgramResult, slice}
use chainring_contracts.State.Token.{get_wallet_balance}
use chainring_contracts.State.Program.{emit_event}
use chainring_contracts.State.Program.Laws.{emit_event-keeps}
use chainring_contracts.Sdk.Account.{M, Store, ◌>>=◌, pure, query, lift, read, write, account_at}
use chainring_contracts.Sdk.Account.Laws.{bind_inv, read_inv, write_inv}
use chainring_contracts.Contract.Validate.{validate_account, get_validated_index}
use chainring_contracts.Contract.Deposit.Totals.{sum_amounts}
use chainring_contracts.Contract.Settlement.{
  emit_shortfall, report_shortfall, check_decrement, verify_decrements_from, verify_decrements,
  verify_increments_from, verify_increments, verify_token, verify_settlements,
}

-- No account but the one at `program` has changed, and of it neither the key nor the settlement hash.
pub record Kept (program : ℕ) (s s' : Store) : Type 0 where
  pub key : (s' program).key ≡ (s program).key
  pub hashes : slice 222 32 (s' program).data_ ≡ slice 222 32 (s program).data_
  pub elsewhere : (q : ℕ) → q ≢ program → s' q ≡ s q

pub Kept-refl : (program : ℕ) {s s' : Store} → s ≡ s' → Kept program s s'
Kept-refl program e = record {
  key = ap (λ t. (t program).key) (sym e);
  hashes = ap (λ t. slice 222 32 (t program).data_) (sym e);
  elsewhere = λ q ne. ap (λ t. t q) (sym e);
}

pub Kept-trans :
    {program : ℕ} {s t u : Store} → Kept program s t → Kept program t u → Kept program s u
Kept-trans k l = record {
  key = l.key ∙ k.key;
  hashes = l.hashes ∙ k.hashes;
  elsewhere = λ q ne. l.elsewhere q ne ∙ k.elsewhere q ne;
}

-- A write of the program account that keeps the settlement hash.
pub write-Kept :
    (f : Bytes → ProgramResult Bytes) (program : ℕ) (s : Store) {s' : Store}
    → ((bs bs' : Bytes) → f bs ≡ ok bs' → slice 222 32 bs' ≡ slice 222 32 bs)
    → write f program s ≡ (ok tt, s')
    → Kept program s s'
write-Kept f program s keeps h =
    let (bs, done, w) = write_inv f program s h in
    record {
      key = w.key_at;
      hashes = rw w.data_at (keeps (s program).data_ bs done);
      elsewhere = w.elsewhere;
    }

module _ (accounts : List ℕ) (program : ℕ) (first : account_at accounts 0 ≡ ok program) where
  emit_shortfall-Kept :
      (account_index : ℕ) (adjustment : Adjustment) (balance : ℕ) (s : Store) {s' : Store}
      → emit_shortfall accounts account_index adjustment balance s ≡ (ok tt, s')
      → Kept program s s'
  unfolding emit_shortfall
  emit_shortfall-Kept account_index adjustment balance s h =
      let event : Event = failed_settlement (record {
        account_index = account_index;
        address_index = adjustment.address_index.index;
        requested_amount = adjustment.amount;
        balance = balance;
        error_code = error_insufficient_balance;
      }) in
      write-Kept (emit_event event) program s (λ bs bs'. emit_event-keeps event bs) (rw first at h)

  report_shortfall-Kept :
      (account_index : ℕ) (adjustment : Adjustment) (balance : ℕ) (s : Store) {s' : Store}
      → report_shortfall accounts account_index adjustment balance s ≡ (ok tt, s')
      → Kept program s s'
  unfolding report_shortfall
  report_shortfall-Kept account_index adjustment balance s h =
      elim (Bool-cases (ltb balance adjustment.amount)) [
        | inl short ↦ emit_shortfall-Kept account_index adjustment balance s (rw short at h)
        | inr covered ↦ Kept-refl program (ap (λ q. q.1) (rw covered at h))
      ]

  check_decrement-Kept :
      (account_index p : ℕ) (adjustment : Adjustment) (s : Store) {s' : Store}
      → check_decrement accounts account_index p adjustment s ≡ (ok tt, s')
      → Kept program s s'
  unfolding check_decrement
  check_decrement-Kept account_index p adjustment s h =
      let check : Bytes → ProgramResult ℕ = λ bs. get_validated_index bs adjustment.address_index in
      let report : ℕ → M (Unit {0}) = report_shortfall accounts account_index adjustment in
      let look : ℕ → M (Unit {0}) = λ i. read (get_wallet_balance i) p >>= report in
      let (i, t, checked, h1) = bind_inv look (read check p) s h in
      let (balance, u, looked, h2) = bind_inv report (read (get_wallet_balance i) p) t h1 in
      let (_, same) = read_inv check p s checked in
      let (_, same') = read_inv (get_wallet_balance i) p t looked in
      Kept-trans (Kept-refl program (same ∙ same'))
        (report_shortfall-Kept account_index adjustment balance u h2)

  -- The sum that a loop gives back wraps at 64 bits.
  verify_decrements_from_lem :
      (account_index p total : ℕ) (adjustments : List Adjustment) (s : Store) {v : ℕ} {s' : Store}
      → total < 2 ^ 64
      → verify_decrements_from accounts account_index p total adjustments s ≡ (ok v, s')
      → (v ≡ (total + sum_amounts adjustments) % 2 ^ 64) × Kept program s s'
  unfolding verify_decrements_from sum_amounts
  verify_decrements_from_lem account_index p total [] s {v = v} small h =
      let same : total ≡ v = cc in
      (rw (← same) (omega (arith, small)), Kept-refl program (ap (λ q. q.1) h))
  verify_decrements_from_lem account_index p total (adjustment ∷ rest) s small h =
      let next = (total + adjustment.amount) % 2 ^ 64 in
      let (_, t, checked, later) =
        bind_inv (λ _. verify_decrements_from accounts account_index p next rest)
          (check_decrement accounts account_index p adjustment) s h in
      let (sum, kept) =
        verify_decrements_from_lem account_index p next rest t (omega arith) later in
      (
        omega (arith, sum),
        Kept-trans (check_decrement-Kept account_index p adjustment s checked) kept,
      )

  verify_increments_from_lem :
      (p total : ℕ) (adjustments : List Adjustment) (s : Store) {v : ℕ} {s' : Store}
      → total < 2 ^ 64
      → verify_increments_from p total adjustments s ≡ (ok v, s')
      → (v ≡ (total + sum_amounts adjustments) % 2 ^ 64) × Kept program s s'
  unfolding verify_increments_from sum_amounts
  verify_increments_from_lem p total [] s {v = v} small h =
      let same : total ≡ v = cc in
      (rw (← same) (omega (arith, small)), Kept-refl program (ap (λ q. q.1) h))
  verify_increments_from_lem p total (adjustment ∷ rest) s small h =
      let check : Bytes → ProgramResult ℕ = λ bs. get_validated_index bs adjustment.address_index in
      let next = (total + adjustment.amount) % 2 ^ 64 in
      let (_, t, checked, later) =
        bind_inv (λ _. verify_increments_from p next rest) (read check p) s h in
      let (_, same) = read_inv check p s checked in
      let (sum, kept) = verify_increments_from_lem p next rest t (omega arith) later in
      (omega (arith, sum), Kept-trans (Kept-refl program same) kept)

  verify_decrements_lem :
      (account_index : ℕ) (adjustments : List Adjustment) (s : Store) {v : ℕ} {s' : Store}
      → verify_decrements accounts account_index adjustments s ≡ (ok v, s')
      → (v ≡ sum_amounts adjustments % 2 ^ 64) × Kept program s s'
  unfolding verify_decrements
  verify_decrements_lem account_index adjustments s h =
      let (p, t, found, later) =
        bind_inv (λ p. verify_decrements_from accounts account_index p 0 adjustments)
          (lift (account_at accounts account_index)) s h in
      let (sum, kept) =
        verify_decrements_from_lem account_index p 0 adjustments t (omega arith) later in
      (omega (arith, sum), Kept-trans (Kept-refl program (ap (λ q. q.1) found)) kept)

  verify_increments_lem :
      (account_index : ℕ) (adjustments : List Adjustment) (s : Store) {v : ℕ} {s' : Store}
      → verify_increments accounts account_index adjustments s ≡ (ok v, s')
      → (v ≡ sum_amounts adjustments % 2 ^ 64) × Kept program s s'
  unfolding verify_increments
  verify_increments_lem account_index adjustments s h =
      let (p, t, found, later) =
        bind_inv (λ p. verify_increments_from p 0 adjustments)
          (lift (account_at accounts account_index)) s h in
      let (sum, kept) = verify_increments_from_lem p 0 adjustments t (omega arith) later in
      (omega (arith, sum), Kept-trans (Kept-refl program (ap (λ q. q.1) found)) kept)

-- What the tokens of a batch gain and lose: fees and increments against decrements.
unfoldable pub sum_gains : List SettlementAdjustments → ℕ
sum_gains [] = 0
sum_gains (t ∷ rest) = t.fee_amount + sum_amounts t.increments + sum_gains rest

unfoldable pub sum_losses : List SettlementAdjustments → ℕ
sum_losses [] = 0
sum_losses (t ∷ rest) = sum_amounts t.decrements + sum_losses rest

module _ (accounts : List ℕ) (program : ℕ) (first : account_at accounts 0 ≡ ok program) where
  verify_token_lem :
      (t : SettlementAdjustments) (total : ℕ) (s : Store) {v : ℕ} {s' : Store}
      → verify_token accounts total t s ≡ (ok v, s')
      → ((v + sum_amounts t.decrements) % 2 ^ 64
          ≡ (total + t.fee_amount + sum_amounts t.increments) % 2 ^ 64)
        × Kept program s s'
  unfolding verify_token
  verify_token_lem t total s {v = v} h =
      let net : ℕ → ℕ → M ℕ = λ decrement_sum increments.
        pure ((total + ((increments + t.fee_amount) % 2 ^ 64 + 2 ^ 64 - decrement_sum)) % 2 ^ 64) in
      let check =
        validate_account accounts t.account_index false false (some AccountType.token) (some 0) in
      let count : ℕ → M ℕ =
        λ d. verify_increments accounts t.account_index t.increments >>= net d in
      let (_, s1, checked, h1) =
        bind_inv (λ _. verify_decrements accounts t.account_index t.decrements >>= count)
          (query check) s h in
      let (d, s2, taken, h2) =
        bind_inv count (verify_decrements accounts t.account_index t.decrements) s1 h1 in
      let (i, s3, added, h3) =
        bind_inv (net d) (verify_increments accounts t.account_index t.increments) s2 h2 in
      let (losses, kept) =
        verify_decrements_lem accounts program first t.account_index t.decrements s1 taken in
      let (gains, kept') =
        verify_increments_lem accounts program first t.account_index t.increments s2 added in
      let same : (total + ((i + t.fee_amount) % 2 ^ 64 + 2 ^ 64 - d)) % 2 ^ 64 ≡ v = cc in
      (
        omega (arith, same, losses, gains),
        Kept-trans (Kept-refl program (ap (λ q. q.1) checked))
            (Kept-trans kept (Kept-trans kept' (Kept-refl program (ap (λ q. q.1) h3)))),
      )

  -- The running total of the loop that checks a batch, with the losses of its tokens added, is what it
  -- began at with the gains added, up to a multiple of 2 ^ 64.
  pub verify_settlements_lem :
      (tokens : List SettlementAdjustments) (total : ℕ) (s : Store) {v : ℕ} {s' : Store}
      → verify_settlements accounts total tokens s ≡ (ok v, s')
      → ((v + sum_losses tokens) % 2 ^ 64 ≡ (total + sum_gains tokens) % 2 ^ 64) × Kept program s s'
  unfolding verify_settlements sum_gains sum_losses
  verify_settlements_lem [] total s {v = v} h =
      let same : total ≡ v = cc in (rw (← same) refl, Kept-refl program (ap (λ q. q.1) h))
  verify_settlements_lem (t ∷ rest) total s h =
      let (next, s1, checked, later) =
        bind_inv (λ next. verify_settlements accounts next rest) (verify_token accounts total t) s
          h in
      let (one, kept) = verify_token_lem t total s checked in
      let (others, kept') = verify_settlements_lem rest next s1 later in
      (omega (arith, one, others), Kept-trans kept kept')
