-- ===== src/Contract/Settlement/Totals.antt =====
-- A settlement of one token against the sum of its account's balances.
use chainring_contracts.Base.{ℕ, zero, suc, ◌+◌, ◌^◌, ◌<◌, ◌≡◌, true, ap, [], ◌∷◌, ltb, arith}
use chainring_contracts.Base.Bytes.{Bytes}
use chainring_contracts.Base.Outcome.{ok}
use chainring_contracts.Constants.{fee_address_index}
use chainring_contracts.Types.{Adjustment, SettlementAdjustments}
use chainring_contracts.State.Token.{get_wallet_address_last4}
use chainring_contracts.Sdk.Account.{Store, M, ◌>>=◌, read}
use chainring_contracts.Sdk.Account.Laws.{bind_inv, read_inv}
use chainring_contracts.Contract.Deposit.{handle_increments, handle_decrements}
use chainring_contracts.Contract.Deposit.Totals.{
  sum_amounts, Holds, handle_increments-Holds, handle_decrements-Holds,
}
use chainring_contracts.Contract.Settlement.{pay_fee, settle_fee, settle_token}

module _ (p n : ℕ) where
  pay_fee-Holds :
      (fee_amount : ℕ) (s : Store) {s' : Store} (sum : ℕ)
      → Holds n sum (s p).data_
      → sum + fee_amount < 2 ^ 64
      → pay_fee p fee_amount s ≡ (ok tt, s')
      → Holds n (sum + fee_amount) (s' p).data_
  unfolding pay_fee sum_amounts
  pay_fee-Holds fee_amount s sum held fits h =
      let fee : Bytes → Adjustment = λ last4. record {
        address_index = record { index = fee_address_index; last4 = last4 };
        amount = fee_amount;
      } in
      let pay : Bytes → M (Unit {0}) = λ last4. handle_increments p (fee last4 ∷ []) in
      let look = get_wallet_address_last4 fee_address_index in
      let (last4, t, looked, paid) = bind_inv pay (read look p) s h in
      let (_, same) = read_inv look p s looked in
      let held' : Holds n sum (t p).data_ = rw (← same) held in
      let (counted, summed) =
        handle_increments-Holds p n (fee last4 ∷ []) t sum held' (omega (arith, fits)) paid in
      (counted, omega (arith, summed))

  settle_fee-Holds :
      (fee_amount : ℕ) (s : Store) {s' : Store} (sum : ℕ)
      → Holds n sum (s p).data_
      → sum + fee_amount < 2 ^ 64
      → settle_fee p fee_amount s ≡ (ok tt, s')
      → Holds n (sum + fee_amount) (s' p).data_
  unfolding settle_fee
  settle_fee-Holds zero s {s' = s'} sum (counted, summed) fits h =
      let same : s ≡ s' = ap (λ q. q.1) h in rw (← same) (counted, omega (arith, summed))
  settle_fee-Holds (suc f) s sum held fits h =
      let charged : ltb 0 (suc f) ≡ true = ground arith in
      pay_fee-Holds (suc f) s sum held fits (rw charged at h)

  -- A settlement of a token that succeeds adds the fee and the increments to the sum of the account's
  -- balances and takes the decrements from it, when the sum fits in 64 bits with what is added.
  pub settle_token-Holds :
      (t : SettlementAdjustments) (s : Store) {s' : Store} (sum : ℕ)
      → Holds n sum (s p).data_
      → sum + t.fee_amount + sum_amounts t.increments < 2 ^ 64
      → settle_token p t s ≡ (ok tt, s')
      → (left : ℕ) × (left + sum_amounts t.decrements
          ≡ sum + t.fee_amount + sum_amounts t.increments)
        × Holds n left (s' p).data_
  unfolding settle_token
  settle_token-Holds t s sum held fits h =
      let last : M (Unit {0}) = handle_decrements p t.decrements in
      let (_, s1, paid, h1) =
        bind_inv (λ _. handle_increments p t.increments >>= λ _. last) (settle_fee p t.fee_amount) s
          h in
      let (_, s2, added, taken) = bind_inv (λ _. last) (handle_increments p t.increments) s1 h1 in
      let held1 = settle_fee-Holds t.fee_amount s sum held (omega (arith, fits)) paid in
      let held2 = handle_increments-Holds p n t.increments s1 _ held1 fits added in
      handle_decrements-Holds p n t.decrements s2 _ held2 fits taken
