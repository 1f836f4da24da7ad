-- ===== src/Contract/Withdrawal/Restore.antt =====
-- The rollback of a batch of withdrawals gives back what its preparation reserved.
use chainring_contracts.Base.{ℕ, ◌^◌, ◌<◌, ◌≡◌, ◌∙◌, ap, true, false, some, List, [], ◌∷◌, arith}
use chainring_contracts.Base.Bytes.{Bytes}
use chainring_contracts.Base.Outcome.{ok}
use chainring_contracts.Types.{AccountType, NetworkType, Withdrawal, TokenWithdrawals}
use chainring_contracts.External.{External}
use chainring_contracts.State.Token.{get_wallet_balance}
use chainring_contracts.State.Program.{get_fee_account_address}
use chainring_contracts.Sdk.Account.{M, Store, ◌>>=◌, query, lift, read, account_at}
use chainring_contracts.Sdk.Account.Laws.{bind_inv, read_inv}
use chainring_contracts.Contract.Validate.{validate_account}
use chainring_contracts.Contract.Outputs.{Outputs}
use chainring_contracts.Contract.Withdrawal.{
  return_withdrawals, handle_rollback_withdrawals, rollback_tokens,
}
use chainring_contracts.Contract.Withdrawal.Prepare.{prepare_withdrawals, prepare_tokens}
use chainring_contracts.Contract.Shifts.{
  balance_at, Flow, Shifted, Shifts, Shifts-refl, Shifts-trans,
}
use chainring_contracts.Contract.Shifts.Batches.{place, place-account_at}
use chainring_contracts.Contract.Withdrawal.Balances.{
  reserved, fees, batch_reserved, batch_fees, prepare_withdrawals-Shifts, return_withdrawals-Shifts,
}
use chainring_contracts.Contract.Withdrawal.Fees.{Keys, HasKeys, Shifts-HasKeys}

module _ (keys : Keys) (accounts : List ℕ) where
  -- One token, whose account has been found at `p`.
  prepare_token-Shifts :
      (x : External) (i p : ℕ) (fee_account_address : Bytes) (network_type : NetworkType)
      (withdrawals : List Withdrawal) (o : Outputs) (s t u : Store) {o' : Outputs}
      → place accounts i ≡ p
      → s ≡ t
      → HasKeys keys s
      → prepare_withdrawals x accounts p fee_account_address network_type withdrawals o t
        ≡ (ok o', u)
      → Shifts
          (reserved keys accounts (place accounts i) withdrawals)
          (fees accounts withdrawals)
          s
          u
  prepare_token-Shifts x i p fee_account_address network_type withdrawals o s t u here same has h =
      let run =
        prepare_withdrawals-Shifts keys accounts x p fee_account_address network_type withdrawals o
          t u (rw (← same) has) h in
      rw (here, same) run

  return_token-Shifts :
      (i p : ℕ) (fee_account_address : Bytes) (withdrawals : List Withdrawal) (s t u : Store)
      → place accounts i ≡ p
      → s ≡ t
      → HasKeys keys s
      → return_withdrawals accounts p fee_account_address withdrawals t ≡ (ok tt, u)
      → Shifts
          (fees accounts withdrawals)
          (reserved keys accounts (place accounts i) withdrawals)
          s
          u
  return_token-Shifts i p fee_account_address withdrawals s t u here same has h =
      let run =
        return_withdrawals-Shifts keys accounts p fee_account_address withdrawals t u
          (rw (← same) has) h in
      rw (here, same) run

  pub prepare_tokens-Shifts :
      (x : External) (network_type : NetworkType) (tokens : List TokenWithdrawals) (o : Outputs)
      (s s' : Store) {o' : Outputs}
      → HasKeys keys s
      → prepare_tokens x accounts network_type tokens o s ≡ (ok o', s')
      → Shifts (batch_reserved keys accounts tokens) (batch_fees accounts tokens) s s'
  unfolding prepare_tokens batch_reserved batch_fees
  prepare_tokens-Shifts x network_type [] o s s' has h = Shifts-refl (ap (λ q. q.1) h)
  prepare_tokens-Shifts x network_type (t ∷ rest) o s s' has h =
      let next : Outputs → M Outputs = prepare_tokens x accounts network_type rest in
      let run : Bytes → ℕ → M Outputs =
        λ address p. prepare_withdrawals x accounts p address network_type t.withdrawals o in
      let found : M ℕ = lift (account_at accounts t.account_index) in
      let (program, s1, first, h1) =
        bind_inv
          (λ program. read get_fee_account_address program >>= λ address.
            found >>= λ p. run address p >>= next)
          (lift (account_at accounts 0)) s h in
      let (address, s2, seen, h2) =
        bind_inv (λ address. found >>= λ p. run address p >>= next)
          (read get_fee_account_address program) s1 h1 in
      let (p, s3, located, h3) = bind_inv (λ p. run address p >>= next) found s2 h2 in
      let (o1, s4, ran, h4) = bind_inv next (run address p) s3 h3 in
      let (_, same) = read_inv get_fee_account_address program s1 seen in
      let here = place-account_at accounts t.account_index (ap (λ q. q.0) located) in
      let one =
        prepare_token-Shifts x t.account_index p address network_type t.withdrawals o s s3 s4 here
          (ap (λ q. q.1) first ∙ same ∙ ap (λ q. q.1) located) has ran in
      Shifts-trans one
        (prepare_tokens-Shifts x network_type rest o1 s4 s' (Shifts-HasKeys one has) h4)

  pub rollback_tokens-Shifts :
      (tokens : List TokenWithdrawals) (s s' : Store)
      → HasKeys keys s
      → rollback_tokens accounts tokens s ≡ (ok tt, s')
      → Shifts (batch_fees accounts tokens) (batch_reserved keys accounts tokens) s s'
  unfolding rollback_tokens batch_reserved batch_fees handle_rollback_withdrawals
  rollback_tokens-Shifts [] s s' has h = Shifts-refl (ap (λ q. q.1) h)
  rollback_tokens-Shifts (t ∷ rest) s s' has h =
      let next : M (Unit {0}) = rollback_tokens accounts rest in
      let run : Bytes → ℕ → M (Unit {0}) =
        λ address p. return_withdrawals accounts p address t.withdrawals in
      let found : M ℕ = lift (account_at accounts t.account_index) in
      let token : Bytes → M (Unit {0}) = λ address. found >>= run address in
      let look : ℕ → M (Unit {0}) = λ program.
        read get_fee_account_address program >>= λ address. token address >>= λ _. next in
      let (_, s0, valid, h0) =
        bind_inv (λ _. lift (account_at accounts 0) >>= look)
          (query (
            validate_account accounts t.account_index false true (some AccountType.token) (some 0)))
          s h in
      let (program, s1, first, h1) = bind_inv look (lift (account_at accounts 0)) s0 h0 in
      let (address, s2, seen, h2) =
        bind_inv (λ address. token address >>= λ _. next) (read get_fee_account_address program) s1
          h1 in
      let (_, s4, ran, h4) = bind_inv (λ _. next) (token address) s2 h2 in
      let (p, s3, located, returned) = bind_inv (run address) found s2 ran in
      let (_, same) = read_inv get_fee_account_address program s1 seen in
      let here = place-account_at accounts t.account_index (ap (λ q. q.0) located) in
      let one =
        return_token-Shifts t.account_index p address t.withdrawals s s3 s4 here
          (ap (λ q. q.1) valid ∙ ap (λ q. q.1) first ∙ same ∙ ap (λ q. q.1) located) has returned in
      Shifts-trans one (rollback_tokens-Shifts rest s4 s' (Shifts-HasKeys one has) h4)

-- A balance that a run has lost and gained amounts of, and another has moved back.
pub Shifted-back :
    (b out in_ b' b'' : ℕ) → b < 2 ^ 64 → Shifted b out in_ b' → Shifted b' in_ out b'' → b'' ≡ b
Shifted-back b out in_ b' b'' small (_, there) (small'', back) =
    omega (arith, small, there, small'', back)

-- Two runs of opposite amounts.
module _ {out in_ : Flow} {s t u v : Store} where
  pub Shifts-back :
      Shifts out in_ s t
      → Shifts in_ out u v
      → (q j b : ℕ) → (u q).data_ ≡ (t q).data_
      → balance_at s q j ≡ ok b
      → b < 2 ^ 64
      → balance_at v q j ≡ ok b
  Shifts-back k l q j b same h small =
      let (b', h', there) = k.balance q j b h small in
      let (b'', h'', back) = l.balance q j b' (ap (get_wallet_balance j) same ∙ h') there.0 in
      h'' ∙ ap ok (Shifted-back b (out q j) (in_ q j) b' b'' small there back)
