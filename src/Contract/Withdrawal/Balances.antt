-- ===== src/Contract/Withdrawal/Balances.antt =====
-- What the preparation of withdrawals and its rollback do to all balances of all accounts.
use chainring_contracts.Base.{ℕ, ◌+◌, ◌≡◌, ap, List, [], ◌∷◌, arith}
use chainring_contracts.Base.Bytes.{Bytes}
use chainring_contracts.Base.Outcome.{ok}
use chainring_contracts.Types.{NetworkType, Withdrawal, TokenWithdrawals}
use chainring_contracts.External.{External}
use chainring_contracts.State.Raw.{ProgramResult}
use chainring_contracts.State.Token.{increment_wallet_balance, decrement_wallet_balance}
use chainring_contracts.Sdk.Account.{M, Store, ◌>>=◌, read, write}
use chainring_contracts.Sdk.Account.Laws.{bind_inv, read_inv}
use chainring_contracts.Contract.Validate.{get_validated_index}
use chainring_contracts.Contract.Outputs.{Outputs, add_withdrawal_output}
use chainring_contracts.Contract.Withdrawal.{take_fee, return_fee, return_withdrawals}
use chainring_contracts.Contract.Withdrawal.Prepare.{prepare_withdrawals}
use chainring_contracts.Contract.Shifts.{
  Flow, no_flow, flow_at, Shifts, Shifts-refl, Shifts-trans, Shifts-flows, increment-Shifts,
  decrement-Shifts,
}
use chainring_contracts.Contract.Shifts.Batches.{place, get_validated_index_same}
use chainring_contracts.Contract.Withdrawal.Fees.{
  Keys, HasKeys, Shifts-HasKeys, fee_charge, fee_gain, take_fee-Shifts, return_fee-Shifts,
}

-- What the withdrawals of a token reserve, and what their fees give to the fee account.
unfoldable pub reserved : Keys → List ℕ → ℕ → List Withdrawal → Flow
reserved keys accounts p [] q j = 0
reserved keys accounts p (w ∷ rest) q j =
    flow_at p w.address_index.index w.amount q j
    + fee_charge keys (place accounts w.fee_account_index) p w q j
    + reserved keys accounts p rest q j

unfoldable pub fees : List ℕ → List Withdrawal → Flow
fees accounts [] q j = 0
fees accounts (w ∷ rest) q j =
    fee_gain (place accounts w.fee_account_index) w q j + fees accounts rest q j

-- The same over the tokens of a batch.
unfoldable pub batch_reserved : Keys → List ℕ → List TokenWithdrawals → Flow
batch_reserved keys accounts [] q j = 0
batch_reserved keys accounts (t ∷ rest) q j =
    reserved keys accounts (place accounts t.account_index) t.withdrawals q j
    + batch_reserved keys accounts rest q j

unfoldable pub batch_fees : List ℕ → List TokenWithdrawals → Flow
batch_fees accounts [] q j = 0
batch_fees accounts (t ∷ rest) q j = fees accounts t.withdrawals q j + batch_fees accounts rest q j

module _ (keys : Keys) (accounts : List ℕ) where
  pub prepare_withdrawals-Shifts :
      (x : External) (p : ℕ) (fee_account_address : Bytes) (network_type : NetworkType)
      (withdrawals : List Withdrawal) (o : Outputs) (s s' : Store) {o' : Outputs}
      → HasKeys keys s
      → prepare_withdrawals x accounts p fee_account_address network_type withdrawals o s
        ≡ (ok o', s')
      → Shifts (reserved keys accounts p withdrawals) (fees accounts withdrawals) s s'
  unfolding prepare_withdrawals reserved fees
  prepare_withdrawals-Shifts x p fee_account_address network_type [] o s s' has h =
      Shifts-refl (ap (λ q. q.1) h)
  prepare_withdrawals-Shifts x p fee_account_address network_type (w ∷ rest) o s s' has h =
      let next : Outputs → M Outputs =
        prepare_withdrawals x accounts p fee_account_address network_type rest in
      let add : Bytes → ProgramResult Outputs = λ bs. add_withdrawal_output x bs w network_type o in
      let fee : M (Unit {0}) = take_fee accounts p fee_account_address w in
      let (_, t, taken, h1) =
        bind_inv (λ _. fee >>= λ _. read add p >>= next)
          (write (decrement_wallet_balance w.address_index.index w.amount) p) s h in
      let (_, u, moved, h2) = bind_inv (λ _. read add p >>= next) fee t h1 in
      let (o1, v, added, h3) = bind_inv next (read add p) u h2 in
      let (_, same) = read_inv add p u added in
      let one = decrement-Shifts p w.address_index.index w.amount s taken in
      let has1 = Shifts-HasKeys one has in
      let two = take_fee-Shifts keys accounts p fee_account_address w t u has1 moved in
      let has2 : HasKeys keys v = rw (← same) (Shifts-HasKeys two has1) in
      let three : Shifts (reserved keys accounts p rest) (fees accounts rest) u s' =
        rw same
          (prepare_withdrawals-Shifts x p fee_account_address network_type rest o1 v s' has2 h3) in
      Shifts-flows (λ q j. omega arith) (λ q j. omega arith)
        (Shifts-trans (Shifts-trans one two) three)

  pub return_withdrawals-Shifts :
      (p : ℕ) (fee_account_address : Bytes) (withdrawals : List Withdrawal) (s s' : Store)
      → HasKeys keys s
      → return_withdrawals accounts p fee_account_address withdrawals s ≡ (ok tt, s')
      → Shifts (fees accounts withdrawals) (reserved keys accounts p withdrawals) s s'
  unfolding return_withdrawals reserved fees
  return_withdrawals-Shifts p fee_account_address [] s s' has h = Shifts-refl (ap (λ q. q.1) h)
  return_withdrawals-Shifts p fee_account_address (w ∷ rest) s s' has h =
      let next : M (Unit {0}) = return_withdrawals accounts p fee_account_address rest in
      let fee : M (Unit {0}) = return_fee accounts p fee_account_address w in
      let check : Bytes → ProgramResult ℕ = λ bs. get_validated_index bs w.address_index in
      let put : ℕ → M (Unit {0}) = λ i. write (increment_wallet_balance i w.amount) p in
      let (i, r, looked, h0) =
        bind_inv (λ i. put i >>= λ _. fee >>= λ _. next) (read check p) s h in
      let (checked, same) = read_inv check p s looked in
      let index = get_validated_index_same (s p).data_ w.address_index checked in
      let (_, t, given, h1) = bind_inv (λ _. fee >>= λ _. next) (put i) r h0 in
      let (_, u, moved, h2) = bind_inv (λ _. next) fee t h1 in
      let one : Shifts no_flow (flow_at p w.address_index.index w.amount) s t =
        rw (index, same) (increment-Shifts p i w.amount r given) in
      let has1 = Shifts-HasKeys one has in
      let two = return_fee-Shifts keys accounts p fee_account_address w t u has1 moved in
      let three =
        return_withdrawals-Shifts p fee_account_address rest u s' (Shifts-HasKeys two has1) h2 in
      Shifts-flows (λ q j. omega arith) (λ q j. omega arith)
        (Shifts-trans (Shifts-trans one two) three)
