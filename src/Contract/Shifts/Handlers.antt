-- ===== src/Contract/Shifts/Handlers.antt =====
-- The handlers of deposits and settlements against every balance of every account.
use chainring_contracts.Base.{ℕ, ◌^◌, ◌<◌, ◌≡◌, ◌≢◌, ap, true, false, none, some, List}
use chainring_contracts.Base.Bytes.{Bytes}
use chainring_contracts.Base.Outcome.{ok}
use chainring_contracts.Types.{AccountType, DepositBatchParams, SettlementBatchParams}
use chainring_contracts.External.{External}
use chainring_contracts.Sdk.Account.{Store, query, account_at}
use chainring_contracts.Sdk.Account.Laws.{bind_inv}
use chainring_contracts.Contract.Validate.{validate_account}
use chainring_contracts.Contract.Deposit.{deposit_batch, deposit_tokens}
use chainring_contracts.Contract.Settlement.{hash, submit_settlement_batch}
use chainring_contracts.Contract.Settlement.Phases.{submit_applied, apply_settlement-settles}
use chainring_contracts.Contract.Shifts.{balance_at, Shifted}
use chainring_contracts.Contract.Shifts.Batches.{
  settled_out, settled_in, deposited, settle_tokens-Shifts, deposit_tokens-Shifts,
}

-- A settlement that is submitted with success takes from each entry of each account but the
-- program's what the batch lists against it, and gives it what the batch lists for it, the fees of
-- entry 0 included; modulo 2 ^ 64, for a balance that fits in 64 bits.
pub submit_settlement_batch-Shifted :
    (x : External) (accounts : List ℕ) (params : SettlementBatchParams) (raw : Bytes) (s : Store)
    (program q j b : ℕ) {s' : Store}
    → account_at accounts 0 ≡ ok program
    → q ≢ program
    → balance_at s q j ≡ ok b
    → b < 2 ^ 64
    → submit_settlement_batch x accounts params raw s ≡ (ok tt, s')
    → (b' : ℕ) × (balance_at s' q j ≡ ok b')
      × Shifted b
          (settled_out accounts params.settlements q j)
          (settled_in accounts params.settlements q j)
          b'
submit_settlement_batch-Shifted x accounts params raw s program q j b first ne held small h =
    let (p, found, _, _, applied) = submit_applied x accounts params raw s h in
    let one : program ≡ p = cc in
    let (t, settled, same) = apply_settlement-settles accounts params (hash x raw) p s applied in
    let shifts = settle_tokens-Shifts accounts params.settlements s settled in
    rw (same q (rw (← one) ne)) (shifts.balance q j b held small)

-- A batch of deposits that succeeds gives each entry of each account what the batch lists for it and
-- takes nothing; modulo 2 ^ 64, for a balance that fits in 64 bits.
pub deposit_batch-Shifted :
    (accounts : List ℕ) (params : DepositBatchParams) (s : Store) (q j b : ℕ) {s' : Store}
    → balance_at s q j ≡ ok b
    → b < 2 ^ 64
    → deposit_batch accounts params s ≡ (ok tt, s')
    → (b' : ℕ) × (balance_at s' q j ≡ ok b')
      × Shifted b 0 (deposited accounts params.token_deposits q j) b'
unfolding deposit_batch
deposit_batch-Shifted accounts params s q j b held small h =
    let (_, t, checked, run) =
      bind_inv (λ _. deposit_tokens accounts params.token_deposits)
        (query (validate_account accounts 0 true false (some AccountType.program) none)) s h in
    let same = ap (λ r. r.1) checked in
    let shifts = deposit_tokens-Shifts accounts params.token_deposits t run in
    shifts.balance q j b (rw (← same) held) small
