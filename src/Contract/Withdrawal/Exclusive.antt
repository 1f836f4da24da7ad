-- ===== src/Contract/Withdrawal/Exclusive.antt =====
-- When a batch of withdrawals may be prepared: neither during a settlement nor during another
-- withdrawal.
use chainring_contracts.Base.{
  ℕ, ◌≡◌, ◌∙◌, ap, Bool, true, false, some, List, Bool-cases, inl, inr, if◌then◌else◌,
}
use chainring_contracts.Base.Bytes.{Bytes, bytes_eq, bytes_eq_iff}
use chainring_contracts.Base.Outcome.{ok}
use chainring_contracts.Constants.{empty_hash}
use chainring_contracts.Types.{Hash, AccountType, WithdrawBatchParams}
use chainring_contracts.External.{External, Transaction}
use chainring_contracts.State.Raw.{get_type}
use chainring_contracts.State.Program.{get_settlement_hash}
use chainring_contracts.State.Withdraw.{get_hash}
use chainring_contracts.Sdk.Account.{M, Store, ◌>>=◌, pure, query, lift, read, account_at}
use chainring_contracts.Sdk.Account.Laws.{refused, bind_inv, read_inv}
use chainring_contracts.Contract.Validate.{validate_account, account_type_eq}
use chainring_contracts.Contract.Withdrawal.{find_rune_receiver}
use chainring_contracts.Contract.Withdrawal.Prepare.{
  prepare_idle_withdrawal, prepare_unsettled_withdrawal, prepare_checked_withdrawal,
  prepare_withdraw_batch, apply_withdrawals, parse_input_tx,
}

pub find_rune_receiver-same :
    (accounts : List ℕ) (is_signer : Bool) (s : Store) {found : Bool} {s' : Store}
    → find_rune_receiver accounts is_signer s ≡ (ok found, s')
    → s ≡ s'
unfolding find_rune_receiver
find_rune_receiver-same accounts is_signer s {s' = s'} h =
    let (p, t, located, h1) =
      bind_inv (λ p. read get_type p >>= decide) (lift (account_at accounts 2)) s h in
    let (kind, u, typed, h2) = bind_inv decide (read get_type p) t h1 in
    ap (λ q. q.1) located ∙ ap (λ q. q.1) typed ∙ decided kind u h2
  where
    check : M Bool
    check =
        query
          (validate_account accounts 2 is_signer false (some AccountType.rune_receiver) (some 0))
        >>= λ _. pure true

    decide : AccountType → M Bool
    decide kind = if account_type_eq kind AccountType.rune_receiver then check else pure false

    checked : (u : Store) {found : Bool} → check u ≡ (ok found, s') → u ≡ s'
    checked u h =
        let (_, v, valid, last) =
          bind_inv (λ _. pure true)
            (query (
              validate_account accounts 2 is_signer false (some AccountType.rune_receiver)
                (some 0)))
            u h in
        ap (λ q. q.1) valid ∙ ap (λ q. q.1) last

    decided :
        (kind : AccountType) (u : Store) {found : Bool} → decide kind u ≡ (ok found, s') → u ≡ s'
    decided kind u h = elim (Bool-cases (account_type_eq kind AccountType.rune_receiver)) [
      | inl is ↦ checked u (rw is at h)
      | inr not_one ↦ ap (λ q. q.1) (rw not_one at h)
    ]

-- Neither a settlement nor a withdrawal is in progress.
abbrev pub Idle : List ℕ → Store → Type 0
Idle accounts s =
    (program : ℕ) × (withdraw : ℕ) × (account_at accounts 0 ≡ ok program)
    × (account_at accounts 1 ≡ ok withdraw)
    × (get_settlement_hash (s program).data_ ≡ ok empty_hash)
    × (get_hash (s withdraw).data_ ≡ ok empty_hash)

module _ (x : External) (accounts : List ℕ) (params : WithdrawBatchParams) (raw : Bytes) where
  -- The second part of the handler has been reached, with the store that it began with.
  abbrev pub Applied : Store → Store → Type 0
  Applied s s' =
      (receiver : Bool) × (tx : Transaction) × (apply_withdrawals x accounts params raw receiver tx
          s
        ≡ (ok tt, s'))

  idle_withdrawal_inv :
      (receiver : Bool) (withdraw_hash : Hash) (s : Store) {s' : Store}
      → prepare_idle_withdrawal x accounts params raw receiver withdraw_hash s ≡ (ok tt, s')
      → (withdraw_hash ≡ empty_hash) × Applied s s'
  unfolding prepare_idle_withdrawal
  idle_withdrawal_inv receiver withdraw_hash s {s' = s'} h =
      elim (Bool-cases (bytes_eq withdraw_hash empty_hash)) [
        | inl idle ↦
            let next : Transaction → M (Unit {0}) =
              apply_withdrawals x accounts params raw receiver in
            let k : (lift (parse_input_tx x params) >>= next) s ≡ (ok tt, s') = rw idle at h in
            let (tx, t, parsed, run) = bind_inv next (lift (parse_input_tx x params)) s k in
            (
              (bytes_eq_iff withdraw_hash empty_hash).0 idle,
              (receiver, tx, rw (ap (λ q. q.1) parsed) run),
            )
        | inr busy ↦ absurd (refused (rw busy at h))
      ]

  unsettled_inv :
      (receiver : Bool) (settlement_hash : Hash) (s : Store) {s' : Store}
      → prepare_unsettled_withdrawal x accounts params raw receiver settlement_hash s ≡ (ok tt, s')
      → (settlement_hash ≡ empty_hash)
        × ((withdraw : ℕ) × (account_at accounts 1 ≡ ok withdraw)
            × (get_hash (s withdraw).data_ ≡ ok empty_hash))
        × Applied s s'
  unfolding prepare_unsettled_withdrawal
  unsettled_inv receiver settlement_hash s {s' = s'} h =
      elim (Bool-cases (bytes_eq settlement_hash empty_hash)) [
        | inr busy ↦ absurd (refused (rw busy at h))
        | inl idle ↦
            let k : (lift (account_at accounts 1) >>= look) s ≡ (ok tt, s') = rw idle at h in
            let (withdraw, t, located, k1) = bind_inv look (lift (account_at accounts 1)) s k in
            let (stored, u, seen, k2) = bind_inv next (read get_hash withdraw) t k1 in
            let (held, same') = read_inv get_hash withdraw t seen in
            let same = ap (λ q. q.1) located in
            let (none_stored, applied) = idle_withdrawal_inv receiver stored u k2 in
            (
              (bytes_eq_iff settlement_hash empty_hash).0 idle,
              (withdraw, ap (λ q. q.0) located, rw same (held ∙ ap ok none_stored)),
              rw (same, same') applied,
            )
      ]
    where
      next : Hash → M (Unit {0})
      next = prepare_idle_withdrawal x accounts params raw receiver

      look : ℕ → M (Unit {0})
      look withdraw = read get_hash withdraw >>= next

  checked_inv :
      (receiver : Bool) (s : Store) {s' : Store}
      → prepare_checked_withdrawal x accounts params raw receiver s ≡ (ok tt, s')
      → Idle accounts s × Applied s s'
  unfolding prepare_checked_withdrawal
  checked_inv receiver s h =
      let next : Hash → M (Unit {0}) =
        prepare_unsettled_withdrawal x accounts params raw receiver in
      let look : ℕ → M (Unit {0}) = λ program. read get_settlement_hash program >>= next in
      let (program, t, located, h1) = bind_inv look (lift (account_at accounts 0)) s h in
      let (stored, u, seen, h2) = bind_inv next (read get_settlement_hash program) t h1 in
      let (held, same') = read_inv get_settlement_hash program t seen in
      let same = ap (λ q. q.1) located in
      let (none_stored, (withdraw, second, idle), applied) = unsettled_inv receiver stored u h2 in
      (
        (
          program,
          withdraw,
          ap (λ q. q.0) located,
          second,
          rw same (held ∙ ap ok none_stored),
          rw (same, same') idle,
        ),
        rw (same, same') applied,
      )

  pub prepare_withdraw_batch-applies :
      (s : Store) {s' : Store}
      → prepare_withdraw_batch x accounts params raw s ≡ (ok tt, s')
      → Idle accounts s × Applied s s'
  unfolding prepare_withdraw_batch
  prepare_withdraw_batch-applies s h =
      let next : Bool → M (Unit {0}) = prepare_checked_withdrawal x accounts params raw in
      let find = find_rune_receiver accounts false in
      let withdraw_ok =
        validate_account accounts 1 false true (some AccountType.withdraw) (some 0) in
      let program_ok = validate_account accounts 0 true true (some AccountType.program) (some 1) in
      let rest : M (Unit {0}) = query withdraw_ok >>= λ _. find >>= next in
      let (_, t, first, h1) = bind_inv (λ _. rest) (query program_ok) s h in
      let (_, u, second, h2) = bind_inv (λ _. find >>= next) (query withdraw_ok) t h1 in
      let (receiver, v, found, h3) = bind_inv next find u h2 in
      let same =
        ap (λ q. q.1) first
        ∙ ap (λ q. q.1) second
        ∙ find_rune_receiver-same accounts false u found in
      rw same (checked_inv receiver v h3)

  -- A preparation of withdrawals that succeeds found neither a settlement nor a withdrawal in
  -- progress.
  pub prepare_withdraw_batch_inv :
      (s : Store) {s' : Store}
      → prepare_withdraw_batch x accounts params raw s ≡ (ok tt, s')
      → Idle accounts s
  prepare_withdraw_batch_inv s h = (prepare_withdraw_batch-applies s h).0
