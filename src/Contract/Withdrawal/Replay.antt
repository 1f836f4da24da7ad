-- ===== src/Contract/Withdrawal/Replay.antt =====
-- `submit_withdraw_batch`: a batch of withdrawals is paid out once.
use chainring_contracts.Base.{
  ℕ, ◌≡◌, ◌≢◌, ◌∙◌, sym, ap, Bool, true, false, not, some, List, length, Bool-cases, inl, inr,
  if◌then◌else◌,
}
use chainring_contracts.Base.Bytes.{Bytes, bytes_eq, bytes_eq_iff}
use chainring_contracts.Base.Outcome.{ok, custom}
use chainring_contracts.Constants.{empty_hash, error_withdrawal_batch_mismatch}
use chainring_contracts.Types.{Pubkey, Hash, AccountType, WithdrawBatchParams}
use chainring_contracts.External.{External, Transaction, InputToSign}
use chainring_contracts.State.Raw.{ProgramResult}
use chainring_contracts.State.Withdraw.{get_hash, clear_hash}
use chainring_contracts.Sdk.Account.{M, Store, ◌>>=◌, raise, query, lift, read, write, account_at}
use chainring_contracts.State.Withdraw.Laws.{clear_hash_inv}
use chainring_contracts.Sdk.Account.Laws.{refused, bind_inv, read_inv, write_inv}
use chainring_contracts.Sdk.Transition.{set_transaction_to_sign}
use chainring_contracts.Contract.Validate.{validate_account}
use chainring_contracts.Contract.Settlement.{hash}
use chainring_contracts.Contract.Withdrawal.{find_rune_receiver, submit_withdraw_batch}
use chainring_contracts.Contract.Withdrawal.Submit.{
  submit_prepared, build_transaction, sign_and_clear, signers_from, key_at,
}
use chainring_contracts.Contract.Withdrawal.Exclusive.{
  find_rune_receiver-same, prepare_withdraw_batch_inv,
}
use chainring_contracts.Contract.Withdrawal.Prepare.{prepare_withdraw_batch}
use chainring_contracts.Contract.Withdrawal.Outcome.{handled}

module _ (x : External) (program_id : Pubkey) (accounts : List ℕ)
    (params : WithdrawBatchParams) where
  sign_and_clear_inv :
      (tx : Transaction) (s : Store) {s' : Store}
      → sign_and_clear x program_id accounts params tx s ≡ (ok tt, s')
      → (withdraw : ℕ) × (account_at accounts 1 ≡ ok withdraw)
        × (get_hash (s' withdraw).data_ ≡ ok empty_hash)
  unfolding sign_and_clear
  sign_and_clear_inv tx s {s' = s'} h =
      let (withdraw, t, located, h1) = bind_inv sign (lift (account_at accounts 1)) s h in
      let (k, u, _, h2) = bind_inv (with_key withdraw) (key_at accounts 1) t h1 in
      let (r, v, _, h3) = bind_inv (with_keys withdraw k) (key_at accounts 2) u h2 in
      let (inputs, w, _, h4) = bind_inv (finish withdraw) (lift (signers k r)) v h3 in
      let (_, y, _, h5) =
        bind_inv (λ _. write clear_hash withdraw) (set_transaction_to_sign x withdraw tx inputs) w
          h4 in
      let (bs, cleared, wrote) = write_inv clear_hash withdraw y h5 in
      (
        withdraw,
        ap (λ q. q.0) located,
        rw wrote.data_at (clear_hash_inv (y withdraw).data_ cleared),
      )
    where
      signers : Pubkey → Pubkey → ProgramResult (List InputToSign)
      signers k r = signers_from k program_id r params.input_utxo_types 0 tx.input

      finish : ℕ → List InputToSign → M (Unit {0})
      finish withdraw inputs =
          set_transaction_to_sign x withdraw tx inputs >>= λ _. write clear_hash withdraw

      with_keys : ℕ → Pubkey → Pubkey → M (Unit {0})
      with_keys withdraw k r = lift (signers k r) >>= finish withdraw

      with_key : ℕ → Pubkey → M (Unit {0})
      with_key withdraw k = key_at accounts 2 >>= with_keys withdraw k

      sign : ℕ → M (Unit {0})
      sign withdraw = key_at accounts 1 >>= with_key withdraw

  submit_prepared_inv :
      (raw : Bytes) (receiver : Bool) (s : Store) {s' : Store}
      → submit_prepared x program_id accounts params raw receiver s ≡ (ok tt, s')
      → (withdraw : ℕ) × (account_at accounts 1 ≡ ok withdraw)
        × (get_hash (s withdraw).data_ ≡ ok (hash x raw))
        × (get_hash (s' withdraw).data_ ≡ ok empty_hash)
  unfolding submit_prepared
  submit_prepared_inv raw receiver s {s' = s'} h =
      let (withdraw, t, located, h1) =
        bind_inv (λ p. read get_hash p >>= check) (lift (account_at accounts 1)) s h in
      let (current, u, looked, h2) = bind_inv check (read get_hash withdraw) t h1 in
      let (stored, _) = read_inv get_hash withdraw t looked in
      let same = ap (λ q. q.1) located in
      elim (Bool-cases (bytes_eq current (hash x raw))) [
        | inr other ↦ absurd (refused (rw other at h2))
        | inl agree ↦
            let h3 : (build >>= sign_and_clear x program_id accounts params) u ≡ (ok tt, s') =
              rw agree at h2 in
            let (tx, v, _, h4) =
              bind_inv (sign_and_clear x program_id accounts params) build u h3 in
            let (withdraw', located', cleared) = sign_and_clear_inv tx v h4 in
            let found = ap (λ q. q.0) located in
            let one : withdraw' ≡ withdraw = cc in
            (
              withdraw,
              found,
              rw same (stored ∙ ap ok ((bytes_eq_iff current (hash x raw)).0 agree)),
              rw (← one) cleared,
            )
      ]
    where
      build : M Transaction
      build = build_transaction x program_id accounts params receiver

      check : Hash → M (Unit {0})
      check current =
          if not (bytes_eq current (hash x raw))
          then raise (custom error_withdrawal_batch_mismatch)
          else (build >>= sign_and_clear x program_id accounts params)

  -- A submission of withdrawals that succeeds found the hash of its parameters in the withdraw account,
  -- and leaves no withdrawal in progress.
  pub submit_withdraw_batch_inv :
      (raw : Bytes) (s : Store) {s' : Store}
      → submit_withdraw_batch x program_id accounts params raw s ≡ (ok tt, s')
      → (withdraw : ℕ) × (account_at accounts 1 ≡ ok withdraw)
        × (get_hash (s withdraw).data_ ≡ ok (hash x raw))
        × (get_hash (s' withdraw).data_ ≡ ok empty_hash)
  unfolding submit_withdraw_batch
  submit_withdraw_batch_inv raw s h =
      let submit : Bool → M (Unit {0}) = submit_prepared x program_id accounts params raw in
      let find = find_rune_receiver accounts true in
      let withdraw_ok =
        validate_account accounts 1 true true (some AccountType.withdraw) (some 0) in
      let program_ok = validate_account accounts 0 true false (some AccountType.program) (some 1) in
      let (_, t, first, h1) =
        bind_inv (λ _. query withdraw_ok >>= λ _. find >>= submit) (query program_ok) s h in
      let (_, u, second, h2) = bind_inv (λ _. find >>= submit) (query withdraw_ok) t h1 in
      let (receiver, v, found, h3) = bind_inv submit find u h2 in
      let same =
        ap (λ q. q.1) first
        ∙ ap (λ q. q.1) second
        ∙ find_rune_receiver-same accounts true u found in
      rw same (submit_prepared_inv raw receiver v h3)

-- Two instructions in a row, with one withdraw account: the host sets the flags anew, all data stays.
pub record Next (accounts accounts' : List ℕ) (s t : Store) : Type 0 where
  pub same_withdraw : account_at accounts' 1 ≡ account_at accounts 1
  pub same_data : (p : ℕ) → (t p).data_ ≡ (s p).data_

-- After a submission of withdrawals that succeeds, the instruction that follows is no submission of
-- withdrawals that succeeds, with the same parameters or others, unless the digest of its parameters is
-- the empty hash.
pub submit_withdraw_batch-once :
    (x : External) (program_id : Pubkey) (accounts accounts' : List ℕ)
    (params params' : WithdrawBatchParams) (raw raw' : Bytes) (s s' t t' : Store)
    → hash x raw' ≢ empty_hash
    → Next accounts accounts' s' t
    → submit_withdraw_batch x program_id accounts params raw s ≡ (ok tt, s')
    → submit_withdraw_batch x program_id accounts' params' raw' t ≢ (ok tt, t')
submit_withdraw_batch-once x program_id accounts accounts' params params' raw raw' s s' t t' filled
      next h again =
    let (withdraw, found, _, cleared) =
      submit_withdraw_batch_inv x program_id accounts params raw s h in
    let (withdraw', found', stored, _) =
      submit_withdraw_batch_inv x program_id accounts' params' raw' t again in
    let second = next.same_withdraw in
    let one : withdraw' ≡ withdraw = cc in
    let stored' : get_hash (s' withdraw).data_ ≡ ok (hash x raw') =
      rw (← next.same_data withdraw, ← one) stored in
    filled cc

-- The batch that was prepared is the only one that can be paid out next: after a preparation of
-- withdrawals that succeeds, with digests of 32 bytes and the program account apart from the withdraw
-- account, a submission that follows and succeeds has the same digest, unless its digest is the empty
-- hash.
pub submit_withdraw_batch-prepare_withdraw_batch :
    (x : External) (program_id : Pubkey) (accounts accounts' : List ℕ)
    (params params' : WithdrawBatchParams) (raw raw' : Bytes) (s s' t t' : Store)
    → ((data_ : Bytes) → length (x.sha256 data_) ≡ 32)
    → account_at accounts 0 ≢ account_at accounts 1
    → hash x raw' ≢ empty_hash
    → Next accounts accounts' s' t
    → prepare_withdraw_batch x accounts params raw s ≡ (ok tt, s')
    → submit_withdraw_batch x program_id accounts' params' raw' t ≡ (ok tt, t')
    → hash x raw' ≡ hash x raw
unfolding hash
submit_withdraw_batch-prepare_withdraw_batch x program_id accounts accounts' params params' raw raw'
      s s' t t' digest apart filled next prepared submitted =
    let (program, withdraw, first, second, _, idle) =
      prepare_withdraw_batch_inv x accounts params raw s prepared in
    let (withdraw', found', held, _) =
      submit_withdraw_batch_inv x program_id accounts' params' raw' t submitted in
    let same = next.same_withdraw in
    let one : withdraw' ≡ withdraw = cc in
    let held' : get_hash (s' withdraw).data_ ≡ ok (hash x raw') =
      rw (← next.same_data withdraw, ← one) held in
    elim (handled x accounts params raw program withdraw first second s prepared) [
      | inl reported ↦
          let ne : withdraw ≢ program = λ e. apart (first ∙ ap ok (sym e) ∙ sym second) in
          let kept = reported.kept.elsewhere withdraw ne in absurd (filled cc)
      | inr reserved ↦ let put = reserved.stored (digest raw) in cc
    ]
