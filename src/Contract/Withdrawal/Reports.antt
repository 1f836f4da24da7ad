-- ===== src/Contract/Withdrawal/Reports.antt =====
-- The checks of a batch of withdrawals write nothing but events, and those to the program account.
use chainring_contracts.Base.{
  ℕ, ◌^◌, ◌%◌, ◌≡◌, ◌∙◌, ap, true, false, ◌||◌, ltb, if◌then◌else◌, some, List, [], ◌∷◌, Bool-cases,
  inl, inr,
}
use chainring_contracts.Base.Bytes.{Bytes}
use chainring_contracts.Base.Outcome.{ok, err, panic}
use chainring_contracts.Constants.{error_insufficient_balance}
use chainring_contracts.Types.{
  AccountType, NetworkType, Withdrawal, TokenWithdrawals, Event, failed_withdrawal,
}
use chainring_contracts.External.{External}
use chainring_contracts.State.Raw.{ProgramResult}
use chainring_contracts.State.Token.{get_wallet_balance}
use chainring_contracts.State.Program.{emit_event}
use chainring_contracts.State.Program.Laws.{emit_event-keeps}
use chainring_contracts.Sdk.ErrorCode.{to_u64}
use chainring_contracts.Sdk.Account.{M, Store, ◌>>=◌, pure, query, lift, read, account_at}
use chainring_contracts.Sdk.Account.Laws.{bind_inv}
use chainring_contracts.Contract.Validate.{validate_account, get_validated_index_withdraw}
use chainring_contracts.Contract.Withdrawal.{report_withdrawal}
use chainring_contracts.Contract.Withdrawal.Prepare.{
  verify_funds, fee_account_of, verify_withdrawal, verify_withdrawals_from, verify_tokens,
}
use chainring_contracts.Contract.Settlement.Prepare.{Kept, Kept-refl, Kept-trans, write-Kept}

module _ (x : External) (network_type : NetworkType) (accounts : List ℕ) (program : ℕ)
    (first : account_at accounts 0 ≡ ok program) where
  report_withdrawal-Kept :
      (account_index : ℕ) (w : Withdrawal) (balance balance_in_fee_token error_code : ℕ) (s : Store)
      {s' : Store}
      → report_withdrawal accounts account_index w balance balance_in_fee_token error_code s
        ≡ (ok tt, s')
      → Kept program s s'
  unfolding report_withdrawal
  report_withdrawal-Kept account_index w balance balance_in_fee_token error_code s h =
      let event : Event = failed_withdrawal (record {
        account_index = account_index;
        address_index = w.address_index.index;
        fee_account_index = w.fee_account_index;
        fee_address_index = w.fee_address_index.index;
        requested_amount = w.amount;
        fee_amount = w.fee_amount;
        balance = balance;
        balance_in_fee_token = balance_in_fee_token;
        error_code = error_code;
      }) in
      write-Kept (emit_event event) program s (λ bs bs'. emit_event-keeps event bs) (rw first at h)

  verify_funds-Kept :
      (account_index p fee_p : ℕ) (w : Withdrawal) (index : ℕ) (s : Store) {s' : Store}
      → verify_funds x accounts account_index p fee_p w network_type index s ≡ (ok tt, s')
      → Kept program s s'
  unfolding verify_funds
  verify_funds-Kept account_index p fee_p w index s {s' = s'} h =
      let check : Bytes → ProgramResult ℕ =
        λ bs. get_validated_index_withdraw x bs w.fee_address_index network_type in
      let report : ℕ → ℕ → M (Unit {0}) = λ balance fee.
        if ltb balance w.amount || ltb fee w.fee_amount
        then report_withdrawal accounts account_index w balance fee error_insufficient_balance
        else pure tt in
      let fund : ℕ → ℕ → M (Unit {0}) =
        λ balance fee_index. read (get_wallet_balance fee_index) fee_p >>= report balance in
      let (balance, t, held, h1) =
        bind_inv (λ balance. read check fee_p >>= fund balance) (read (get_wallet_balance index) p)
          s h in
      let (fee_index, u, checked, h2) = bind_inv (fund balance) (read check fee_p) t h1 in
      let (fee, v, looked, h3) =
        bind_inv (report balance) (read (get_wallet_balance fee_index) fee_p) u h2 in
      let same = ap (λ q. q.1) held ∙ ap (λ q. q.1) checked ∙ ap (λ q. q.1) looked in
      Kept-trans (Kept-refl program same)
        (elim (Bool-cases (ltb balance w.amount || ltb fee w.fee_amount)) [
          | inl short ↦
              report_withdrawal-Kept account_index w balance fee error_insufficient_balance v
                (rw short at h3)
          | inr covered ↦ Kept-refl program (ap (λ q. q.1) (rw covered at h3))
        ])

  fee_account_of-same :
      (w : Withdrawal) (s : Store) {p : ℕ} {s' : Store}
      → fee_account_of x accounts w s ≡ (ok p, s')
      → s ≡ s'
  unfolding fee_account_of
  fee_account_of-same w s h =
      let (_, t, valid, h1) =
        bind_inv (λ _. lift (account_at accounts w.fee_account_index))
          (query (
            validate_account accounts w.fee_account_index false true (some AccountType.token)
              (some 0)))
          s h in
      ap (λ q. q.1) valid ∙ ap (λ q. q.1) h1

  verify_withdrawal-Kept :
      (account_index p : ℕ) (w : Withdrawal) (r : ProgramResult ℕ) (s : Store) {s' : Store}
      → verify_withdrawal x accounts account_index p network_type w r s ≡ (ok tt, s')
      → Kept program s s'
  unfolding verify_withdrawal
  verify_withdrawal-Kept account_index p w panic s h = Kept-refl program (ap (λ q. q.1) h)
  verify_withdrawal-Kept account_index p w (ok index) s h =
      let (fee_p, t, found, h1) =
        bind_inv (λ fee_p. verify_funds x accounts account_index p fee_p w network_type index)
          (fee_account_of x accounts w) s h in
      Kept-trans (Kept-refl program (fee_account_of-same w s found))
        (verify_funds-Kept account_index p fee_p w index t h1)
  verify_withdrawal-Kept account_index p w (err e) s h =
      let code = to_u64 e % 2 ^ 32 in
      let (_, t, found, h1) =
        bind_inv (λ _. report_withdrawal accounts account_index w 0 0 code)
          (fee_account_of x accounts w) s h in
      Kept-trans (Kept-refl program (fee_account_of-same w s found))
        (report_withdrawal-Kept account_index w 0 0 code t h1)

  verify_withdrawals_from-Kept :
      (account_index p : ℕ) (withdrawals : List Withdrawal) (s : Store) {s' : Store}
      → verify_withdrawals_from x accounts account_index p network_type withdrawals s ≡ (ok tt, s')
      → Kept program s s'
  unfolding verify_withdrawals_from
  verify_withdrawals_from-Kept account_index p [] s h = Kept-refl program (ap (λ q. q.1) h)
  verify_withdrawals_from-Kept account_index p (w ∷ rest) s h =
      let r : ProgramResult ℕ =
        get_validated_index_withdraw x (s p).data_ w.address_index network_type in
      let (_, t, verified, h1) =
        bind_inv (λ _. verify_withdrawals_from x accounts account_index p network_type rest)
          (verify_withdrawal x accounts account_index p network_type w r) s h in
      Kept-trans (verify_withdrawal-Kept account_index p w r s verified)
        (verify_withdrawals_from-Kept account_index p rest t h1)

  pub verify_tokens-Kept :
      (tokens : List TokenWithdrawals) (s : Store) {s' : Store}
      → verify_tokens x accounts network_type tokens s ≡ (ok tt, s')
      → Kept program s s'
  unfolding verify_tokens
  verify_tokens-Kept [] s h = Kept-refl program (ap (λ q. q.1) h)
  verify_tokens-Kept (t ∷ rest) s h =
      let next : M (Unit {0}) = verify_tokens x accounts network_type rest in
      let run : ℕ → M (Unit {0}) =
        λ p. verify_withdrawals_from x accounts t.account_index p network_type t.withdrawals in
      let found : M ℕ = lift (account_at accounts t.account_index) in
      let (_, s1, valid, h1) =
        bind_inv (λ _. found >>= λ p. run p >>= λ _. next)
          (query (
            validate_account accounts t.account_index false true (some AccountType.token) (some 0)))
          s h in
      let (p, s2, located, h2) = bind_inv (λ p. run p >>= λ _. next) found s1 h1 in
      let (_, s3, ran, h3) = bind_inv (λ _. next) (run p) s2 h2 in
      Kept-trans (Kept-refl program (ap (λ q. q.1) valid ∙ ap (λ q. q.1) located)) (
        Kept-trans (verify_withdrawals_from-Kept t.account_index p t.withdrawals s2 ran)
          (verify_tokens-Kept rest s3 h3))
