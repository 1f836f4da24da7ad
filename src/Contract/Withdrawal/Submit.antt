-- ===== src/Contract/Withdrawal/Submit.antt =====
-- `submit_withdraw_batch`: the transaction that pays the prepared withdrawals out.
use chainring_contracts.Base.{
  ℕ, zero, suc, ◌+◌, ◌^◌, ◌%◌, Bool, false, not, ◌&&◌, none, some, List, [], ◌∷◌, ◌++◌, map, length,
  get_elem?, ltb, ◌==◌, if◌then◌else◌,
}
use chainring_contracts.Base.Bytes.{Bytes, bytes_eq}
use chainring_contracts.Base.Outcome.{ok, err, panic, custom}
use chainring_contracts.Constants.{
  error_withdrawal_batch_mismatch, error_invalid_input_tx, error_no_rune_receiver,
}
use chainring_contracts.Types.{
  AccountType, NetworkType, Withdrawal, TokenWithdrawals, WithdrawBatchParams, InputUtxoType,
  Pubkey,
}
use chainring_contracts.External.{External, Edict, RuneId, Transaction, TxIn, TxOut, InputToSign}
use chainring_contracts.State.Raw.{ProgramResult}
use chainring_contracts.State.Program.{get_network_type}
use chainring_contracts.State.Withdraw.{get_hash, clear_hash}
use chainring_contracts.Sdk.Account.{
  M, ◌>>=◌, ◌>>◌, pure, raise, query, lift, read, write, account_at,
}
use chainring_contracts.Sdk.Transition.{get_state_transition_tx, set_transaction_to_sign}
use chainring_contracts.Contract.Validate.{validate_account, get_validated_index}
use chainring_contracts.Contract.Outputs.{Outputs, add_withdrawal_output, add_edict_and_output}
use chainring_contracts.Contract.Settlement.{hash}

-- Who signs the input at an index: `accounts[1]` the first; the program a bitcoin input; and
-- `accounts[2]` a rune input. An input past the listed types panics.
unfoldable pub signer_of : Pubkey → Pubkey → Pubkey → List InputUtxoType → ℕ → ProgramResult Pubkey
signer_of withdraw_key program_id receiver_key types zero = ok withdraw_key
signer_of withdraw_key program_id receiver_key types (suc i) = elim (get_elem? types i) [
  | some InputUtxoType.bitcoin ↦ ok program_id
  | some InputUtxoType.rune ↦ ok receiver_key
  | none ↦ panic
]

unfoldable pub signers_from :
    Pubkey → Pubkey → Pubkey → List InputUtxoType → ℕ → List TxIn → ProgramResult (List InputToSign)
signers_from withdraw_key program_id receiver_key types index [] = ok []
signers_from withdraw_key program_id receiver_key types index (i ∷ rest) =
    let later = signers_from withdraw_key program_id receiver_key types (index + 1) rest in
    elim (signer_of withdraw_key program_id receiver_key types index) [
      | err e ↦ err e
      | panic ↦ panic
      | ok signer ↦ elim later [
        | err e ↦ err e
        | panic ↦ panic
        | ok signers ↦ ok (record { index = index % 2 ^ 32; signer = signer } ∷ signers)
      ]
    ]

-- `accounts[i].key`; `accounts[2]` exists, since its type has been read before.
unfoldable pub key_at : List ℕ → ℕ → M Pubkey
key_at accounts i = do p ← lift (account_at accounts i); query (λ s. ok (s p).key)

module _ (x : External) where
  unfoldable pub submit_withdrawals :
      List ℕ → ℕ → NetworkType → List Withdrawal → Outputs → M Outputs
  submit_withdrawals accounts p network_type [] o = pure o
  submit_withdrawals accounts p network_type (w ∷ rest) o = do
    query (
        validate_account accounts w.fee_account_index false false (some AccountType.token) (some 0))
    _ ← read (λ bs. get_validated_index bs w.address_index) p
    o' ← read (λ bs. add_withdrawal_output x bs w network_type o) p
    submit_withdrawals accounts p network_type rest o'

  -- `handle_submit_withdrawals`, for each token in turn.
  unfoldable pub submit_tokens : List ℕ → NetworkType → List TokenWithdrawals → Outputs → M Outputs
  submit_tokens accounts network_type [] o = pure o
  submit_tokens accounts network_type (t ∷ rest) o = do
    query (validate_account accounts t.account_index false false (some AccountType.token) (some 0))
    p ← lift (account_at accounts t.account_index)
    o' ← submit_withdrawals accounts p network_type t.withdrawals o
    submit_tokens accounts network_type rest o'

  -- `change_amount` goes back to the program.
  unfoldable pub add_change : Pubkey → ℕ → Outputs → Outputs
  add_change program_id change_amount o =
      let script = x.account_script_pubkey program_id in
      let tx_out : TxOut = record { value = change_amount; script_pubkey = script } in
      if ltb 0 change_amount then record o { tx_outs = o.tx_outs ++ tx_out ∷ [] } else o

  -- An edict of amount 0 for each rune, which takes the unallocated rest to the rune receiver.
  unfoldable pub add_change_edicts : Bytes → List RuneId → Outputs → Outputs
  add_change_edicts script [] o = o
  add_change_edicts script (rune_id ∷ rest) o =
      add_change_edicts script rest (add_edict_and_output rune_id script 0 o)

  unfoldable pub add_runestone : List ℕ → Outputs → M Outputs
  add_runestone accounts o = if length o.edicts == 0 then pure o else do
    receiver_key ← key_at accounts 2
    let runes = x.hash_set_order (map (λ (e : Edict). e.id) o.edicts)
    let o' = add_change_edicts (x.account_script_pubkey receiver_key) runes o
    let tx_out : TxOut = record { value = 0; script_pubkey = x.encipher o'.edicts }
    pure (record o' { tx_outs = o'.tx_outs ++ tx_out ∷ [] })

  -- The transaction is built on the transition of the writable accounts, and extended by the inputs
  -- that the batch names.
  unfoldable pub build_transaction : Pubkey → List ℕ → WithdrawBatchParams → Bool → M Transaction
  build_transaction program_id accounts params has_rune_receiver = do
    program ← lift (account_at accounts 0)
    network_type ← read get_network_type program
    tx ← query (get_state_transition_tx x accounts)
    tx_with_inputs ← lift (elim (x.deserialize_tx params.tx_hex) [
      | some t ↦ ok t
      | none ↦ err (custom error_invalid_input_tx)
    ])
    o ←
        submit_tokens accounts network_type params.token_withdrawals
          (record { tx_outs = tx.output; edicts = [] })
    if not (length o.edicts == 0) && not has_rune_receiver
        then raise (custom error_no_rune_receiver)
        else do
          o' ← add_runestone accounts (add_change program_id params.change_amount o)
          pure (record tx { input = tx.input ++ tx_with_inputs.input; output = o'.tx_outs })

  unfoldable pub sign_and_clear : Pubkey → List ℕ → WithdrawBatchParams → Transaction → M (Unit {0})
  sign_and_clear program_id accounts params tx = do
    withdraw ← lift (account_at accounts 1)
    withdraw_key ← key_at accounts 1
    receiver_key ← key_at accounts 2
    inputs_to_sign ←
        lift (signers_from withdraw_key program_id receiver_key params.input_utxo_types 0 tx.input)
    set_transaction_to_sign x withdraw tx inputs_to_sign
    write clear_hash withdraw

  unfoldable pub submit_prepared :
      Pubkey → List ℕ → WithdrawBatchParams → Bytes → Bool → M (Unit {0})
  submit_prepared program_id accounts params params_raw_data has_rune_receiver = do
    withdraw ← lift (account_at accounts 1)
    current_hash ← read get_hash withdraw
    if not (bytes_eq current_hash (hash x params_raw_data))
        then raise (custom error_withdrawal_batch_mismatch)
        else do
          tx ← build_transaction program_id accounts params has_rune_receiver
          sign_and_clear program_id accounts params tx
