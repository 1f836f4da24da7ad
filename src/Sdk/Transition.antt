-- ===== src/Sdk/Transition.antt =====
-- `get_state_transition_tx` (arch/program/src/helper.rs) and `set_transaction_to_sign` (program.rs).
use chainring_contracts.Base.{
  ℕ, none, some, List, [], ◌∷◌, get_elem?, take, drop, map, ◌==◌, if◌then◌else◌,
}
use chainring_contracts.Base.Bytes.{Bytes, bytes_eq, from_le_bytes}
use chainring_contracts.Base.Outcome.{ok, err, panic, ◌>>=◌}
use chainring_contracts.External.{External, Transaction, TxIn, TxOut, InputToSign}
use chainring_contracts.State.Raw.{ProgramResult}
use chainring_contracts.Sdk.Account.{Account, Store, M, utxo_meta, set_utxo}
use chainring_contracts.Sdk.ErrorCode.{from_u64}

-- `utxo.txid()` and `utxo.vout()`
abbrev pub txid : Bytes → Bytes
txid utxo = take 32 utxo

abbrev pub vout : Bytes → ℕ
vout utxo = from_le_bytes (drop 32 utxo)

-- An input that spends an account's output, unsigned: `Sequence::MAX` and an empty script.
unfoldable pub transition_input : Account → TxIn
transition_input a = record {
  txid = txid a.utxo;
  vout = vout a.utxo;
  script_sig = [];
  sequence = 0xffff_ffff;
  witness = [];
}

unfoldable pub writable : Store → List ℕ → List Account
writable s [] = []
writable s (p ∷ accounts) =
    let rest = writable s accounts in if (s p).is_writable then s p ∷ rest else rest

module _ (x : External) where
  -- The output that carries an account's value on. The `unwrap`s and the index panic.
  unfoldable pub transition_output : Account → ProgramResult TxOut
  transition_output a = elim (x.bitcoin_tx (txid a.utxo)) [
    | none ↦ panic
    | some raw ↦ elim (x.deserialize_tx raw) [
      | none ↦ panic
      | some tx ↦ elim (get_elem? tx.output (vout a.utxo)) [
        | none ↦ panic
        | some out ↦
            ok (record { value = out.value; script_pubkey = x.account_script_pubkey a.key })
      ]
    ]
  ]

  unfoldable pub transition_outputs : List Account → ProgramResult (List TxOut)
  transition_outputs [] = ok []
  transition_outputs (a ∷ rest) = do
    out ← transition_output a
    outs ← transition_outputs rest
    ok (out ∷ outs)

  unfoldable pub get_state_transition_tx : List ℕ → Store → ProgramResult Transaction
  get_state_transition_tx accounts s = do
    outs ← transition_outputs (writable s accounts)
    ok (record {
      version = 2;
      lock_time = 0;
      input = map transition_input (writable s accounts);
      output = outs;
    })

  -- The loop over the inputs to sign, on the one account that the contract passes: its UTXO becomes
  -- the output of the signed transaction at the index of each input that it signs.
  unfoldable pub move_utxos : Bytes → List InputToSign → ℕ → Store → Store
  move_utxos id [] p s = s
  move_utxos id (i ∷ rest) p s =
      move_utxos id rest p
        (if bytes_eq (s p).key i.signer then (set_utxo (utxo_meta id i.index) p s).1 else s)

  unfoldable pub set_transaction_to_sign : ℕ → Transaction → List InputToSign → M (Unit {0})
  set_transaction_to_sign p tx inputs_to_sign s =
      let bytes = x.serialize_tx tx in
      let code = x.set_transaction_to_sign_code bytes inputs_to_sign in
      if code == 0
      then elim (x.deserialize_tx bytes) [
        | none ↦ (panic, s)
        | some signed ↦ (ok tt, move_utxos (x.compute_txid signed) inputs_to_sign p s)
      ]
      else (err (from_u64 code), s)
