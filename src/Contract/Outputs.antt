-- ===== src/Contract/Outputs.antt =====
-- The outputs and rune edicts of a withdrawal transaction: `add_withdrawal_output` and
-- `add_edict_and_output`.
use chainring_contracts.Base.{ℕ, ◌+◌, ◌-◌, ◌^◌, ◌%◌, List, [], ◌∷◌, ◌++◌, length, if◌then◌else◌}
use chainring_contracts.Base.Bytes.{Bytes}
use chainring_contracts.Base.Outcome.{ok, ◌>>=◌}
use chainring_contracts.Constants.{dust_threshold}
use chainring_contracts.Types.{NetworkType, Withdrawal}
use chainring_contracts.External.{External, RuneId, Edict, TxOut}
use chainring_contracts.State.Raw.{ProgramResult}
use chainring_contracts.State.Token.{get_wallet_address, get_rune_id, is_rune_account}
use chainring_contracts.Contract.Validate.{get_bitcoin_address_script}

-- The two vectors that the handlers fill.
pub record Outputs : Type 0 where
  pub tx_outs : List TxOut
  pub edicts : List Edict

-- The edict's output is the index of the new output, which carries the dust threshold.
unfoldable pub add_edict_and_output : RuneId → Bytes → ℕ → Outputs → Outputs
add_edict_and_output rune_id script_buf edict_amount o =
    let output = length o.tx_outs % 2 ^ 32 in
    let edict : Edict = record { id = rune_id; amount = edict_amount; output = output } in
    let tx_out : TxOut = record { value = dust_threshold; script_pubkey = script_buf } in
    record { tx_outs = o.tx_outs ++ tx_out ∷ []; edicts = o.edicts ++ edict ∷ [] }

-- An output of plain bitcoin; the difference wraps.
unfoldable pub add_bitcoin_output : Bytes → Withdrawal → Outputs → Outputs
add_bitcoin_output script w o =
    let value = (w.amount + 2 ^ 64 - w.fee_amount) % 2 ^ 64 in
    let tx_out : TxOut = record { value = value; script_pubkey = script } in
    record o { tx_outs = o.tx_outs ++ tx_out ∷ [] }

module _ (x : External) where
  -- The script that a withdrawal pays to.
  unfoldable pub withdrawal_script : Bytes → Withdrawal → NetworkType → ProgramResult Bytes
  withdrawal_script bs w network_type = do
    address ← get_wallet_address w.address_index.index bs
    get_bitcoin_address_script x address network_type

  unfoldable pub add_withdrawal_output :
      Bytes → Withdrawal → NetworkType → Outputs → ProgramResult Outputs
  add_withdrawal_output bs w network_type o = do
    is_rune ← is_rune_account x bs
    if is_rune
        then (do
          rune_id ← get_rune_id x bs
          script ← withdrawal_script bs w network_type
          ok (add_edict_and_output rune_id script w.amount o))
        else (do script ← withdrawal_script bs w network_type; ok (add_bitcoin_output script w o))
