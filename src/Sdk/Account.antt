-- ===== src/Sdk/Account.antt =====
-- `AccountInfo` (arch/program/src/account.rs), `UtxoMeta` (utxo.rs), and computations over the
-- accounts of an instruction.
--
-- Accounts live in a store; the slice `accounts` is a list of places in it. An account that is passed
-- twice is one `Rc`, so its place stands twice in the list (`deserialize` of entrypoint.rs). A
-- computation gives back the store beside a result, also beside an error: what was written before an
-- error stays written, and it is the host that drops the changes of a failed run. `RefCell` borrows
-- are dropped within each accessor, so no borrow fails.
pub mod Laws
use chainring_contracts.Base.{
  ℕ, ◌-◌, ◌*◌, Bool, none, some, List, ◌++◌, length, get_elem?, take, replicate, ltb, ◌==◌,
  if◌then◌else◌,
}
use chainring_contracts.Base.Bytes.{Bytes, to_le_bytes}
use chainring_contracts.Base.Outcome.{ProgramError, ok, err, panic, invalid_realloc}
use chainring_contracts.Types.{Pubkey}
use chainring_contracts.State.Raw.{ProgramResult}

-- `original_data_len` is what the host wrote in front of the data for this run. `owner` and
-- `is_executable` are not used by the contract.
pub record Account : Type 0 where
  pub key : Pubkey
  pub utxo : Bytes
  pub data_ : Bytes
  pub original_data_len : ℕ
  pub is_signer : Bool
  pub is_writable : Bool

-- `UtxoMeta::from`: the transaction's id, and the index of its output.
unfoldable pub utxo_meta : Bytes → ℕ → Bytes
utxo_meta txid vout = txid ++ to_le_bytes 4 vout

abbrev pub max_permitted_data_increase : ℕ
max_permitted_data_increase = 10 * 1024

abbrev pub max_permitted_data_length : ℕ
max_permitted_data_length = 10 * 1024 * 1024

-- `realloc(new_len, true)`
unfoldable pub realloc : ℕ → Account → ProgramResult Account
realloc new_len a =
    let old_len = length a.data_ in
    let resized = take new_len a.data_ ++ replicate (new_len - old_len) 0 in
    if new_len == old_len
    then ok a
    else if ltb max_permitted_data_increase (new_len - a.original_data_len)
    then err invalid_realloc
    else ok (record a { data_ = resized })

abbrev pub Store : Type 0
Store = ℕ → Account

-- The store with the account at a place replaced.
abbrev pub update : ℕ → Account → Store → Store
update place account s = λ q. if q == place then account else s q

abbrev pub M : Type 0 → Type 0
M A = (s : Store) → ProgramResult A × Store

-- What a computation goes on with after a step.
abbrev pub continue : {A C : Type 0} → (A → M C) → ProgramResult A × Store → ProgramResult C × Store
continue next (panic, s) = (panic, s)
continue next (err failure, s) = (err failure, s)
continue next (ok value, s) = next value s

infixl 5 ◌>>=◌ ◌>>◌
abbrev pub ◌>>=◌ : {A C : Type 0} (step : M A) (next : A → M C) → M C
(step >>= next) s = continue next (step s)

module _ {A : Type 0} where
  -- A computation that only reads the store.
  abbrev pub query : (Store → ProgramResult A) → M A
  query f s = (f s, s)

  abbrev pub lift : ProgramResult A → M A
  lift r = query (λ _. r)

  abbrev pub raise : ProgramError → M A
  raise failure = lift (err failure)

  abbrev pub pure : A → M A
  pure value = lift (ok value)

  -- A computation on the data of one account.
  abbrev pub read : (Bytes → ProgramResult A) → ℕ → M A
  read f p = query (λ s. f (s p).data_)

abbrev pub ◌>>◌ : {C : Type 0} (step : M (Unit {0})) (rest : M C) → M C
step >> rest = step >>= (λ _. rest)

-- Store the account that a step made of the one at `p`.
abbrev pub replace : ℕ → ProgramResult Account → M (Unit {0})
replace p (ok a) s = (ok tt, update p a s)
replace p (err e) s = (err e, s)
replace p panic s = (panic, s)

abbrev pub modify_account : (Account → ProgramResult Account) → ℕ → M (Unit {0})
modify_account f p s = replace p (f (s p)) s

abbrev with_data : Account → ProgramResult Bytes → ProgramResult Account
with_data a (ok bs) = ok (record a { data_ = bs })
with_data a (err e) = err e
with_data a panic = panic

-- A step that writes an account's data.
abbrev pub write : (Bytes → ProgramResult Bytes) → ℕ → M (Unit {0})
write f p s = replace p (with_data (s p) (f (s p).data_)) s

-- `accounts[i]`
abbrev pub account_at : List ℕ → ℕ → ProgramResult ℕ
account_at accounts i = elim (get_elem? accounts i) [ some p ↦ ok p | none ↦ panic ]

-- `set_utxo`
abbrev pub set_utxo : Bytes → ℕ → M (Unit {0})
set_utxo utxo p s = (ok tt, update p (record (s p) { utxo = utxo }) s)
