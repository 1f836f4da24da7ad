-- ===== src/Contract/Validate.antt =====
-- The checks of accounts, addresses and indices: `validate_account`, `validate_bitcoin_address` and
-- `get_bitcoin_address` of state.rs, `get_validated_index` of program/src/lib.rs. They read the store
-- and leave it as it is.
pub mod Accounts
pub mod Indices
use chainring_contracts.Base.{
  ℕ, Bool, true, false, not, ◌&&◌, ◌||◌, Option, none, some, List, length, leb, ltb, ◌==◌,
  if◌then◌else◌,
}
use chainring_contracts.Base.Bytes.{Bytes, bytes_eq}
use chainring_contracts.Base.Outcome.{ok, err, panic, custom, ◌>>=◌, ◌>>◌, guard}
use chainring_contracts.Constants.{
  error_invalid_account_index, error_invalid_account_flags, error_invalid_account_type,
  error_state_account_mismatch, error_already_initialized, error_invalid_address,
  error_invalid_address_network, error_invalid_address_index, error_wallet_last4_mismatch,
  error_withdrawal_not_allowed,
}
use chainring_contracts.Types.{AccountType, NetworkType, AddressIndex, Pubkey}
use chainring_contracts.External.{External}
use chainring_contracts.State.Raw.{ProgramResult, get_type}
use chainring_contracts.State.Token.{
  get_num_balances, get_wallet_address, get_wallet_address_last4, get_program_state_account_key,
  can_withdraw,
}
use chainring_contracts.State.Program.{get_withdraw_account_key}
use chainring_contracts.Sdk.Account.{Account, Store, account_at}

-- `==` on `bool`s.
abbrev pub bool_eq : Bool → Bool → Bool
bool_eq true b = b
bool_eq false b = not b

-- `==` on the enums, which derive `PartialEq`.
unfoldable pub account_type_eq : AccountType → AccountType → Bool
account_type_eq AccountType.program AccountType.program = true
account_type_eq AccountType.token AccountType.token = true
account_type_eq AccountType.withdraw AccountType.withdraw = true
account_type_eq AccountType.rune_receiver AccountType.rune_receiver = true
account_type_eq AccountType.unknown AccountType.unknown = true
account_type_eq _ _ = false

abbrev pub is_bitcoin : NetworkType → Bool
is_bitcoin NetworkType.bitcoin = true
is_bitcoin _ = false

-- The key of the account that one of this type belongs to.
unfoldable pub related_key : AccountType → Bytes → ProgramResult Pubkey
related_key AccountType.program bs = get_withdraw_account_key bs
related_key AccountType.withdraw bs = get_program_state_account_key bs
related_key AccountType.token bs = get_program_state_account_key bs
related_key AccountType.rune_receiver bs = get_program_state_account_key bs
related_key AccountType.unknown bs = err (custom error_invalid_account_type)

unfoldable pub validate_related :
    List ℕ → AccountType → Option ℕ → Account → Store → ProgramResult (Unit {0})
validate_related accounts t none a s = ok tt
validate_related accounts t (some related_account_index) a s = do
  key ← related_key t a.data_
  related ← account_at accounts related_account_index
  guard (bytes_eq key (s related).key) (custom error_state_account_mismatch)

unfoldable pub validate_type :
    List ℕ → Option AccountType → Option ℕ → Account → Store → ProgramResult (Unit {0})
validate_type accounts none related a s =
    guard (length a.data_ == 0) (custom error_already_initialized)
validate_type accounts (some account_type) related a s = do
  t ← get_type a.data_
  guard (account_type_eq t account_type) (custom error_invalid_account_type)
  validate_related accounts account_type related a s

unfoldable pub validate_account :
    List ℕ → ℕ → Bool → Bool → Option AccountType → Option ℕ → Store → ProgramResult (Unit {0})
validate_account accounts index is_signer is_writable account_type related s =
    if leb (length accounts) index then err (custom error_invalid_account_index) else do
      p ← account_at accounts index
      guard (bool_eq (s p).is_signer is_signer && bool_eq (s p).is_writable is_writable)
          (custom error_invalid_account_flags)
      validate_type accounts account_type related (s p) s

unfoldable pub get_validated_index : Bytes → AddressIndex → ProgramResult ℕ
get_validated_index bs address_index = do
  num_balances ← get_num_balances bs
  guard (ltb address_index.index num_balances) (custom error_invalid_address_index)
  last4 ← get_wallet_address_last4 address_index.index bs
  guard (bytes_eq last4 address_index.last4) (custom error_wallet_last4_mismatch)
  ok address_index.index

module _ (x : External) where
  unfoldable pub validate_bitcoin_address : Bytes → NetworkType → Bool → ProgramResult (Unit {0})
  validate_bitcoin_address address network_type strict =
      if not (x.is_address address)
      then err (custom error_invalid_address)
      else if strict || is_bitcoin network_type
      then guard (x.is_address_on network_type address) (custom error_invalid_address_network)
      else ok tt

  -- The script of an address; both `unwrap`s panic on an address that is not of the network.
  unfoldable pub get_bitcoin_address_script : Bytes → NetworkType → ProgramResult Bytes
  get_bitcoin_address_script address network_type =
      if x.is_address address && x.is_address_on network_type address
      then ok (x.script_pubkey address)
      else panic

  unfoldable pub get_validated_index_withdraw : Bytes → AddressIndex → NetworkType → ProgramResult ℕ
  get_validated_index_withdraw bs address_index network_type = do
    index ← get_validated_index bs address_index
    wallet_address ← get_wallet_address index bs
    validate_bitcoin_address wallet_address network_type true
    allowed ← can_withdraw x bs
    if allowed then ok index else err (custom error_withdrawal_not_allowed)
