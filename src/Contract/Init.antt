-- ===== src/Contract/Init.antt =====
-- The instructions that set accounts up, and the `initialize` functions of state.rs.
use chainring_contracts.Base.{
  ℕ, ◌+◌, ◌*◌, Bool, true, false, not, none, some, List, [], ◌∷◌, length, ltb, ◌==◌, if◌then◌else◌,
}
use chainring_contracts.Base.Bytes.{Bytes}
use chainring_contracts.Base.Outcome.{ok, panic, custom, invalid_realloc, unwrap}
use chainring_contracts.Constants.{
  empty_hash, event_size, max_events, events_offset, balances_offset, balance_size,
  withdraw_account_size, rune_receiver_account_size, rune_receiver_offset, pubkey_size,
  error_invalid_rune_id,
}
use chainring_contracts.Types.{
  AccountType, NetworkType, Pubkey, ProgramState, InitProgramStateParams, InitTokenStateParams,
  SetTokenRuneIdParams, InitWalletBalancesParams, TokenStateSetup,
}
use chainring_contracts.External.{External}
use chainring_contracts.Codec.Account.Write.{encode_program_state}
use chainring_contracts.State.Raw.{ProgramResult, set_type, write_at}
use chainring_contracts.State.Token.{
  set_token_id, get_num_balances, set_num_balances, set_program_account, set_wallet_address,
  is_rune_id,
}
use chainring_contracts.State.Program.{get_fee_account_address, get_network_type, set_rune_receiver}
use chainring_contracts.Sdk.Account.{
  M, ◌>>=◌, ◌>>◌, pure, raise, query, lift, read, write, modify_account, account_at, realloc,
  max_permitted_data_increase, max_permitted_data_length,
}
use chainring_contracts.Contract.Validate.{validate_account, validate_bitcoin_address}

unfoldable pub has_no_data : ℕ → M Bool
has_no_data p = query (λ s. ok (length (s p).data_ == 0))

-- `copy_from_slice` panics unless the new data has the length of the range that it is copied to.
unfoldable pub write_state : Bytes → Bytes → ProgramResult Bytes
write_state new_data bs = if length new_data == events_offset then write_at 0 new_data bs else panic

unfoldable pub init_state_data : ℕ → Bytes → ℕ → M (Unit {0})
init_state_data p new_data additional_bytes =
    if ltb max_permitted_data_length (length new_data + additional_bytes)
    then raise invalid_realloc
    else do
      modify_account (realloc (length new_data + additional_bytes)) p
      write (write_state new_data) p

-- The number of balances of an account, as `grow_balance_accounts_if_needed` takes it.
unfoldable pub known_balances : ℕ → M ℕ
known_balances p =
    query λ s. if ltb 0 (s p).original_data_len then get_num_balances (s p).data_ else ok 0

unfoldable pub grow_balance_accounts_if_needed : ℕ → ℕ → M (Unit {0})
grow_balance_accounts_if_needed additional_balances p = do
  num_balances ← known_balances p
  original_data_len ← query (λ s. ok (s p).original_data_len)
  if ltb original_data_len (balances_offset + (num_balances + additional_balances) * balance_size)
      then modify_account (realloc (original_data_len + max_permitted_data_increase)) p
      else pure tt

-- WithdrawState::initialize
unfoldable pub initialize_withdraw_state : List ℕ → M (Unit {0})
initialize_withdraw_state accounts = do
  withdraw ← lift (account_at accounts 1)
  empty ← has_no_data withdraw
  if empty
      then (do
        modify_account (realloc withdraw_account_size) withdraw
        write (set_type AccountType.withdraw) withdraw
        program ← lift (account_at accounts 0)
        key ← query (λ s. ok (s program).key)
        write (set_program_account key) withdraw)
      else pure tt

-- RuneReceiverState::initialize. The test, the length and the key are those of `accounts[1]`,
-- whatever `account_index` is.
unfoldable pub initialize_rune_receiver_state : List ℕ → ℕ → M (Unit {0})
initialize_rune_receiver_state accounts account_index = do
  first ← lift (account_at accounts 1)
  empty ← has_no_data first
  if empty
      then (do
        modify_account (realloc rune_receiver_account_size) first
        receiver ← lift (account_at accounts account_index)
        write (set_type AccountType.rune_receiver) receiver
        program ← lift (account_at accounts 0)
        key ← query (λ s. ok (s program).key)
        write (set_program_account key) receiver
        room ← query (λ s. ok (length (s program).data_ == rune_receiver_offset))
        if room
            then (do
              modify_account (realloc (rune_receiver_offset + pubkey_size)) program
              first_key ← query (λ s. ok (s first).key)
              write (set_rune_receiver first_key) program)
            else pure tt)
      else pure tt

-- The state that `init_program_state` writes.
abbrev pub initial_state : InitProgramStateParams → Pubkey → ProgramState
initial_state params withdraw_account = record {
  account_type = AccountType.program;
  version = 0;
  withdraw_account = withdraw_account;
  fee_account_address = params.fee_account;
  program_change_address = params.program_change_address;
  network_type = params.network_type;
  settlement_batch_hash = empty_hash;
  last_settlement_batch_hash = empty_hash;
  events = [];
}

unfoldable pub init_rune_receiver_state : List ℕ → M (Unit {0})
init_rune_receiver_state accounts = do
  query (validate_account accounts 0 true true (some AccountType.program) none)
  query (validate_account accounts 1 false true none none)
  initialize_rune_receiver_state accounts 1

module _ (x : External) where
  -- TokenState::initialize
  unfoldable pub initialize_token_state : ℕ → Bytes → Bytes → Pubkey → M (Unit {0})
  initialize_token_state p token_id fee_account_address pubkey = do
    grow_balance_accounts_if_needed 1 p
    write (set_type AccountType.token) p
    write (set_program_account pubkey) p
    write (set_token_id token_id) p
    if is_rune_id x token_id
        then pure tt
        else do write (set_num_balances 1) p; write (set_wallet_address 0 fee_account_address) p

  unfoldable pub init_program_state : List ℕ → InitProgramStateParams → M (Unit {0})
  init_program_state accounts params = do
    query (validate_account accounts 0 true true none none)
    query (validate_account accounts 1 false true none none)
    if length accounts == 3
        then query (validate_account accounts 2 false true none none)
        else pure tt
    lift (validate_bitcoin_address x params.program_change_address params.network_type true)
    lift (validate_bitcoin_address x params.fee_account params.network_type true)
    program ← lift (account_at accounts 0)
    withdraw ← lift (account_at accounts 1)
    withdraw_key ← query (λ s. ok (s withdraw).key)
    new_data ← lift (unwrap (encode_program_state (initial_state params withdraw_key)))
    init_state_data program new_data.bytes (event_size * max_events)
    if length accounts == 3 then initialize_rune_receiver_state accounts 2 else pure tt
    initialize_withdraw_state accounts

  unfoldable pub init_token_state : List ℕ → InitTokenStateParams → M (Unit {0})
  init_token_state accounts params = do
    query (validate_account accounts 0 true false (some AccountType.program) none)
    query (validate_account accounts 1 false true none none)
    token ← lift (account_at accounts 1)
    program ← lift (account_at accounts 0)
    fee_account_address ← read get_fee_account_address program
    key ← query (λ s. ok (s program).key)
    initialize_token_state token params.token_id fee_account_address key

  unfoldable pub set_token_rune_id : List ℕ → SetTokenRuneIdParams → M (Unit {0})
  set_token_rune_id accounts params = do
    query (validate_account accounts 0 true false (some AccountType.program) none)
    query (validate_account accounts 1 false true (some AccountType.token) (some 0))
    if not (is_rune_id x params.rune_id)
        then raise (custom error_invalid_rune_id)
        else do token ← lift (account_at accounts 1); write (set_token_id params.rune_id) token

  -- The inner loop of `init_wallet_balances`; it returns the number of balances.
  unfoldable pub add_wallets : NetworkType → ℕ → List Bytes → ℕ → M ℕ
  add_wallets network_type p [] num_balances = pure num_balances
  add_wallets network_type p (wallet_address ∷ rest) num_balances = do
    lift (validate_bitcoin_address x wallet_address network_type false)
    write (set_wallet_address num_balances wallet_address) p
    add_wallets network_type p rest (num_balances + 1)

  unfoldable pub setup_tokens : List ℕ → NetworkType → List TokenStateSetup → M (Unit {0})
  setup_tokens accounts network_type [] = pure tt
  setup_tokens accounts network_type (setup ∷ rest) = do
    query
        (validate_account accounts setup.account_index false true (some AccountType.token) (some 0))
    account ← lift (account_at accounts setup.account_index)
    grow_balance_accounts_if_needed (length setup.wallet_addresses) account
    num_balances ← read get_num_balances account
    total ← add_wallets network_type account setup.wallet_addresses num_balances
    write (set_num_balances total) account
    setup_tokens accounts network_type rest

  unfoldable pub init_wallet_balances : List ℕ → InitWalletBalancesParams → M (Unit {0})
  init_wallet_balances accounts params = do
    query (validate_account accounts 0 true false (some AccountType.program) none)
    program ← lift (account_at accounts 0)
    network_type ← read get_network_type program
    setup_tokens accounts network_type params.token_state_setups
