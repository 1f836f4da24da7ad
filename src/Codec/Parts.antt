-- ===== src/Codec/Parts.antt =====
-- `Codable` for the parts of an instruction: serialization.rs, one instance for each `impl`. A loop
-- over a `Vec` behind its length in two bytes is `write_vec` and `read_vec`.
pub mod RoundTrip
use chainring_contracts.Base.{ℕ, ◌==◌, if◌then◌else◌}
use chainring_contracts.Base.Bytes.{Bytes}
use chainring_contracts.Types.{
  NetworkType, InputUtxoType, AccountType, AddressIndex, Adjustment, TokenStateSetup, Withdrawal,
  TokenDeposits, TokenWithdrawals, SettlementAdjustments,
}
use chainring_contracts.Codec.Io.{
  Codable, Written, ◌>>=◌, ◌⊕◌, pure, decode, encode, read_u8, read_u16, read_u32, read_u64,
  read_exact, read_string, read_vec, write_u8, write_u32, write_u64, write_all, write_string,
  write_vec,
}

-- The byte of an enum, and the variant of a byte. An unknown byte is read as `Bitcoin`.
unfoldable pub network_type_byte : NetworkType → ℕ
network_type_byte NetworkType.bitcoin = 0
network_type_byte NetworkType.testnet = 1
network_type_byte NetworkType.signet = 2
network_type_byte NetworkType.regtest = 3

unfoldable pub network_type_of : ℕ → NetworkType
network_type_of b =
    if b == 0
    then NetworkType.bitcoin
    else if b == 1
    then NetworkType.testnet
    else if b == 2
    then NetworkType.signet
    else if b == 3
    then NetworkType.regtest
    else NetworkType.bitcoin

instance unfoldable pub network_type_codable : Codable NetworkType
network_type_codable = record {
  decode = (do b ← read_u8; pure (network_type_of b));
  encode = λ t. write_u8 (network_type_byte t);
}

unfoldable pub input_utxo_type_byte : InputUtxoType → ℕ
input_utxo_type_byte InputUtxoType.bitcoin = 0
input_utxo_type_byte InputUtxoType.rune = 1

unfoldable pub input_utxo_type_of : ℕ → InputUtxoType
input_utxo_type_of b =
    if b == 0
    then InputUtxoType.bitcoin
    else if b == 1
    then InputUtxoType.rune
    else InputUtxoType.bitcoin

instance unfoldable pub input_utxo_type_codable : Codable InputUtxoType
input_utxo_type_codable = record {
  decode = (do b ← read_u8; pure (input_utxo_type_of b));
  encode = λ t. write_u8 (input_utxo_type_byte t);
}

unfoldable pub account_type_byte : AccountType → ℕ
account_type_byte AccountType.program = 1
account_type_byte AccountType.token = 2
account_type_byte AccountType.withdraw = 3
account_type_byte AccountType.rune_receiver = 4
account_type_byte AccountType.unknown = 0

unfoldable pub account_type_of : ℕ → AccountType
account_type_of b =
    if b == 1
    then AccountType.program
    else if b == 2
    then AccountType.token
    else if b == 3
    then AccountType.withdraw
    else if b == 4
    then AccountType.rune_receiver
    else AccountType.unknown

instance unfoldable pub account_type_codable : Codable AccountType
account_type_codable = record {
  decode = (do b ← read_u8; pure (account_type_of b));
  encode = λ t. write_u8 (account_type_byte t);
}

instance unfoldable pub address_index_codable : Codable AddressIndex
address_index_codable = record {
  decode = do
    index ← read_u32
    last4 ← read_exact 4
    pure (record { index = index; last4 = last4 });
  encode = λ a. write_u32 a.index ⊕ write_all a.last4;
}

instance unfoldable pub adjustment_codable : Codable Adjustment
adjustment_codable = record {
  decode = do
    address_index ← decode
    amount ← read_u64
    pure (record { address_index = address_index; amount = amount });
  encode = λ a. encode a.address_index ⊕ write_u64 a.amount;
}

instance unfoldable pub withdrawal_codable : Codable Withdrawal
withdrawal_codable = record {
  decode = do
    address_index ← decode
    amount ← read_u64
    fee_account_index ← read_u8
    fee_address_index ← decode
    fee_amount ← read_u64
    pure (record {
      address_index = address_index;
      amount = amount;
      fee_account_index = fee_account_index;
      fee_address_index = fee_address_index;
      fee_amount = fee_amount;
    });
  encode = λ w.
      encode w.address_index
      ⊕ write_u64 w.amount
      ⊕ write_u8 w.fee_account_index
      ⊕ encode w.fee_address_index
      ⊕ write_u64 w.fee_amount;
}

-- A `String` behind its length, as an element of a `Vec`.
unfoldable pub string_codable : Codable Bytes
string_codable = record { decode = read_string; encode = write_string }

instance unfoldable pub token_state_setup_codable : Codable TokenStateSetup
token_state_setup_codable = record {
  decode = do
    account_index ← read_u8
    wallet_addresses ← read_vec ⦃c = string_codable⦄
    pure (record { account_index = account_index; wallet_addresses = wallet_addresses });
  encode = λ t. write_u8 t.account_index ⊕ write_vec ⦃c = string_codable⦄ t.wallet_addresses;
}

instance unfoldable pub token_deposits_codable : Codable TokenDeposits
token_deposits_codable = record {
  decode = do
    account_index ← read_u8
    deposits ← read_vec
    pure (record { account_index = account_index; deposits = deposits });
  encode = λ t. write_u8 t.account_index ⊕ write_vec t.deposits;
}

instance unfoldable pub token_withdrawals_codable : Codable TokenWithdrawals
token_withdrawals_codable = record {
  decode = do
    account_index ← read_u8
    withdrawals ← read_vec
    pure (record { account_index = account_index; withdrawals = withdrawals });
  encode = λ t. write_u8 t.account_index ⊕ write_vec t.withdrawals;
}

instance unfoldable pub settlement_adjustments_codable : Codable SettlementAdjustments
settlement_adjustments_codable = record {
  decode = do
    account_index ← read_u8
    increments ← read_vec
    decrements ← read_vec
    fee_amount ← read_u64
    pure (record {
      account_index = account_index;
      increments = increments;
      decrements = decrements;
      fee_amount = fee_amount;
    });
  encode = λ t.
      write_u8 t.account_index
      ⊕ write_vec t.increments
      ⊕ write_vec t.decrements
      ⊕ write_u64 t.fee_amount;
}
