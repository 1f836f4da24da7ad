-- ===== src/Codec/Parts/RoundTrip.antt =====
-- Each part of an instruction is read back from its bytes.
use chainring_contracts.Base.{◌<◌, ◌≡◌, append_assoc, arith}
use chainring_contracts.Types.{NetworkType, InputUtxoType, AccountType}
use chainring_contracts.Codec.Io.{◌>>=◌}
use chainring_contracts.Codec.Io.RoundTrip.{
  RoundTrips, IsString, read_exact-write_all, read_uint-write_uint, read_string-write_string,
  read_vec-write_vec,
}
use chainring_contracts.Codec.Valid.{
  AnyOf, IsAddressIndex, IsAdjustment, IsWithdrawal, IsTokenStateSetup, IsTokenDeposits,
  IsTokenWithdrawals, IsSettlementAdjustments,
}
use chainring_contracts.Codec.Parts.{
  network_type_byte, network_type_of, network_type_codable, input_utxo_type_byte,
  input_utxo_type_of, input_utxo_type_codable, account_type_byte, account_type_of,
  account_type_codable, address_index_codable, adjustment_codable, withdrawal_codable,
  string_codable, token_state_setup_codable, token_deposits_codable, token_withdrawals_codable,
  settlement_adjustments_codable,
}

network_type_byte_lem :
    (t : NetworkType) → (network_type_byte t < 256) × (network_type_of (network_type_byte t) ≡ t)
unfolding network_type_byte network_type_of
network_type_byte_lem t = ground arith

pub network_type-RoundTrips : RoundTrips network_type_codable (AnyOf NetworkType)
unfolding network_type_codable
network_type-RoundTrips t _ rest =
    let (small, same) = network_type_byte_lem t in
    simp (◌>>=◌, read_uint-write_uint 1 (network_type_byte t) rest small, same)

input_utxo_type_byte_lem :
    (t : InputUtxoType)
    → (input_utxo_type_byte t < 256) × (input_utxo_type_of (input_utxo_type_byte t) ≡ t)
unfolding input_utxo_type_byte input_utxo_type_of
input_utxo_type_byte_lem t = ground arith

pub input_utxo_type-RoundTrips : RoundTrips input_utxo_type_codable (AnyOf InputUtxoType)
unfolding input_utxo_type_codable
input_utxo_type-RoundTrips t _ rest =
    let (small, same) = input_utxo_type_byte_lem t in
    simp (◌>>=◌, read_uint-write_uint 1 (input_utxo_type_byte t) rest small, same)

account_type_byte_lem :
    (t : AccountType) → (account_type_byte t < 256) × (account_type_of (account_type_byte t) ≡ t)
unfolding account_type_byte account_type_of
account_type_byte_lem t = ground arith

pub account_type-RoundTrips : RoundTrips account_type_codable (AnyOf AccountType)
unfolding account_type_codable
account_type-RoundTrips t _ rest =
    let (small, same) = account_type_byte_lem t in
    simp (◌>>=◌, read_uint-write_uint 1 (account_type_byte t) rest small, same)

pub address_index-RoundTrips : RoundTrips address_index_codable IsAddressIndex
unfolding address_index_codable
address_index-RoundTrips a h rest =
    simp (◌>>=◌, append_assoc, read_uint-write_uint, h.index, read_exact-write_all, h.last4)

pub adjustment-RoundTrips : RoundTrips adjustment_codable IsAdjustment
unfolding adjustment_codable
adjustment-RoundTrips a h rest =
    simp (
      ◌>>=◌, append_assoc, address_index-RoundTrips, h.address_index, read_uint-write_uint,
      h.amount,
    )

pub IsWithdrawal-RoundTrips : RoundTrips withdrawal_codable IsWithdrawal
unfolding withdrawal_codable
IsWithdrawal-RoundTrips w h rest = simp (
  ◌>>=◌, append_assoc, address_index-RoundTrips, h.address_index, h.fee_address_index,
  read_uint-write_uint, h.amount, h.fee_account_index, h.fee_amount,
)

pub IsString-RoundTrips : RoundTrips string_codable IsString
unfolding string_codable
IsString-RoundTrips s h rest = read_string-write_string s rest h

pub IsTokenStateSetup-RoundTrips : RoundTrips token_state_setup_codable IsTokenStateSetup
unfolding token_state_setup_codable
IsTokenStateSetup-RoundTrips t h rest = simp (
  ◌>>=◌,
  append_assoc,
  read_uint-write_uint,
  h.account_index,
  read_vec-write_vec string_codable IsString-RoundTrips,
  h.wallet_addresses.0,
  h.wallet_addresses.1,
)

pub IsTokenDeposits-RoundTrips : RoundTrips token_deposits_codable IsTokenDeposits
unfolding token_deposits_codable
IsTokenDeposits-RoundTrips t h rest = simp (
  ◌>>=◌,
  append_assoc,
  read_uint-write_uint,
  h.account_index,
  read_vec-write_vec adjustment_codable adjustment-RoundTrips,
  h.deposits.0,
  h.deposits.1,
)

pub IsTokenWithdrawals-RoundTrips : RoundTrips token_withdrawals_codable IsTokenWithdrawals
unfolding token_withdrawals_codable
IsTokenWithdrawals-RoundTrips t h rest = simp (
  ◌>>=◌,
  append_assoc,
  read_uint-write_uint,
  h.account_index,
  read_vec-write_vec withdrawal_codable IsWithdrawal-RoundTrips,
  h.withdrawals.0,
  h.withdrawals.1,
)

pub IsSettlementAdjustments-RoundTrips :
    RoundTrips settlement_adjustments_codable IsSettlementAdjustments
unfolding settlement_adjustments_codable
IsSettlementAdjustments-RoundTrips t h rest = simp (
  ◌>>=◌,
  append_assoc,
  read_uint-write_uint,
  h.account_index,
  read_vec-write_vec adjustment_codable adjustment-RoundTrips,
  h.increments.0,
  h.increments.1,
  h.decrements.0,
  h.decrements.1,
  h.fee_amount,
)
