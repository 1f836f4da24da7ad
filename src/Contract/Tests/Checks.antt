-- ===== src/Contract/Tests/Checks.antt =====
-- Which accounts pass the checks, at the store of a settlement, and the codes that the host reads.
use chainring_contracts.Base.{ℕ, ◌<◌, ◌≡◌, ◌↔◌, [], ◌∷◌, true, false, some, arith}
use chainring_contracts.Base.Outcome.{ok, custom}
use chainring_contracts.Types.{AccountType}
use chainring_contracts.State.Raw.{get_type}
use chainring_contracts.Sdk.Account.{account_at}
use chainring_contracts.Sdk.ErrorCode.{to_u64}
use chainring_contracts.Sdk.InstructionError.{
  InstructionError, instruction_error, instruction_error-to_u64,
}
use chainring_contracts.Contract.Validate.{related_key, validate_account, get_validated_index}
use chainring_contracts.Contract.Validate.Indices.{get_validated_index_iff}
use chainring_contracts.State.Token.{get_num_balances, get_wallet_address_last4}
use chainring_contracts.Contract.Validate.Accounts.{validate_account_iff}
use chainring_contracts.Contract.Tests.{accounts, between, adjust, token_data}

validate_account_iff_example :
    (validate_account accounts 1 false true (some AccountType.token) (some 0) between ≡ ok tt) ↔ (
      (p : ℕ) × (q : ℕ) × (account_at accounts 1 ≡ ok p)
      × (account_at accounts 0 ≡ ok q)
      × ((between p).is_signer ≡ false)
      × ((between p).is_writable ≡ true)
      × (get_type (between p).data_ ≡ ok AccountType.token)
      × (related_key AccountType.token (between p).data_ ≡ ok (between q).key))
validate_account_iff_example =
    validate_account_iff accounts 1 false true AccountType.token 0 between

instruction_error-to_u64_example :
    instruction_error (to_u64 (custom 603)) ≡ InstructionError.custom 603
instruction_error-to_u64_example = instruction_error-to_u64 (custom 603) (omega arith)

get_validated_index_iff_example :
    (get_validated_index token_data (adjust 1 0).address_index ≡ ok 1) ↔ (
      (n : ℕ) × (get_num_balances token_data ≡ ok n)
      × (1 < n)
      × (get_wallet_address_last4 1 token_data ≡ ok (65 ∷ 66 ∷ 67 ∷ 68 ∷ []))
      × ((adjust 1 0).address_index.index ≡ 1))
get_validated_index_iff_example = get_validated_index_iff token_data (adjust 1 0).address_index 1
