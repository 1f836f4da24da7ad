-- ===== src/Sdk/ErrorCode.antt =====
-- `From<ProgramError> for u64` and back: arch/program/src/program_error.rs.
use chainring_contracts.Base.Bytes.{Bytes}
use chainring_contracts.Base.{
  [], ◌∷◌, ℕ, ◌*◌, ◌^◌, ◌%◌, ◌≡◌, ◌≢◌, refl, ◌==◌, if◌then◌else◌, ◌<◌, arith,
}
use chainring_contracts.Base.Outcome.{
  ProgramError, custom, invalid_argument, invalid_instruction_data, invalid_account_data,
  account_data_too_small, insufficient_funds, incorrect_program_id, missing_required_signature,
  account_already_initialized, uninitialized_account, not_enough_account_keys,
  account_borrow_failed, max_seed_length_exceeded, invalid_seeds, borsh_io_error, illegal_owner,
  max_accounts_data_allocations_exceeded, invalid_realloc, max_instruction_trace_length_exceeded,
  builtin_programs_must_consume_compute_units, invalid_account_owner, arithmetic_overflow,
  immutable, incorrect_authority,
}

-- `to_builtin!`
abbrev pub to_builtin : ℕ → ℕ
to_builtin error = error * 2 ^ 32

unfoldable pub to_u64 : ProgramError → ℕ
to_u64 invalid_argument = to_builtin 2
to_u64 invalid_instruction_data = to_builtin 3
to_u64 invalid_account_data = to_builtin 4
to_u64 account_data_too_small = to_builtin 5
to_u64 insufficient_funds = to_builtin 6
to_u64 incorrect_program_id = to_builtin 7
to_u64 missing_required_signature = to_builtin 8
to_u64 account_already_initialized = to_builtin 9
to_u64 uninitialized_account = to_builtin 10
to_u64 not_enough_account_keys = to_builtin 11
to_u64 account_borrow_failed = to_builtin 12
to_u64 max_seed_length_exceeded = to_builtin 13
to_u64 invalid_seeds = to_builtin 14
to_u64 (borsh_io_error _) = to_builtin 15
to_u64 illegal_owner = to_builtin 18
to_u64 max_accounts_data_allocations_exceeded = to_builtin 19
to_u64 invalid_realloc = to_builtin 20
to_u64 max_instruction_trace_length_exceeded = to_builtin 21
to_u64 builtin_programs_must_consume_compute_units = to_builtin 22
to_u64 invalid_account_owner = to_builtin 23
to_u64 arithmetic_overflow = to_builtin 24
to_u64 immutable = to_builtin 25
to_u64 incorrect_authority = to_builtin 26
to_u64 (custom error) = if error == 0 then to_builtin 1 else error

-- `"Unknown".to_string()`
abbrev pub unknown_text : Bytes
unknown_text = 85 ∷ 110 ∷ 107 ∷ 110 ∷ 111 ∷ 119 ∷ 110 ∷ []

unfoldable pub from_u64 : ℕ → ProgramError
from_u64 error =
    if error == to_builtin 1
    then custom 0
    else if error == to_builtin 2
    then invalid_argument
    else if error == to_builtin 3
    then invalid_instruction_data
    else if error == to_builtin 4
    then invalid_account_data
    else if error == to_builtin 5
    then account_data_too_small
    else if error == to_builtin 6
    then insufficient_funds
    else if error == to_builtin 7
    then incorrect_program_id
    else if error == to_builtin 8
    then missing_required_signature
    else if error == to_builtin 9
    then account_already_initialized
    else if error == to_builtin 10
    then uninitialized_account
    else if error == to_builtin 11
    then not_enough_account_keys
    else if error == to_builtin 12
    then account_borrow_failed
    else if error == to_builtin 13
    then max_seed_length_exceeded
    else if error == to_builtin 14
    then invalid_seeds
    else if error == to_builtin 15
    then borsh_io_error unknown_text
    else if error == to_builtin 18
    then illegal_owner
    else if error == to_builtin 19
    then max_accounts_data_allocations_exceeded
    else if error == to_builtin 20
    then invalid_realloc
    else if error == to_builtin 21
    then max_instruction_trace_length_exceeded
    else if error == to_builtin 22
    then builtin_programs_must_consume_compute_units
    else if error == to_builtin 23
    then invalid_account_owner
    else if error == to_builtin 24
    then arithmetic_overflow
    else if error == to_builtin 25
    then immutable
    else if error == to_builtin 26
    then incorrect_authority
    else custom (error % 2 ^ 32)

-- The code of a custom error fits in 32 bits.
abbrev pub IsError : ProgramError → Type 0
IsError (custom error) = error < 2 ^ 32
IsError _ = Unit

-- The error whose text is the one that a code stands for.
abbrev pub with_unknown_text : ProgramError → ProgramError
with_unknown_text (borsh_io_error _) = borsh_io_error unknown_text
with_unknown_text e = e

-- A program error goes through its `u64` code and comes back as itself, but for the text of a
-- `BorshIoError`, which comes back as "Unknown"; and its code is never 0, the code of success. Custom
-- codes fit in 32 bits.
pub from_u64-to_u64 :
    (e : ProgramError) → IsError e → (from_u64 (to_u64 e) ≡ with_unknown_text e) × (to_u64 e ≢ 0)
unfolding from_u64 to_u64
from_u64-to_u64 (custom error) h = ground arith
from_u64-to_u64 (borsh_io_error text) h = (refl, omega arith)
from_u64-to_u64 _ h = (refl, omega arith)
