-- ===== src/Sdk/InstructionError.antt =====
-- `InstructionError` of arch/program/src/instruction.rs, the host's view of the code of a run.
use chainring_contracts.Base.{ℕ, ◌/◌, ◌^◌, ◌%◌, ◌≡◌, refl, ◌==◌, if◌then◌else◌, arith}
use chainring_contracts.Base.Bytes.{Bytes}
use chainring_contracts.Base.Outcome.{ProgramError}
use chainring_contracts.Sdk.ErrorCode.{to_builtin, to_u64, unknown_text, IsError}

pub data InstructionError : Type 0 where
  generic_error invalid_argument invalid_instruction_data invalid_account_data : InstructionError
  account_data_too_small insufficient_funds incorrect_program_id : InstructionError
  missing_required_signature account_already_initialized uninitialized_account : InstructionError
  unbalanced_instruction modified_program_id external_account_lamport_spend : InstructionError
  duplicate_account_index executable_modified not_enough_account_keys : InstructionError
  account_data_size_changed account_not_executable account_borrow_failed : InstructionError
  account_borrow_outstanding duplicate_account_out_of_sync invalid_error : InstructionError
  executable_data_modified unsupported_program_id call_depth missing_account : InstructionError
  reentrancy_not_allowed max_seed_length_exceeded invalid_seeds invalid_realloc : InstructionError
  computational_budget_exceeded privilege_escalation program_environment_setup_failure :
      InstructionError
  program_failed_to_complete program_failed_to_compile elf_failed_to_parse immutable :
      InstructionError
  incorrect_authority invalid_account_owner arithmetic_overflow unsupported_sysvar :
      InstructionError
  illegal_owner max_accounts_data_allocations_exceeded max_accounts_exceeded : InstructionError
  max_instruction_trace_length_exceeded rpc_error : InstructionError
  builtin_programs_must_consume_compute_units invalid_tx_to_sign : InstructionError
  borsh_io_error : Bytes → InstructionError
  external_account_data_modified : Bytes → Bytes → InstructionError
  readonly_data_modified : Bytes → InstructionError
  custom : ℕ → InstructionError
  program_error : ProgramError → InstructionError
  ebpf_error : Bytes → InstructionError

-- `From<u64> for InstructionError`: a code without bits above the lower 32 is a custom error.
unfoldable pub instruction_error : ℕ → InstructionError
instruction_error value =
    if value == to_builtin 1
    then InstructionError.custom 0
    else if value == to_builtin 2
    then InstructionError.invalid_argument
    else if value == to_builtin 3
    then InstructionError.invalid_instruction_data
    else if value == to_builtin 4
    then InstructionError.invalid_account_data
    else if value == to_builtin 5
    then InstructionError.account_data_too_small
    else if value == to_builtin 6
    then InstructionError.insufficient_funds
    else if value == to_builtin 7
    then InstructionError.incorrect_program_id
    else if value == to_builtin 8
    then InstructionError.missing_required_signature
    else if value == to_builtin 9
    then InstructionError.account_already_initialized
    else if value == to_builtin 10
    then InstructionError.uninitialized_account
    else if value == to_builtin 11
    then InstructionError.not_enough_account_keys
    else if value == to_builtin 12
    then InstructionError.account_borrow_failed
    else if value == to_builtin 13
    then InstructionError.max_seed_length_exceeded
    else if value == to_builtin 14
    then InstructionError.invalid_seeds
    else if value == to_builtin 15
    then InstructionError.borsh_io_error unknown_text
    else if value == to_builtin 17
    then InstructionError.unsupported_sysvar
    else if value == to_builtin 18
    then InstructionError.illegal_owner
    else if value == to_builtin 19
    then InstructionError.max_accounts_data_allocations_exceeded
    else if value == to_builtin 20
    then InstructionError.invalid_realloc
    else if value == to_builtin 21
    then InstructionError.max_instruction_trace_length_exceeded
    else if value == to_builtin 22
    then InstructionError.builtin_programs_must_consume_compute_units
    else if value == to_builtin 23
    then InstructionError.invalid_account_owner
    else if value == to_builtin 24
    then InstructionError.arithmetic_overflow
    else if value == to_builtin 25
    then InstructionError.immutable
    else if value == to_builtin 26
    then InstructionError.incorrect_authority
    else if value / 2 ^ 32 == 0
    then InstructionError.custom (value % 2 ^ 32)
    else InstructionError.invalid_error

-- The error of the same name; the text of a `BorshIoError` is "Unknown".
abbrev pub same_error : ProgramError → InstructionError
same_error (ProgramError.custom error) = InstructionError.custom error
same_error ProgramError.invalid_argument = InstructionError.invalid_argument
same_error ProgramError.invalid_instruction_data = InstructionError.invalid_instruction_data
same_error ProgramError.invalid_account_data = InstructionError.invalid_account_data
same_error ProgramError.account_data_too_small = InstructionError.account_data_too_small
same_error ProgramError.insufficient_funds = InstructionError.insufficient_funds
same_error ProgramError.incorrect_program_id = InstructionError.incorrect_program_id
same_error ProgramError.missing_required_signature = InstructionError.missing_required_signature
same_error ProgramError.account_already_initialized = InstructionError.account_already_initialized
same_error ProgramError.uninitialized_account = InstructionError.uninitialized_account
same_error ProgramError.not_enough_account_keys = InstructionError.not_enough_account_keys
same_error ProgramError.account_borrow_failed = InstructionError.account_borrow_failed
same_error ProgramError.max_seed_length_exceeded = InstructionError.max_seed_length_exceeded
same_error ProgramError.invalid_seeds = InstructionError.invalid_seeds
same_error (ProgramError.borsh_io_error _) = InstructionError.borsh_io_error unknown_text
same_error ProgramError.illegal_owner = InstructionError.illegal_owner
same_error ProgramError.max_accounts_data_allocations_exceeded =
    InstructionError.max_accounts_data_allocations_exceeded
same_error ProgramError.invalid_realloc = InstructionError.invalid_realloc
same_error ProgramError.max_instruction_trace_length_exceeded =
    InstructionError.max_instruction_trace_length_exceeded
same_error ProgramError.builtin_programs_must_consume_compute_units =
    InstructionError.builtin_programs_must_consume_compute_units
same_error ProgramError.invalid_account_owner = InstructionError.invalid_account_owner
same_error ProgramError.arithmetic_overflow = InstructionError.arithmetic_overflow
same_error ProgramError.immutable = InstructionError.immutable
same_error ProgramError.incorrect_authority = InstructionError.incorrect_authority

-- The host reads the code of each program error as the instruction error of the same name, and that of
-- a custom error as a custom error of the same number, with the text "Unknown" for that of a
-- `BorshIoError`; custom numbers fit in 32 bits.
pub instruction_error-to_u64 :
    (e : ProgramError) → IsError e → instruction_error (to_u64 e) ≡ same_error e
unfolding instruction_error to_u64
instruction_error-to_u64 (ProgramError.custom error) h = ground arith
instruction_error-to_u64 _ h = refl
