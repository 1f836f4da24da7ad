-- ===== src/Base/Outcome.antt =====
-- Results of the Rust code: a value, an error (`ProgramError` of arch/program/src/program_error.rs,
-- or an I/O error) or a panic (an index out of range, an `unwrap` of an error), which aborts the run.
use mathlib.Core.Path.{◌≡◌, refl}
use mathlib.Core.Bool.{Bool, true, false}
use Prim.Native.Nat.{ℕ}
use mathlib.Core.List.{List}

-- A text is its bytes in UTF-8.
pub data ProgramError : Type 0 where
  custom : ℕ → ProgramError
  borsh_io_error : List ℕ → ProgramError
  invalid_argument invalid_instruction_data invalid_account_data : ProgramError
  account_data_too_small insufficient_funds incorrect_program_id : ProgramError
  missing_required_signature account_already_initialized uninitialized_account : ProgramError
  not_enough_account_keys account_borrow_failed max_seed_length_exceeded : ProgramError
  invalid_seeds illegal_owner max_accounts_data_allocations_exceeded : ProgramError
  invalid_realloc max_instruction_trace_length_exceeded : ProgramError
  builtin_programs_must_consume_compute_units invalid_account_owner : ProgramError
  arithmetic_overflow immutable incorrect_authority : ProgramError

pub data Result {ℓ} (E : Type 0) (A : Type ℓ) : Type ℓ where
  ok : A → Result E A
  err : E → Result E A
  panic : Result E A

-- `?` on a `Result<_, ProgramError>`.
abbrev pub ◌>>=◌ {ℓ κ} :
    {E : Type 0} {A : Type ℓ} {C : Type κ} (r : Result E A) (next : A → Result E C) → Result E C
panic >>= next = panic
err failure >>= next = err failure
ok value >>= next = next value

infixl 5 ◌>>=◌ ◌>>◌
-- A step for its effect only.
abbrev pub ◌>>◌ {κ} :
    {E : Type 0} {C : Type κ} (r : Result E (Unit {0})) (rest : Result E C) → Result E C
r >> rest = r >>= (λ _. rest)

-- `if !test { return Err(failure) }`
abbrev pub guard : {E : Type 0} (test : Bool) (failure : E) → Result E (Unit {0})
guard false failure = err failure
guard true _ = ok tt

-- `map_err(|_| failure)`
abbrev pub map_err {ℓ} : {E F : Type 0} {A : Type ℓ} → F → Result E A → Result F A
map_err failure panic = panic
map_err failure (err _) = err failure
map_err failure (ok value) = ok value

-- `unwrap()` and `expect(...)`
abbrev pub unwrap {ℓ} : {E F : Type 0} {A : Type ℓ} → Result E A → Result F A
unwrap panic = panic
unwrap (err _) = panic
unwrap (ok value) = ok value

-- The value that a successful chain went on with.
pub passed {ℓ κ} :
    {E : Type 0} {A : Type ℓ} {C : Type κ} (next : A → Result E C) (r : Result E A) {c : C}
    (chain : r >>= next ≡ ok c)
    → (value : A) × (r ≡ ok value) × (next value ≡ ok c)
passed next panic chain = cc
passed next (err failure) chain = cc
passed next (ok value) chain = (value, refl, chain)
