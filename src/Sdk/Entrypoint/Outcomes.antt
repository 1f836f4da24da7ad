-- ===== src/Sdk/Entrypoint/Outcomes.antt =====
-- What the code of a run tells.
use chainring_contracts.Base.{ℕ, ◌≡◌, ◌≢◌, ◌↔◌, refl, List, arith}
use chainring_contracts.Base.Bytes.{Bytes}
use chainring_contracts.Base.Outcome.{ProgramError, custom, ok, err, panic, passed}
use chainring_contracts.Types.{Pubkey}
use chainring_contracts.State.Raw.{ProgramResult}
use chainring_contracts.Sdk.ErrorCode.{to_u64}
use chainring_contracts.Sdk.Account.{M}
use chainring_contracts.Sdk.Entrypoint.{Parsed, deserialize, store_of, code_of, entrypoint}

-- No error has the code of success, not even a custom error of number 0.
to_u64-ne-zero : (e : ProgramError) → to_u64 e ≢ 0
unfolding to_u64
to_u64-ne-zero (custom error) = ground arith
to_u64-ne-zero _ = omega arith

code_of-zero : (r : ProgramResult (Unit {0})) → code_of r ≡ ok 0 → r ≡ ok tt
code_of-zero (ok tt) h = refl
code_of-zero (err e) h = let zero_code : to_u64 e ≡ 0 = cc in absurd (to_u64-ne-zero e zero_code)
code_of-zero panic h = absurd cc

module _ (process_instruction : Pubkey → List ℕ → Bytes → M (Unit {0})) (input : Bytes) where
  -- The run of an instruction in the accounts that the memory holds.
  abbrev pub result_of : Parsed → ProgramResult (Unit {0})
  result_of p =
      (process_instruction p.program_id p.accounts.places p.instruction_data
        (store_of p.accounts.inputs)).0

  -- The entry point tells the host of success exactly when the memory has been parsed and the
  -- instruction has been processed in the accounts that it holds, without an error.
  pub entrypoint_iff :
      (entrypoint process_instruction input ≡ ok 0)
      ↔ ((p : Parsed) × (deserialize input ≡ ok p) × (result_of p ≡ ok tt))
  unfolding entrypoint
  entrypoint_iff = (
    λ h.
        let (p, parsed, run) = passed _ (deserialize input) h in
        (p, parsed, code_of-zero (result_of p) run),
    λ (p, parsed, run). rw (parsed, run) refl,
  )
