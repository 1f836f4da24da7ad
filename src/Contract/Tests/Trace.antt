-- ===== src/Contract/Tests/Trace.antt =====
-- A chain of runs: a batch is prepared, flags are set anew, and the batch is submitted.
use chainring_contracts.Base.{◌≡◌, refl, [], ◌∷◌}
use chainring_contracts.Base.Outcome.{ok}
use chainring_contracts.Constants.{empty_hash}
use chainring_contracts.State.Raw.{slice, hash_from_slice}
use chainring_contracts.State.Program.{get_settlement_hash}
use chainring_contracts.Contract.Settlement.{hash}
use chainring_contracts.Contract.Settlement.Trace.{Action, Trace, Matched, Trace-Matched}
use chainring_contracts.Contract.Tests.{
  host, accounts, batch, before, prepared, between, submitted, prepares, submits,
}

idle_before : get_settlement_hash (before 10).data_ ≡ ok empty_hash
unfolding get_settlement_hash hash_from_slice slice
idle_before = refl

Trace-Matched_example :
    Matched (Action.submitted (hash host (1 ∷ [])) ∷ Action.prepared (hash host (1 ∷ [])) ∷ [])
Trace-Matched_example =
    Trace-Matched host (λ raw. refl) accounts 10 refl before idle_before
      (Action.submitted (hash host (1 ∷ [])) ∷ Action.prepared (hash host (1 ∷ [])) ∷ []) submitted
      (Trace.submit submitted batch (1 ∷ [])
        (Trace.other between (Trace.prepare prepared batch (1 ∷ []) Trace.begin prepares) refl)
        submits)
