-- ===== src/Sdk/Tests.antt =====
-- Theorems about the error codes at concrete errors.
use chainring_contracts.Base.{◌≡◌, ◌≢◌, arith}
use chainring_contracts.Base.Outcome.{custom}
use chainring_contracts.Sdk.ErrorCode.{to_u64, from_u64, from_u64-to_u64}

from_u64-to_u64_example : (from_u64 (to_u64 (custom 603)) ≡ custom 603) × (to_u64 (custom 603) ≢ 0)
from_u64-to_u64_example = from_u64-to_u64 (custom 603) (omega arith)
