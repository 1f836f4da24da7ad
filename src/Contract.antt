-- ===== src/Contract.antt =====
-- The exchange program: arch/contracts/exchange/program/src/lib.rs, with the functions of
-- arch/contracts/exchange/model/src/state.rs that look at several accounts.
pub mod Validate
pub mod Tests
pub mod Init
pub mod Shifts
pub mod Deposit
pub mod Settlement
pub mod Outputs
pub mod Withdrawal
pub mod Dispatch
