-- ===== src/State.antt =====
-- The account state of arch/contracts/exchange/model/src/state.rs: functions on the bytes of one
-- account's `data`. A setter returns the new bytes; it fails before it writes anything.
pub mod Raw
pub mod Token
pub mod Program
pub mod Withdraw
pub mod Tests
