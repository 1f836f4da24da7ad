-- ===== src/Sdk.antt =====
-- What the contract uses of arch/program/src: accounts, error codes, and the state transition.
pub mod ErrorCode
pub mod Account
pub mod Transition
pub mod InstructionError
pub mod Wire
pub mod Heap
pub mod Entrypoint
mod Tests
