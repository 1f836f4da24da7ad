-- ===== src/Codec.antt =====
-- The wire format of instructions and account state: arch/contracts/exchange/model/src.
pub mod Io
pub mod Valid
pub mod Parts
pub mod Instruction
pub mod Account
mod Tests
