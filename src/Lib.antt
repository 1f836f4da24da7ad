-- ===== src/Lib.antt =====
-- The contracts of a custodial exchange on the Arch network: the Rust program of
-- arch/contracts/exchange/program, its state types and instruction codec in
-- arch/contracts/exchange/model, and the parts of arch/program (the SDK) that it runs on. A
-- sequencer drives it through instructions; each one reads and writes accounts, whose data is a
-- byte array that the program addresses by fixed offsets.
--
-- The parts, and the files that model them.
--   Base: lists, byte strings, little-endian integers, and the outcome of fallible code. An
--     outcome is `ok`, an error (`ProgramError`), or `panic` (an index out of range, an `unwrap` of
--     an error).
--   Types, Constants: the structs, enums, offsets and error codes of
--     arch/contracts/exchange/model/src.
--   Codec: arch/contracts/exchange/model/src/serialization.rs (Codec.Io: readers and writers,
--     `Codable` as a record), the impls of `Codable` for the parts of instructions (Codec.Parts),
--     for instructions (Codec.Instruction), for the state of an account (Codec.Account.Read,
--     Codec.Account.Write).
--   State: arch/contracts/exchange/model/src/state.rs, the accessors of raw account data.
--     State.Raw has its free functions, State.Token `TokenState` and `Balance`, State.Program
--     `ProgramState`, State.Withdraw `WithdrawState` and `RuneReceiverState`.
--   External: what the program calls and this repository does not define: syscalls, hashes,
--     addresses, transactions of the bitcoin crate, runestones of the ordinals crate. All of it is
--     one record, a parameter of each definition that uses it; Sdk.Wire takes the digest and the hex
--     crate as parameters of their own.
--   Sdk: arch/program/src. Sdk.Account is `AccountInfo`, `UtxoMeta` and the store of the accounts,
--     Sdk.ErrorCode the codes of `ProgramError`, Sdk.Transition the transaction of a state change.
--     Sdk.Wire is the byte format of messages, instructions and transactions, with
--     `RuntimeTransaction` and `ProcessedTransaction` of arch/common/src. Sdk.Entrypoint is the
--     parsing of the host's memory and the code of a run, Sdk.Heap the allocator (entrypoint.rs),
--     Sdk.InstructionError what the host makes of that code (instruction.rs).
--   Contract: the handlers of arch/contracts/exchange/program/src/lib.rs. Contract.Dispatch is
--     `process_instruction`; Contract.Init the accounts' creation and growth; Contract.Deposit the
--     batches of deposits; Contract.Settlement and Contract.Withdrawal the two phases of settlements
--     and withdrawals; Contract.Outputs the outputs of the transaction that a batch of withdrawals
--     builds; Contract.Validate the checks of accounts and address indices; Contract.Shifts the
--     amounts that each balance of each account gains and loses in a run.
--
-- How a run is modelled. Accounts are in a store, a function from places to accounts; the slice of
-- accounts is a list of places, so an account that is passed twice is one place twice. A handler
-- is a computation that gives back the store beside its outcome, also beside an error, as the code
-- has no rollback of its own: the host drops the changes of a failed run.
--
-- Integers are natural numbers with their wrap-around written out. The program is built in the
-- release profile (arch/contracts/exchange/program/Cargo.toml sets no `overflow-checks`), so that
-- sums and differences wrap at the width of their type. Strings are their UTF-8 bytes. No
-- definition needs fuel: each loop of the code goes over a list, or counts down from a length or a
-- count that it has read.
--
-- Memory is taken to have room for what a run allocates: neither the reservations of
-- `Vec::with_capacity` when an instruction is decoded, which a large count can make larger than the
-- 32 KiB heap, nor the pushes to a `Vec` are modelled, and a run that finds no memory is no outcome of
-- the model. Sdk.Heap models the allocator alone.
--
-- Not modelled: the syscall bindings, logging, cross-program invocation, the client's side
-- (arch/common but for its transactions, arch/bip322, arch/testutils), the test programs and
-- the tests, and the Solidity contracts.
pub mod Base
pub mod Types
pub mod Constants
pub mod Codec
pub mod External
pub mod State
pub mod Sdk
pub mod Contract
