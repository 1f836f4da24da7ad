-- ===== src/Codec/Account.antt =====
-- `Codable` for the state of accounts and for events: serialization.rs. These `encode`s can fail.
pub mod Read
pub mod Write
pub mod Event
