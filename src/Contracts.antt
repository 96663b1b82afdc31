-- ===== src/Contracts.antt =====
-- The contracts of contracts/: data as records and enums, the validators that
-- they declare, and the JSON values that they carry.
pub mod Check
pub mod Catalog
pub mod Snapshot
pub mod Json
