-- ===== src/Currencies.antt =====
-- modules/currencies/src/lib.rs, and the currency ids of primitives/src/lib.rs.
pub mod Ids
pub mod Interfaces
pub mod Dispatch
pub mod Reserves
pub mod Adapter
pub mod Moves
pub mod Repatriation
mod Samples
mod Tests
