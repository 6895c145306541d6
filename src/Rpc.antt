-- ===== src/Rpc.antt =====
-- modules/evm/rpc/src/lib.rs: the calls and the estimates that a node answers.
pub mod Requests
pub mod Revert
pub mod Search
pub mod SearchEnds
pub mod SearchFinds
mod Tests
