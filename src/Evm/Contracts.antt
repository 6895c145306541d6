-- ===== src/Evm/Contracts.antt =====
-- modules/evm/src/lib.rs: the accounts of the EVM, their contracts and the code that contracts share.
pub mod Storage
pub mod Code
pub mod Calls
pub mod Laws
pub mod Shared
pub mod Counts
pub mod Counted
pub mod SetCode
pub mod Keeping
pub mod CallsKeep
pub mod Alone
pub mod Removal
pub mod StepsKeep
pub mod History
mod Tests
