-- ===== src/Evm/Accounts.antt =====
-- modules/evm-accounts/src/lib.rs: the two-way mapping of accounts and EVM addresses.
pub mod Text
pub mod TextLaws
pub mod Mapping
pub mod Linked
pub mod Claims
pub mod Runs
pub mod Lookups
mod Tests
