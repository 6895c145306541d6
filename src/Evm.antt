-- ===== src/Evm.antt =====
-- modules/evm/src: the accounts, contracts and storage deposits of the EVM module.
pub mod Meter
pub mod Deposits
pub mod Accounts
pub mod Contracts
pub mod Execute
pub mod Bridge
mod Tests
