-- ===== src/Evm/Bridge.antt =====
-- modules/evm-bridge/src/lib.rs: calls of ERC20 contracts from other modules.
pub mod Abi
pub mod Erc20
pub mod Laws
mod Tests
