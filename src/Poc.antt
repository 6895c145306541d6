-- ===== src/Poc.antt =====
-- modules/poc/src/lib.rs, the proof of commitment: tokens are locked for a long time and vote for the
-- technical council. `Types` has the storage, `Power` the voting weights and rewards, `Calls` the
-- dispatchable functions and `Election` the block hook; the other children prove.
pub mod Types
pub mod Power
pub mod Calls
pub mod Election
pub mod Tally
pub mod Search
pub mod Ranking
pub mod Winners
pub mod Locked
pub mod Seats
pub mod Runs
pub mod Order
pub mod Weights
pub mod Supply
pub mod Unbonding
pub mod VoterReward
pub mod Eras
pub mod Council
mod Tests
