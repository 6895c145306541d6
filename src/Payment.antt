-- ===== src/Payment.antt =====
-- modules/transaction_payment/src/lib.rs: the fees of transactions.
pub mod Fees
pub mod FeeLaws
pub mod Adjustment
pub mod Charging
pub mod Settlement
pub mod ChargingLaws
pub mod Reserved
mod Samples
mod Tests
