-- ===== src/Runtime.antt =====
-- crates/erc20_payment_lib/src/runtime.rs.
pub mod Status
pub mod Unpaid
pub mod Remove
pub mod Deposits
pub mod Transfers
pub mod Verify
pub mod Removal
pub mod Closing
pub mod Refusals
pub mod Payments
