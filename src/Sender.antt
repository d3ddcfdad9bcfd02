-- ===== src/Sender.antt =====
-- crates/erc20_payment_lib/src/sender.
pub mod Fees
pub mod Settle
pub mod Setup
pub mod Batching
pub mod Process
pub mod Allowance
pub mod Service
pub mod Loop
