-- ===== src/Sender/Loop.antt =====
-- The times of the sender's loops: crates/erc20_payment_lib/src/sender/service.rs.
pub mod Gather
pub mod Backoff
pub mod Deadlines
pub mod Turn
pub mod Finish
