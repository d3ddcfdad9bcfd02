-- ===== src/Sender/Batching.antt =====
-- How transfers become transactions: crates/erc20_payment_lib/src/sender/batching.rs.
mod Keys
pub mod Pre
pub mod Batch
pub mod MultiBatch
pub mod Groups
pub mod Assign
pub mod Post
pub mod Counted
pub mod Refused
pub mod Written
pub mod Returns
unfoldable pub use Keys.*
