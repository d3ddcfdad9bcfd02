-- ===== src/Db.antt =====
-- The SQLite database: crates/erc20_payment_lib_common/src/db. The three tables that the sender
-- works on, and the statements that the code runs on them.
mod Schema
mod Table
mod TxOps
mod TransferOps
mod AllowanceOps
pub mod Deletion
pub mod Rows
pub mod Ordered
pub use Schema.*
unfoldable pub use Table.*
unfoldable pub use TxOps.*
unfoldable pub use TransferOps.*
unfoldable pub use AllowanceOps.*
