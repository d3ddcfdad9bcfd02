-- ===== src/Tests.antt =====
-- Concrete data, and the theorems applied to it.
mod Codec
mod Sender
mod Batching
mod Runtime
mod Pool
pub use Codec.*
mod Process
mod Operations
