-- ===== src/RpcPool.antt =====
-- crates/erc20_rpc_pool/src/rpc_pool: the pool of RPC endpoints of one chain.
mod Endpoint
mod Marks
pub mod Verify
pub mod Choose
pub mod Call
pub mod Members
pub mod Resolve
pub mod Invariant
pub mod Lifetime
unfoldable pub use Endpoint.*
unfoldable pub use Marks.*
