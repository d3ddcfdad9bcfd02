-- ===== src/Sender/Process.antt =====
-- `process_transaction` of crates/erc20_payment_lib/src/sender/process.rs: one transaction is
-- given a nonce and fees, checked, signed and sent; then, in rounds, its receipt is looked for and
-- it is replaced, sent again, or left for later.
pub mod Outside
pub mod Nonce
pub mod Start
pub mod Receipts
pub mod CleanUp
pub mod Replace
pub mod Wait
pub mod Round
pub mod Chain
pub mod Origin
pub mod Redirect
pub mod Cleaned
pub mod Bumps
pub mod Stall
pub mod Confirms
pub mod Eco
pub mod Funds
pub mod Numbering
