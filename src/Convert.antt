-- ===== src/Convert.antt =====
-- Between `U256` and `Decimal`: crates/erc20_payment_lib_common/src/utils.rs. A `Decimal` of the
-- crate `rust_decimal` is a sign, a 96-bit mantissa and a scale. To divide by a power of ten and
-- to multiply by one keeps every digit, or overflows, as that crate documents.
mod Amounts
pub mod Exact
unfoldable pub use Amounts.*
