-- ===== src/U256.antt =====
-- Arithmetic of the `U256` type of `ethereum_types`, as its documentation has it: `+`, `-` and
-- `*` panic when the result leaves the type, `/` panics on zero, `as_u64` on a value above a u64.
use erc20_payment_lib.Prelude.{
  ℕ, ◌+◌, ◌-◌, ◌*◌, ◌/◌, ◌^◌, ◌≤◌, ◌<◌, ◌≡◌, ltb, leb, ◌==◌, if◌then◌else◌, ok, panic, arith,
}
use erc20_payment_lib.Error.{Result}
use erc20_payment_lib.Text.{u256_mod}

unfoldable pub checked : ℕ → Result ℕ
checked n = if ltb n u256_mod then ok n else panic

unfoldable pub add_u256 : ℕ → ℕ → Result ℕ
add_u256 a b = checked (a + b)

unfoldable pub sub_u256 : ℕ → ℕ → Result ℕ
sub_u256 a b = if leb b a then ok (a - b) else panic

unfoldable pub mul_u256 : ℕ → ℕ → Result ℕ
mul_u256 a b = checked (a * b)

unfoldable pub div_u256 : ℕ → ℕ → Result ℕ
div_u256 a b = if b == 0 then panic else ok (a / b)

unfoldable pub as_u64 : ℕ → Result ℕ
as_u64 n = if ltb n (2 ^ 64) then ok n else panic

pub checked-eq_ok : (n : ℕ) → n < u256_mod → checked n ≡ ok n
unfolding checked
checked-eq_ok n h = ground arith

pub add_u256-eq_ok : (a b : ℕ) → a + b < u256_mod → add_u256 a b ≡ ok (a + b)
unfolding add_u256
add_u256-eq_ok a b h = checked-eq_ok (a + b) h

pub sub_u256-eq_ok : (a b : ℕ) → b ≤ a → sub_u256 a b ≡ ok (a - b)
unfolding sub_u256
sub_u256-eq_ok a b h = ground arith

pub mul_u256-eq_ok : (a b : ℕ) → a * b < u256_mod → mul_u256 a b ≡ ok (a * b)
unfolding mul_u256
mul_u256-eq_ok a b h = checked-eq_ok (a * b) h

pub div_u256-eq_ok : (a b : ℕ) → 0 < b → div_u256 a b ≡ ok (a / b)
unfolding div_u256
div_u256-eq_ok a b h = ground arith

pub as_u64-eq_ok : (n : ℕ) → n < 2 ^ 64 → as_u64 n ≡ ok n
unfolding as_u64
as_u64-eq_ok n h = ground arith
