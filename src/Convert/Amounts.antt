-- ===== src/Convert/Amounts.antt =====
-- The conversions of crates/erc20_payment_lib_common/src/utils.rs.
use erc20_payment_lib.Prelude.{
  ℕ, zero, suc, ◌-◌, ◌*◌, ◌/◌, ◌%◌, ◌^◌, Bool, false, not, ◌&&◌, String, ltb, leb, ◌==◌,
  if◌then◌else◌, ok, err, ok_or, ◌>>=◌, ◌>>◌, fail_if,
}
use erc20_payment_lib.Error.{Result, conversion_error}
use erc20_payment_lib.Text.{Codec}

-- The number `mantissa / 10 ^ scale`, less than zero where `is_negative`.
pub record Decimal : Type 0 where
  pub is_negative : Bool
  pub mantissa : ℕ
  pub scale : ℕ

-- `79228162514264337593543950336`, the first mantissa that does not fit.
abbrev pub max_mantissa : ℕ
max_mantissa = 2 ^ 96

unfoldable pub compute_base : ℕ → ℕ
compute_base num_decimals =
    if num_decimals == 18
    then 1_000_000_000_000_000_000
    else if num_decimals == 6
    then 1_000_000
    else 10 ^ num_decimals

-- The zeros that a number ends in, of at most `fuel`: for a power of ten, its exponent.
unfoldable pub zeros : ℕ → ℕ → ℕ
zeros zero n = 0
zeros (suc fuel) n = let rest = zeros fuel (n / 10) in if n % 10 == 0 then suc rest else 0

-- By how many places a product with the base, or a quotient by it, moves the point.
unfoldable pub base_places : ℕ → ℕ
unfolding compute_base zeros
base_places decimals = zeros 19 (compute_base decimals)

-- `dec_amount.checked_mul` with a base of `decimals` places, then the test of the fraction.
unfoldable pub scale_up : Decimal → ℕ → Result ℕ
scale_up d decimals =
    if leb d.scale decimals
    then (let n = d.mantissa * 10 ^ (decimals - d.scale) in
        if leb max_mantissa n then err conversion_error else ok n)
    else (let base = 10 ^ (d.scale - decimals) in
        if d.mantissa % base == 0 then ok (d.mantissa / base) else err conversion_error)

-- `to_u128` fails on a number below zero.
unfoldable pub rust_dec_to_u256_strict : Decimal → ℕ → Result ℕ
unfolding scale_up base_places
rust_dec_to_u256_strict d decimals =
    fail_if (ltb 18 decimals) conversion_error
    >> (scale_up d (base_places decimals) >>= λ n.
        if d.is_negative && not (n == 0) then err conversion_error else ok n)

-- `Decimal::from(amount) / compute_base(decimals)`, which keeps every digit.
unfoldable pub u256_to_rust_dec : ℕ → ℕ → Result Decimal
unfolding base_places
u256_to_rust_dec amount decimals =
    fail_if (ltb 18 decimals) conversion_error
    >> (fail_if (leb max_mantissa amount) conversion_error
        >> ok (record { is_negative = false; mantissa = amount; scale = base_places decimals }))

unfoldable pub to_u256_from_gwei : Decimal → Result ℕ
to_u256_from_gwei d = rust_dec_to_u256_strict d 9

unfoldable pub to_u256_from_eth : Decimal → Result ℕ
to_u256_from_eth d = rust_dec_to_u256_strict d 18

-- `to_gwei` and `to_eth`, as the number of wei.
unfoldable pub to_gwei : ℕ → Result ℕ
to_gwei amount = u256_to_rust_dec amount 9 >>= λ d. ok d.mantissa

unfoldable pub to_eth : ℕ → Result ℕ
to_eth amount = u256_to_rust_dec amount 18 >>= λ d. ok d.mantissa

-- `to_u256` of a `String`, and `to_gwei` of one.
unfoldable pub to_u256 : Codec → String → Result ℕ
to_u256 c s = ok_or (c.from_dec_str s) conversion_error

unfoldable pub str_to_gwei : Codec → String → Result ℕ
unfolding to_u256
str_to_gwei c s = to_u256 c s >>= to_gwei
