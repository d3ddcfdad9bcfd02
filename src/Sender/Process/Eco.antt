-- ===== src/Sender/Process/Eco.antt =====
-- The eco mode with an extra gas price below zero.
use erc20_payment_lib.Prelude.{
  ℕ, ◌*◌, ◌^◌, ◌<◌, ◌≡◌, true, false, ok, err, arith, leb, ◌==◌, inl, inr, Bool-cases, ◌⊎◌, ◌%◌,
  ◌/◌, ◌-◌,
}
use erc20_payment_lib.Error.{conversion_error}
use erc20_payment_lib.Convert.{
  Decimal, scale_up, rust_dec_to_u256_strict, to_u256_from_gwei, max_mantissa,
}
use erc20_payment_lib.Convert.Exact.{scale_up_exact}
use erc20_payment_lib.Sender.Process.Nonce.{eco_target}

scale_up-cases :
    (d : Decimal) (decimals : ℕ)
    → ((n : ℕ) × (scale_up d decimals ≡ ok n)) ⊎ (scale_up d decimals ≡ err conversion_error)
unfolding scale_up
scale_up-cases d decimals = elim (Bool-cases (leb d.scale decimals)) [
  | inl up ↦ elim (Bool-cases (leb max_mantissa (d.mantissa * 10 ^ (decimals - d.scale)))) [
    | inl big ↦ inr (rw (up, big))
    | inr small ↦ inl (d.mantissa * 10 ^ (decimals - d.scale), rw (up, small))
  ]
  | inr down ↦ elim (Bool-cases (d.mantissa % 10 ^ (d.scale - decimals) == 0)) [
    | inl whole ↦ inl (d.mantissa / 10 ^ (d.scale - decimals), rw (down, whole))
    | inr rest ↦ inr (rw (down, rest))
  ]
]

-- Let the extra gas price be below zero. Then the eco mode has no target price, whatever the
-- price of the block: the conversion of the extra gas price fails.
pub eco_target-negative :
    (gas_price : ℕ) (extra_gas : Decimal)
    → extra_gas.is_negative ≡ true
    → 0 < extra_gas.mantissa
    → eco_target gas_price extra_gas ≡ err conversion_error
unfolding eco_target to_u256_from_gwei rust_dec_to_u256_strict
eco_target-negative gas_price d neg pos = elim (scale_up-cases d 9) [
  | inr fails ↦ rw (fails, scale_up)
  | inl (n, scaled) ↦
      let exact = scale_up_exact d 9 scaled in
      let is_pos : (n == 0) ≡ false = ground arith in rw (scaled, neg, is_pos)
]
