-- ===== src/Convert/Exact.antt =====
-- When a decimal becomes an amount, and which.
use erc20_payment_lib.Prelude.{
  ℕ, zero, suc, ◌+◌, ◌-◌, ◌*◌, ◌/◌, ◌%◌, ◌^◌, ◌≤◌, ◌<◌, ◌≡◌, true, not, ok, arith, leb, ltb, ◌==◌,
  ◌&&◌, >>=-eq-ok, fail_if-eq_ok, inl, inr, Bool-cases, refl, subst, false,
}
use erc20_payment_lib.Convert.Amounts.{
  Decimal, max_mantissa, rust_dec_to_u256_strict, scale_up, compute_base, zeros, base_places,
}

pow_pos : (k : ℕ) → 0 < 10 ^ k
pow_pos zero = omega arith
pow_pos (suc k) =
    let rest = pow_pos k in let step : 10 * 10 ^ k ≡ 10 ^ suc k = omega arith in omega (arith, rest)

scaled_pos : (m k : ℕ) → 0 < m → 0 < m * 10 ^ k
scaled_pos m k h = let p = pow_pos k in grind (arith, p)

pow_add : (a b : ℕ) → 10 ^ (a + b) ≡ 10 ^ a * 10 ^ b
pow_add zero b = let e : 0 + b ≡ b = omega arith in rw e (omega arith)
pow_add (suc a) b =
    let step : 10 * 10 ^ a ≡ 10 ^ suc a = omega arith in
    let step' : 10 * 10 ^ (a + b) ≡ 10 ^ suc (a + b) = omega arith in
    let e : suc a + b ≡ suc (a + b) = omega arith in
    rw (e, ← step', pow_add a b, ← step) (grind arith)

assoc : (a b c : ℕ) → a * (b * c) ≡ a * b * c
assoc a b c = grind arith

up_exact : (m s d : ℕ) → s ≤ d → m * 10 ^ (d - s) * 10 ^ s ≡ m * 10 ^ d
up_exact m s d h =
    let e : 10 ^ (d - s + s) ≡ 10 ^ (d - s) * 10 ^ s = pow_add (d - s) s in
    let e' : d - s + s ≡ d = omega arith in
    let f : 10 ^ d ≡ 10 ^ (d - s) * 10 ^ s = rw e' at e in rw f (grind arith)

whole_back : (m b : ℕ) → m % b ≡ 0 → m / b * b ≡ m
whole_back m b h = omega arith

down_exact : (m s d : ℕ) → d ≤ s → m % 10 ^ (s - d) ≡ 0 → m / 10 ^ (s - d) * 10 ^ s ≡ m * 10 ^ d
down_exact m s d h whole =
    let b = 10 ^ (s - d) in
    let back : m / b * b ≡ m = whole_back m b whole in
    let e : 10 ^ (s - d + d) ≡ b * 10 ^ d = pow_add (s - d) d in
    let e' : s - d + d ≡ s = omega arith in
    let f : 10 ^ s ≡ b * 10 ^ d = rw e' at e in rw (f, assoc (m / b) b (10 ^ d), back)

pub scale_up_exact :
    (d : Decimal) (decimals : ℕ) {n : ℕ}
    → scale_up d decimals ≡ ok n
    → n * 10 ^ d.scale ≡ d.mantissa * 10 ^ decimals
unfolding scale_up
scale_up_exact d decimals {n} h = elim (Bool-cases (leb d.scale decimals)) [
  | inl up ↦ elim (Bool-cases (leb max_mantissa (d.mantissa * 10 ^ (decimals - d.scale)))) [
    | inl big ↦ let bad = rw (up, big) at h in cc
    | inr small ↦
        let same = rw (up, small) at h in
        let e : d.mantissa * 10 ^ (decimals - d.scale) ≡ n = cc in
        rw (← e) (up_exact d.mantissa d.scale decimals (ground arith))
  ]
  | inr down ↦ elim (Bool-cases (d.mantissa % 10 ^ (d.scale - decimals) == 0)) [
    | inr rest ↦ let bad = rw (down, rest) at h in cc
    | inl whole ↦
        let same = rw (down, whole) at h in
        let e : d.mantissa / 10 ^ (d.scale - decimals) ≡ n = cc in
        rw (← e) (down_exact d.mantissa d.scale decimals (ground arith) (ground arith))
  ]
]

compute_base-eq : (n : ℕ) → compute_base n ≡ 10 ^ n
unfolding compute_base
compute_base-eq n = elim (Bool-cases (n == 18)) [
  | inl e ↦ let same : n ≡ 18 = ground arith in rw same refl
  | inr e ↦ elim (Bool-cases (n == 6)) [
    | inl f ↦ let same : n ≡ 6 = ground arith in rw same refl
    | inr f ↦ rw (e, f) refl
  ]
]

zeros-pow : (fuel k : ℕ) → k < fuel → zeros fuel (10 ^ k) ≡ k
unfolding zeros
zeros-pow zero k h = absurd (omega arith)
zeros-pow (suc fuel) zero h = refl
zeros-pow (suc fuel) (suc k) h =
    let step : 10 ^ suc k ≡ 10 * 10 ^ k = omega arith in
    let whole : (10 * 10 ^ k % 10 == 0) ≡ true = ground arith in
    let back : 10 * 10 ^ k / 10 ≡ 10 ^ k = omega arith in
    rw (step, whole, back, zeros-pow fuel k (omega arith))

pub base_places-eq : (decimals : ℕ) → decimals ≤ 18 → base_places decimals ≡ decimals
unfolding base_places
base_places-eq decimals h = rw (compute_base-eq decimals) (zeros-pow 19 decimals (omega arith))

no_sign_zero : (n : ℕ) → (true && not (n == 0)) ≡ false → n ≡ 0
no_sign_zero n h = ground arith

at_most : (m n : ℕ) → ltb m n ≡ false → n ≤ m
at_most m n h = ground arith

-- Where a decimal becomes an amount, both are the same number: the amount, times ten to the
-- decimal's scale, is the decimal's mantissa, times ten to the number of decimals. The number of
-- decimals is then at most 18, and the amount of a decimal with the sign of a number below zero
-- is zero.
pub rust_dec_to_u256_strict_exact :
    (d : Decimal) (decimals amount : ℕ)
    → rust_dec_to_u256_strict d decimals ≡ ok amount
    → (amount * 10 ^ d.scale ≡ d.mantissa * 10 ^ decimals)
      × (decimals ≤ 18)
      × (d.is_negative ≡ true → amount ≡ 0)
unfolding rust_dec_to_u256_strict
rust_dec_to_u256_strict_exact d decimals amount h =
    let (few, h1) = fail_if-eq_ok (ltb 18 decimals) _ _ h in
    let places : base_places decimals ≡ decimals =
      base_places-eq decimals (at_most 18 decimals few) in
    let (n, scaled', h2) = >>=-eq-ok (scale_up d (base_places decimals)) _ h1 in
    let scaled : scale_up d decimals ≡ ok n = subst (λ k. scale_up d k ≡ ok n) places scaled' in
    let exact = scale_up_exact d decimals scaled in
    elim (Bool-cases (d.is_negative && not (n == 0))) [
      | inl bad_sign ↦ let bad = rw bad_sign at h2 in cc
      | inr fine ↦
          let same = rw fine at h2 in
          let e : n ≡ amount = cc in
          let no_sign : d.is_negative ≡ true → n ≡ 0 = λ neg. no_sign_zero n (rw neg at fine) in
          rw (← e) (exact, at_most 18 decimals few, no_sign)
    ]
