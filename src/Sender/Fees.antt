-- ===== src/Sender/Fees.antt =====
-- How the fee of a confirmed transaction is divided among its transfers:
-- crates/erc20_payment_lib/src/sender/service.rs, in `update_token_transfer_result`.
use erc20_payment_lib.Prelude.{
  ℕ, zero, suc, ◌+◌, ◌-◌, ◌*◌, ◌/◌, ◌^◌, ◌≤◌, ◌<◌, ◌≡◌, refl, ap, List, [], ◌∷◌, map, Option, some,
  leb, if◌then◌else◌, ok, panic, or_panic, ◌>>=◌, length, replicate, arith,
}
use erc20_payment_lib.Error.{Result}
use erc20_payment_lib.Text.{u256_mod}
use erc20_payment_lib.U256.{
  add_u256, sub_u256, div_u256, as_u64, add_u256-eq_ok, sub_u256-eq_ok, div_u256-eq_ok,
  as_u64-eq_ok,
}

module _ {ℓ} {A : Type ℓ} where
  -- `for _tt in &token_transfers { fee_left -= val_share; distribute_fee.push(Some(val_share)); }`
  unfoldable pub push_shares : ℕ → ℕ → List A → Result (ℕ × List (Option ℕ))
  push_shares val_share fee_left [] = ok (fee_left, [])
  push_shares val_share fee_left (_ ∷ tts) = sub_u256 fee_left val_share >>= λ left.
      push_shares val_share left tts >>= λ (left', fees). ok (left', some val_share ∷ fees)

-- `distribute_fee.iter_mut().take(fee_left).for_each(…)`
unfoldable pub add_ones : ℕ → List (Option ℕ) → Result (List (Option ℕ))
add_ones zero fees = ok fees
add_ones (suc k) [] = ok []
add_ones (suc k) (item ∷ fees) = or_panic item >>= λ val.
    add_u256 val 1 >>= λ more. add_ones k fees >>= λ rest. ok (some more ∷ rest)

unfoldable pub distribute_fee {ℓ} : {A : Type ℓ} → ℕ → List A → Result (List (Option ℕ))
unfolding push_shares add_ones
distribute_fee val tts = div_u256 val (length tts) >>= λ val_share.
    push_shares val_share val tts >>= λ (left, fees).
    as_u64 left >>= λ fee_left. if leb (length tts) fee_left then panic else add_ones fee_left fees

abbrev pub sum : List ℕ → ℕ
sum [] = 0
sum (x ∷ xs) = x + sum xs

push_shares_lem {ℓ} :
    {A : Type ℓ} (s f : ℕ) (tts : List A)
    → length tts * s ≤ f
    → push_shares s f tts ≡ ok (f - length tts * s, replicate (length tts) (some s))
unfolding push_shares
push_shares_lem s f [] h = ground arith
push_shares_lem s f (t ∷ tts) h =
    rw (sub_u256-eq_ok f s (omega arith), push_shares_lem s (f - s) tts (omega arith))
      (ground arith)

-- The fees as the code leaves them: one more in each of the first `left`.
abbrev pub fee_list : ℕ → ℕ → ℕ → List ℕ
fee_list zero left s = []
fee_list (suc n) zero s = s ∷ fee_list n zero s
fee_list (suc n) (suc left) s = suc s ∷ fee_list n left s

map-fee_list-zero : (n s : ℕ) → map some (fee_list n zero s) ≡ replicate n (some s)
map-fee_list-zero zero s = refl
map-fee_list-zero (suc n) s = ap (◌∷◌ (some s)) (map-fee_list-zero n s)

add_ones_lem :
    (n left s : ℕ)
    → left ≤ n
    → (0 < left → s + 1 < u256_mod)
    → add_ones left (replicate n (some s)) ≡ ok (map some (fee_list n left s))
unfolding add_ones
add_ones_lem zero zero s h b = refl
add_ones_lem (suc n) zero s h b = rw (map-fee_list-zero n s)
add_ones_lem zero (suc left) s h b = absurd (omega arith)
add_ones_lem (suc n) (suc left) s h b =
    rw
      (
        add_u256-eq_ok s 1 (b (omega arith)),
        add_ones_lem n left s (omega arith) (λ _. b (omega arith)),
      )
      (ground arith)

pub sum-fee_list : (n left s : ℕ) → left ≤ n → sum (fee_list n left s) ≡ n * s + left
sum-fee_list zero zero s h = omega arith
sum-fee_list zero (suc left) s h = absurd (omega arith)
sum-fee_list (suc n) zero s h = omega (arith, sum-fee_list n zero s (omega arith))
sum-fee_list (suc n) (suc left) s h = omega (arith, sum-fee_list n left s (omega arith))

pub length-fee_list : (n left s : ℕ) → length (fee_list n left s) ≡ n
length-fee_list zero left s = refl
length-fee_list (suc n) zero s = ap suc (length-fee_list n zero s)
length-fee_list (suc n) (suc left) s = ap suc (length-fee_list n left s)

pub share_fits : (v n : ℕ) → n * (v / n) ≤ v
share_fits v n = omega arith

pub left-lt : (v n : ℕ) → 0 < n → v - n * (v / n) < n
left-lt v n h = omega arith

bump_fits : (v n : ℕ) → 0 < v - n * (v / n) → v / n + 1 ≤ v
bump_fits v zero h = grind arith
bump_fits v (suc n) h = grind arith

pub distribute_fee_run {ℓ} :
    {A : Type ℓ} (val : ℕ) (tts : List A)
    → 0 < length tts
    → length tts ≤ 2 ^ 64
    → val < u256_mod
    → distribute_fee val tts
      ≡ ok (
          map some
            (fee_list (length tts) (val - length tts * (val / length tts)) (val / length tts)))
unfolding distribute_fee
distribute_fee_run val tts pos small fits =
    let n = length tts in
    let left = val - n * (val / n) in
    let under : left < n = left-lt val n pos in
    rw
      (
        div_u256-eq_ok val n pos,
        push_shares_lem (val / n) val tts (share_fits val n),
        as_u64-eq_ok left (omega arith),
        add_ones_lem n left (val / n) (omega arith) (λ h. omega (arith, bump_fits val n h)),
      )
      (ground arith)
