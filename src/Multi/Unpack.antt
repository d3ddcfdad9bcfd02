-- ===== src/Multi/Unpack.antt =====
-- What the contract reads from the packed transfers (`address` from the first 20 bytes, `uint96`
-- from the last 12), against what was packed.
use erc20_payment_lib.Prelude.{
  ℕ, ◌+◌, ◌^◌, ◌%◌, ◌<◌, ◌≤◌, ◌≡◌, refl, ap, ◌∙◌, List, [], ◌∷◌, map, ok, All, length, ltb, ◌↔◌,
  Bool-cases, inl, inr, take, drop, arith, >>=-eq-ok, false,
}
use erc20_payment_lib.Text.{u256_mod}
use native.Mathlib.Nat.{mod-eq_of_lt}
use erc20_payment_lib.U256.{add_u256, checked, add_u256-eq_ok}
use erc20_payment_lib.Sender.Fees.{sum}
use erc20_payment_lib.Multi.{
  max_value, check_amounts, pack_transfer, pack_all, pack_transfers_for_multi_contract,
}
use erc20_payment_lib.Multi.Bytes.{
  to_big_endian, from_bytes, from_bytes-to_big_endian, length-to_big_endian, take-append_length,
  drop-append_length, drop-to_big_endian,
}

unfoldable pub unpack : List ℕ → ℕ × ℕ
unpack bytes = (from_bytes 0 (take 20 bytes), from_bytes 0 (drop 20 bytes))

abbrev pub pairs : List ℕ → List ℕ → List (ℕ × ℕ)
pairs (r ∷ rs) (a ∷ as') = (r, a) ∷ pairs rs as'
pairs _ _ = []

leb-not_ltb : (m a : ℕ) → a ≤ m → ltb m a ≡ false
leb-not_ltb m a h = ground arith

low_bytes_max : from_bytes 0 (to_big_endian 12 max_value) ≡ 0
unfolding from_bytes to_big_endian
low_bytes_max = refl

low_bytes : (a : ℕ) → a ≤ max_value → from_bytes 0 (to_big_endian 12 a) ≡ a % max_value
low_bytes a h = elim (Bool-cases (ltb a max_value)) [
  | inl small ↦ from_bytes-to_big_endian 12 a (ground arith) ∙ ground arith
  | inr large ↦ let e : a ≡ max_value = ground arith in rw e low_bytes_max
]

-- One packed transfer: the contract reads the receiver, and the amount modulo 2^96.
unpack-pack_transfer :
    (r a : ℕ) → r < 2 ^ 160 → a ≤ max_value → unpack (pack_transfer r a) ≡ (r, a % max_value)
unfolding unpack pack_transfer
unpack-pack_transfer r a hr ha =
    let front = to_big_endian 20 r in
    let back = drop 20 (to_big_endian 32 a) in
    let len : length front ≡ 20 = length-to_big_endian 20 r in
    rw (
      take-append_length 20 front back len,
      drop-append_length 20 front back len,
      drop-to_big_endian 32 12 20 a (omega arith),
      low_bytes a ha,
      from_bytes-to_big_endian 20 r hr,
    )

unpack-pack_all :
    (rs amounts : List ℕ)
    → All (λ r. r < 2 ^ 160) rs
    → All (λ a. a ≤ max_value) amounts
    → map unpack (pack_all rs amounts) ≡ pairs rs (map (λ a. a % max_value) amounts)
unfolding pack_all
unpack-pack_all [] [] hr ha = refl
unpack-pack_all [] (a ∷ amounts) hr ha = refl
unpack-pack_all (r ∷ rs) [] hr ha = refl
unpack-pack_all (r ∷ rs) (a ∷ amounts) hr ha =
    rw (unpack-pack_transfer r a hr.0 ha.0, unpack-pack_all rs amounts hr.1 ha.1)

check_amounts-eq_ok :
    (t : ℕ) (amounts : List ℕ) (s : ℕ)
    → check_amounts t amounts ≡ ok s
    → All (λ a. a ≤ max_value) amounts × (s ≡ t + sum amounts)
unfolding check_amounts add_u256 checked
check_amounts-eq_ok t [] s h = (tt, ground arith)
check_amounts-eq_ok t (a ∷ amounts) s h = ground (arith, check_amounts-eq_ok (t + a) amounts s)

check_amounts_run :
    (t : ℕ) (amounts : List ℕ)
    → All (λ a. a ≤ max_value) amounts
    → t + sum amounts < u256_mod
    → check_amounts t amounts ≡ ok (t + sum amounts)
unfolding check_amounts
check_amounts_run t [] h b = ground arith
check_amounts_run t (a ∷ amounts) h b =
    rw (leb-not_ltb max_value a h.0, add_u256-eq_ok t a (omega arith))
      (check_amounts_run (t + a) amounts h.1 (omega arith) ∙ ground arith)

check_amounts-fits :
    (t : ℕ) (amounts : List ℕ) (s : ℕ)
    → t < u256_mod
    → check_amounts t amounts ≡ ok s
    → s < u256_mod
unfolding check_amounts add_u256 checked
check_amounts-fits t [] s b h = ground arith
check_amounts-fits t (a ∷ amounts) s b h = ground (arith, check_amounts-fits (t + a) amounts s)

-- The packing of receivers (which are addresses) with amounts succeeds, and returns the sum of the
-- amounts, exactly if no amount is above 2^96 and the sum is a U256; and what it packs is then read
-- by the contract as each receiver with its amount modulo 2^96. (So an amount of 2^96 is
-- accepted, and read back as 0.)
pub unpack-pack :
    (rs amounts : List ℕ)
    → All (λ r. r < 2 ^ 160) rs
    → (All (λ a. a ≤ max_value) amounts × (sum amounts < u256_mod)) ↔ (
        (packed : List (List ℕ)) × (pack_transfers_for_multi_contract rs amounts
          ≡ ok (packed, sum amounts))
        × (map unpack packed ≡ pairs rs (map (λ a. a % max_value) amounts)))
unfolding pack_transfers_for_multi_contract
unpack-pack rs amounts hr = (
  (λ (small, fits). (
    pack_all rs amounts,
    rw (check_amounts_run 0 amounts small (omega (arith, fits))) (ground arith),
    unpack-pack_all rs amounts hr small,
  )),
  (λ (packed, h, _).
      let (s, checks, e) = >>=-eq-ok (check_amounts 0 amounts) _ h in
      let (small, total) = check_amounts-eq_ok 0 amounts s checks in
      let fits = check_amounts-fits 0 amounts s (omega arith) checks in
      (small, omega (arith, total, fits))),
)

All-le_of_lt : (m : ℕ) (amounts : List ℕ) → All (λ a. a < m) amounts → All (λ a. a ≤ m) amounts
All-le_of_lt m [] h = tt
All-le_of_lt m (a ∷ amounts) h = (omega arith, All-le_of_lt m amounts h.1)

map-mod_self :
    (m : ℕ) (amounts : List ℕ) → All (λ a. a < m) amounts → map (λ a. a % m) amounts ≡ amounts
map-mod_self m [] h = refl
map-mod_self m (a ∷ amounts) h = rw (mod-eq_of_lt h.0, map-mod_self m amounts h.1)

-- Receivers (which are addresses) with amounts below 2^96, whose sum is a U256, are packed
-- without loss: the packing succeeds, returns the sum of the amounts, and the contract reads back
-- exactly the receivers with their amounts.
pub pack_roundtrip :
    (rs amounts : List ℕ)
    → All (λ r. r < 2 ^ 160) rs
    → All (λ a. a < max_value) amounts
    → sum amounts < u256_mod
    → (packed : List (List ℕ)) × (pack_transfers_for_multi_contract rs amounts
        ≡ ok (packed, sum amounts))
      × (map unpack packed ≡ pairs rs amounts)
unfolding pack_transfers_for_multi_contract
pack_roundtrip rs amounts hr ha b =
    let small = All-le_of_lt max_value amounts ha in
    (
      pack_all rs amounts,
      rw (check_amounts_run 0 amounts small (omega arith)) (ground arith),
      unpack-pack_all rs amounts hr small ∙ ap (pairs rs) (map-mod_self max_value amounts ha),
    )
