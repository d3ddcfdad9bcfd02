-- ===== src/Multi/Bytes.antt =====
-- Numbers as big-endian bytes: `to_big_endian` of `U256`, and the bytes of an `Address`.
use erc20_payment_lib.Prelude.{
  ℕ, zero, suc, ◌+◌, ◌*◌, ◌/◌, ◌%◌, ◌^◌, ◌<◌, ◌≤◌, ◌≡◌, refl, ap, ◌∙◌, List, [], ◌∷◌, ◌++◌, length,
  length-append, take, drop, arith,
}
use native.Mathlib.Nat.{pow-suc}

unfoldable pub to_big_endian : ℕ → ℕ → List ℕ
to_big_endian zero x = []
to_big_endian (suc n) x = to_big_endian n (x / 256) ++ (x % 256) ∷ []

unfoldable pub from_bytes : ℕ → List ℕ → ℕ
from_bytes acc [] = acc
from_bytes acc (b ∷ bs) = from_bytes (acc * 256 + b) bs

from_bytes-append :
    (acc : ℕ) (xs : List ℕ) (b : ℕ) → from_bytes acc (xs ++ b ∷ []) ≡ from_bytes acc xs * 256 + b
unfolding from_bytes
from_bytes-append acc [] b = refl
from_bytes-append acc (x ∷ xs) b = from_bytes-append (acc * 256 + x) xs b

-- A number that fits `n` bytes is read back from them.
pub from_bytes-to_big_endian : (n x : ℕ) → x < 256 ^ n → from_bytes 0 (to_big_endian n x) ≡ x
unfolding to_big_endian from_bytes
from_bytes-to_big_endian zero x h = omega arith
from_bytes-to_big_endian (suc n) x h =
    from_bytes-append 0 (to_big_endian n (x / 256)) (x % 256)
    ∙ omega (arith, from_bytes-to_big_endian n (x / 256) (omega (arith, pow-suc 256 n)))

pub length-to_big_endian : (n x : ℕ) → length (to_big_endian n x) ≡ n
unfolding to_big_endian
length-to_big_endian zero x = refl
length-to_big_endian (suc n) x = omega (
  arith,
  length-append (to_big_endian n (x / 256)) ((x % 256) ∷ []),
  length-to_big_endian n (x / 256),
)

module _ {ℓ} {A : Type ℓ} where
  drop-append_le : (k : ℕ) (xs ys : List A) → k ≤ length xs → drop k (xs ++ ys) ≡ drop k xs ++ ys
  drop-append_le zero xs ys h = refl
  drop-append_le (suc k) [] ys h = absurd (omega arith)
  drop-append_le (suc k) (x ∷ xs) ys h = drop-append_le k xs ys (omega arith)

  drop-length : (k : ℕ) (xs : List A) → length xs ≡ k → drop k xs ≡ []
  drop-length zero [] h = refl
  drop-length zero (x ∷ xs) h = absurd (omega arith)
  drop-length (suc k) [] h = refl
  drop-length (suc k) (x ∷ xs) h = drop-length k xs (omega arith)

  pub take-append_length : (k : ℕ) (xs ys : List A) → length xs ≡ k → take k (xs ++ ys) ≡ xs
  take-append_length zero [] ys h = refl
  take-append_length zero (x ∷ xs) ys h = absurd (omega arith)
  take-append_length (suc k) [] ys h = absurd (omega arith)
  take-append_length (suc k) (x ∷ xs) ys h = ap (◌∷◌ x) (take-append_length k xs ys (omega arith))

  pub drop-append_length : (k : ℕ) (xs ys : List A) → length xs ≡ k → drop k (xs ++ ys) ≡ ys
  drop-append_length k xs ys h =
      drop-append_le k xs ys (omega arith) ∙ ap (λ zs. zs ++ ys) (drop-length k xs h)

-- The last `n` of `m` bytes are those of the number in `n` bytes.
pub drop-to_big_endian : (m n k x : ℕ) → m ≡ k + n → drop k (to_big_endian m x) ≡ to_big_endian n x
unfolding to_big_endian
drop-to_big_endian m zero k x h =
    drop-length k (to_big_endian m x) (length-to_big_endian m x ∙ omega arith)
drop-to_big_endian zero (suc n) k x h = absurd (omega arith)
drop-to_big_endian (suc m) (suc n) k x h =
    drop-append_le k (to_big_endian m (x / 256)) ((x % 256) ∷ [])
      (omega (arith, length-to_big_endian m (x / 256)))
    ∙ ap (λ bs. bs ++ (x % 256) ∷ []) (drop-to_big_endian m n k (x / 256) (omega arith))
