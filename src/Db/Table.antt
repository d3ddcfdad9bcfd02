-- ===== src/Db/Table.antt =====
-- What the SQL statements do to a table, as a list of rows: SELECT … WHERE, UPDATE … WHERE,
-- DELETE … WHERE, and ORDER BY.
use erc20_payment_lib.Prelude.{
  ℕ, Bool, true, false, not, List, [], ◌∷◌, Option, none, some, ◌==◌, if◌then◌else◌, max,
}

module _ {ℓ} {A : Type ℓ} where
  unfoldable pub select : (A → Bool) → List A → List A
  select p [] = []
  select p (x ∷ xs) = if p x then x ∷ select p xs else select p xs

  unfoldable pub update_where : (A → Bool) → (A → A) → List A → List A
  update_where p f [] = []
  update_where p f (x ∷ xs) = (if p x then f x else x) ∷ update_where p f xs

  unfoldable pub delete_where : (A → Bool) → List A → List A
  delete_where p = select (λ x. not (p x))

  abbrev pub first : List A → Option A
  first [] = none
  first (x ∷ xs) = some x

  -- Stable insertion into a list ordered by `before`.
  unfoldable pub insert_by : (A → A → Bool) → A → List A → List A
  insert_by before x [] = x ∷ []
  insert_by before x (y ∷ ys) = if before y x then y ∷ insert_by before x ys else x ∷ y ∷ ys

  unfoldable pub order_by : (A → A → Bool) → List A → List A
  unfolding insert_by
  order_by before [] = []
  order_by before (x ∷ xs) = insert_by before x (order_by before xs)

-- `column = $1` where the column may be NULL.
abbrev pub opt_is : Option ℕ → ℕ → Bool
opt_is none n = false
opt_is (some m) n = m == n

abbrev pub is_null {ℓ} : {A : Type ℓ} → Option A → Bool
is_null none = true
is_null (some a) = false

-- `MAX(column)` over the rows where it is not NULL.
abbrev pub opt_max : Option ℕ → Option ℕ → Option ℕ
opt_max none n = n
opt_max (some m) none = some m
opt_max (some m) (some n) = some (max m n)
