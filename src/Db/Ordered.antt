-- ===== src/Db/Ordered.antt =====
-- What holds of all rows holds of them in any order.
use erc20_payment_lib.Prelude.{◌≡◌, List, [], ◌∷◌, Bool, true, All, Bool-cases, inl, inr}
use erc20_payment_lib.Db.Table.{select, insert_by, order_by}

module _ {A : Type 0} where
  pub All-insert :
      (P : A → Type 0) (before : A → A → Bool) (x : A) (ys : List A)
      → P x
      → All P ys
      → All P (insert_by before x ys)
  unfolding insert_by
  All-insert P before x [] h hs = (h, tt)
  All-insert P before x (y ∷ ys) h hs = elim (Bool-cases (before y x)) [
    | inl e ↦ rw e (hs.0, All-insert P before x ys h hs.1)
    | inr e ↦ rw e (h, hs)
  ]

  pub All-order :
      (P : A → Type 0) (before : A → A → Bool) (xs : List A) → All P xs → All P (order_by before xs)
  unfolding order_by
  All-order P before [] h = tt
  All-order P before (x ∷ xs) h =
      All-insert P before x (order_by before xs) h.0 (All-order P before xs h.1)

  -- The rows of a SELECT fulfil its condition.
  pub All-select :
      (P : A → Type 0) (p : A → Bool) (xs : List A)
      → All P xs
      → All (λ x. (p x ≡ true) × P x) (select p xs)
  unfolding select
  All-select P p [] h = tt
  All-select P p (x ∷ xs) h = elim (Bool-cases (p x)) [
    | inl e ↦ rw e ((e, h.0), All-select P p xs h.1)
    | inr e ↦ rw e (All-select P p xs h.1)
  ]
