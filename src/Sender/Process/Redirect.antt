-- ===== src/Sender/Process/Redirect.antt =====
-- Where the payments of the original of a chain go: `remap_tx`.
use erc20_payment_lib.Prelude.{
  ℕ, ◌≡◌, refl, List, [], ◌∷◌, map, Option, none, some, ◌==◌, arith, Bool-cases, inl, inr,
  if◌then◌else◌, subst, sym, ap,
}
use erc20_payment_lib.Db.{
  Db, TokenTransferDbObj, AllowanceDbObj, opt_is, update_where, remap_allowance_tx,
  remap_token_transfer_tx,
}
use erc20_payment_lib.Sender.Process.CleanUp.{remap_tx}

-- A column that named `old` names `new`.
abbrev pub redirect : ℕ → ℕ → Option ℕ → Option ℕ
redirect old new none = none
redirect old new (some id) = if id == old then some new else some id

redirect-same : (id : ℕ) (x : Option ℕ) → redirect id id x ≡ x
redirect-same id none = refl
redirect-same id (some n) = elim (Bool-cases (n == id)) [
  | inl e ↦ let same : n ≡ id = ground arith in rw e (ap (λ m. some m) (sym same))
  | inr e ↦ rw e
]

module _ {A : Type 0} (tx_id : A → Option ℕ) (set : Option ℕ → A → A)
    (set_own : (a : A) → set (tx_id a) a ≡ a) (old new : ℕ) where
  redirected_row :
      (x : Option ℕ) (a : A)
      → set x a ≡ a
      → (if opt_is x old then set (some new) a else a) ≡ set (redirect old new x) a
  redirected_row none a h = sym h
  redirected_row (some n) a h = elim (Bool-cases (n == old)) [
    | inl e ↦ rw e refl
    | inr e ↦ rw e (sym h)
  ]

  redirected :
      (rows : List A)
      → update_where (λ a. opt_is (tx_id a) old) (set (some new)) rows
        ≡ map (λ a. set (redirect old new (tx_id a)) a) rows
  unfolding update_where
  redirected [] = refl
  redirected (a ∷ rows) = rw (redirected_row (tx_id a) a (set_own a), redirected rows)

  unchanged :
      old ≡ new → (rows : List A) → rows ≡ map (λ a. set (redirect old new (tx_id a)) a) rows
  unchanged same [] = refl
  unchanged same (a ∷ rows) =
      let own : redirect old new (tx_id a) ≡ tx_id a =
        subst (λ n. redirect old n (tx_id a) ≡ tx_id a) same (redirect-same old (tx_id a)) in
      rw (own, set_own a, ← unchanged same rows)

abbrev pub moved_transfer : ℕ → ℕ → TokenTransferDbObj → TokenTransferDbObj
moved_transfer old new t = record t { tx_id = redirect old new t.tx_id }

abbrev pub moved_allowance : ℕ → ℕ → AllowanceDbObj → AllowanceDbObj
moved_allowance old new a = record a { tx_id = redirect old new a.tx_id }

-- The transfers and allowances of `before` that named `old` name `new` in `after`.
pub record IsMoved (old new : ℕ) (before after : Db) : Type 0 where
  pub transfers : after.token_transfers ≡ map (moved_transfer old new) before.token_transfers
  pub allowances : after.allowances ≡ map (moved_allowance old new) before.allowances

pub remap_tx-IsMoved : (old new : ℕ) (db : Db) → IsMoved old new db (remap_tx old new db)
unfolding remap_tx remap_token_transfer_tx remap_allowance_tx
remap_tx-IsMoved old new db = elim (Bool-cases (old == new)) [
  | inl e ↦
      let same : old ≡ new = ground arith in
      rw e (record {
        transfers =
            unchanged (λ (t : TokenTransferDbObj). t.tx_id) (λ x t. record t { tx_id = x })
              (λ t. refl) old new same db.token_transfers;
        allowances =
            unchanged (λ (a : AllowanceDbObj). a.tx_id) (λ x a. record a { tx_id = x }) (λ a. refl)
              old new same db.allowances;
      })
  | inr e ↦ rw e (record {
    transfers =
        redirected (λ (t : TokenTransferDbObj). t.tx_id) (λ x t. record t { tx_id = x }) (λ t. refl)
          old new db.token_transfers;
    allowances =
        redirected (λ (a : AllowanceDbObj). a.tx_id) (λ x a. record a { tx_id = x }) (λ a. refl) old
          new db.allowances;
  })
]
