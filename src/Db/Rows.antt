-- ===== src/Db/Rows.antt =====
-- A row of the table tx that is there, is kept, and is updated.
use erc20_payment_lib.Prelude.{
  ℕ, ◌≡◌, List, [], ◌∷◌, true, false, none, some, ok, ◌==◌, arith, Bool-cases, inl, inr, ok_or, ◌⊎◌,
}
use erc20_payment_lib.Error.{sqlx_error}
use erc20_payment_lib.Db.Schema.{Db, TxDbObj}
use erc20_payment_lib.Db.Table.{select, update_where, delete_where, first}
use erc20_payment_lib.Db.TxOps.{update_tx, get_transaction}

-- One of the rows has the id.
abbrev pub Has : ℕ → List TxDbObj → Type 0
Has id [] = ⊥
Has id (t ∷ rows) = ((t.id == id) ≡ true) ⊎ Has id rows

found-Has :
    (id : ℕ) (rows : List TxDbObj) {t : TxDbObj}
    → ok_or (first (select (λ r. r.id == id) rows)) sqlx_error ≡ ok t
    → Has id rows
unfolding select
found-Has id [] h = cc
found-Has id (r ∷ rows) h = elim (Bool-cases (r.id == id)) [
  | inl e ↦ inl e
  | inr e ↦ inr (found-Has id rows (rw e at h))
]

pub Has-without :
    (id other : ℕ) (rows : List TxDbObj)
    → (other == id) ≡ false
    → Has id rows
    → Has id (delete_where (λ t. t.id == other) rows)
unfolding delete_where select
Has-without id other [] differ h = h
Has-without id other (t ∷ rows) differ (inl here) =
    let apart : (t.id == other) ≡ false = ground arith in rw apart (inl here)
Has-without id other (t ∷ rows) differ (inr later) = elim (Bool-cases (t.id == other)) [
  | inl e ↦ rw e (Has-without id other rows differ later)
  | inr e ↦ rw e (inr (Has-without id other rows differ later))
]

same_id : (n : ℕ) → (n == n) ≡ true
same_id n = ground arith

-- The row as the table holds it after an update.
abbrev pub stored : TxDbObj → TxDbObj
stored t = record t { engine_message = none; engine_error = none }

updated_found :
    (t : TxDbObj) (rows : List TxDbObj)
    → Has t.id rows
    → first (select (λ r. r.id == t.id) (update_where (λ r. r.id == t.id) (λ r. stored t) rows))
      ≡ some (stored t)
unfolding select update_where
updated_found t [] h = absurd h
updated_found t (r ∷ rows) (inl here) = rw (here, same_id t.id)
updated_found t (r ∷ rows) (inr later) = elim (Bool-cases (r.id == t.id)) [
  | inl e ↦ rw (e, same_id t.id)
  | inr e ↦ rw (e, e) (updated_found t rows later)
]

pub get_transaction-Has :
    (db : Db) (id : ℕ) {t : TxDbObj} → get_transaction db id ≡ ok t → Has id db.txs
unfolding get_transaction
get_transaction-Has db id h = found-Has id db.txs h

pub get_transaction-update_tx :
    (t : TxDbObj) (db : Db)
    → Has t.id db.txs
    → get_transaction (update_tx t db) t.id ≡ ok (stored t)
unfolding get_transaction update_tx
get_transaction-update_tx t db h = rw (updated_found t db.txs h)
