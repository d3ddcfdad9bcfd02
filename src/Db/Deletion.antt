-- ===== src/Db/Deletion.antt =====
-- What a look-up finds in the table tx, and what a deletion from it leaves.
use erc20_payment_lib.Prelude.{
  ℕ, ◌≡◌, List, [], ◌∷◌, false, ◌||◌, ok, All, ◌==◌, Bool-cases, inl, inr, arith, ok_or, subst,
}
use erc20_payment_lib.Error.{sqlx_error}
use erc20_payment_lib.Db.Schema.{Db, TxDbObj, TokenTransferDbObj, AllowanceDbObj}
use erc20_payment_lib.Db.Table.{select, delete_where, first}
use erc20_payment_lib.Db.TxOps.{delete_tx, without_tx, names_tx, get_transaction}

pub deleted :
    (id : ℕ) (rows : List TxDbObj)
    → All (λ t. (t.id == id) ≡ false) (delete_where (λ t. t.id == id) rows)
unfolding delete_where select
deleted id [] = tt
deleted id (t ∷ rows) = elim (Bool-cases (t.id == id)) [
  | inl e ↦ rw e (deleted id rows)
  | inr e ↦ rw e (e, deleted id rows)
]

pub stays_deleted :
    (id other : ℕ) (rows : List TxDbObj)
    → All (λ t. (t.id == other) ≡ false) rows
    → All (λ t. (t.id == other) ≡ false) (delete_where (λ t. t.id == id) rows)
unfolding delete_where select
stays_deleted id other [] all = tt
stays_deleted id other (t ∷ rows) (here, rest) = elim (Bool-cases (t.id == id)) [
  | inl e ↦ rw e (stays_deleted id other rows rest)
  | inr e ↦ rw e (here, stays_deleted id other rows rest)
]

-- A deletion that is not refused leaves the other rows.
pub delete_tx-eq_ok :
    (id : ℕ) (db : Db) {db' : Db} → delete_tx id db ≡ ok db' → without_tx id db ≡ db'
unfolding delete_tx
delete_tx-eq_ok id db {db'} h =
    elim (Bool-cases (
      names_tx (λ (t : TokenTransferDbObj). t.tx_id) id db.token_transfers
      || names_tx (λ (a : AllowanceDbObj). a.tx_id) id db.allowances)) [
        | inl e ↦ let bad = rw e at h in cc
        | inr e ↦ let same = rw e at h in cc
      ]

found_id :
    (id : ℕ) (rows : List TxDbObj) {t : TxDbObj}
    → ok_or (first (select (λ r. r.id == id) rows)) sqlx_error ≡ ok t
    → t.id ≡ id
unfolding select
found_id id [] h = cc
found_id id (r ∷ rows) {t} h = elim (Bool-cases (r.id == id)) [
  | inl e ↦
      let h' = rw e at h in
      let same : r ≡ t = cc in
      let is_id : r.id ≡ id = ground arith in subst (λ (s : TxDbObj). s.id ≡ id) same is_id
  | inr e ↦ found_id id rows (rw e at h)
]

pub get_transaction-id : (db : Db) (id : ℕ) {t : TxDbObj} → get_transaction db id ≡ ok t → t.id ≡ id
unfolding get_transaction
get_transaction-id db id h = found_id id db.txs h
