-- ===== src/Sender/Process/Cleaned.antt =====
-- What the clean-up of a chain of replacements leaves: sender/process.rs.
use erc20_payment_lib.Prelude.{
  ℕ, zero, suc, ◌≡◌, refl, List, [], ◌∷◌, false, Option, none, some, ok, err, panic, All, ◌==◌,
  arith, Bool-cases, Option-cases, Outcome-cases, inl, inr, subst, sym, ◌⊎◌, ◌∙◌,
}
use erc20_payment_lib.Error.{Result}
use erc20_payment_lib.Db.{Db, TxDbObj, get_transaction, update_where, without_tx, update_tx}
use erc20_payment_lib.Db.Rows.{
  Has, Has-without, stored, get_transaction-Has, get_transaction-update_tx,
}
use erc20_payment_lib.Db.Deletion.{deleted, stays_deleted, delete_tx-eq_ok}
use erc20_payment_lib.Sender.Process.Chain.{delete_other-keeps, delete_others-step, remap_tx-txs}
use erc20_payment_lib.Sender.Process.Redirect.{IsMoved, remap_tx-IsMoved}
use erc20_payment_lib.Sender.Process.CleanUp.{
  find_orig, delete_other, delete_others, remap_tx, clean_up, clean_up_from, store_cleaned, cleaned,
}

-- A turn of the loop that ends well: its deletion was not refused, and it was the last turn or
-- another one follows.
delete_others-first :
    (fuel current_id : ℕ) (t : TxDbObj) (db : Db) {db' : Db}
    → delete_others (suc fuel) current_id t db ≡ some (ok db')
    → (next : Db) × (delete_other current_id t.id db ≡ ok next)
      × ((next ≡ db')
          ⊎ ((row : TxDbObj) × (delete_others fuel current_id row next ≡ some (ok db'))))
unfolding delete_others
delete_others-first fuel current_id t db {db'} e =
    elim (Outcome-cases (delete_other current_id t.id db)) [
      | inr (inl (error, refused)) ↦ let bad = rw (refused, delete_others) at e in cc
      | inr (inr panics) ↦ let bad = rw (panics, delete_others) at e in cc
      | inl (next, deletes) ↦ elim (Option-cases t.orig_tx_id) [
        | inl alone ↦ let e' = rw (deletes, alone, delete_others) at e in (next, deletes, inl (cc))
        | inr (orig, replaces) ↦ elim (Outcome-cases (get_transaction next orig)) [
          | inl (row, found) ↦ (
            next,
            deletes,
            inr (
              row,
              sym (delete_others-step fuel current_id t row orig db deletes replaces found) ∙ e,
            ),
          )
          | inr (inl (error, failed)) ↦
              let bad = rw (deletes, replaces, failed, delete_others) at e in cc
          | inr (inr panics) ↦ let bad = rw (deletes, replaces, panics, delete_others) at e in cc
        ]
      ]
    ]

-- A predicate that the deletion of another row keeps holds at the end of the loop.
module _ (P : Db → Type 0) (current_id : ℕ)
    (keeps : (id : ℕ) (db : Db) → (id == current_id) ≡ false → P db → P (without_tx id db)) where
  delete_others-keeps :
      (fuel : ℕ) (t : TxDbObj) (db : Db) {db' : Db}
      → P db
      → delete_others fuel current_id t db ≡ some (ok db')
      → P db'
  unfolding delete_others
  delete_others-keeps zero t db h e = cc
  delete_others-keeps (suc fuel) t db h e =
      let (next, deletes, ends) = delete_others-first fuel current_id t db e in
      let h' = delete_other-keeps P current_id keeps t.id db h deletes in
      elim ends [
        | inl same ↦ subst P same h'
        | inr (row, e') ↦ delete_others-keeps fuel row next h' e'
      ]

abbrev HasNot : ℕ → Db → Type 0
HasNot id db = All (λ t. (t.id == id) ≡ false) db.txs

HasNot-without : (id other : ℕ) (db : Db) → HasNot id db → HasNot id (without_tx other db)
HasNot-without id other db h = stays_deleted other id db.txs h

-- The row that the loop starts with is gone, unless it is the confirmed one.
delete_others-HasNot :
    (fuel current_id : ℕ) (t : TxDbObj) (db : Db) {db' : Db}
    → (t.id == current_id) ≡ false
    → delete_others (suc fuel) current_id t db ≡ some (ok db')
    → HasNot t.id db'
delete_others-HasNot fuel current_id t db differ e =
    let (next, deletes, ends) = delete_others-first fuel current_id t db e in
    let deletes' = rw differ at deletes in
    let gone : HasNot t.id next =
      subst (HasNot t.id) (delete_tx-eq_ok t.id db deletes') (deleted t.id db.txs) in
    elim ends [
      | inl same ↦ subst (HasNot t.id) same gone
      | inr (row, e') ↦
          delete_others-keeps (HasNot t.id) current_id (λ id d other. HasNot-without t.id id d) fuel
            row next gone e'
    ]

HasNot-update :
    (id : ℕ) (t : TxDbObj) (db : Db)
    → (t.id == id) ≡ false
    → HasNot id db
    → HasNot id (update_tx t db)
unfolding update_tx update_where
HasNot-update id t db differ h = by_rows db.txs h
  where
    by_rows :
        (rows : List TxDbObj)
        → All (λ r. (r.id == id) ≡ false) rows
        → All
            (λ r. (r.id == id) ≡ false)
            (update_where
              (λ r. r.id == t.id)
              (λ r. record t { engine_message = none; engine_error = none })
              rows)
    by_rows [] h = tt
    by_rows (r ∷ rows) (here, rest) = elim (Bool-cases (r.id == t.id)) [
      | inl e ↦ rw (e, update_where) (differ, by_rows rows rest)
      | inr e ↦ rw (e, update_where) (here, by_rows rows rest)
    ]

swap_false : (m n : ℕ) → (m == n) ≡ false → (n == m) ≡ false
swap_false m n h = ground arith

store_cleaned-parts :
    (current_tx : TxDbObj) (m : Option (Result Db)) {db' : Db}
    → store_cleaned current_tx m ≡ some (ok db')
    → (left : Db) × (m ≡ some (ok left)) × (update_tx (cleaned current_tx) left ≡ db')
store_cleaned-parts current_tx none e = cc
store_cleaned-parts current_tx (some (err error)) e = cc
store_cleaned-parts current_tx (some panic) e = cc
store_cleaned-parts current_tx (some (ok left)) e = (left, refl, cc)

clean_up_from-parts :
    (current_tx web3_tx : TxDbObj) (db : Db) (m : Option (Result TxDbObj)) {db' : Db}
    → clean_up_from current_tx web3_tx db m ≡ some (ok db')
    → (orig_tx : TxDbObj) × (m ≡ some (ok orig_tx))
      × (store_cleaned current_tx (
            delete_others
              (suc web3_tx.id)
              current_tx.id
              web3_tx
              (remap_tx orig_tx.id current_tx.id db))
          ≡ some (ok db'))
unfolding clean_up_from
clean_up_from-parts current_tx web3_tx db none e = cc
clean_up_from-parts current_tx web3_tx db (some (err error)) e = cc
clean_up_from-parts current_tx web3_tx db (some panic) e = cc
clean_up_from-parts current_tx web3_tx db (some (ok orig_tx)) e = (orig_tx, refl, e)

-- The parts of a clean-up that ends well.
clean_up-parts :
    (current_tx web3_tx : TxDbObj) (db : Db) {db' : Db}
    → clean_up current_tx web3_tx db ≡ some (ok db')
    → (orig_tx : TxDbObj) × (left : Db) × (find_orig (suc current_tx.id) db current_tx
        ≡ some (ok orig_tx))
      × (delete_others (suc web3_tx.id) current_tx.id web3_tx (remap_tx orig_tx.id current_tx.id db)
          ≡ some (ok left))
      × (update_tx (cleaned current_tx) left ≡ db')
unfolding clean_up
clean_up-parts current_tx web3_tx db e =
    let (orig_tx, is_orig, e') =
      clean_up_from-parts current_tx web3_tx db (find_orig (suc current_tx.id) db current_tx) e in
    let (left, is_left, same) = store_cleaned-parts current_tx _ e' in
    (orig_tx, left, is_orig, is_left, same)

IsMoved-update :
    (old new : ℕ) (t : TxDbObj) (before after : Db)
    → IsMoved old new before after
    → IsMoved old new before (update_tx t after)
unfolding update_tx
IsMoved-update old new t before after h = record {
  transfers = h.transfers;
  allowances = h.allowances;
}

-- Let the clean-up of a chain of replacements end well, where the processed row is not the
-- confirmed one, and the confirmed one is in the table. Then the processed row is gone; the
-- confirmed one is stored, without the signed data, and as a row that replaces none. The chain of
-- the confirmed row has an original transaction: each transfer and each allowance that named it
-- names the confirmed row instead, and nothing else about transfers and allowances changes.
pub clean_up-IsMoved :
    (current_tx web3_tx row : TxDbObj) (db : Db) {db' : Db}
    → (web3_tx.id == current_tx.id) ≡ false
    → get_transaction db current_tx.id ≡ ok row
    → clean_up current_tx web3_tx db ≡ some (ok db')
    → All (λ (t : TxDbObj). (t.id == web3_tx.id) ≡ false) db'.txs
      × (get_transaction db' current_tx.id ≡ ok (stored (cleaned current_tx)))
      × (orig_tx : TxDbObj) × (find_orig (suc current_tx.id) db current_tx ≡ some (ok orig_tx))
      × IsMoved orig_tx.id current_tx.id db db'
clean_up-IsMoved current_tx web3_tx row db {db'} differ there e =
    let (orig_tx, left, is_orig, is_left, same) = clean_up-parts current_tx web3_tx db e in
    let moved = remap_tx orig_tx.id current_tx.id db in
    let gone =
      HasNot-update web3_tx.id (cleaned current_tx) left (swap_false _ _ differ)
        (delete_others-HasNot web3_tx.id current_tx.id web3_tx moved differ is_left) in
    let has : Has current_tx.id moved.txs =
      subst (Has current_tx.id) (sym (remap_tx-txs orig_tx.id current_tx.id db))
        (get_transaction-Has db current_tx.id there) in
    let has' : Has current_tx.id left.txs =
      delete_others-keeps (λ d. Has current_tx.id d.txs) current_tx.id
        (λ id d other h. Has-without current_tx.id id d.txs other h) (suc web3_tx.id) web3_tx moved
        has is_left in
    let is_moved : IsMoved orig_tx.id current_tx.id db left =
      delete_others-keeps (IsMoved orig_tx.id current_tx.id db) current_tx.id
        (λ id d other h. record { transfers = h.transfers; allowances = h.allowances })
        (suc web3_tx.id) web3_tx moved (remap_tx-IsMoved orig_tx.id current_tx.id db) is_left in
    (
      subst (HasNot web3_tx.id) same gone,
      subst (λ d. get_transaction d current_tx.id ≡ ok (stored (cleaned current_tx))) same
          (get_transaction-update_tx (cleaned current_tx) left has'),
      orig_tx,
      is_orig,
      subst (IsMoved orig_tx.id current_tx.id db) same
          (IsMoved-update orig_tx.id current_tx.id (cleaned current_tx) db left is_moved),
    )
