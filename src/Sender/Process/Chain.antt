-- ===== src/Sender/Process/Chain.antt =====
-- How long the two loops of the clean-up of a chain run: sender/process.rs.
use erc20_payment_lib.Prelude.{
  ℕ, zero, suc, ◌<◌, ◌≡◌, List, [], ◌∷◌, Bool, false, not, Option, none, some, ok, err, panic, All,
  ◌==◌, arith, Bool-cases, Option-cases, Outcome-cases, inl, inr, ok_or, subst, sym, ◌∙◌,
}
use erc20_payment_lib.Error.{sqlx_error}
use erc20_payment_lib.Db.{
  Db, TxDbObj, get_transaction, select, first, delete_where, without_tx, update_tx,
  remap_allowance_tx, remap_token_transfer_tx,
}
use erc20_payment_lib.Db.Deletion.{delete_tx-eq_ok}
use erc20_payment_lib.Sender.Process.CleanUp.{
  find_orig, delete_other, delete_others, remap_tx, clean_up, clean_up_from, cleaned,
}

-- What the row replaces has a smaller id.
abbrev pub IsNewer : ℕ → Option ℕ → Type 0
IsNewer id none = Unit {0}
IsNewer id (some orig) = orig < id

abbrev pub IsDescending : TxDbObj → Type 0
IsDescending t = IsNewer t.id t.orig_tx_id

select-All :
    (P : TxDbObj → Type 0) (p : TxDbObj → Bool) (rows : List TxDbObj)
    → All P rows
    → All P (select p rows)
unfolding select
select-All P p [] all = tt
select-All P p (t ∷ rows) (here, rest) = elim (Bool-cases (p t)) [
  | inl e ↦ rw e (here, select-All P p rows rest)
  | inr e ↦ rw e (select-All P p rows rest)
]

first_found :
    (P : TxDbObj → Type 0) (id : ℕ) (rows : List TxDbObj) {t : TxDbObj}
    → All P rows
    → ok_or (first (select (λ r. r.id == id) rows)) sqlx_error ≡ ok t
    → (t.id ≡ id) × P t
unfolding select
first_found P id [] all h = cc
first_found P id (r ∷ rows) {t} (here, rest) h = elim (Bool-cases (r.id == id)) [
  | inl e ↦
      let h' = rw e at h in
      let same : r ≡ t = cc in
      let is_id : r.id ≡ id = ground arith in
      subst (λ (s : TxDbObj). (s.id ≡ id) × P s) same (is_id, here)
  | inr e ↦ first_found P id rows rest (rw e at h)
]

pub get_transaction-IsDescending :
    (db : Db) (id : ℕ) {t : TxDbObj}
    → All IsDescending db.txs
    → get_transaction db id ≡ ok t
    → (t.id ≡ id) × IsDescending t
unfolding get_transaction
get_transaction-IsDescending db id all h = first_found IsDescending id db.txs all h

-- A loop has returned.
abbrev pub Returns : {A : Type 0} → Option A → Type 0
Returns {A} m = (a : A) × (m ≡ some a)

pub find_orig-step :
    (fuel : ℕ) (db : Db) (t row : TxDbObj) (orig : ℕ)
    → t.orig_tx_id ≡ some orig
    → get_transaction db orig ≡ ok row
    → find_orig (suc fuel) db t ≡ find_orig fuel db row
unfolding find_orig
find_orig-step fuel db t row orig e found = rw (e, found, find_orig)

find_orig-Returns :
    (fuel : ℕ) (db : Db) (t : TxDbObj)
    → All IsDescending db.txs
    → IsDescending t
    → t.id < fuel
    → Returns (find_orig fuel db t)
unfolding find_orig
find_orig-Returns zero db t all newer h = absurd (omega arith)
find_orig-Returns (suc fuel) db t all newer h = elim (Option-cases t.orig_tx_id) [
  | inl alone ↦ (ok t, rw alone)
  | inr (orig, e) ↦
      let below : orig < t.id = subst (IsNewer t.id) e newer in
      elim (Outcome-cases (get_transaction db orig)) [
        | inl (row, found) ↦
            let (is_id, newer') = get_transaction-IsDescending db orig all found in
            let (r, last) = find_orig-Returns fuel db row all newer' (omega arith) in
            (r, find_orig-step fuel db t row orig e found ∙ last)
        | inr (inl (error, failed)) ↦ (err error, rw (e, failed, find_orig))
        | inr (inr panics) ↦ (panic, rw (e, panics, find_orig))
      ]
]

-- A predicate that a deletion keeps, where it is not refused.
pub delete_other-keeps :
    (P : Db → Type 0)
    → (current_id : ℕ)
    → ((id : ℕ) (db : Db) → (id == current_id) ≡ false → P db → P (without_tx id db))
    → (id : ℕ) (db : Db) {db' : Db} → P db
    → delete_other current_id id db ≡ ok db'
    → P db'
delete_other-keeps P current_id keeps id db {db'} h e = elim (Bool-cases (id == current_id)) [
  | inl current ↦ let e' = rw current at e in let same : db ≡ db' = cc in subst P same h
  | inr other ↦ let e' = rw other at e in subst P (delete_tx-eq_ok id db e') (keeps id db other h)
]

without_tx-IsDescending :
    (id : ℕ) (db : Db) → All IsDescending db.txs → All IsDescending (without_tx id db).txs
unfolding delete_where
without_tx-IsDescending id db all = select-All IsDescending (λ t. not (t.id == id)) db.txs all

pub delete_others-step :
    (fuel current_id : ℕ) (t row : TxDbObj) (orig : ℕ) (db : Db) {db' : Db}
    → delete_other current_id t.id db ≡ ok db'
    → t.orig_tx_id ≡ some orig
    → get_transaction db' orig ≡ ok row
    → delete_others (suc fuel) current_id t db ≡ delete_others fuel current_id row db'
unfolding delete_others
delete_others-step fuel current_id t row orig db deletes e found =
    rw (deletes, e, found, delete_others)

delete_others-Returns :
    (fuel current_id : ℕ) (t : TxDbObj) (db : Db)
    → All IsDescending db.txs
    → IsDescending t
    → t.id < fuel
    → Returns (delete_others fuel current_id t db)
unfolding delete_others
delete_others-Returns zero current_id t db all newer h = absurd (omega arith)
delete_others-Returns (suc fuel) current_id t db all newer h =
    elim (Outcome-cases (delete_other current_id t.id db)) [
      | inr (inl (error, refused)) ↦ (err error, rw (refused, delete_others))
      | inr (inr panics) ↦ (panic, rw (panics, delete_others))
      | inl (db', deletes) ↦
          let all' =
            delete_other-keeps (λ d. All IsDescending d.txs) current_id
              (λ id d other. without_tx-IsDescending id d) t.id db all deletes in
          elim (Option-cases t.orig_tx_id) [
            | inl alone ↦ (ok db', rw (deletes, alone, delete_others))
            | inr (orig, e) ↦
                let below : orig < t.id = subst (IsNewer t.id) e newer in
                elim (Outcome-cases (get_transaction db' orig)) [
                  | inl (row, found) ↦
                      let (is_id, newer') = get_transaction-IsDescending db' orig all' found in
                      let (r, last) =
                        delete_others-Returns fuel current_id row db' all' newer' (omega arith) in
                      (r, delete_others-step fuel current_id t row orig db deletes e found ∙ last)
                  | inr (inl (error, failed)) ↦ (err error, rw (deletes, e, failed, delete_others))
                  | inr (inr panics) ↦ (panic, rw (deletes, e, panics, delete_others))
                ]
          ]
    ]

pub remap_tx-txs :
    (orig_id current_id : ℕ) (db : Db) → (remap_tx orig_id current_id db).txs ≡ db.txs
unfolding remap_tx remap_token_transfer_tx remap_allowance_tx
remap_tx-txs orig_id current_id db = elim (Bool-cases (orig_id == current_id)) [
  | inl e ↦ rw e
  | inr e ↦ rw e
]

-- Let every row of the database that replaces another have a greater id than that one, and let
-- the confirmed row and the row that was processed have, too. Then the clean-up of their chain
-- returns: neither of its two loops goes on for ever.
pub clean_up-Returns :
    (current_tx web3_tx : TxDbObj) (db : Db)
    → All IsDescending db.txs
    → IsDescending current_tx
    → IsDescending web3_tx
    → Returns (clean_up current_tx web3_tx db)
unfolding clean_up clean_up_from
clean_up-Returns current_tx web3_tx db all newer newer' =
    let (found, e) = find_orig-Returns (suc current_tx.id) db current_tx all newer (omega arith) in
    elim (Outcome-cases found) [
      | inr (inl (error, failed)) ↦ (err error, rw (e, failed, clean_up))
      | inr (inr panics) ↦ (panic, rw (e, panics, clean_up))
      | inl (orig_tx, is_orig) ↦
          let moved = remap_tx orig_tx.id current_tx.id db in
          let all' : All IsDescending moved.txs =
            subst (All IsDescending) (sym (remap_tx-txs orig_tx.id current_tx.id db)) all in
          let (left, e') =
            delete_others-Returns (suc web3_tx.id) current_tx.id web3_tx moved all' newer'
              (omega arith) in
          elim (Outcome-cases left) [
            | inl (db', is_db) ↦
                (ok (update_tx (cleaned current_tx) db'), rw (e, is_orig, e', is_db, clean_up))
            | inr (inl (error, failed)) ↦ (err error, rw (e, is_orig, e', failed, clean_up))
            | inr (inr panics) ↦ (panic, rw (e, is_orig, e', panics, clean_up))
          ]
    ]
