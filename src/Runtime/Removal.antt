-- ===== src/Runtime/Removal.antt =====
-- What `remove_transaction_force` of crates/erc20_payment_lib/src/runtime.rs leaves.
use erc20_payment_lib.Prelude.{
  ℕ, zero, suc, ◌≡◌, ◌⊎◌, refl, List, [], ◌∷◌, map, Bool, true, false, Option, none, some, ok, err,
  panic, All, ◌==◌, Bool-cases, Outcome-cases, Option-cases, inl, inr, ap, subst, sym, >>=-eq-ok,
}
use erc20_payment_lib.Error.{Result}
use erc20_payment_lib.Db.{
  Db, TxDbObj, TokenTransferDbObj, AllowanceDbObj, opt_is, update_where, delete_tx, without_tx,
  cleanup_allowance_tx, cleanup_token_transfer_tx, chain_from, get_transaction,
}
use erc20_payment_lib.Db.Deletion.{deleted, stays_deleted, delete_tx-eq_ok, get_transaction-id}
use erc20_payment_lib.World.{World}
use erc20_payment_lib.Runtime.Remove.{remove_rows, remove_transaction_force, committed}

-- A column that names a transaction is freed where it names `id`.
module _ {A : Type 0} (tx_id : A → Option ℕ) (free : A → A) where
  freed :
      (id : ℕ) (rows : List A)
      → ((a : A) → tx_id (free a) ≡ none)
      → All (λ a. opt_is (tx_id a) id ≡ false) (update_where (λ a. opt_is (tx_id a) id) free rows)
  unfolding update_where
  freed id [] h = tt
  freed id (a ∷ rows) h = elim (Bool-cases (opt_is (tx_id a) id)) [
    | inl e ↦ rw e (ap (λ t. opt_is t id) (h a), freed id rows h)
    | inr e ↦ rw e (e, freed id rows h)
  ]

  stays_free :
      (id other : ℕ) (rows : List A)
      → ((a : A) → tx_id (free a) ≡ none)
      → All (λ a. opt_is (tx_id a) other ≡ false) rows
      → All
          (λ a. opt_is (tx_id a) other ≡ false)
          (update_where (λ a. opt_is (tx_id a) id) free rows)
  unfolding update_where
  stays_free id other [] h all = tt
  stays_free id other (a ∷ rows) h (here, rest) = elim (Bool-cases (opt_is (tx_id a) id)) [
    | inl e ↦ rw e (ap (λ t. opt_is t other) (h a), stays_free id other rows h rest)
    | inr e ↦ rw e (here, stays_free id other rows h rest)
  ]

-- No row of the database is the transaction `id`, and none names it as its transaction.
pub record IsGone (db : Db) (id : ℕ) : Type 0 where
  pub no_tx : All (λ (t : TxDbObj). (t.id == id) ≡ false) db.txs
  pub no_transfer : All (λ (t : TokenTransferDbObj). opt_is t.tx_id id ≡ false) db.token_transfers
  pub no_allowance : All (λ (a : AllowanceDbObj). opt_is a.tx_id id ≡ false) db.allowances

abbrev cleared : ℕ → Db → Db
cleared id db = cleanup_token_transfer_tx id (cleanup_allowance_tx id db)

cleared-IsGone : (id : ℕ) (db : Db) → IsGone (without_tx id (cleared id db)) id
unfolding cleanup_token_transfer_tx cleanup_allowance_tx
cleared-IsGone id db = record {
  no_tx = deleted id db.txs;
  no_transfer = freed (λ (t : TokenTransferDbObj). t.tx_id) _ id db.token_transfers (λ t. refl);
  no_allowance = freed (λ (a : AllowanceDbObj). a.tx_id) _ id db.allowances (λ a. refl);
}

IsGone-cleared :
    (id other : ℕ) (db : Db) → IsGone db other → IsGone (without_tx id (cleared id db)) other
unfolding cleanup_token_transfer_tx cleanup_allowance_tx
IsGone-cleared id other db gone = record {
  no_tx = stays_deleted id other db.txs gone.no_tx;
  no_transfer =
      stays_free (λ (t : TokenTransferDbObj). t.tx_id) _ id other db.token_transfers (λ t. refl)
        gone.no_transfer;
  no_allowance =
      stays_free (λ (a : AllowanceDbObj). a.tx_id) _ id other db.allowances (λ a. refl)
        gone.no_allowance;
}

-- A row that is removed: the deletion was not refused.
remove_rows-step :
    (t : TxDbObj) (txs : List TxDbObj) (db : Db) {db' : Db}
    → remove_rows (t ∷ txs) db ≡ ok db'
    → remove_rows txs (without_tx t.id (cleared t.id db)) ≡ ok db'
unfolding remove_rows
remove_rows-step t txs db {db'} h =
    let (next, deletes, rest) = >>=-eq-ok (delete_tx t.id (cleared t.id db)) (remove_rows txs) h in
    subst (λ d. remove_rows txs d ≡ ok db') (sym (delete_tx-eq_ok t.id (cleared t.id db) deletes))
      rest

IsGone-remove_rows :
    (txs : List TxDbObj) (other : ℕ) (db : Db) {db' : Db}
    → IsGone db other
    → remove_rows txs db ≡ ok db'
    → IsGone db' other
unfolding remove_rows
IsGone-remove_rows [] other db {db'} gone h =
    let same : db ≡ db' = cc in subst (λ d. IsGone d other) same gone
IsGone-remove_rows (t ∷ txs) other db gone h =
    IsGone-remove_rows txs other (without_tx t.id (cleared t.id db))
      (IsGone-cleared t.id other db gone) (remove_rows-step t txs db h)

remove_rows-IsGone :
    (txs : List TxDbObj) (db : Db) {db' : Db}
    → remove_rows txs db ≡ ok db'
    → All (IsGone db') (map (λ (t : TxDbObj). t.id) txs)
remove_rows-IsGone [] db h = tt
remove_rows-IsGone (t ∷ txs) db h =
    let h' = remove_rows-step t txs db h in
    (
      IsGone-remove_rows txs t.id (without_tx t.id (cleared t.id db)) (cleared-IsGone t.id db) h',
      remove_rows-IsGone txs (without_tx t.id (cleared t.id db)) h',
    )

-- The ids of a transaction, of the one that it replaces, and so on to one that replaces none.
pub data IsChain (db : Db) : ℕ → List ℕ → Type 0 where
  original :
      {id : ℕ} {row : TxDbObj}
      → get_transaction db id ≡ ok row
      → row.orig_tx_id ≡ none
      → IsChain db id (id ∷ [])
  replacement :
      {id orig : ℕ} {row : TxDbObj} {ids : List ℕ}
      → get_transaction db id ≡ ok row
      → row.orig_tx_id ≡ some orig
      → IsChain db orig ids
      → IsChain db id (id ∷ ids)

abbrev ids : List TxDbObj → List ℕ
ids txs = map (λ (t : TxDbObj). t.id) txs

chain_from-step :
    (fuel : ℕ) (db : Db) (id : ℕ) {row : TxDbObj} {txs : List TxDbObj}
    → get_transaction db id ≡ ok row
    → chain_from (suc fuel) db id ≡ ok txs
    → ((row.orig_tx_id ≡ none) × (row ∷ [] ≡ txs))
      ⊎ ((orig : ℕ) × (rest : List TxDbObj) × (row.orig_tx_id ≡ some orig)
          × (chain_from fuel db orig ≡ ok rest)
          × (row ∷ rest ≡ txs))
unfolding chain_from
chain_from-step fuel db id {row} {txs} found h = elim (Option-cases row.orig_tx_id) [
  | inl alone ↦ let h' = rw (found, alone, chain_from) at h in inl (alone, cc)
  | inr (orig, names) ↦
      let h' = rw (found, names, chain_from) at h in
      let (rest, e, last) = >>=-eq-ok (chain_from fuel db orig) _ h' in
      inr (orig, rest, names, e, cc)
]

chain_from-IsChain :
    (fuel : ℕ) (db : Db) (id : ℕ) {txs : List TxDbObj}
    → chain_from fuel db id ≡ ok txs
    → IsChain db id (ids txs)
unfolding chain_from
chain_from-IsChain zero db id h = cc
chain_from-IsChain (suc fuel) db id {txs} h = elim (Outcome-cases (get_transaction db id)) [
  | inl (row, found) ↦
      let is_id : row.id ≡ id = get_transaction-id db id found in
      elim (chain_from-step fuel db id found h) [
        | inl (alone, same) ↦
            subst (λ ts. IsChain db id (ids ts)) same
              (subst (λ i. IsChain db id (i ∷ [])) (sym is_id) (original found alone))
        | inr (orig, rest, names, e, same) ↦
            subst (λ ts. IsChain db id (ids ts)) same
              (subst (λ i. IsChain db id (i ∷ ids rest)) (sym is_id)
                (replacement found names (chain_from-IsChain fuel db orig e)))
      ]
  | inr (inl (error, failed)) ↦ let bad = rw (failed, chain_from) at h in cc
  | inr (inr panics) ↦ let bad = rw (panics, chain_from) at h in cc
]

abbrev ended_well : World × Result (Option (List ℕ)) → Bool
ended_well (w, ok ids) = true
ended_well (w, err e) = false
ended_well (w, panic) = false

abbrev ids_of : World × Result (Option (List ℕ)) → List ℕ
ids_of (w, ok (some ids)) = ids
ids_of _ = []

committed-eq_ok :
    (given : List ℕ) (m : Result Db) (w : World) {w' : World} {returned : List ℕ}
    → committed given m w ≡ (w', ok (some returned))
    → (m ≡ ok w'.db) × (given ≡ returned)
committed-eq_ok given (ok db) w {w'} h =
    let same : db ≡ w'.db = ap (λ r. r.0.db) h in (ap ok same, ap (λ r. ids_of r) h)
committed-eq_ok given (err e) w h = let bad : false ≡ true = ap ended_well h in cc
committed-eq_ok given panic w h = let bad : false ≡ true = ap ended_well h in cc

-- Let a transaction be removed by force. Then the ids that the call returns are its own, that of
-- the transaction that it replaces, and so on, down to one that replaces none. No row of the table
-- of transactions has one of them any more, and no transfer or allowance names one.
pub remove_transaction_force-IsGone :
    (tx_id : ℕ) (w w' : World) (removed : List ℕ)
    → remove_transaction_force tx_id w ≡ (w', ok (some removed))
    → IsChain w.db tx_id removed × All (IsGone w'.db) removed
unfolding remove_transaction_force
remove_transaction_force-IsGone tx_id w w' removed h =
    elim (Outcome-cases (chain_from (suc tx_id) w.db tx_id)) [
      | inl (txs, e) ↦
          let h' = rw (e, remove_transaction_force) at h in
          let (removes, same) = committed-eq_ok (ids txs) (remove_rows txs w.db) w h' in
          (
            subst (IsChain w.db tx_id) same (chain_from-IsChain (suc tx_id) w.db tx_id e),
            subst (All (IsGone w'.db)) same (remove_rows-IsGone txs w.db removes),
          )
      | inr (inl (error, failed)) ↦
          let h' = rw (failed, remove_transaction_force) at h in
          let bad : false ≡ true = ap ended_well h' in cc
      | inr (inr panics) ↦
          let h' = rw (panics, remove_transaction_force) at h in
          let bad : false ≡ true = ap ended_well h' in cc
    ]
