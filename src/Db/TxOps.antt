-- ===== src/Db/TxOps.antt =====
-- db/ops/tx_ops.rs. A statement of sqlx that fails for a reason outside the data (a locked file,
-- a lost connection) is not modelled; `fetch_one` without a row is.
use erc20_payment_lib.Prelude.{
  ℕ, suc, zero, Bool, true, false, not, ◌&&◌, ◌||◌, List, [], ◌∷◌, ◌++◌, Option, none, some, String,
  ◌==◌, ltb, str_eq, ok_or, ok, err, panic, ◌>>=◌, take, if◌then◌else◌,
}
use erc20_payment_lib.Error.{Result, sqlx_error}
use erc20_payment_lib.Db.Schema.{Db, TxDbObj, TokenTransferDbObj, AllowanceDbObj}
use erc20_payment_lib.Db.Table.{
  select, update_where, delete_where, first, order_by, is_null, opt_is, opt_max,
}

unfoldable pub get_transaction : Db → ℕ → Result TxDbObj
get_transaction db tx_id = ok_or (first (select (λ t. t.id == tx_id) db.txs)) sqlx_error

-- `ORDER BY orig_tx_id DESC, id ASC`; SQLite puts NULL last in a descending order.
abbrev pub replacement_order : TxDbObj → TxDbObj → Bool
replacement_order a b = by_orig a.orig_tx_id b.orig_tx_id
  where
    by_orig : Option ℕ → Option ℕ → Bool
    by_orig none none = ltb a.id b.id
    by_orig none (some n) = false
    by_orig (some m) none = true
    by_orig (some m) (some n) = ltb n m || (m == n && ltb a.id b.id)

-- `get_transactions` with the filter `processing > 0` of one account and chain.
abbrev pub is_to_process : String → ℕ → TxDbObj → Bool
is_to_process account chain_id t =
    t.chain_id == chain_id && str_eq t.from_addr account && ltb 0 t.processing

unfoldable pub get_next_transactions_to_process : Db → String → ℕ → ℕ → List TxDbObj
get_next_transactions_to_process db account limit chain_id =
    take limit (order_by replacement_order (select (is_to_process account chain_id) db.txs))

-- `get_transaction_chain`: from a replacement back to the original. The fuel bounds the rows
-- looked at.
unfoldable pub chain_from : ℕ → Db → ℕ → Result (List TxDbObj)
unfolding get_transaction
chain_from zero db tx_id = err sqlx_error
chain_from (suc fuel) db tx_id = elim (get_transaction db tx_id) [
  | ok row ↦ elim row.orig_tx_id [
    | none ↦ ok (row ∷ [])
    | some orig ↦ chain_from fuel db orig >>= λ rest. ok (row ∷ rest)
  ]
  | err e ↦ err e
  | panic ↦ panic
]

-- A row of another table whose foreign key names the transaction.
unfoldable pub names_tx {ℓ} : {A : Type ℓ} → (A → Option ℕ) → ℕ → List A → Bool
names_tx key tx_id [] = false
names_tx key tx_id (a ∷ rows) = opt_is (key a) tx_id || names_tx key tx_id rows

abbrev pub without_tx : ℕ → Db → Db
without_tx tx_id db = record db { txs = delete_where (λ t. t.id == tx_id) db.txs }

-- The keys of token_transfer and allowance are enforced, as sqlx sets SQLite up: the statement
-- fails while one of their rows names the transaction. `orig_tx_id` is no foreign key.
unfoldable pub delete_tx : ℕ → Db → Result Db
unfolding names_tx
delete_tx tx_id db =
    if names_tx (λ (t : TokenTransferDbObj). t.tx_id) tx_id db.token_transfers
      || names_tx (λ (a : AllowanceDbObj). a.tx_id) tx_id db.allowances
    then err sqlx_error
    else ok (without_tx tx_id db)

-- `SELECT MAX(nonce) … WHERE confirm_date IS NOT NULL AND chain_id = $1 AND from_addr = $2`.
abbrev pub is_confirmed_of : ℕ → String → TxDbObj → Bool
is_confirmed_of chain_id from_addr t =
    not (is_null t.confirm_date) && t.chain_id == chain_id && str_eq t.from_addr from_addr

unfoldable pub max_nonce : List TxDbObj → Option ℕ
max_nonce [] = none
max_nonce (t ∷ ts) = opt_max t.nonce (max_nonce ts)

unfoldable pub get_transaction_highest_nonce : Db → ℕ → String → Option ℕ
unfolding max_nonce
get_transaction_highest_nonce db chain_id from_addr =
    max_nonce (select (is_confirmed_of chain_id from_addr) db.txs)

-- `INSERT … RETURNING *`: the row gets the next id; the columns that the table lacks read NULL.
unfoldable pub insert_tx : TxDbObj → Db → Db × TxDbObj
insert_tx tx db =
    let row = record tx { id = suc db.last_tx_id; engine_message = none; engine_error = none } in
    (record db { txs = db.txs ++ row ∷ []; last_tx_id = suc db.last_tx_id }, row)

unfoldable pub update_tx : TxDbObj → Db → Db
update_tx tx db = record db {
  txs =
      update_where (λ t. t.id == tx.id)
        (λ t. record tx { engine_message = none; engine_error = none }) db.txs;
}

unfoldable pub update_processing_and_first_processed_tx : TxDbObj → Db → Db
update_processing_and_first_processed_tx tx db = record db {
  txs =
      update_where (λ t. t.id == tx.id)
        (λ t. record t { processing = tx.processing; first_processed = tx.first_processed }) db.txs;
}

unfoldable pub update_tx_stuck_date : TxDbObj → Db → Db
update_tx_stuck_date tx db = record db {
  txs =
      update_where (λ t. t.id == tx.id) (λ t. record t { first_stuck_date = tx.first_stuck_date })
        db.txs;
}

-- `WHERE broadcast_date is NULL AND signed_date is NULL ORDER BY id DESC LIMIT 1`.
unfoldable pub get_last_unsent_tx : Db → Option TxDbObj
get_last_unsent_tx db = first (
    order_by (λ a b. ltb b.id a.id)
      (select (λ t. is_null t.broadcast_date && is_null t.signed_date) db.txs))

unfoldable pub force_tx_error : TxDbObj → Db → Db
force_tx_error tx db = record db {
  txs = update_where (λ t. t.id == tx.id) (λ t. record t { error = some "forced error" }) db.txs;
}
