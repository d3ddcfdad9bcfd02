-- ===== src/Runtime/Remove.antt =====
-- `remove_transaction_force` and `remove_last_unsent_transactions` of
-- crates/erc20_payment_lib/src/runtime.rs. Each is one SQL transaction: an error leaves the
-- database as it was.
use erc20_payment_lib.Prelude.{
  ℕ, suc, List, [], ◌∷◌, map, Option, none, some, ok, err, panic, ◌>>=◌,
}
use erc20_payment_lib.Error.{Result, custom_error}
use erc20_payment_lib.Db.{
  Db, TxDbObj, chain_from, cleanup_allowance_tx, cleanup_token_transfer_tx, delete_tx,
  get_last_unsent_tx,
}
use erc20_payment_lib.World.{Run}

-- `for tx in &txs`
unfoldable pub remove_rows : List TxDbObj → Db → Result Db
remove_rows [] db = ok db
remove_rows (tx ∷ txs) db =
    delete_tx tx.id (cleanup_token_transfer_tx tx.id (cleanup_allowance_tx tx.id db))
    >>= remove_rows txs

abbrev pub committed {ℓ} : {A : Type ℓ} → A → Result Db → Run (Option A)
committed a (ok db) w = (record w { db = db }, ok (some a))
committed a (err e) w = (w, err e)
committed a panic w = (w, panic)

-- A row replaces a row with a smaller id, so that `tx_id` steps along the chain are enough.
unfoldable pub remove_transaction_force : ℕ → Run (Option (List ℕ))
unfolding remove_rows
remove_transaction_force tx_id w = elim (chain_from (suc tx_id) w.db tx_id) [
  | ok txs ↦ committed (map (λ (t : TxDbObj). t.id) txs) (remove_rows txs w.db) w
  | err e ↦ (w, err (custom_error "Error getting transaction"))
  | panic ↦ (w, panic)
]

unfoldable pub remove_last_unsent_transactions : Run (Option ℕ)
remove_last_unsent_transactions w = elim (get_last_unsent_tx w.db) [
  | none ↦ (w, ok none)
  | some tx ↦ committed tx.id (delete_tx tx.id (cleanup_token_transfer_tx tx.id w.db)) w
]
