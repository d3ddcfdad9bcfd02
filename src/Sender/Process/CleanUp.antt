-- ===== src/Sender/Process/CleanUp.antt =====
-- What is left of a chain of replacements when one of them is confirmed: sender/process.rs. The
-- rows are changed in one SQL transaction: an error leaves the database as it was. A row replaces
-- a row with a smaller id, so that `id` steps along a chain are enough.
use erc20_payment_lib.Prelude.{
  ℕ, zero, suc, Option, none, some, ◌==◌, if◌then◌else◌, ok, err, panic,
}
use erc20_payment_lib.Error.{Result}
use erc20_payment_lib.Db.{
  Db, TxDbObj, get_transaction, delete_tx, update_tx, remap_allowance_tx, remap_token_transfer_tx,
}

-- The row at the end of the chain; `none` where the steps do not reach it.
unfoldable pub find_orig : ℕ → Db → TxDbObj → Option (Result TxDbObj)
find_orig zero db orig_tx = none
find_orig (suc fuel) db orig_tx = elim orig_tx.orig_tx_id [
  | none ↦ some (ok orig_tx)
  | some next_tx ↦ elim (get_transaction db next_tx) [
    | ok row ↦ find_orig fuel db row
    | err e ↦ some (err e)
    | panic ↦ some panic
  ]
]

unfoldable pub remap_tx : ℕ → ℕ → Db → Db
remap_tx orig_id current_id db =
    if orig_id == current_id
    then db
    else remap_token_transfer_tx orig_id current_id (remap_allowance_tx orig_id current_id db)

abbrev pub delete_other : ℕ → ℕ → Db → Result Db
delete_other current_id id db = if id == current_id then ok db else delete_tx id db

-- Deletes every row of the chain but the confirmed one.
unfoldable pub delete_others : ℕ → ℕ → TxDbObj → Db → Option (Result Db)
delete_others zero current_id process_tx db = none
delete_others (suc fuel) current_id process_tx db =
    elim (delete_other current_id process_tx.id db) [
      | err e ↦ some (err e)
      | panic ↦ some panic
      | ok db' ↦ elim process_tx.orig_tx_id [
        | none ↦ some (ok db')
        | some next_tx ↦ elim (get_transaction db' next_tx) [
          | ok row ↦ delete_others fuel current_id row db'
          | err e ↦ some (err e)
          | panic ↦ some panic
        ]
      ]
    ]

abbrev pub cleaned : TxDbObj → TxDbObj
cleaned current_tx = record current_tx { orig_tx_id = none; signed_raw_data = none }

abbrev pub store_cleaned : TxDbObj → Option (Result Db) → Option (Result Db)
store_cleaned current_tx none = none
store_cleaned current_tx (some (err e)) = some (err e)
store_cleaned current_tx (some panic) = some panic
store_cleaned current_tx (some (ok db)) = some (ok (update_tx (cleaned current_tx) db))

-- `current_tx` is the confirmed row, `web3_tx` the row that was processed.
unfoldable pub clean_up_from : TxDbObj → TxDbObj → Db → Option (Result TxDbObj) → Option (Result Db)
unfolding remap_tx delete_others
clean_up_from current_tx web3_tx db none = none
clean_up_from current_tx web3_tx db (some (err e)) = some (err e)
clean_up_from current_tx web3_tx db (some panic) = some panic
clean_up_from current_tx web3_tx db (some (ok orig_tx)) =
    store_cleaned current_tx
      (delete_others (suc web3_tx.id) current_tx.id web3_tx (remap_tx orig_tx.id current_tx.id db))

unfoldable pub clean_up : TxDbObj → TxDbObj → Db → Option (Result Db)
unfolding find_orig clean_up_from
clean_up current_tx web3_tx db =
    clean_up_from current_tx web3_tx db (find_orig (suc current_tx.id) db current_tx)
