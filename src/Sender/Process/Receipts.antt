-- ===== src/Sender/Process/Receipts.antt =====
-- Which transaction of a chain of replacements has a receipt, and what is done when none has one:
-- sender/process.rs. A loop is given the number of turns it may take; `none` means that it has
-- not ended by then.
use erc20_payment_lib.Prelude.{
  ℕ, zero, suc, ◌-◌, Option, none, some, ltb, if◌then◌else◌, ok, err, panic,
}
use erc20_payment_lib.Text.{Codec}
use erc20_payment_lib.Error.{Result}
use erc20_payment_lib.Db.{Db, TxDbObj, get_transaction, update_tx_stuck_date}
use erc20_payment_lib.Node.{Web3, Hex}
use erc20_payment_lib.World.{Run, pure, ◌>>=◌, ◌>>◌, change_db, set_error}
use erc20_payment_lib.Runtime.Remove.{remove_transaction_force}
use erc20_payment_lib.Transaction.Receipt.{find_receipt}
use erc20_payment_lib.Sender.Setup.{PaymentSetup}
use erc20_payment_lib.Sender.Settle.{do_not_save, need_retry}
use erc20_payment_lib.Sender.Process.Outside.{Step, go, stop}

module _ (c : Codec) (hex : Hex) (retry : ℕ → Web3) (db : Db) where
  -- The inner loop, with `orig` the `orig_tx_id` of the row that is processed, which the loop
  -- asks for again and again; `turn` counts the receipts asked for.
  unfoldable pub find_in_chain : ℕ → ℕ → Option ℕ → TxDbObj → Option (Result (TxDbObj × Option ℕ))
  find_in_chain zero turn orig current_tx = none
  find_in_chain (suc fuel) turn orig current_tx =
      elim (find_receipt c hex (retry turn) current_tx) [
        | err e ↦ some (err e)
        | panic ↦ some panic
        | ok (row, some price) ↦ some (ok (row, some price))
        | ok (row, none) ↦ elim orig [
          | none ↦ some (ok (row, none))
          | some orig_tx_id ↦ elim (get_transaction db orig_tx_id) [
            | ok next ↦ find_in_chain fuel (suc turn) (some orig_tx_id) next
            | err e ↦ some (err e)
            | panic ↦ some panic
          ]
        ]
      ]

-- No receipt in spite of the nonce: the row is marked, and given up after a time.
module _ (setup : PaymentSetup) (now : ℕ) where
  unfoldable pub give_up : TxDbObj → Run Step
  give_up tx =
      if setup.automatic_recover
      then (do _ ← remove_transaction_force tx.id; pure (stop tx do_not_save))
      else pure (stop tx (need_retry "Receipt not found"))

  unfoldable pub no_receipt : TxDbObj → Run Step
  unfolding give_up
  no_receipt tx = do
    set_error tx.id (some "Receipt not found despite proper nonce. Probably external payment done.")
    elim tx.first_stuck_date [
      | some date ↦
          if ltb setup.mark_as_unrecoverable_after_seconds (now - date)
          then give_up tx
          else pure (go tx)
      | none ↦ do
        let row = record tx { first_stuck_date = some now }
        change_db (update_tx_stuck_date row)
        pure (go row)
    ]
