-- ===== src/Sender/Service.antt =====
-- The sender's loops: crates/erc20_payment_lib/src/sender/service.rs. The waits are in a unit of time
-- that the settings are in, and the growth of a wait (a product with an f64) is a parameter.
use erc20_payment_lib.Prelude.{
  ℕ, zero, suc, String, List, [], ◌∷◌, ◌++◌, Bool, true, false, Option, none, some, ltb, leb,
  if◌then◌else◌, ok, err, panic,
}
use erc20_payment_lib.Error.{Result, PaymentError, custom_error, transaction_failed_error}
use erc20_payment_lib.Db.{TxDbObj, get_next_transactions_to_process, first}
use erc20_payment_lib.Events.{transaction_confirmed}
use erc20_payment_lib.World.{
  World, Run, pure, ◌>>=◌, ◌>>◌, change_shared, send_driver_event, set_message, set_error,
  is_skipped, delete_tx_info,
}
use erc20_payment_lib.Sender.Setup.{PaymentSetup}
use erc20_payment_lib.Sender.Settle.{
  ProcessTransactionResult, Settled, confirmed, replaced, internal_error,
  do_not_save_wait_for_gas_or_token, unknown, update_result,
}
use erc20_payment_lib.Sender.Process.Outside.{Outside, Moment, Step, go, stop}
use erc20_payment_lib.Sender.Process.Round.{process_transaction}

-- The text that is shown for an error.
abbrev pub message_of : PaymentError → String
message_of (transaction_failed_error message) = message
message_of (custom_error message) = message
message_of _ = ""

abbrev pub waits_for_gas : ProcessTransactionResult → Bool
waits_for_gas do_not_save_wait_for_gas_or_token = true
waits_for_gas _ = false

-- `current_wait_time_no_gas_token` after one more result without gas or token.
unfoldable pub next_wait : PaymentSetup → (ℕ → ℕ) → ℕ → ℕ
next_wait setup increase wait =
    let start = setup.process_interval_after_no_gas_or_token_start in
    let longest = setup.process_interval_after_no_gas_or_token_max in
    let grown = if ltb wait start then start else increase wait in
    if leb longest grown then longest else grown

-- What a turn ends with: the loop goes on at once or after a sleep, with the next wait.
pub data Turn : Type 0 where
  at_once : ℕ → Turn
  after_sleep : ℕ → ℕ → Turn

module _ (outside : Outside) (setup : PaymentSetup) (increase : ℕ → ℕ) where
  abbrev store_settled : Settled → Run TxDbObj
  store_settled s w = (record w { db = s.db; events = w.events ++ s.events }, ok s.tx)

  abbrev settle : ℕ → TxDbObj → ProcessTransactionResult → Run TxDbObj
  settle now tx result w = elim (update_result outside.codec now tx w.db result) [
    | ok s ↦ store_settled s w
    | err e ↦ (w, err e)
    | panic ↦ (w, panic)
  ]

  unfoldable pub sleep_after : ProcessTransactionResult → ℕ → Turn
  unfolding next_wait
  sleep_after do_not_save_wait_for_gas_or_token wait =
      after_sleep (next_wait setup increase wait) (next_wait setup increase wait)
  sleep_after result wait = after_sleep setup.process_interval 0

  -- What is done with a result that is stored.
  unfoldable pub after_settling : ProcessTransactionResult → ℕ → TxDbObj → Run Turn
  unfolding sleep_after
  after_settling confirmed wait tx = do
    send_driver_event (transaction_confirmed tx)
    pure (at_once 0)
  after_settling unknown wait tx = pure (sleep_after unknown wait)
  after_settling result wait tx = do
    change_shared (delete_tx_info tx.id)
    pure (sleep_after result wait)

  unfoldable pub handle_result : ℕ → ℕ → TxDbObj → ProcessTransactionResult → Run Turn
  unfolding after_settling
  handle_result now wait tx replaced = do change_shared (delete_tx_info tx.id); pure (at_once 0)
  handle_result now wait tx result = do
    stored ← settle now tx result
    after_settling result wait stored

  -- An error of `process_transaction` is shown, and ends the loop. A step that goes on does not
  -- come out of `process_transaction`.
  abbrev handled : ℕ → ℕ → ℕ → Option (World × Result Step) → Option (World × Result Turn)
  handled now wait id none = none
  handled now wait id (some (w, panic)) = some (w, panic)
  handled now wait id (some (w, err e)) = some ((set_error id (some (message_of e)) w).0, err e)
  handled now wait id (some (w, ok (stop tx result))) = some (handle_result now wait tx result w)
  handled now wait id (some (w, ok (go tx))) = some (handle_result now wait tx unknown w)

  -- One transaction. `rounds` and `turns` bound the loops of `process_transaction`.
  unfoldable pub process_one :
      (ℕ → Moment) → ℕ → ℕ → ℕ → ℕ → TxDbObj → World → Option (World × Result Turn)
  unfolding handle_result
  process_one moments now rounds turns wait tx w =
      if is_skipped tx.id w.shared
      then some (handle_result now wait tx (internal_error "Transaction skipped by user") w)
      else handled now wait tx.id (
          process_transaction outside setup moments rounds turns false tx
            ((set_message tx.id "Processing" w).0))

  abbrev and_loop :
      Option (World × Result Turn)
      → (ℕ → World → Option (World × Result (List ℕ)))
      → Option (World × Result (List ℕ))
  and_loop none next = none
  and_loop (some (w, panic)) next = some (w, panic)
  and_loop (some (w, err e)) next = some (w, err e)
  and_loop (some (w, ok (at_once wait))) next = next wait w
  and_loop (some (w, ok (after_sleep time wait))) next = elim (next wait w) [
    | none ↦ none
    | some (w', result) ↦ some (w', slept result)
  ]
    where
      slept : Result (List ℕ) → Result (List ℕ)
      slept (ok times) = ok (time ∷ times)
      slept (err e) = err e
      slept panic = panic

  -- `process_transactions`: until no transaction of the account waits. The result has the times
  -- slept. `moments k` are those of the k-th turn, at the time `times k`; `fuel` bounds the turns.
  unfoldable pub process_transactions :
      (ℕ → ℕ → Moment)
      → (ℕ → ℕ)
      → ℕ
      → ℕ
      → String
      → ℕ
      → ℕ
      → ℕ
      → ℕ
      → World
      → Option (World × Result (List ℕ))
  unfolding process_one
  process_transactions moments times rounds turns account chain_id zero k wait w = none
  process_transactions moments times rounds turns account chain_id (suc fuel) k wait w =
      elim (first (get_next_transactions_to_process w.db account 1 chain_id)) [
        | none ↦ some (w, ok [])
        | some tx ↦
            and_loop (process_one (moments k) (times k) rounds turns wait tx w)
              (process_transactions moments times rounds turns account chain_id fuel (suc k))
      ]
