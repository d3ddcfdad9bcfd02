-- ===== src/Sender/Process/Start.antt =====
-- From a row to a transaction that has been sent: the part of `process_transaction` before its
-- loop, in sender/process.rs.
use erc20_payment_lib.Prelude.{
  ℕ, ◌+◌, Option, none, some, ltb, if◌then◌else◌, ok, err, panic, ok_or,
}
use erc20_payment_lib.Error.{transaction_failed_error}
use erc20_payment_lib.Convert.{to_eth}
use erc20_payment_lib.Db.{TxDbObj, update_tx, update_processing_and_first_processed_tx, is_null}
use erc20_payment_lib.Events.{cant_sign, CantSignContent, transaction_stuck, TransactionStuckReason}
use erc20_payment_lib.World.{
  Run, pure, lift, raise, ◌>>=◌, ◌>>◌, change_db, send_driver_event, set_message,
}
use erc20_payment_lib.Transaction.Check.{check_transaction}
use erc20_payment_lib.Transaction.Send.{sign_transaction_with_callback, send_transaction}
use erc20_payment_lib.Sender.Setup.{ChainSetup}
use erc20_payment_lib.Sender.Settle.{confirmed, do_not_save_wait_for_gas_or_token}
use erc20_payment_lib.Sender.Process.Outside.{Outside, Moment, Step, go, stop}
use erc20_payment_lib.Sender.Process.Nonce.{assign_nonce}

module _ (outside : Outside) where
  -- `from_addr`, where the signer can sign for it.
  unfoldable pub find_signer : TxDbObj → Run ℕ
  find_signer tx = do
    from_addr ← lift (
        ok_or (outside.codec.address_from_str tx.from_addr)
          (transaction_failed_error "Failed to parse from_addr"))
    elim (outside.signer.check_if_sign_possible from_addr) [
      | ok _ ↦ pure from_addr
      | err e ↦ do
        send_driver_event (cant_sign (CantSignContent.tx tx))
        raise (transaction_failed_error "Sign won't be possible for given address")
      | panic ↦ lift panic
    ]

module _ (outside : Outside) (moment : Moment) (chain_setup : ChainSetup) where
  unfoldable pub with_nonce : TxDbObj → ℕ → Run TxDbObj
  with_nonce tx from_addr = elim tx.nonce [
    | some nonce ↦ pure tx
    | none ↦ do
      set_message tx.id "Obtaining transaction nonce"
      λ w. lift (assign_nonce outside moment.web3 chain_setup w.db tx from_addr) w
  ]

  unfoldable pub with_first_processed : TxDbObj → Run TxDbObj
  with_first_processed tx = elim tx.first_processed [
    | some date ↦ pure tx
    | none ↦ do
      let row = record tx { first_processed = some moment.now; processing = 1 }
      change_db (update_processing_and_first_processed_tx row)
      pure row
  ]

  -- `gas_balance < res`: the event, and the end for now.
  unfoldable pub report_no_gas : TxDbObj → ℕ → ℕ → Run Step
  report_no_gas tx gas_balance gas_needed = do
    balance ← lift (to_eth gas_balance)
    needed ← lift (to_eth gas_needed)
    send_driver_event (
        transaction_stuck (
          TransactionStuckReason.no_gas
            (record { tx = tx; gas_balance = balance; gas_needed = needed })))
    pure (stop tx do_not_save_wait_for_gas_or_token)

  unfoldable pub compare_balance : TxDbObj → ℕ → Option (ℕ × TxDbObj) → Run Step
  unfolding report_no_gas
  compare_balance tx from_addr none = pure (stop tx do_not_save_wait_for_gas_or_token)
  compare_balance tx from_addr (some (needed, checked)) = do
    gas_balance ← lift (moment.web3.eth_balance from_addr)
    if ltb gas_balance needed then report_no_gas checked gas_balance needed else pure (go checked)

  unfoldable pub check_original : TxDbObj → ℕ → Run Step
  unfolding compare_balance
  check_original tx from_addr = do
    set_message tx.id "Checking transaction"
    checked ← check_transaction outside.codec outside.hex moment.web3 chain_setup.glm_address tx
    compare_balance tx from_addr checked

  -- A replacement is not checked.
  abbrev pub check_by : Option ℕ → TxDbObj → ℕ → Run Step
  check_by none tx from_addr = check_original tx from_addr
  check_by (some orig) tx from_addr = pure (go tx)

  unfoldable pub check_funds : TxDbObj → ℕ → Run Step
  unfolding check_original
  check_funds tx from_addr = check_by tx.orig_tx_id tx from_addr

  unfoldable pub sign_checked : ℕ → Step → Run Step
  sign_checked from_addr (stop tx result) = pure (stop tx result)
  sign_checked from_addr (go tx) = do
    set_message tx.id "Signing transaction"
    signed ←
        sign_transaction_with_callback outside.codec outside.hex outside.signer moment.now tx
          from_addr
    change_db (update_tx signed)
    pure (go signed)

  unfoldable pub with_signature : TxDbObj → ℕ → Run Step
  unfolding check_funds sign_checked
  with_signature tx from_addr = elim tx.signed_raw_data [
    | some signed ↦ pure (go tx)
    | none ↦ do step ← check_funds tx from_addr; sign_checked from_addr step
  ]

  unfoldable pub broadcast : TxDbObj → Run TxDbObj
  broadcast tx = elim tx.broadcast_date [
    | some date ↦ pure tx
    | none ↦ do
      set_message tx.id "Sending transaction"
      let counted = record tx { broadcast_count = tx.broadcast_count + 1 }
      change_db (update_tx counted)
      sent ←
          send_transaction outside.codec outside.hex moment.web3 chain_setup.glm_address moment.now
            counted
      change_db (update_tx sent)
      pure sent
  ]

  abbrev unless_confirmed : TxDbObj → Step
  unless_confirmed tx = if is_null tx.confirm_date then go tx else stop tx confirmed

  unfoldable pub broadcast_signed : Step → Run Step
  unfolding broadcast
  broadcast_signed (stop tx result) = pure (stop tx result)
  broadcast_signed (go tx) = do sent ← broadcast tx; pure (unless_confirmed sent)

  -- All of the function before its loop.
  unfoldable pub start : TxDbObj → ℕ → Run Step
  unfolding with_nonce with_first_processed with_signature broadcast_signed
  start tx from_addr = do
    numbered ← with_nonce tx from_addr
    row ← with_first_processed numbered
    step ← with_signature row from_addr
    broadcast_signed step
