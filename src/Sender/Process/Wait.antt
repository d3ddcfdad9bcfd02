-- ===== src/Sender/Process/Wait.antt =====
-- The end of a turn of the loop of `process_transaction`, for a transaction that is not confirmed:
-- it is replaced, sent again, or left for later, with an event where its gas price is too low.
-- sender/process.rs.
use erc20_payment_lib.Prelude.{
  ℕ, ◌+◌, ◌-◌, Bool, true, false, Option, none, some, ltb, leb, ◌==◌, if◌then◌else◌, ok, panic,
  ok_or,
}
use erc20_payment_lib.Error.{Result, custom_error, transaction_failed_error}
use erc20_payment_lib.Convert.{to_gwei, str_to_gwei}
use erc20_payment_lib.Db.{TxDbObj, update_tx, is_null}
use erc20_payment_lib.Events.{GasLowInfo, transaction_stuck, TransactionStuckReason}
use erc20_payment_lib.Node.{Block}
use erc20_payment_lib.World.{
  Run, pure, lift, ◌>>=◌, ◌>>◌, change_db, send_driver_event, set_message,
}
use erc20_payment_lib.Transaction.Send.{send_transaction}
use erc20_payment_lib.Transaction.Receipt.{datetime_from_u256_timestamp}
use erc20_payment_lib.Sender.Setup.{ChainSetup}
use erc20_payment_lib.Sender.Settle.{replaced, unknown}
use erc20_payment_lib.Sender.Process.Outside.{Outside, Moment, Step, go, stop}
use erc20_payment_lib.Sender.Process.Nonce.{get_transaction_count}
use erc20_payment_lib.Sender.Process.Replace.{due_replacement, store_replacement}

module _ (outside : Outside) (chain_setup : ChainSetup) (moment : Moment) where
  abbrev min_priority_fee_gwei : ℕ → ℕ
  min_priority_fee_gwei chain_id =
      if chain_id == 137 then 30_000_000_000 else if chain_id == 80_001 then 1_000_000_000 else 0

  abbrev low_gas_info : TxDbObj → ℕ → ℕ → ℕ → ℕ → GasLowInfo
  low_gas_info tx max_fee date number base_fee = record {
    tx = tx;
    tx_max_fee_per_gas_gwei = max_fee;
    block_date = date;
    block_number = number;
    block_base_fee_per_gas_gwei = base_fee;
    assumed_min_priority_fee_gwei = min_priority_fee_gwei tx.chain_id;
  }

  abbrev base_fee_or_zero : Option ℕ → ℕ
  base_fee_or_zero none = 0
  base_fee_or_zero (some fee) = fee

  abbrev report_low_gas : TxDbObj → Block → ℕ → ℕ → Option ℕ → Run (Unit {0})
  report_low_gas tx block base_fee max_fee none = pure tt
  report_low_gas tx block base_fee max_fee (some date) =
      if ltb max_fee (base_fee + min_priority_fee_gwei tx.chain_id)
      then elim block.number [
        | none ↦ lift panic
        | some number ↦ send_driver_event (
            transaction_stuck
              (TransactionStuckReason.gas_price_low (low_gas_info tx max_fee date number base_fee)))
      ]
      else pure tt

  -- Is the gas price the reason that the transaction waits?
  unfoldable pub check_gas_price : TxDbObj → Result (Option Block) → Run (Unit {0})
  check_gas_price tx (ok (some block)) = do
    base_fee ← lift (to_gwei (base_fee_or_zero block.base_fee_per_gas))
    max_fee_str ←
        lift (ok_or tx.max_fee_per_gas (transaction_failed_error "Max fee per gas not found"))
    max_fee ← lift (str_to_gwei outside.codec max_fee_str)
    date ← lift (datetime_from_u256_timestamp outside.hex block.timestamp)
    report_low_gas tx block base_fee max_fee date
  check_gas_price tx panic = lift panic
  check_gas_price tx _ = pure tt

  abbrev is_timed_out : Option ℕ → Bool
  is_timed_out none = false
  is_timed_out (some date) = ltb chain_setup.transaction_timeout (moment.now - date)

  unfoldable pub check_timeout : TxDbObj → Run (Unit {0})
  unfolding check_gas_price
  check_timeout tx =
      if is_timed_out tx.first_processed
      then (if is_null tx.broadcast_date
          then pure tt
          else check_gas_price tx (moment.web3.eth_block none))
      else pure tt

  -- The same transaction, sent once more.
  unfoldable pub resend : TxDbObj → Run Step
  resend tx = do
    set_message tx.id "Resending transaction"
    sent ←
        send_transaction outside.codec outside.hex moment.web3 chain_setup.glm_address moment.now tx
    let counted = record sent { broadcast_count = sent.broadcast_count + 1 }
    change_db (update_tx counted)
    pure (go counted)

  abbrev check_and_wait : Bool → TxDbObj → Run Step
  check_and_wait wait_for_confirmation tx = do
    check_timeout tx
    pure (if wait_for_confirmation then go tx else stop tx unknown)

  -- The end of the round, from `pending_nonce`.
  unfoldable pub send_again_or_wait : Bool → TxDbObj → ℕ → Run Step
  unfolding resend check_timeout
  send_again_or_wait wait_for_confirmation tx pending_nonce = do
    nonce ← lift (ok_or tx.nonce (custom_error "Nonce not found"))
    if leb pending_nonce nonce then resend tx else check_and_wait wait_for_confirmation tx

  unfoldable pub replace_or_wait : Bool → ℕ → TxDbObj → Run Step
  unfolding send_again_or_wait due_replacement
  replace_or_wait wait_for_confirmation from_addr tx = do
    pending_nonce ← lift (get_transaction_count moment.web3 from_addr true)
    replacement ← lift (due_replacement outside.codec chain_setup moment.now tx)
    elim replacement [
      | some fees ↦ do
        change_db (store_replacement outside.codec moment.now tx fees)
        pure (stop tx replaced)
      | none ↦ send_again_or_wait wait_for_confirmation tx pending_nonce
    ]
