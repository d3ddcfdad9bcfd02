-- ===== src/Sender/Process/Round.antt =====
-- One turn of the loop of `process_transaction`, and the whole function: sender/process.rs.
-- `none` stands for code that has not returned within the fuel.
use erc20_payment_lib.Prelude.{
  ℕ, zero, suc, ◌+◌, Bool, true, false, Option, none, some, ltb, leb, if◌then◌else◌, ok, err, panic,
  ok_or,
}
use erc20_payment_lib.Error.{Result, custom_error}
use erc20_payment_lib.Db.{TxDbObj}
use erc20_payment_lib.World.{World, Run, pure, lift, ◌>>=◌, ◌>>◌, set_message}
use erc20_payment_lib.Sender.Setup.{ChainSetup, PaymentSetup}
use erc20_payment_lib.Sender.Settle.{confirmed, do_not_save}
use erc20_payment_lib.Sender.Process.Outside.{Outside, Moment, Step, go, stop}
use erc20_payment_lib.Sender.Process.Nonce.{get_transaction_count, rpc_result}
use erc20_payment_lib.Sender.Process.Start.{find_signer, start}
use erc20_payment_lib.Sender.Process.Receipts.{find_in_chain, no_receipt}
use erc20_payment_lib.Sender.Process.CleanUp.{clean_up, cleaned}
use erc20_payment_lib.Sender.Process.Wait.{replace_or_wait}

-- A `Run` that may not end.
abbrev pub Loop {ℓ} : Type ℓ → Type ℓ
Loop A = World → Option (World × Result A)

-- What follows on a row that goes on.
abbrev pub and_then :
    Option (World × Result Step) → (TxDbObj → Loop Step) → Option (World × Result Step)
and_then none next = none
and_then (some (w, err e)) next = some (w, err e)
and_then (some (w, panic)) next = some (w, panic)
and_then (some (w, ok (stop tx result))) next = some (w, ok (stop tx result))
and_then (some (w, ok (go tx))) next = next tx w

module _ (outside : Outside) (setup : PaymentSetup) (chain_setup : ChainSetup)
    (moment : Moment) where
  -- The end for a confirmed transaction.
  unfoldable pub finish_confirmed : TxDbObj → TxDbObj → Loop Step
  finish_confirmed web3_tx current_tx w = elim (clean_up current_tx web3_tx w.db) [
    | none ↦ none
    | some (err e) ↦ some (w, err e)
    | some panic ↦ some (w, panic)
    | some (ok db) ↦ some (
        (do set_message web3_tx.id ""; pure (stop (cleaned current_tx) confirmed))
          (record w { db = db }))
  ]

  -- A receipt: the transaction is confirmed, or has to wait for more blocks.
  unfoldable pub on_receipt : Option ℕ → TxDbObj → TxDbObj → ℕ → Loop Step
  unfolding finish_confirmed
  on_receipt none web3_tx current_tx current_block w =
      some (w, err (custom_error "Block number not found on dao for tx"))
  on_receipt (some block_number) web3_tx current_tx current_block w =
      if leb (block_number + chain_setup.confirmation_blocks) current_block
      then finish_confirmed web3_tx (record current_tx { confirm_date = some moment.now }) w
      else some (w, ok (go web3_tx))

  -- The branch `latest_nonce > db_nonce`; `turns` bounds the receipts asked for.
  unfoldable pub check_receipts : ℕ → TxDbObj → ℕ → Loop Step
  unfolding on_receipt find_in_chain no_receipt
  check_receipts turns tx current_block w =
      elim (find_in_chain outside.codec outside.hex moment.retry w.db turns 0 tx.orig_tx_id tx) [
        | none ↦ none
        | some (err e) ↦ some (w, err e)
        | some panic ↦ some (w, panic)
        | some (ok (current_tx, some price)) ↦
            on_receipt current_tx.block_number tx current_tx current_block w
        | some (ok (current_tx, none)) ↦ some (no_receipt setup moment.now tx w)
      ]

  -- What the round reads first: whether the nonce of the row has been used, and the last block.
  unfoldable pub read_chain : ℕ → TxDbObj → Run (Bool × ℕ)
  read_chain from_addr tx = do
    set_message tx.id "Confirmations - checking nonce"
    latest_nonce ← lift (rpc_result (get_transaction_count moment.web3 from_addr false))
    current_block ← lift (rpc_result moment.web3.eth_block_number)
    db_nonce ← lift (ok_or tx.nonce (custom_error "Nonce should be present in db"))
    pure (ltb db_nonce latest_nonce, current_block)

  abbrev pub look_for_receipt :
      ℕ → TxDbObj → World × Result (Bool × ℕ) → Option (World × Result Step)
  look_for_receipt turns tx (w, err e) = some (w, err e)
  look_for_receipt turns tx (w, panic) = some (w, panic)
  look_for_receipt turns tx (w, ok (false, current_block)) = some (w, ok (go tx))
  look_for_receipt turns tx (w, ok (true, current_block)) =
      check_receipts turns tx current_block
        ((set_message tx.id "Confirmations - checking receipt" w).0)

  unfoldable pub round : ℕ → Bool → ℕ → TxDbObj → Loop Step
  unfolding read_chain check_receipts replace_or_wait
  round turns wait from_addr tx w =
      and_then (look_for_receipt turns tx (read_chain from_addr tx w))
        (λ row w'. some (replace_or_wait outside chain_setup moment wait from_addr row w'))

module _ (outside : Outside) (setup : PaymentSetup) (moments : ℕ → Moment) where
  -- The loop. `rounds` bounds its turns, `turns` those of the loop inside; the k-th round sees
  -- the k-th moment.
  unfoldable pub rounds_from : ChainSetup → ℕ → ℕ → Bool → ℕ → ℕ → TxDbObj → Loop Step
  unfolding round
  rounds_from chain_setup zero turns wait from_addr k tx w = none
  rounds_from chain_setup (suc rounds) turns wait from_addr k tx w =
      and_then (round outside setup chain_setup (moments k) turns wait from_addr tx w)
        (rounds_from chain_setup rounds turns wait from_addr (suc k))

  -- From the address that signs.
  unfoldable pub process_signed :
      ℕ → ℕ → Bool → ChainSetup → TxDbObj → World × Result ℕ → Option (World × Result Step)
  unfolding start rounds_from
  process_signed rounds turns wait chain_setup tx (w, err e) = some (w, err e)
  process_signed rounds turns wait chain_setup tx (w, panic) = some (w, panic)
  process_signed rounds turns wait chain_setup tx (w, ok from_addr) =
      and_then (some (start outside (moments 0) chain_setup tx from_addr w))
        (rounds_from chain_setup rounds turns wait from_addr 1)

  -- The row and the result where the function returns. A step that goes on does not come out of
  -- the loop.
  unfoldable pub process_transaction : ℕ → ℕ → Bool → TxDbObj → Loop Step
  unfolding find_signer process_signed
  process_transaction rounds turns wait tx w = elim (setup.chain_setup tx.chain_id) [
    | none ↦ some (w, ok (stop tx do_not_save))
    | some chain_setup ↦ process_signed rounds turns wait chain_setup tx (find_signer outside tx w)
  ]
