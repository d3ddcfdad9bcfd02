-- ===== src/Sender/Process/Confirms.antt =====
-- A turn of the loop of sender/process.rs for a transaction whose receipt lies deep enough.
use mathlib.Core.Option
use erc20_payment_lib.Prelude.{
  ℕ, suc, ◌+◌, ◌*◌, ◌≤◌, ◌<◌, ◌≡◌, ◌^◌, refl, Bool, true, false, none, some, ok, arith, ltb, leb,
  ◌==◌, ap, ◌∙◌, String,
}
use erc20_payment_lib.Text.{Codec, u256_mod}
use erc20_payment_lib.U256.{mul_u256-eq_ok, as_u64-eq_ok}
use erc20_payment_lib.Db.{Db, TxDbObj, update_tx}
use erc20_payment_lib.Node.{Web3, Hex, Block, TransactionReceipt}
use erc20_payment_lib.World.{World, SharedState, set_tx_message}
use erc20_payment_lib.Transaction.Receipt.{find_receipt, with_receipt, datetime_from_u256_timestamp}
use erc20_payment_lib.Sender.Setup.{ChainSetup, PaymentSetup}
use erc20_payment_lib.Sender.Settle.{confirmed}
use erc20_payment_lib.Sender.Process.Outside.{Outside, Moment, Step, stop}
use erc20_payment_lib.Sender.Process.Nonce.{get_transaction_count}
use erc20_payment_lib.Sender.Process.Receipts.{find_in_chain}
use erc20_payment_lib.Sender.Process.CleanUp.{
  clean_up, clean_up_from, cleaned, find_orig, delete_others, remap_tx, store_cleaned,
}
use erc20_payment_lib.Sender.Process.Wait.{replace_or_wait}
use erc20_payment_lib.Sender.Process.Round.{
  Loop, and_then, look_for_receipt, round, read_chain, check_receipts, on_receipt, finish_confirmed,
}

-- The row of a transaction with the numbers of its receipt and of its block.
abbrev pub filled : Codec → TxDbObj → TransactionReceipt → Block → ℕ → ℕ → ℕ → ℕ → TxDbObj
filled c tx receipt block number date gas price = record tx {
  block_number = some number;
  chain_status = receipt.status;
  gas_used = some gas;
  effective_gas_price = some (c.to_dec price);
  block_gas_price = Option.map c.to_dec block.base_fee_per_gas;
  blockchain_date = some date;
  fee_paid = some (c.to_dec (gas * price));
}

-- What the node knows of a transaction that is in a block.
pub record IsMined (hex : Hex) (web3 : Web3) (tx : TxDbObj) (receipt : TransactionReceipt)
    (block : Block) (number date gas price : ℕ) : Type 0 where
  pub hash_text : String
  pub hash : ℕ
  pub has_hash : tx.tx_hash ≡ some hash_text
  pub reads_hash : hex.h256_from_str hash_text ≡ some hash
  pub has_receipt : web3.eth_transaction_receipt hash ≡ ok (some receipt)
  pub has_number : receipt.block_number ≡ some number
  pub has_gas : receipt.gas_used ≡ some gas
  pub has_price : receipt.effective_gas_price ≡ some price
  pub gas_fits : gas < 2 ^ 64
  pub fee_fits : gas * price < u256_mod
  pub has_block : web3.eth_block (some number) ≡ ok (some block)
  pub time_fits : block.timestamp < 2 ^ 64
  pub has_date : hex.from_timestamp block.timestamp ≡ some date

find_receipt-filled :
    (c : Codec) (hex : Hex) (web3 : Web3) (tx : TxDbObj) (receipt : TransactionReceipt)
    (block : Block) (number date gas price : ℕ)
    → IsMined hex web3 tx receipt block number date gas price
    → find_receipt c hex web3 tx ≡ ok (filled c tx receipt block number date gas price, some price)
unfolding find_receipt with_receipt datetime_from_u256_timestamp
find_receipt-filled c hex web3 tx receipt block number date gas price m = rw (
  m.has_hash,
  m.reads_hash,
  m.has_receipt,
  m.has_gas,
  as_u64-eq_ok gas m.gas_fits,
  m.has_number,
  m.has_block,
  as_u64-eq_ok block.timestamp m.time_fits,
  m.has_date,
  m.has_price,
  mul_u256-eq_ok gas price m.fee_fits,
)

same_id : (n : ℕ) → (n == n) ≡ true
same_id n = ground arith

clean_up-alone :
    (current tx : TxDbObj) (db : Db)
    → tx.orig_tx_id ≡ none
    → current.orig_tx_id ≡ none
    → current.id ≡ tx.id
    → clean_up current tx db ≡ some (ok (update_tx (cleaned current) db))
unfolding clean_up clean_up_from find_orig delete_others remap_tx
clean_up-alone current tx db alone alone' same =
    let found : find_orig (suc current.id) db current ≡ some (ok current) = rw alone' in
    let here : (tx.id == current.id) ≡ true = rw same (same_id tx.id) in
    let kept : delete_others (suc tx.id) current.id tx db ≡ some (ok db) =
      rw (here, alone, delete_others) in
    rw (found, clean_up_from, same_id current.id, kept, store_cleaned)

module _ (outside : Outside) (setup : PaymentSetup) (chain_setup : ChainSetup)
    (moment : Moment) where
  abbrev pub confirmed_row : TxDbObj → TransactionReceipt → Block → ℕ → ℕ → ℕ → ℕ → TxDbObj
  confirmed_row tx receipt block number date gas price =
      record (filled outside.codec tx receipt block number date gas price) {
        confirm_date = some moment.now;
        orig_tx_id = none;
        signed_raw_data = none;
      }

  on_receipt-confirmed :
      (tx current : TxDbObj) (number current_block : ℕ) (w : World)
      → tx.orig_tx_id ≡ none
      → current.orig_tx_id ≡ none
      → current.id ≡ tx.id
      → number + chain_setup.confirmation_blocks ≤ current_block
      → on_receipt outside setup chain_setup moment (some number) tx current current_block w
        ≡ some (
          record w {
            db = update_tx (cleaned (record current { confirm_date = some moment.now })) w.db;
            shared = set_tx_message tx.id "" w.shared;
          },
          ok (stop (cleaned (record current { confirm_date = some moment.now })) confirmed),
        )
  unfolding on_receipt finish_confirmed
  on_receipt-confirmed tx current number current_block w alone alone' same deep =
      let is_deep : leb (number + chain_setup.confirmation_blocks) current_block ≡ true =
        ground arith in
      rw (
        is_deep,
        clean_up-alone (record current { confirm_date = some moment.now }) tx w.db alone alone'
            same,
        finish_confirmed,
      )

  read_chain-used :
      (from_addr : ℕ) (tx : TxDbObj) (w : World) (nonce latest current_block : ℕ)
      → tx.nonce ≡ some nonce
      → get_transaction_count moment.web3 from_addr false ≡ ok latest
      → nonce < latest
      → moment.web3.eth_block_number ≡ ok current_block
      → read_chain outside setup chain_setup moment from_addr tx w ≡ (
        record w { shared = set_tx_message tx.id "Confirmations - checking nonce" w.shared },
        ok (true, current_block),
      )
  unfolding read_chain
  read_chain-used from_addr tx w nonce latest current_block has_nonce counted used last_block =
      let is_used : ltb nonce latest ≡ true = ground arith in
      rw (counted, last_block, has_nonce, is_used)

  found_at_once :
      (db : Db) (turns : ℕ) (tx : TxDbObj) (receipt : TransactionReceipt) (block : Block)
      (number date gas price : ℕ)
      → IsMined outside.hex (moment.retry 0) tx receipt block number date gas price
      → find_in_chain outside.codec outside.hex moment.retry db (suc turns) 0 tx.orig_tx_id tx
        ≡ some (ok (filled outside.codec tx receipt block number date gas price, some price))
  unfolding find_in_chain
  found_at_once db turns tx receipt block number date gas price mined = rw (
    find_receipt-filled outside.codec outside.hex (moment.retry 0) tx receipt block number date gas
        price mined,
    find_in_chain,
  )

  check_receipts-confirmed :
      (turns : ℕ) (tx : TxDbObj) (w : World) (receipt : TransactionReceipt) (block : Block)
      (current_block number date gas price : ℕ)
      → tx.orig_tx_id ≡ none
      → IsMined outside.hex (moment.retry 0) tx receipt block number date gas price
      → number + chain_setup.confirmation_blocks ≤ current_block
      → check_receipts outside setup chain_setup moment (suc turns) tx current_block w
        ≡ some (
          record w {
            db = update_tx (confirmed_row tx receipt block number date gas price) w.db;
            shared = set_tx_message tx.id "" w.shared;
          },
          ok (stop (confirmed_row tx receipt block number date gas price) confirmed),
        )
  unfolding check_receipts
  check_receipts-confirmed turns tx w receipt block current_block number date gas price alone mined
        deep =
      rw (found_at_once w.db turns tx receipt block number date gas price mined, check_receipts)
        (on_receipt-confirmed tx (filled outside.codec tx receipt block number date gas price)
          number current_block w alone alone refl deep)

  -- Let a transaction that replaces none be in a block, let its nonce be below the account's
  -- latest nonce, and let the block lie as deep as the settings ask. Then one turn of the loop,
  -- with any number of receipts that it may ask for from one on, returns it as confirmed: its row
  -- in the database has the numbers of the receipt, the product of the gas used and its price as
  -- the fee, and the date of now; nothing else in the database changes, and no event is sent.
  pub round-confirmed :
      (turns : ℕ) (wait : Bool) (from_addr : ℕ) (tx : TxDbObj) (w : World)
      (receipt : TransactionReceipt) (block : Block)
      (nonce latest current_block number date gas price : ℕ)
      → tx.orig_tx_id ≡ none
      → tx.nonce ≡ some nonce
      → get_transaction_count moment.web3 from_addr false ≡ ok latest
      → nonce < latest
      → moment.web3.eth_block_number ≡ ok current_block
      → IsMined outside.hex (moment.retry 0) tx receipt block number date gas price
      → number + chain_setup.confirmation_blocks ≤ current_block
      → (shared : SharedState) × (round outside setup chain_setup moment
            (suc turns)
            wait
            from_addr
            tx
            w
          ≡ some (
            record w {
              db = update_tx (confirmed_row tx receipt block number date gas price) w.db;
              shared = shared;
            },
            ok (stop (confirmed_row tx receipt block number date gas price) confirmed),
          ))
  unfolding round
  round-confirmed turns wait from_addr tx w receipt block nonce latest current_block number date gas
        price alone has_nonce counted used last_block mined deep =
      let next : TxDbObj → Loop Step =
        λ row w'. some (replace_or_wait outside chain_setup moment wait from_addr row w') in
      let seen : World = record w {
        shared = set_tx_message tx.id "Confirmations - checking nonce" w.shared;
      } in
      let asked : World = record seen {
        shared = set_tx_message tx.id "Confirmations - checking receipt" seen.shared;
      } in
      (
        set_tx_message tx.id "" asked.shared,
        ap (λ r. and_then (look_for_receipt outside setup chain_setup moment (suc turns) tx r) next)
              (read_chain-used from_addr tx w nonce latest current_block has_nonce counted used
                last_block)
            ∙ ap (λ r. and_then r next)
                (check_receipts-confirmed turns tx asked receipt block current_block number date gas
                  price alone mined deep),
      )
