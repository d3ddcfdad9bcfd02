-- ===== src/Sender/Process/Stall.antt =====
-- The loop over the chain of a replacement, while the node has no receipt.
use erc20_payment_lib.Prelude.{ℕ, zero, suc, ◌≡◌, refl, none, some, ok}
use erc20_payment_lib.Text.{Codec}
use erc20_payment_lib.Db.{Db, TxDbObj, get_transaction}
use erc20_payment_lib.Node.{Web3, Hex}
use erc20_payment_lib.Transaction.Receipt.{find_receipt}
use erc20_payment_lib.Sender.Process.Receipts.{find_in_chain}

-- At every time, the node has no receipt for the transaction `tx`.
abbrev pub HasNoReceipt : Codec → Hex → (ℕ → Web3) → TxDbObj → Type 0
HasNoReceipt c hex retry tx =
    (turn : ℕ) → (row : TxDbObj) × (find_receipt c hex (retry turn) tx ≡ ok (row, none))

-- Let a transaction replace another, and let the node have a receipt for neither of the two. Then
-- the search for a receipt in the chain has not ended after any number of turns, also where the
-- chain is longer and an older transaction has a receipt.
pub find_in_chain-stalls :
    (c : Codec) (hex : Hex) (retry : ℕ → Web3) (db : Db) (tx orig : TxDbObj) (orig_tx_id : ℕ)
    → get_transaction db orig_tx_id ≡ ok orig
    → HasNoReceipt c hex retry tx
    → HasNoReceipt c hex retry orig
    → (turns first_turn : ℕ)
    → find_in_chain c hex retry db turns first_turn (some orig_tx_id) tx ≡ none
unfolding find_in_chain
find_in_chain-stalls c hex retry db tx orig orig_tx_id found none_tx none_orig zero turn = refl
find_in_chain-stalls c hex retry db tx orig orig_tx_id found none_tx none_orig (suc turns) turn =
    let (row, e) = none_tx turn in
    rw (e, found, find_in_chain)
      (find_in_chain-stalls c hex retry db orig orig orig_tx_id found none_orig none_orig turns
        (suc turn))
