-- ===== src/Runtime/Refusals.antt =====
-- What a deposit that is closed does to the payments that come later.
use erc20_payment_lib.Prelude.{
  ℕ, ◌≡◌, String, List, [], ◌∷◌, ◌++◌, Bool, true, some, ok, ◌==◌, All, arith, Bool-cases, inl, inr,
  subst, sym,
}
use erc20_payment_lib.Error.{Result, custom}
use erc20_payment_lib.Text.{Codec}
use erc20_payment_lib.Db.{
  Db, TokenTransferDbObj, check_if_deposit_closed, update_where, update_token_transfer,
  insert_token_transfer, insert_token_transfer_with_deposit_check, remap_token_transfer_tx,
  cleanup_token_transfer_tx,
}
use erc20_payment_lib.Node.{Hex}
use erc20_payment_lib.Runtime.Deposits.{CloseDepositOptionsInt, DepositDetails, close_deposit}
use erc20_payment_lib.Runtime.Closing.{Any, IsClosing, is_of, closing_counts, close_deposit-Closing}

-- The row agrees with the stored one, where it has its id, on the deposit and its closing.
abbrev pub IsUpToDate : TokenTransferDbObj → TokenTransferDbObj → Type 0
IsUpToDate t r =
    (r.id == t.id) ≡ true
    → (t.chain_id ≡ r.chain_id)
      × (t.deposit_id ≡ r.deposit_id)
      × (t.deposit_finish ≡ r.deposit_finish)

-- What happens to the database later: a transfer is inserted, transfers get another transaction or
-- lose theirs, a transfer is stored again from a row that is up to date, or other tables change.
pub data Later : Db → Db → Type 0 where
  inserted :
      (now : ℕ) (t : TokenTransferDbObj) (db : Db) → Later db ((insert_token_transfer now t db).0)
  remapped : (old new : ℕ) (db : Db) → Later db (remap_token_transfer_tx old new db)
  cleaned_up : (tx_id : ℕ) (db : Db) → Later db (cleanup_token_transfer_tx tx_id db)
  updated :
      (t : TokenTransferDbObj) (db : Db)
      → All (IsUpToDate t) db.token_transfers
      → Later db (update_token_transfer t db)
  elsewhere : (db db' : Db) → db'.token_transfers ≡ db.token_transfers → Later db db'

pub data AllLater (db : Db) : Db → Type 0 where
  at_once : AllLater db db
  after : {db' db'' : Db} → AllLater db db' → Later db' db'' → AllLater db db''

module _ (chain_id : ℕ) (id : String) where
  abbrev IsClosed : Db → Type 0
  IsClosed db = Any (IsClosing chain_id id) db.token_transfers

  still_inserted :
      (rows more : List TokenTransferDbObj)
      → Any (IsClosing chain_id id) rows
      → Any (IsClosing chain_id id) (rows ++ more)
  still_inserted [] more h = absurd h
  still_inserted (r ∷ rows) more (inl here) = inl here
  still_inserted (r ∷ rows) more (inr later) = inr (still_inserted rows more later)

  still_changed :
      (p : TokenTransferDbObj → Bool) (f : TokenTransferDbObj → TokenTransferDbObj)
      (rows : List TokenTransferDbObj)
      → ((r : TokenTransferDbObj) → IsClosing chain_id id r → IsClosing chain_id id (f r))
      → Any (IsClosing chain_id id) rows
      → Any (IsClosing chain_id id) (update_where p f rows)
  unfolding update_where
  still_changed p f [] keeps h = h
  still_changed p f (r ∷ rows) keeps (inl here) = elim (Bool-cases (p r)) [
    | inl e ↦ rw e (inl (keeps r here))
    | inr e ↦ rw e (inl here)
  ]
  still_changed p f (r ∷ rows) keeps (inr later) = inr (still_changed p f rows keeps later)

  still_updated :
      (t : TokenTransferDbObj) (rows : List TokenTransferDbObj)
      → All (IsUpToDate t) rows
      → Any (IsClosing chain_id id) rows
      → Any
          (IsClosing chain_id id)
          (update_where (λ r. r.id == t.id) (λ r. record t { create_date = r.create_date }) rows)
  unfolding update_where
  still_updated t [] fresh h = h
  still_updated t (r ∷ rows) (now, rest) (inl (of, finish)) = elim (Bool-cases (r.id == t.id)) [
    | inr e ↦ rw e (inl (of, finish))
    | inl e ↦
        let (chain, deposit, same) = now e in
        let of' : is_of chain_id id t ≡ true = rw (chain, deposit) of in
        let finish' : t.deposit_finish ≡ 1 = rw same finish in rw e (inl (of', finish'))
  ]
  still_updated t (r ∷ rows) (now, rest) (inr later) = inr (still_updated t rows rest later)

  Later-IsClosed : {db db' : Db} → Later db db' → IsClosed db → IsClosed db'
  unfolding insert_token_transfer remap_token_transfer_tx cleanup_token_transfer_tx
      update_token_transfer
  Later-IsClosed (inserted now t db) h = still_inserted db.token_transfers _ h
  Later-IsClosed (remapped old new db) h = still_changed _ _ db.token_transfers (λ r c. c) h
  Later-IsClosed (cleaned_up tx_id db) h = still_changed _ _ db.token_transfers (λ r c. c) h
  Later-IsClosed (updated t db fresh) h = still_updated t db.token_transfers fresh h
  Later-IsClosed (elsewhere db db' same) h = subst (Any (IsClosing chain_id id)) (sym same) h

  AllLater-IsClosed : {db db' : Db} → AllLater db db' → IsClosed db → IsClosed db'
  AllLater-IsClosed at_once h = h
  AllLater-IsClosed (after first step) h = Later-IsClosed step (AllLater-IsClosed first h)

  closed-refuses :
      (db : Db) (later : ℕ) (payment : TokenTransferDbObj)
      → IsClosed db
      → payment.chain_id ≡ chain_id
      → payment.deposit_id ≡ some id
      → insert_token_transfer_with_deposit_check later payment db
        ≡ custom "Cannot add token_transfer to already finished deposit"
  unfolding insert_token_transfer_with_deposit_check check_if_deposit_closed
  closed-refuses db later payment closed on_chain of_deposit =
      let counted = closing_counts chain_id id db.token_transfers closed in
      rw (of_deposit, on_chain) (ground (arith, counted))

-- Let a deposit be closed, and let any sequence of later changes of the database follow: insertions
-- of transfers, changes of their transactions, updates of transfers from rows that are up to date
-- in the deposit and its closing, and anything in other tables. Then a payment on the same chain
-- that names the deposit in the spelling that `close_deposit` uses is refused: its insertion fails.
pub close_deposit-refuses :
    (c : Codec) (hex : Hex) (now chain_id from : ℕ) (opt : CloseDepositOptionsInt)
    (details : Result DepositDetails) (db : Db) {closed last : Db} (later : ℕ)
    (payment : TokenTransferDbObj)
    → close_deposit c hex now details chain_id from opt db ≡ ok closed
    → AllLater closed last
    → payment.chain_id ≡ chain_id
    → payment.deposit_id ≡ some (hex.u256_to_hex opt.deposit_id)
    → insert_token_transfer_with_deposit_check later payment last
      ≡ custom "Cannot add token_transfer to already finished deposit"
close_deposit-refuses c hex now chain_id from opt details db {closed} {last} later payment h changes
      on_chain of_deposit =
    let id = hex.u256_to_hex opt.deposit_id in
    closed-refuses chain_id id last later payment
      (AllLater-IsClosed chain_id id changes
        (close_deposit-Closing c hex now chain_id from opt details db h))
      on_chain of_deposit
