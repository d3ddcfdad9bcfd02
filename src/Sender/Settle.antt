-- ===== src/Sender/Settle.antt =====
-- What is stored when a transaction has been processed: `update_token_transfer_result`,
-- `update_approve_result` and `update_tx_result` of
-- crates/erc20_payment_lib/src/sender/service.rs. The clock is read once, as `now`. An error or a
-- panic leaves the database as it was, since the SQL transaction is dropped before its commit.
pub mod Rows
pub mod Paid
pub mod Routing
use mathlib.Core.Option
use erc20_payment_lib.Prelude.{
  ℕ, List, [], ◌∷◌, map, Option, none, some, String, ok, err, panic, ◌>>=◌, Bool, true, false, ◌||◌,
  str_eq, if◌then◌else◌,
}
use erc20_payment_lib.Text.{Codec}
use erc20_payment_lib.Error.{Result, custom, conversion_error}
use erc20_payment_lib.Db.{
  Db, TxDbObj, TokenTransferDbObj, AllowanceDbObj, get_token_transfers_by_tx, update_token_transfer,
  update_tx, get_allowance_by_tx, update_allowance,
}
use erc20_payment_lib.Events.{DriverEventContent, transfer_finished, approve_finished}
use erc20_payment_lib.Sender.Fees.{distribute_fee}
use text.Mathlib.Text.{starts_with}

pub data ProcessTransactionResult : Type 0 where
  confirmed : ProcessTransactionResult
  replaced : ProcessTransactionResult
  need_retry : String → ProcessTransactionResult
  internal_error : String → ProcessTransactionResult
  do_not_save : ProcessTransactionResult
  do_not_save_wait_for_gas_or_token : ProcessTransactionResult
  unknown : ProcessTransactionResult

-- What a handler leaves: the row in memory, the database, and the events sent.
pub record Settled : Type 0 where
  pub tx : TxDbObj
  pub db : Db
  pub events : List DriverEventContent

-- The fee of each transfer, `None` for all where the transaction has none.
unfoldable pub transfer_fees :
    Codec → Option String → List TokenTransferDbObj → Result (List (Option ℕ))
transfer_fees c none tts = ok (map (λ _. none) tts)
transfer_fees c (some fee_paid) tts = elim (c.from_dec_str fee_paid) [
  | none ↦ err conversion_error
  | some val ↦ distribute_fee val tts
]

abbrev pub mark_paid : Codec → ℕ → TokenTransferDbObj → Option ℕ → TokenTransferDbObj
mark_paid c now t fee = record t { paid_date = some now; fee_paid = Option.map c.to_dec fee }

-- `for (token_transfer, fee_paid) in token_transfers.iter_mut().zip(distribute_fee)`
unfoldable pub pay_transfers :
    Codec → ℕ → List TokenTransferDbObj → List (Option ℕ) → Db → Db × List TokenTransferDbObj
pay_transfers c now [] fees db = (db, [])
pay_transfers c now (t ∷ tts) [] db = (db, t ∷ tts)
pay_transfers c now (t ∷ tts) (fee ∷ fees) db =
    let paid = mark_paid c now t fee in
    let (db', rest) = pay_transfers c now tts fees (update_token_transfer paid db) in
    (db', paid ∷ rest)

-- The arms `NeedRetry` and `InternalError`.
unfoldable pub fail_transfers : String → List TokenTransferDbObj → Db → Db
fail_transfers message [] db = db
fail_transfers message (t ∷ tts) db =
    fail_transfers message tts
      (update_token_transfer (record t { fee_paid = some "0"; error = some message }) db)

unfoldable pub fail_token_transfers : String → TxDbObj → Db → Settled
unfolding fail_transfers
fail_token_transfers message tx db =
    let tx' = record tx { processing = 0; error = some message } in
    record {
      tx = tx';
      db = update_tx tx' (fail_transfers message (get_token_transfers_by_tx db tx.id) db);
      events = [];
    }

unfoldable pub keep_processing : TxDbObj → Db → Settled
keep_processing tx db =
    let tx' = record tx { processing = 1 } in
    record { tx = tx'; db = update_tx tx' db; events = [] }

-- The arm `Confirmed`, for the transfers read from the database.
unfoldable pub confirm_token_transfers :
    Codec → ℕ → TxDbObj → List TokenTransferDbObj → Db → Result Settled
confirm_token_transfers c now tx [] db = custom "Transaction has no attached token transfers in db"
confirm_token_transfers c now tx (t ∷ tts) db = transfer_fees c tx.fee_paid (t ∷ tts) >>= λ fees.
    let tx' = record tx { processing = 0 } in
    let (db', paid) = pay_transfers c now (t ∷ tts) fees db in
    ok (record {
      tx = tx';
      db = update_tx tx' db';
      events = map (λ p. transfer_finished (record { token_transfer_dao = p; tx_dao = tx' })) paid;
    })

unfoldable pub update_token_transfer_result :
    Codec → ℕ → TxDbObj → Db → ProcessTransactionResult → Result Settled
unfolding fail_token_transfers keep_processing
update_token_transfer_result c now tx db confirmed =
    confirm_token_transfers c now tx (get_token_transfers_by_tx db tx.id) db
update_token_transfer_result c now tx db (need_retry message) =
    ok (fail_token_transfers message tx db)
update_token_transfer_result c now tx db (internal_error message) =
    ok (fail_token_transfers message tx db)
update_token_transfer_result c now tx db unknown = ok (keep_processing tx db)
update_token_transfer_result c now tx db _ = ok (record { tx = tx; db = db; events = [] })

unfoldable pub fail_approve : String → TxDbObj → Db → Result Settled
fail_approve message tx db = get_allowance_by_tx db tx.id >>= λ a.
    let tx' = record tx { processing = 0; error = some message } in
    ok (record {
      tx = tx';
      db =
          update_tx tx'
            (update_allowance (record a { fee_paid = some "0"; error = some message }) db);
      events = [];
    })

unfoldable pub confirm_approve : TxDbObj → Db → Result Settled
confirm_approve tx db = get_allowance_by_tx db tx.id >>= λ a.
    let tx' = record tx { processing = 0 } in
    let a' = record a { fee_paid = tx.fee_paid } in
    ok (record {
      tx = tx';
      db = update_tx tx' (update_allowance a' db);
      events = approve_finished a' ∷ [];
    })

unfoldable pub update_approve_result : TxDbObj → Db → ProcessTransactionResult → Result Settled
unfolding fail_approve confirm_approve keep_processing
update_approve_result tx db confirmed = confirm_approve tx db
update_approve_result tx db (need_retry message) = fail_approve message tx db
update_approve_result tx db (internal_error message) = fail_approve message tx db
update_approve_result tx db unknown = ok (keep_processing tx db)
update_approve_result tx db _ = ok (record { tx = tx; db = db; events = [] })

abbrev store : TxDbObj → Db → Settled
store tx db = record { tx = tx; db = update_tx tx db; events = [] }

unfoldable pub update_tx_result : TxDbObj → Db → ProcessTransactionResult → Settled
unfolding keep_processing
update_tx_result tx db confirmed = store (record tx { processing = 0 }) db
update_tx_result tx db (need_retry message) =
    store (record tx { processing = 0; error = some "Need retry" }) db
update_tx_result tx db (internal_error message) =
    store (record tx { processing = 0; error = some message }) db
update_tx_result tx db unknown = keep_processing tx db
update_tx_result tx db _ = record { tx = tx; db = db; events = [] }

-- The methods whose transactions carry token transfers, as `process_transactions` tests them.
unfoldable pub is_token_transfer_method : String → Bool
is_token_transfer_method method =
    starts_with method "MULTI.golemTransfer"
    || str_eq method "ERC20.transfer"
    || str_eq method "transfer"

-- The choice of handler in `process_transactions`.
unfoldable pub update_result : Codec → ℕ → TxDbObj → Db → ProcessTransactionResult → Result Settled
unfolding is_token_transfer_method update_token_transfer_result update_approve_result
    update_tx_result
update_result c now tx db res =
    if is_token_transfer_method tx.method
    then update_token_transfer_result c now tx db res
    else if str_eq tx.method "ERC20.approve"
    then update_approve_result tx db res
    else ok (update_tx_result tx db res)
