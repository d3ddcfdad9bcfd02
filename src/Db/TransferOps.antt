-- ===== src/Db/TransferOps.antt =====
-- db/ops/token_transfer_ops.rs.
use erc20_payment_lib.Prelude.{
  ℕ, suc, Bool, ◌&&◌, List, [], ◌∷◌, ◌++◌, Option, none, some, String, ◌==◌, ltb, if◌then◌else◌,
  str_eq, ok, length,
}
use erc20_payment_lib.Error.{Result, custom}
use erc20_payment_lib.Db.Schema.{Db, TokenTransferDbObj}
use erc20_payment_lib.Db.Table.{select, update_where, order_by, opt_is, is_null}

abbrev pub opt_str_is : Option String → String → Bool
opt_str_is none s = Bool.false
opt_str_is (some t) s = str_eq t s

-- `SELECT COUNT(*) … WHERE chain_id=$1 AND deposit_id=$2 AND deposit_finish=1`.
unfoldable pub check_if_deposit_closed : Db → ℕ → String → Bool
check_if_deposit_closed db chain_id deposit_id = ltb 0 (
    length (
      select
        (λ t. t.chain_id == chain_id && opt_str_is t.deposit_id deposit_id && t.deposit_finish == 1)
        db.token_transfers))

-- `create_date` is set by the statement, to the time `now`.
unfoldable pub insert_token_transfer : ℕ → TokenTransferDbObj → Db → Db × TokenTransferDbObj
insert_token_transfer now t db =
    let row = record t { id = suc db.last_transfer_id; create_date = now } in
    (
      record db {
        token_transfers = db.token_transfers ++ row ∷ [];
        last_transfer_id = suc db.last_transfer_id;
      },
      row,
    )

unfoldable pub insert_token_transfer_with_deposit_check :
    ℕ → TokenTransferDbObj → Db → Result (Db × TokenTransferDbObj)
unfolding check_if_deposit_closed insert_token_transfer
insert_token_transfer_with_deposit_check now t db = elim t.deposit_id [
  | none ↦ ok (insert_token_transfer now t db)
  | some deposit_id ↦
      if check_if_deposit_closed db t.chain_id deposit_id
      then custom "Cannot add token_transfer to already finished deposit"
      else ok (insert_token_transfer now t db)
]

unfoldable pub remap_token_transfer_tx : ℕ → ℕ → Db → Db
remap_token_transfer_tx old_tx_id new_tx_id db = record db {
  token_transfers =
      update_where (λ t. opt_is t.tx_id old_tx_id) (λ t. record t { tx_id = some new_tx_id })
        db.token_transfers;
}

unfoldable pub cleanup_token_transfer_tx : ℕ → Db → Db
cleanup_token_transfer_tx tx_id db = record db {
  token_transfers =
      update_where (λ t. opt_is t.tx_id tx_id)
        (λ t. record t { tx_id = none; fee_paid = none; error = none; paid_date = none })
        db.token_transfers;
}

-- The statement leaves `create_date` as it is.
unfoldable pub update_token_transfer : TokenTransferDbObj → Db → Db
update_token_transfer t db = record db {
  token_transfers =
      update_where (λ r. r.id == t.id) (λ r. record t { create_date = r.create_date })
        db.token_transfers;
}

unfoldable pub get_token_transfers_by_deposit_id : Db → ℕ → String → List TokenTransferDbObj
get_token_transfers_by_deposit_id db chain_id deposit_id =
    order_by (λ a b. ltb b.id a.id)
      (select (λ t. t.chain_id == chain_id && opt_str_is t.deposit_id deposit_id)
        db.token_transfers)

-- `tx_id is null AND error is null AND from_addr = $1 AND chain_id = $2`.
abbrev pub is_pending : String → ℕ → TokenTransferDbObj → Bool
is_pending account chain_id t =
    is_null t.tx_id && is_null t.error && str_eq t.from_addr account && t.chain_id == chain_id

unfoldable pub get_pending_token_transfers : Db → String → ℕ → List TokenTransferDbObj
get_pending_token_transfers db account chain_id =
    order_by (λ a b. ltb a.id b.id) (select (is_pending account chain_id) db.token_transfers)

unfoldable pub get_unpaid_token_transfers : Db → ℕ → String → List TokenTransferDbObj
get_unpaid_token_transfers db chain_id sender =
    select (λ t. is_null t.fee_paid && t.chain_id == chain_id && str_eq t.from_addr sender)
      db.token_transfers

unfoldable pub get_token_transfers_by_tx : Db → ℕ → List TokenTransferDbObj
get_token_transfers_by_tx db tx_id = select (λ t. opt_is t.tx_id tx_id) db.token_transfers
