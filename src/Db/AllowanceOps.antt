-- ===== src/Db/AllowanceOps.antt =====
-- db/ops/allowance_ops.rs.
use erc20_payment_lib.Prelude.{
  ℕ, suc, ◌&&◌, [], ◌∷◌, ◌++◌, Option, none, some, String, ◌==◌, str_eq, ok_or,
}
use erc20_payment_lib.Error.{Result, sqlx_error}
use erc20_payment_lib.Db.Schema.{Db, AllowanceDbObj}
use erc20_payment_lib.Db.Table.{select, update_where, first, opt_is}

unfoldable pub insert_allowance : AllowanceDbObj → Db → Db
insert_allowance a db = record db {
  allowances = db.allowances ++ record a { id = suc db.last_allowance_id } ∷ [];
  last_allowance_id = suc db.last_allowance_id;
}

unfoldable pub update_allowance : AllowanceDbObj → Db → Db
update_allowance a db = record db {
  allowances = update_where (λ r. r.id == a.id) (λ r. a) db.allowances;
}

unfoldable pub get_allowance_by_tx : Db → ℕ → Result AllowanceDbObj
get_allowance_by_tx db tx_id =
    ok_or (first (select (λ a. opt_is a.tx_id tx_id) db.allowances)) sqlx_error

unfoldable pub find_allowance : Db → String → String → String → ℕ → Option AllowanceDbObj
find_allowance db owner token_addr spender chain_id = first (
    select
      (λ a.
        str_eq a.owner owner
        && str_eq a.token_addr token_addr
        && str_eq a.spender spender
        && a.chain_id == chain_id)
      db.allowances)

unfoldable pub remap_allowance_tx : ℕ → ℕ → Db → Db
remap_allowance_tx old_tx_id new_tx_id db = record db {
  allowances =
      update_where (λ a. opt_is a.tx_id old_tx_id) (λ a. record a { tx_id = some new_tx_id })
        db.allowances;
}

unfoldable pub cleanup_allowance_tx : ℕ → Db → Db
cleanup_allowance_tx tx_id db = record db {
  allowances =
      update_where (λ a. opt_is a.tx_id tx_id)
        (λ a. record a { tx_id = none; fee_paid = none; error = none; confirm_date = none })
        db.allowances;
}
