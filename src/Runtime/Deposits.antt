-- ===== src/Runtime/Deposits.antt =====
-- `close_deposit` and `terminate_deposit` of crates/erc20_payment_lib/src/runtime.rs. What the lock
-- contract says of a deposit (eth.rs, get_deposit_details) is an argument.
use erc20_payment_lib.Prelude.{
  ℕ, ◌-◌, ◌%◌, ◌^◌, List, [], ◌∷◌, Bool, true, false, not, Option, none, some, ◌==◌, ltb,
  if◌then◌else◌, ok, ◌>>=◌, ◌>>◌, fail_if,
}
use erc20_payment_lib.Text.{Codec}
use erc20_payment_lib.Error.{Result, custom_error}
use erc20_payment_lib.Db.{
  Db, TokenTransferDbObj, get_token_transfers_by_deposit_id, update_token_transfer,
  insert_token_transfer, insert_tx, is_null,
}
use erc20_payment_lib.Node.{Hex}
use erc20_payment_lib.Transaction.{Env, create_terminate_deposit}
use Prim.Native.String.{◌++◌ as append}

pub record DepositDetails : Type 0 where
  pub amount : ℕ
  pub spender : ℕ
  pub funder : ℕ
  pub valid_to : ℕ

pub record CloseDepositOptionsInt : Type 0 where
  pub skip_deposit_check : Bool
  pub deposit_id : ℕ
  pub token_address : ℕ

pub record TerminateDepositOptionsInt : Type 0 where
  pub lock_contract_address : ℕ
  pub skip_deposit_check : Bool
  pub deposit_id : ℕ

unfoldable pub check_spender : Result DepositDetails → ℕ → Result (Unit {0})
check_spender details from = details >>= λ d.
    fail_if (d.amount == 0) (custom_error "Deposit not found")
    >> fail_if (not (d.spender == from)) (custom_error "You are not the spender of deposit")

abbrev pub any_finishing : List TokenTransferDbObj → Bool
any_finishing [] = false
any_finishing (t ∷ ts) = if ltb 0 t.deposit_finish then true else any_finishing ts

abbrev pub newer : Option TokenTransferDbObj → TokenTransferDbObj → TokenTransferDbObj
newer none t = t
newer (some old) t = if ltb old.id t.id then t else old

-- The transfer without a transaction that has the greatest id.
unfoldable pub candidate_for_mark_close :
    Option TokenTransferDbObj → List TokenTransferDbObj → Option TokenTransferDbObj
candidate_for_mark_close best [] = best
candidate_for_mark_close best (t ∷ ts) =
    candidate_for_mark_close (if is_null t.tx_id then some (newer best t) else best) ts

module _ (c : Codec) (hex : Hex) (now : ℕ) where
  -- The empty transfer that marks the deposit for closing.
  unfoldable pub close_marker : ℕ → ℕ → CloseDepositOptionsInt → TokenTransferDbObj
  close_marker chain_id from opt = record {
    id = 0;
    payment_id = some (append "close_deposit_" (hex.u256_to_hex opt.deposit_id));
    from_addr = c.address_to_hex from;
    receiver_addr = c.address_to_hex 0;
    chain_id = chain_id;
    token_addr = some (c.address_to_hex opt.token_address);
    token_amount = "0";
    deposit_id = some (hex.u256_to_hex opt.deposit_id);
    deposit_finish = 1;
    create_date = now;
    tx_id = none;
    paid_date = none;
    fee_paid = none;
    error = none;
  }

  abbrev pub mark_close : ℕ → ℕ → CloseDepositOptionsInt → Option TokenTransferDbObj → Db → Db
  mark_close chain_id from opt (some t) db =
      update_token_transfer (record t { deposit_finish = 1 }) db
  mark_close chain_id from opt none db =
      (insert_token_transfer now (close_marker chain_id from opt) db).0

  -- The SQL transaction of `close_deposit`.
  unfoldable pub queue_close : ℕ → ℕ → CloseDepositOptionsInt → Db → Result Db
  unfolding candidate_for_mark_close close_marker
  queue_close chain_id from opt db =
      let current =
        get_token_transfers_by_deposit_id db chain_id (hex.u256_to_hex opt.deposit_id) in
      fail_if (any_finishing current) (custom_error "Deposit already being closed or closed")
      >> ok (mark_close chain_id from opt (candidate_for_mark_close none current) db)

  unfoldable pub close_deposit :
      Result DepositDetails → ℕ → ℕ → CloseDepositOptionsInt → Db → Result Db
  unfolding check_spender queue_close
  close_deposit details chain_id from opt db =
      (if opt.skip_deposit_check then ok tt else check_spender details from)
      >> queue_close chain_id from opt db

-- Ten seconds before the deposit's end it may be terminated.
unfoldable pub check_funder : Result DepositDetails → ℕ → ℕ → Result (Unit {0})
check_funder details now from = details >>= λ d.
    fail_if (d.amount == 0) (custom_error "Deposit not found")
    >> fail_if (not (d.funder == from)) (custom_error "You are not the funder of deposit")
    >> fail_if (ltb 10 (d.valid_to - now)) (custom_error "Deposit is not ready to be terminated.")

-- eth.rs: the last eight bytes of the id.
unfoldable pub nonce_from_deposit_id : ℕ → ℕ
nonce_from_deposit_id deposit_id = deposit_id % 2 ^ 64

unfoldable pub terminate_deposit :
    Env → Result DepositDetails → ℕ → ℕ → TerminateDepositOptionsInt → Db → Result Db
unfolding check_funder nonce_from_deposit_id
terminate_deposit env details chain_id from opt db =
    (if opt.skip_deposit_check then ok tt else check_funder details env.now from)
    >> (create_terminate_deposit env from opt.lock_contract_address chain_id none
          (nonce_from_deposit_id opt.deposit_id)
        >>= λ tx. ok ((insert_tx tx db).0))
