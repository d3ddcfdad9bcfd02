-- ===== src/Sender/Batching/Pre.antt =====
-- `gather_transactions_pre`: the pending transfers are checked and grouped. What was written for
-- earlier transfers stays when one of them ends the loop with an error.
use erc20_payment_lib.Prelude.{
  ℕ, String, List, [], ◌∷◌, Option, none, some, Bool, true, ◌&&◌, ◌==◌, ltb, if◌then◌else◌, ok, err,
  panic, ok_or, ◌>>=◌,
}
use erc20_payment_lib.Error.{Result, custom_error}
use erc20_payment_lib.Db.{
  Db, TokenTransferDbObj, update_token_transfer, insert_tx, get_pending_token_transfers, opt_is,
}
use erc20_payment_lib.Transaction.{Env, create_close_deposit}
use erc20_payment_lib.Sender.Setup.{PaymentSetup}
use erc20_payment_lib.Sender.Batching.Keys.{TokenTransferMap, key_of, push_group}

pub record Gathered : Type 0 where
  pub db : Db
  pub transfer_map : TokenTransferMap
  pub process_tx_needed : Bool

-- `f.error = Some(…)` and the update.
abbrev pub reject : String → TokenTransferDbObj → Gathered → Result Gathered
reject message f s =
    ok (record s { db = update_token_transfer (record f { error = some message }) s.db })

module _ (env : Env) (setup : PaymentSetup) where
  -- A transfer of nothing to the zero address that finishes a deposit.
  unfoldable pub is_close_request : TokenTransferDbObj → Bool
  is_close_request f =
      ltb 0 f.deposit_finish
      && opt_is (env.codec.address_from_str f.receiver_addr) 0
      && opt_is (env.codec.from_dec_str f.token_amount) 0

  unfoldable pub lock_address : ℕ → Result ℕ
  lock_address chain_id =
      ok_or (setup.chain_setup chain_id) (custom_error "No setup found for chain id") >>= λ chain.
      ok_or chain.lock_contract_address (custom_error "Lock contract address not set for chain id")

  unfoldable pub close_deposit_of : ℕ → String → TokenTransferDbObj → Gathered → Result Gathered
  unfolding lock_address
  close_deposit_of from deposit_id f s =
      ok_or (env.codec.u256_from_str deposit_id) (custom_error "Invalid deposit id") >>= λ id.
      lock_address f.chain_id >>= λ lock.
      create_close_deposit env from lock f.chain_id none id >>= λ tx.
      let (db, new_tx) = insert_tx tx s.db in
      ok (record s {
        db = update_token_transfer (record f { tx_id = some new_tx.id }) db;
        process_tx_needed = true;
      })

  unfoldable pub group_transfer : TokenTransferDbObj → Gathered → Result Gathered
  group_transfer f s = elim (env.codec.address_from_str f.receiver_addr) [
    | none ↦ reject "Invalid receiver address" f s
    | some receiver ↦
        if receiver == 0
        then reject "receiver_addr is zero" f s
        else ok (record s { transfer_map = push_group (key_of f) f s.transfer_map })
  ]

  -- From the test of `deposit_id` on.
  unfoldable pub gather_checked :
      ℕ → Option String → TokenTransferDbObj → Gathered → Result Gathered
  unfolding is_close_request close_deposit_of group_transfer
  gather_checked from none f s = group_transfer f s
  gather_checked from (some deposit_id) f s =
      if is_close_request f then close_deposit_of from deposit_id f s else group_transfer f s

  unfoldable pub gather_transfer : TokenTransferDbObj → Gathered → Result Gathered
  unfolding gather_checked
  gather_transfer f s = elim (env.codec.address_from_str f.from_addr) [
    | none ↦ reject "Invalid from address" f s
    | some from ↦
        if from == 0 then reject "from_addr is zero" f s else gather_checked from f.deposit_id f s
  ]

  -- The loop; beside the result stands the state that it leaves.
  unfoldable pub gather_all :
      List TokenTransferDbObj → Gathered → Gathered × Result TokenTransferMap
  unfolding gather_transfer
  gather_all [] s = (s, ok s.transfer_map)
  gather_all (f ∷ fs) s = elim (gather_transfer f s) [
    | ok s' ↦ gather_all fs s'
    | err e ↦ (s, err e)
    | panic ↦ (s, panic)
  ]

  unfoldable pub gather_transactions_pre :
      String → ℕ → Db → Bool → Gathered × Result TokenTransferMap
  unfolding gather_all
  gather_transactions_pre account chain_id db process_tx_needed =
      gather_all (get_pending_token_transfers db account chain_id)
        (record { db = db; transfer_map = []; process_tx_needed = process_tx_needed })
