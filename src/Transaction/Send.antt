-- ===== src/Transaction/Send.antt =====
-- `sign_transaction_with_callback` and `send_transaction` of
-- crates/erc20_payment_lib/src/transaction.rs.
use erc20_payment_lib.Prelude.{
  ℕ, String, some, if◌then◌else◌, contains, Outcome, ok, err, panic, ok_or,
}
use erc20_payment_lib.Text.{Codec}
use erc20_payment_lib.Error.{custom_error, conversion_error}
use erc20_payment_lib.U256.{add_u256, mul_u256}
use erc20_payment_lib.Convert.{to_eth, to_u256}
use erc20_payment_lib.Db.{TxDbObj}
use erc20_payment_lib.Events.{
  DriverEventContent, cant_sign, CantSignContent, transaction_stuck, TransactionStuckReason,
}
use erc20_payment_lib.Node.{Web3, Web3Error, rpc, other, Signer, SignedTransaction, Hex}
use erc20_payment_lib.World.{Run, pure, lift, raise, ◌>>=◌, ◌>>◌, send_driver_event}
use erc20_payment_lib.Transaction.Request.{dao_to_transaction, parse_address, parse_dec}
use erc20_payment_lib.Transaction.Check.{get_no_token_details}

module _ (c : Codec) (hex : Hex) (signer : Signer) (now : ℕ) where
  abbrev signed_row : TxDbObj → SignedTransaction → TxDbObj
  signed_row tx signed = record tx {
    signed_raw_data = some (hex.encode signed.raw_transaction);
    signed_date = some now;
    tx_hash = some (hex.h256_to_hex signed.transaction_hash);
  }

  unfoldable pub sign_transaction_with_callback : TxDbObj → ℕ → Run TxDbObj
  sign_transaction_with_callback tx address = do
    tx_object ← lift (dao_to_transaction c hex tx)
    elim (signer.sign address tx_object) [
      | ok signed ↦ pure (signed_row tx signed)
      | err e ↦ do
        send_driver_event (cant_sign (CantSignContent.tx tx))
        raise (custom_error "Signing transaction failed due to unknown error")
      | panic ↦ lift panic
    ]

module _ (c : Codec) (hex : Hex) (web3 : Web3) (glm_token now : ℕ) where
  -- The event of an answer with "insufficient funds".
  unfoldable pub no_gas_event : TxDbObj → Run DriverEventContent
  no_gas_event tx = do
    sender ← lift (parse_address c tx.from_addr)
    balance ← lift (web3.eth_balance sender)
    gas_balance ← lift (to_eth balance)
    value ← lift (parse_dec c tx.val)
    text ← lift (ok_or tx.max_fee_per_gas (custom_error "Expected max fee per gas here"))
    max_fee ← lift (to_u256 c text)
    gas_limit ← lift (ok_or tx.gas_limit (custom_error "Expected gas limit here"))
    cost ← lift (mul_u256 max_fee gas_limit)
    needed ← lift (add_u256 value cost)
    gas_needed ← lift (to_eth needed)
    pure (
        transaction_stuck (
          TransactionStuckReason.no_gas
            (record { tx = tx; gas_balance = gas_balance; gas_needed = gas_needed })))

  abbrev no_token_event : TxDbObj → Run (Unit {0})
  no_token_event tx = do
    details ← get_no_token_details c hex web3 glm_token tx
    send_driver_event (transaction_stuck (TransactionStuckReason.no_token details))

  -- The arm `web3::Error::Rpc(e)`.
  unfoldable pub rpc_failed : TxDbObj → String → Run (Unit {0})
  unfolding no_gas_event
  rpc_failed tx message =
      if contains message "insufficient funds"
      then (do event ← no_gas_event tx; send_driver_event event)
      else if contains message "transfer amount exceeds balance"
      then no_token_event tx
      else if contains message "invalid sender"
      then raise (custom_error "Invalid sender, seems like transaction is sending to wrong chain.")
      else pure tt

  abbrev after_send : TxDbObj → Outcome Web3Error ℕ → Run (Unit {0})
  after_send tx (ok hash) = pure tt
  after_send tx (err (rpc message)) = rpc_failed tx message
  after_send tx (err other) = pure tt
  after_send tx panic = lift panic

  -- The row after the call, with its broadcast date.
  unfoldable pub send_transaction : TxDbObj → Run TxDbObj
  unfolding rpc_failed
  send_transaction tx = do
    signed_raw_data ← lift (ok_or tx.signed_raw_data (custom_error "No signed raw data"))
    bytes ← lift (ok_or (hex.decode signed_raw_data) conversion_error)
    let sent = record tx { broadcast_date = some now }
    after_send sent (web3.eth_send_raw_transaction bytes)
    pure sent
