-- ===== src/Transaction/Check.antt =====
-- `check_transaction` and `get_no_token_details` of crates/erc20_payment_lib/src/transaction.rs.
-- The text of a failed estimate decides what happens.
use erc20_payment_lib.Prelude.{
  ℕ, String, Option, none, some, ◌==◌, ◌&&◌, if◌then◌else◌, contains, str_eq, Outcome, ok, err,
  panic, ok_or,
}
use erc20_payment_lib.Prelude as Plain
use erc20_payment_lib.Text.{Codec}
use erc20_payment_lib.Error.{Result, custom_error}
use erc20_payment_lib.U256.{add_u256, mul_u256, as_u64}
use erc20_payment_lib.Convert.{to_eth}
use erc20_payment_lib.Db.{TxDbObj}
use erc20_payment_lib.Events.{transaction_stuck, TransactionStuckReason, NoTokenDetails}
use erc20_payment_lib.Node.{CallRequest, Web3, Hex}
use erc20_payment_lib.World.{Run, pure, lift, raise, ◌>>=◌, ◌>>◌, send_driver_event}
use erc20_payment_lib.Runtime.Unpaid.{get_token_balance, get_unpaid_token_amount}
use erc20_payment_lib.Runtime.Remove.{remove_transaction_force}
use erc20_payment_lib.Transaction.Request.{dao_to_call_request, fee_of, parse_address, parse_dec}

module _ (c : Codec) (hex : Hex) (web3 : Web3) (glm_token : ℕ) where
  unfoldable pub get_no_token_details : TxDbObj → Run NoTokenDetails
  get_no_token_details tx w =
      (do
        sender ← lift (parse_address c tx.from_addr)
        balance ← lift (get_token_balance web3 glm_token sender)
        token_balance ← lift (to_eth balance)
        needed ← lift (get_unpaid_token_amount c w.db tx.chain_id glm_token sender)
        token_needed ← lift (to_eth needed)
        pure (record {
          tx = tx;
          sender = sender;
          token_balance = token_balance;
          token_needed = token_needed;
        }))
        w

  -- `match get_no_token_details(…)`
  unfoldable pub report_no_token : TxDbObj → Run (Option ℕ)
  unfolding get_no_token_details
  report_no_token tx w = elim ((get_no_token_details tx w).1) [
    | ok details ↦
        (do
          send_driver_event (transaction_stuck (TransactionStuckReason.no_token details))
          pure none)
          w
    | err e ↦
        (w, err (custom_error "Error during getting details about amount exceeds balance error"))
    | panic ↦ (w, panic)
  ]

  -- The arm `Err(e)` of the estimate. No estimate comes of it.
  unfoldable pub estimate_failed : TxDbObj → String → Run (Option ℕ)
  unfolding report_no_token
  estimate_failed tx e =
      if contains e "gas required exceeds allowance"
      then raise (custom_error "Gas estimation failed - probably insufficient funds")
      else if str_eq tx.method "FAUCET.create" && contains e "Cannot acquire more funds"
      then (do _ ← remove_transaction_force tx.id; pure none)
      else if contains e "transfer amount exceeds balance"
      then report_no_token tx
      else raise (custom_error "Gas estimation failed due to unknown error")

  unfoldable pub estimate_gas : TxDbObj → CallRequest → Run (Option ℕ)
  unfolding estimate_failed
  estimate_gas tx request = elim tx.call_data [
    | none ↦ pure (some 21000)
    | some call ↦
        elim (web3.eth_estimate_gas
          (record request { max_fee_per_gas = none; max_priority_fee_per_gas = none })) [
            | ok gas ↦ pure (some gas)
            | err e ↦ estimate_failed tx e
            | panic ↦ lift panic
          ]
  ]

  -- `gas_limit`, from the estimate.
  unfoldable pub limit_of : ℕ → Result ℕ
  limit_of gas_est =
      Plain.◌>>=◌ (as_u64 gas_est)
        λ small. if small == 21000 then ok gas_est else add_u256 gas_est 20000

  unfoldable pub set_gas_limit : TxDbObj → ℕ → Run (Option (ℕ × TxDbObj))
  unfolding limit_of
  set_gas_limit tx gas_est = do
    gas_limit ← lift (limit_of gas_est)
    stored ← lift (as_u64 gas_limit)
    max_fee ← lift (fee_of c tx.max_fee_per_gas "max_fee_per_gas has to be set here")
    value ← lift (parse_dec c tx.val)
    gas_cost ← lift (mul_u256 gas_limit max_fee)
    needed ← lift (add_u256 value gas_cost)
    pure (some (needed, record tx { gas_limit = some stored }))

  abbrev pub checked_with : TxDbObj → Option ℕ → Run (Option (ℕ × TxDbObj))
  checked_with tx none = pure none
  checked_with tx (some gas_est) = set_gas_limit tx gas_est

  -- The gas currency that the transaction can take at most, with the row that has its gas limit;
  -- nothing where the check cannot be done now.
  unfoldable pub check_transaction : TxDbObj → Run (Option (ℕ × TxDbObj))
  unfolding estimate_gas set_gas_limit
  check_transaction tx = do
    request ← lift (dao_to_call_request c hex tx)
    gas_est ← estimate_gas tx request
    checked_with tx gas_est
