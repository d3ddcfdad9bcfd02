-- ===== src/Sender/Process/Replace.antt =====
-- When a transaction that waits is replaced by one with higher fees: sender/process.rs. Fees in
-- gwei are compared as the wei that they stand for, with products taken exactly.
use erc20_payment_lib.Prelude.{
  ℕ, ◌-◌, ◌*◌, Bool, false, not, ◌&&◌, Option, none, some, ltb, leb, ◌==◌, if◌then◌else◌, max, ok,
  ok_or, ◌>>=◌, fail_if,
}
use erc20_payment_lib.Text.{Codec}
use erc20_payment_lib.Error.{Result, custom_error, transaction_failed_error}
use erc20_payment_lib.U256.{add_u256, mul_u256, div_u256}
use erc20_payment_lib.Convert.{to_gwei, to_u256, str_to_gwei}
use erc20_payment_lib.Db.{Db, TxDbObj, insert_tx, update_tx}
use erc20_payment_lib.Sender.Setup.{ChainSetup}

pub record Fees : Type 0 where
  pub max_fee_per_gas : ℕ
  pub priority_fee : ℕ

-- The fees of the row and of the settings, each below 2^96.
pub record FeeView : Type 0 where
  pub tx_fees : Fees
  pub config_fees : Fees

unfoldable pub read_fees : Codec → ChainSetup → TxDbObj → Result FeeView
read_fees c chain_setup tx = do
  max_fee_str ← ok_or tx.max_fee_per_gas (transaction_failed_error "Max fee per gas not found")
  priority_str ← ok_or tx.priority_fee (transaction_failed_error "Priority fee not found")
  tx_fee ← str_to_gwei c max_fee_str
  max_fee ← to_gwei chain_setup.max_fee_per_gas
  tx_pr_fee_u256 ← to_u256 c priority_str
  tx_pr_fee ← to_gwei tx_pr_fee_u256
  config_priority_fee ← to_gwei chain_setup.priority_fee
  _ ←
      fail_if (ltb tx_fee tx_pr_fee)
        (custom_error "Transaction priority fee is greater than max fee per gas for tx")
  ok (record {
    tx_fees = record { max_fee_per_gas = tx_fee; priority_fee = tx_pr_fee };
    config_fees = record { max_fee_per_gas = max_fee; priority_fee = config_priority_fee };
  })

-- `fee_per_gas_bumped_10` and `priority_fee_changed_10`.
abbrev pub bumped_10 : ℕ → ℕ → Bool
bumped_10 old new = not (old == new) && leb (old * 11) (new * 10)

-- The priority fee raised by a tenth; the maximum fee follows it.
unfoldable pub raise_priority : Fees → Fees → Result Fees
raise_priority tx config = do
  scaled ← mul_u256 tx.priority_fee 11
  tenth ← div_u256 scaled 10
  priority ← add_u256 tenth 1
  _ ← to_gwei priority
  ok (record { max_fee_per_gas = max config.max_fee_per_gas priority; priority_fee = priority })

-- The fees of the replacement, where there is to be one.
unfoldable pub replacement_fees : Fees → Fees → Result (Option Fees)
unfolding raise_priority
replacement_fees tx config =
    if bumped_10 tx.max_fee_per_gas config.max_fee_per_gas
    then (if bumped_10 tx.priority_fee config.priority_fee
        then ok (some config)
        else (raise_priority tx config >>= λ fees. ok (some fees)))
    else ok none

abbrev or_minute : Option ℕ → ℕ
or_minute none = 60
or_minute (some seconds) = seconds

unfoldable pub is_ready_for_replacement : ChainSetup → ℕ → TxDbObj → Bool
is_ready_for_replacement chain_setup now tx = elim tx.first_processed [
  | none ↦ false
  | some date ↦ ltb (or_minute chain_setup.replacement_timeout) (now - date)
]

-- `new_tx_dao`.
unfoldable pub replacement_row : Codec → ℕ → TxDbObj → Fees → TxDbObj
replacement_row c now tx fees = record {
  id = 0;
  method = tx.method;
  from_addr = tx.from_addr;
  to_addr = tx.to_addr;
  chain_id = tx.chain_id;
  gas_limit = tx.gas_limit;
  max_fee_per_gas = some (c.to_dec fees.max_fee_per_gas);
  priority_fee = some (c.to_dec fees.priority_fee);
  val = tx.val;
  nonce = tx.nonce;
  processing = tx.processing;
  call_data = tx.call_data;
  created_date = now;
  first_processed = none;
  tx_hash = none;
  signed_raw_data = none;
  signed_date = none;
  broadcast_date = none;
  broadcast_count = 0;
  first_stuck_date = none;
  confirm_date = none;
  blockchain_date = none;
  gas_used = none;
  block_number = none;
  chain_status = none;
  block_gas_price = none;
  effective_gas_price = none;
  fee_paid = none;
  error = none;
  orig_tx_id = some tx.id;
  engine_message = none;
  engine_error = none;
}

-- The SQL transaction: the new row, and the old one out of the queue.
unfoldable pub store_replacement : Codec → ℕ → TxDbObj → Fees → Db → Db
unfolding replacement_row
store_replacement c now tx fees db =
    let (db', new_tx) = insert_tx (replacement_row c now tx fees) db in
    update_tx (record tx { processing = 0 }) db'

-- The decision: the fees of the replacement that is due now.
unfoldable pub due_replacement : Codec → ChainSetup → ℕ → TxDbObj → Result (Option Fees)
unfolding read_fees replacement_fees
due_replacement c chain_setup now tx = read_fees c chain_setup tx >>= λ view.
    if is_ready_for_replacement chain_setup now tx
    then replacement_fees view.tx_fees view.config_fees
    else ok none
