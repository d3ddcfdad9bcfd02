-- ===== src/Transaction/Receipt.antt =====
-- `find_receipt` of crates/erc20_payment_lib/src/transaction.rs: the receipt of a transaction is
-- copied to its row.
use mathlib.Core.Option
use erc20_payment_lib.Prelude.{ℕ, Option, none, some, ok, ok_or, ◌>>=◌}
use erc20_payment_lib.Text.{Codec}
use erc20_payment_lib.Error.{Result, custom_error, conversion_error}
use erc20_payment_lib.U256.{mul_u256, as_u64}
use erc20_payment_lib.Db.{TxDbObj}
use erc20_payment_lib.Node.{Web3, TransactionReceipt, Hex}

-- utils.rs.
unfoldable pub datetime_from_u256_timestamp : Hex → ℕ → Result (Option ℕ)
datetime_from_u256_timestamp hex timestamp = as_u64 timestamp >>= λ t. ok (hex.from_timestamp t)

module _ (c : Codec) (hex : Hex) (web3 : Web3) where
  -- `gas_used.map(|x| x.as_u64() as i64)`.
  abbrev small : Option ℕ → Result (Option ℕ)
  small none = ok none
  small (some n) = as_u64 n >>= λ m. ok (some m)

  unfoldable pub with_receipt : TxDbObj → TransactionReceipt → Result (TxDbObj × ℕ)
  with_receipt tx receipt = do
    gas ← small receipt.gas_used
    block_number ← ok_or receipt.block_number (custom_error "Block number is None")
    found ← web3.eth_block (some block_number)
    block ← ok_or found (custom_error "Block not found")
    date ← datetime_from_u256_timestamp hex block.timestamp
    blockchain_date ← ok_or date (custom_error "Cannot convert timestamp to NaiveDateTime")
    gas_used ← ok_or receipt.gas_used (custom_error "Gas used expected")
    effective_gas_price ←
        ok_or receipt.effective_gas_price (custom_error "Effective gas price expected")
    fee_paid ← mul_u256 gas_used effective_gas_price
    ok (
      record tx {
        block_number = some block_number;
        chain_status = receipt.status;
        gas_used = gas;
        effective_gas_price = some (c.to_dec effective_gas_price);
        block_gas_price = Option.map c.to_dec block.base_fee_per_gas;
        blockchain_date = some blockchain_date;
        fee_paid = some (c.to_dec fee_paid);
      },
      effective_gas_price,
    )

  -- The row of the transaction, and the price that was paid where there is a receipt.
  abbrev looked_up : TxDbObj → Option TransactionReceipt → Result (TxDbObj × Option ℕ)
  looked_up tx none =
      ok (record tx { block_number = none; chain_status = none; fee_paid = none }, none)
  looked_up tx (some receipt) = with_receipt tx receipt >>= λ (row, price). ok (row, some price)

  unfoldable pub find_receipt : TxDbObj → Result (TxDbObj × Option ℕ)
  unfolding with_receipt
  find_receipt tx = do
    text ← ok_or tx.tx_hash (custom_error "No tx hash")
    tx_hash ← ok_or (hex.h256_from_str text) conversion_error
    receipt ← web3.eth_transaction_receipt tx_hash
    looked_up tx receipt
