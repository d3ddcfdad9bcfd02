-- ===== src/Sender/Process/Outside.antt =====
-- What `process_transaction` is given by the code around the repository.
use erc20_payment_lib.Prelude.{ℕ, Bool, Option}
use erc20_payment_lib.Text.{Codec}
use erc20_payment_lib.Convert.{Decimal}
use erc20_payment_lib.Node.{Web3, Signer, Hex}
use erc20_payment_lib.Db.{TxDbObj}
use erc20_payment_lib.Sender.Settle.{ProcessTransactionResult}

-- `polygon_eco_mode` is the environment variable POLYGON_ECO_MODE, and `extra_gas` the variable
-- POLYGON_ECO_MODE_EXTRA_GAS where it is set: a decimal, or nothing where it cannot be read.
pub record Outside : Type 0 where
  pub codec : Codec
  pub hex : Hex
  pub signer : Signer
  pub polygon_eco_mode : Bool
  pub extra_gas : Option (Option Decimal)

-- The clock, and the answers of the node, at one time. `retry n` has the answers at the n-th time
-- that a receipt is asked for.
pub record Moment : Type 0 where
  pub now : ℕ
  pub web3 : Web3
  pub retry : ℕ → Web3

-- Whether a part of the function goes on with the row, or has returned.
pub data Step : Type 0 where
  go : TxDbObj → Step
  stop : TxDbObj → ProcessTransactionResult → Step
