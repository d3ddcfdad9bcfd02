-- ===== src/Events.antt =====
-- The driver's events and status: crates/erc20_payment_lib_common/src/events.rs. A `Decimal` of
-- ether or gwei is the whole number of wei that it stands for (`ℤ` where it can be negative).
use erc20_payment_lib.Prelude.{ℕ, String, Option, List, Bool}
use erc20_payment_lib.Prelude.Int.{ℤ}
use erc20_payment_lib.Db.{TxDbObj, TokenTransferDbObj, AllowanceDbObj}

pub data StatusProperty : Type 0 where
  cant_sign : ℕ → String → StatusProperty
  no_gas : ℕ → String → ℤ → StatusProperty
  no_token : ℕ → String → ℤ → StatusProperty
  web3_rpc_error : ℕ → String → StatusProperty
  tx_stuck : ℕ → StatusProperty

pub record SharedInfoTx : Type 0 where
  pub message : String
  pub error : Option String
  pub skip : Bool

pub record GasLowInfo : Type 0 where
  pub tx : TxDbObj
  pub tx_max_fee_per_gas_gwei : ℕ
  pub block_date : ℕ
  pub block_number : ℕ
  pub block_base_fee_per_gas_gwei : ℕ
  pub assumed_min_priority_fee_gwei : ℕ

pub record NoGasDetails : Type 0 where
  pub tx : TxDbObj
  pub gas_balance : ℕ
  pub gas_needed : ℕ

pub record NoTokenDetails : Type 0 where
  pub tx : TxDbObj
  pub sender : ℕ
  pub token_balance : ℕ
  pub token_needed : ℕ

pub data TransactionStuckReason : Type 0 where
  no_gas : NoGasDetails → TransactionStuckReason
  no_token : NoTokenDetails → TransactionStuckReason
  gas_price_low : GasLowInfo → TransactionStuckReason
  rpc_endpoint_problems : String → TransactionStuckReason

pub record TransactionFinishedInfo : Type 0 where
  pub token_transfer_dao : TokenTransferDbObj
  pub tx_dao : TxDbObj

pub data Web3RpcPoolContent : Type 0 where
  success : Web3RpcPoolContent
  error : String → Web3RpcPoolContent
  all_endpoints_failed : Web3RpcPoolContent

pub record Web3RpcPoolInfo : Type 0 where
  pub chain_id : ℕ
  pub content : Web3RpcPoolContent

pub data CantSignContent : Type 0 where
  tx : TxDbObj → CantSignContent
  allowance : AllowanceDbObj → CantSignContent

abbrev pub chain_id_of : CantSignContent → ℕ
chain_id_of (tx t) = t.chain_id
chain_id_of (allowance a) = a.chain_id

abbrev pub address_of : CantSignContent → String
address_of (tx t) = t.from_addr
address_of (allowance a) = a.owner

pub data DriverEventContent : Type 0 where
  alive : DriverEventContent
  transaction_confirmed : TxDbObj → DriverEventContent
  transfer_finished : TransactionFinishedInfo → DriverEventContent
  approve_finished : AllowanceDbObj → DriverEventContent
  transaction_stuck : TransactionStuckReason → DriverEventContent
  transaction_failed : DriverEventContent
  cant_sign : CantSignContent → DriverEventContent
  status_changed : List StatusProperty → DriverEventContent
  web3_rpc_message : Web3RpcPoolInfo → DriverEventContent
