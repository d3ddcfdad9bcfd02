-- ===== src/Node.antt =====
-- What the code calls outside the repository: an RPC node (through `Web3RpcPool`, whose choice of
-- an endpoint is modelled in RpcPool), a signer, and the text of the crates `hex`
-- and `chrono`. All are parameters: a value of these records holds their answers.
use erc20_payment_lib.Prelude.{ℕ, String, Bool, Option, List, Outcome}
use erc20_payment_lib.Error.{Result}

-- `web3::types::CallRequest` without its access list, which the source leaves out.
pub record CallRequest : Type 0 where
  pub from : Option ℕ
  pub to : Option ℕ
  pub gas : Option ℕ
  pub gas_price : Option ℕ
  pub value : Option ℕ
  pub call_data : Option (List ℕ)
  pub transaction_type : Option ℕ
  pub max_fee_per_gas : Option ℕ
  pub max_priority_fee_per_gas : Option ℕ

-- `web3::types::TransactionParameters`, likewise.
pub record TransactionParameters : Type 0 where
  pub nonce : Option ℕ
  pub to : Option ℕ
  pub gas : ℕ
  pub gas_price : Option ℕ
  pub value : ℕ
  pub call_data : List ℕ
  pub chain_id : Option ℕ
  pub transaction_type : Option ℕ
  pub max_fee_per_gas : Option ℕ
  pub max_priority_fee_per_gas : Option ℕ

pub record Block : Type 0 where
  pub number : Option ℕ
  pub base_fee_per_gas : Option ℕ
  pub timestamp : ℕ

-- An event of a contract; a topic is a 32-byte number.
pub record Log : Type 0 where
  pub address : ℕ
  pub topics : List ℕ
  pub log_data : List ℕ

pub record TransactionReceipt : Type 0 where
  pub from : ℕ
  pub to : Option ℕ
  pub logs : List Log
  pub block_number : Option ℕ
  pub status : Option ℕ
  pub gas_used : Option ℕ
  pub effective_gas_price : Option ℕ

-- `web3::types::Transaction`, as far as it is read.
pub record Transaction : Type 0 where
  pub from : Option ℕ
  pub to : Option ℕ
  pub nonce : ℕ
  pub gas : ℕ
  pub value : ℕ
  pub max_fee_per_gas : Option ℕ
  pub max_priority_fee_per_gas : Option ℕ
  pub input : List ℕ

-- `web3::Error`: an answer of the node with its message, or anything else.
pub data Web3Error : Type 0 where
  rpc : String → Web3Error
  other : Web3Error

-- The answers of the node at one time. `eth_transaction_count` is asked with `true` for the
-- pending and with `false` for the latest count, `eth_block` with `none` for the latest block;
-- a failed estimate has the text of its error. `token_balance` is what `eth::get_balance` reads
-- from the token's contract.
pub record Web3 : Type 0 where
  pub eth_transaction_count : ℕ → Bool → Result ℕ
  pub eth_block_number : Result ℕ
  pub eth_estimate_gas : CallRequest → Outcome String ℕ
  pub eth_balance : ℕ → Result ℕ
  pub eth_block : Option ℕ → Result (Option Block)
  pub eth_send_raw_transaction : List ℕ → Outcome Web3Error ℕ
  pub eth_transaction_receipt : ℕ → Result (Option TransactionReceipt)
  pub eth_transaction : ℕ → Result (Option Transaction)
  pub eth_call : CallRequest → Result (List ℕ)
  pub token_balance : ℕ → ℕ → Result (Option ℕ)

pub record SignedTransaction : Type 0 where
  pub raw_transaction : List ℕ
  pub transaction_hash : ℕ

-- The trait `Signer`; an error has its message.
pub record Signer : Type 0 where
  pub check_if_sign_possible : ℕ → Outcome String (Unit {0})
  pub sign : ℕ → TransactionParameters → Outcome String SignedTransaction

-- `from_timestamp` is `chrono::DateTime::from_timestamp`: nothing for a time out of its range.
pub record Hex : Type 0 where
  pub decode : String → Option (List ℕ)
  pub encode : List ℕ → String
  pub h256_from_str : String → Option ℕ
  pub h256_to_hex : ℕ → String
  pub u256_to_hex : ℕ → String
  pub from_timestamp : ℕ → Option ℕ
