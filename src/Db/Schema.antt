-- ===== src/Db/Schema.antt =====
-- The rows of the tables `tx`, `token_transfer` and `allowance`: db/model/tx_dao.rs,
-- token_transfer_dao.rs and allowance_dao.rs. Dates are seconds; an absent value is SQL's NULL.
use erc20_payment_lib.Prelude.{ℕ, String, Option, none, List, [], ◌∷◌, All, ◌≢◌}

pub record TxDbObj : Type 0 where
  pub id : ℕ
  pub method : String
  pub from_addr : String
  pub to_addr : String
  pub chain_id : ℕ
  pub gas_limit : Option ℕ
  pub max_fee_per_gas : Option String
  pub priority_fee : Option String
  pub val : String
  pub nonce : Option ℕ
  pub processing : ℕ
  pub call_data : Option String
  pub created_date : ℕ
  pub first_processed : Option ℕ
  pub tx_hash : Option String
  pub signed_raw_data : Option String
  pub signed_date : Option ℕ
  pub broadcast_date : Option ℕ
  pub broadcast_count : ℕ
  pub first_stuck_date : Option ℕ
  pub confirm_date : Option ℕ
  pub blockchain_date : Option ℕ
  pub gas_used : Option ℕ
  pub block_number : Option ℕ
  pub chain_status : Option ℕ
  pub block_gas_price : Option String
  pub effective_gas_price : Option String
  pub fee_paid : Option String
  pub error : Option String
  pub orig_tx_id : Option ℕ
  pub engine_message : Option String
  pub engine_error : Option String

-- `Default for TxDbObj`, at the time `now`.
abbrev pub default_tx : ℕ → TxDbObj
default_tx now = record {
  id = 0;
  method = "";
  from_addr = "";
  to_addr = "";
  chain_id = 0;
  gas_limit = none;
  max_fee_per_gas = none;
  priority_fee = none;
  val = "0";
  nonce = none;
  processing = 1;
  call_data = none;
  created_date = now;
  first_processed = none;
  tx_hash = none;
  signed_raw_data = none;
  signed_date = none;
  broadcast_date = none;
  broadcast_count = 0;
  first_stuck_date = none;
  confirm_date = none;
  blockchain_date = none;
  gas_used = none;
  block_number = none;
  chain_status = none;
  block_gas_price = none;
  effective_gas_price = none;
  fee_paid = none;
  error = none;
  orig_tx_id = none;
  engine_message = none;
  engine_error = none;
}

pub record TokenTransferDbObj : Type 0 where
  pub id : ℕ
  pub payment_id : Option String
  pub from_addr : String
  pub receiver_addr : String
  pub chain_id : ℕ
  pub token_addr : Option String
  pub token_amount : String
  pub deposit_id : Option String
  pub deposit_finish : ℕ
  pub create_date : ℕ
  pub tx_id : Option ℕ
  pub paid_date : Option ℕ
  pub fee_paid : Option String
  pub error : Option String

pub record AllowanceDbObj : Type 0 where
  pub id : ℕ
  pub owner : String
  pub token_addr : String
  pub spender : String
  pub allowance : String
  pub chain_id : ℕ
  pub tx_id : Option ℕ
  pub fee_paid : Option String
  pub confirm_date : Option ℕ
  pub error : Option String

-- The tables in the order of their row ids, and for each the AUTOINCREMENT counter.
pub record Db : Type 0 where
  pub txs : List TxDbObj
  pub token_transfers : List TokenTransferDbObj
  pub allowances : List AllowanceDbObj
  pub last_tx_id : ℕ
  pub last_transfer_id : ℕ
  pub last_allowance_id : ℕ

-- The ids of the transfers differ: `PRIMARY KEY`.
abbrev pub DistinctTransfers : List TokenTransferDbObj → Type 0
DistinctTransfers [] = Unit {0}
DistinctTransfers (r ∷ rs) = All (λ s. s.id ≢ r.id) rs × DistinctTransfers rs

abbrev pub DistinctTxs : List TxDbObj → Type 0
DistinctTxs [] = Unit {0}
DistinctTxs (r ∷ rs) = All (λ s. s.id ≢ r.id) rs × DistinctTxs rs
