-- ===== src/Transaction/Extended.antt =====
-- `find_receipt_extended` of crates/erc20_payment_lib/src/transaction.rs: a transaction on the chain,
-- with the transfers of tokens and of gas currency that it made. A row of
-- db/model/chain_tx_dao.rs and chain_transfer_dao.rs keeps the fields that are set here.
use mathlib.Core.Option
use erc20_payment_lib.Prelude.{
  ℕ, ◌%◌, ◌^◌, ◌-◌, String, List, [], ◌∷◌, ◌++◌, Bool, true, not, Option, none, some, ◌==◌, ltb,
  leb, length, take, if◌then◌else◌, ok, panic, ok_or, ◌>>=◌, fail_if,
}
use erc20_payment_lib.Text.{Codec}
use erc20_payment_lib.Error.{Result, custom, custom_error}
use erc20_payment_lib.U256.{add_u256, mul_u256}
use erc20_payment_lib.Multi.Bytes.{from_bytes}
use erc20_payment_lib.Node.{Web3, Hex, Block, Transaction, TransactionReceipt, Log}
use erc20_payment_lib.Transaction.Receipt.{datetime_from_u256_timestamp}
use Prim.Native.String.{◌++◌ as append}

pub record ChainTxDbObj : Type 0 where
  pub tx_hash : String
  pub method : String
  pub from_addr : String
  pub to_addr : String
  pub chain_id : ℕ
  pub gas_used : ℕ
  pub gas_limit : ℕ
  pub block_gas_price : String
  pub effective_gas_price : String
  pub max_fee_per_gas : Option String
  pub priority_fee : Option String
  pub val : String
  pub nonce : ℕ
  pub checked_date : ℕ
  pub blockchain_date : ℕ
  pub block_number : ℕ
  pub chain_status : ℕ
  pub fee_paid : String

pub record ChainTransferDbObj : Type 0 where
  pub from_addr : String
  pub receiver_addr : String
  pub chain_id : ℕ
  pub token_addr : Option String
  pub token_amount : String
  pub blockchain_date : ℕ

pub data FindReceiptParseResult : Type 0 where
  success : ChainTxDbObj → List ChainTransferDbObj → FindReceiptParseResult
  failure : String → FindReceiptParseResult

abbrev pub erc20_transfer_event_signature : ℕ
erc20_transfer_event_signature =
    100389287136786176327247604509743168900146139575972864366142685224231313322991

-- An ERC-20 transfer in the log of a token.
pub record Erc20Transfer : Type 0 where
  pub from : ℕ
  pub to : ℕ
  pub amount : ℕ

-- `Address::from_slice(&topic[12..])`; `U256::from` of more than 32 bytes panics.
abbrev pub transfer_of : List ℕ → List ℕ → Result (Option Erc20Transfer)
transfer_of (signature ∷ from ∷ to ∷ []) bytes =
    if signature == erc20_transfer_event_signature
    then (if ltb 32 (length bytes)
        then panic
        else ok (
            some
              (record { from = from % 2 ^ 160; to = to % 2 ^ 160; amount = from_bytes 0 bytes })))
    else ok none
transfer_of _ bytes = ok none

-- Of a log: the transfer of the token `glm_address` that it stands for.
unfoldable pub read_log : ℕ → Log → Result (Option Erc20Transfer)
read_log glm_address log =
    if log.address == glm_address then transfer_of log.topics log.log_data else ok none

abbrev and_those : Option Erc20Transfer → List Erc20Transfer → List Erc20Transfer
and_those none rest = rest
and_those (some transfer) rest = transfer ∷ rest

unfoldable pub read_logs : ℕ → List Log → Result (List Erc20Transfer)
unfolding read_log
read_logs glm_address [] = ok []
read_logs glm_address (log ∷ logs) = read_log glm_address log >>= λ found.
    read_logs glm_address logs >>= λ rest. ok (and_those found rest)

-- `transfered_to_contract_from` and `transfered_to_contract_amount`. All transfers are of one
-- token, so that the tests on the token always pass.
abbrev pub ToContract : Type 0
ToContract = Option ℕ × ℕ

abbrev same_sender : Option ℕ → ℕ → Bool
same_sender none from = true
same_sender (some known) from = from == known

abbrev pub to_contract : ℕ → ToContract → Option Erc20Transfer → Result ToContract
to_contract tx_to (sender, sum) none = ok (sender, sum)
to_contract tx_to (sender, sum) (some t) =
    if t.to == tx_to
    then (if same_sender sender t.from
        then (add_u256 sum t.amount >>= λ more. ok (some t.from, more))
        else custom "Transfer to contract from different addresses")
    else ok (sender, sum)

-- The first loop: who sent tokens to the contract that the transaction calls, and how much.
unfoldable pub sent_to_contract : ℕ → ℕ → ToContract → List Log → Result ToContract
unfolding read_log
sent_to_contract glm_address tx_to sent [] = ok sent
sent_to_contract glm_address tx_to sent (log ∷ logs) = read_log glm_address log >>= λ found.
    to_contract tx_to sent found >>= λ sent'. sent_to_contract glm_address tx_to sent' logs

module _ (c : Codec) (chain_id token date tx_to : ℕ) where
  abbrev pub token_row : ℕ → Erc20Transfer → ChainTransferDbObj
  token_row from t = record {
    from_addr = c.address_to_hex from;
    receiver_addr = c.address_to_hex t.to;
    chain_id = chain_id;
    token_addr = some (c.address_to_hex token);
    token_amount = c.to_dec t.amount;
    blockchain_date = date;
  }

  -- The second loop. A transfer from the contract counts as one from the contract's sender;
  -- `none` is a transfer from a contract that got nothing.
  unfoldable pub token_transfers : Option ℕ → List Erc20Transfer → Option (List ChainTransferDbObj)
  token_transfers sender [] = some []
  token_transfers sender (t ∷ ts) =
      let rest = token_transfers sender ts in
      if t.to == tx_to
      then rest
      else if t.from == tx_to
      then elim sender [ none ↦ none | some from ↦ Option.map (◌∷◌ (token_row from t)) rest ]
      else Option.map (◌∷◌ (token_row t.from t)) rest

  -- The transfer of the gas currency.
  abbrev pub gas_transfer : ℕ → ℕ → List ChainTransferDbObj
  gas_transfer tx_from value =
      if value == 0
      then []
      else record {
        from_addr = c.address_to_hex tx_from;
        receiver_addr = c.address_to_hex tx_to;
        chain_id = chain_id;
        token_addr = none;
        token_amount = c.to_dec value;
        blockchain_date = date;
      }
        ∷ []

abbrev method_of : Hex → List ℕ → String
method_of hex input =
    if leb 4 (length input) then append "0x" (hex.encode (take 4 input)) else "N/A"

abbrev or_zero : Option ℕ → ℕ
or_zero none = 0
or_zero (some fee) = fee

-- The transfers, or the failure.
abbrev pub parse_result :
    ChainTxDbObj
    → List ChainTransferDbObj
    → Option (List ChainTransferDbObj)
    → FindReceiptParseResult
parse_result row gas none = failure "Transfer from contract without contract from"
parse_result row gas (some tokens) = success row (gas ++ tokens)

-- `i64::MAX`.
abbrev i64_max : ℕ
i64_max = 2 ^ 63 - 1

module _ (c : Codec) (hex : Hex) (web3 : Web3) (now : ℕ) where
  unfoldable pub chain_row :
      ℕ → ℕ → Transaction → TransactionReceipt → Block → ℕ → ℕ → Result ChainTxDbObj
  chain_row tx_hash chain_id tx receipt block block_number date = do
    receipt_to ← ok_or receipt.to (custom_error "Receipt to for tx to is None")
    tx_to ← ok_or tx.to (custom_error "Transaction to for tx to is None")
    _ ←
        fail_if (not (receipt_to == tx_to))
          (custom_error "Receipt to not match with transaction to")
    tx_from ← ok_or tx.from (custom_error "Transaction from is None")
    _ ←
        fail_if (not (tx_from == receipt.from))
          (custom_error "Transaction from not match with receipt from")
    status ← ok_or receipt.status (custom_error "Receipt status is None")
    _ ← fail_if (ltb 1 status) (custom_error "Receipt status unknown")
    _ ← fail_if (ltb i64_max tx.nonce) (custom_error "Nonce too big")
    _ ← fail_if (ltb i64_max tx.gas) (custom_error "Gas limit too big")
    gas_used ← ok_or receipt.gas_used (custom_error "Gas used expected")
    _ ← fail_if (ltb i64_max gas_used) (custom_error "Gas used too big")
    price ← ok_or receipt.effective_gas_price (custom_error "Effective gas price expected")
    fee_paid ← mul_u256 gas_used price
    ok (record {
      tx_hash = hex.h256_to_hex tx_hash;
      method = method_of hex tx.input;
      from_addr = c.address_to_hex receipt.from;
      to_addr = c.address_to_hex receipt_to;
      chain_id = chain_id;
      gas_used = gas_used;
      gas_limit = tx.gas;
      block_gas_price = c.to_dec (or_zero block.base_fee_per_gas);
      effective_gas_price = c.to_dec price;
      max_fee_per_gas = Option.map c.to_dec tx.max_fee_per_gas;
      priority_fee = Option.map c.to_dec tx.max_priority_fee_per_gas;
      val = c.to_dec tx.value;
      nonce = tx.nonce;
      checked_date = now;
      blockchain_date = date;
      block_number = block_number;
      chain_status = status;
      fee_paid = c.to_dec fee_paid;
    })

  unfoldable pub find_receipt_extended : ℕ → ℕ → ℕ → Result FindReceiptParseResult
  unfolding chain_row read_logs sent_to_contract token_transfers
  find_receipt_extended tx_hash chain_id glm_address = do
    found ← web3.eth_transaction_receipt tx_hash
    receipt ← ok_or found (custom_error "Receipt not found")
    found_tx ← web3.eth_transaction tx_hash
    tx ← ok_or found_tx (custom_error "Transaction not found")
    block_number ← ok_or receipt.block_number (custom_error "Block number is None")
    found_block ← web3.eth_block (some block_number)
    block ← ok_or found_block (custom_error "Block not found")
    found_date ← datetime_from_u256_timestamp hex block.timestamp
    date ← ok_or found_date (custom_error "Cannot convert timestamp to NaiveDateTime")
    row ← chain_row tx_hash chain_id tx receipt block block_number date
    tx_to ← ok_or tx.to (custom_error "Transaction to for tx to is None")
    tx_from ← ok_or tx.from (custom_error "Transaction from is None")
    (sender, amount) ← sent_to_contract glm_address tx_to (none, 0) receipt.logs
    logs ← read_logs glm_address receipt.logs
    ok (
        parse_result row (gas_transfer c chain_id glm_address date tx_to tx_from tx.value)
          (token_transfers c chain_id glm_address date tx_to sender logs))
