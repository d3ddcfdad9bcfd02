-- ===== src/Transaction/Request.antt =====
-- What is sent to the node for a row of `tx`: `dao_to_call_request` and `dao_to_transaction` of
-- crates/erc20_payment_lib/src/transaction.rs. The fields are read in the order of the source.
use erc20_payment_lib.Prelude.{ℕ, String, List, [], Option, none, some, ok, ok_or, ◌>>=◌}
use erc20_payment_lib.Text.{Codec}
use erc20_payment_lib.Error.{Result, custom_error, from_hex_error, from_dec_str_err}
use erc20_payment_lib.Db.{TxDbObj}
use erc20_payment_lib.Node.{CallRequest, TransactionParameters, Hex}

abbrev pub parse_address : Codec → String → Result ℕ
parse_address c text = ok_or (c.address_from_str text) from_hex_error

abbrev pub parse_dec : Codec → String → Result ℕ
parse_dec c text = ok_or (c.from_dec_str text) from_dec_str_err

-- A fee that has to be set.
unfoldable pub fee_of : Codec → Option String → String → Result ℕ
fee_of c fee missing = ok_or fee (custom_error missing) >>= parse_dec c

unfoldable pub decode_data_to_bytes : Hex → TxDbObj → Result (Option (List ℕ))
decode_data_to_bytes hex tx = elim tx.call_data [
  | none ↦ ok none
  | some data_text ↦
      ok_or (hex.decode data_text) (custom_error "Failed to convert data from hex") >>= λ bytes.
      ok (some bytes)
]

unfoldable pub dao_to_call_request : Codec → Hex → TxDbObj → Result CallRequest
unfolding decode_data_to_bytes fee_of
dao_to_call_request c hex tx = do
  from ← parse_address c tx.from_addr
  to ← parse_address c tx.to_addr
  value ← parse_dec c tx.val
  bytes ← decode_data_to_bytes hex tx
  max_fee ← fee_of c tx.max_fee_per_gas "max_fee_per_gas has to be set"
  priority ← fee_of c tx.priority_fee "priority_fee has to be set"
  ok (record {
    from = some from;
    to = some to;
    gas = tx.gas_limit;
    gas_price = none;
    value = some value;
    call_data = bytes;
    transaction_type = some 2;
    max_fee_per_gas = some max_fee;
    max_priority_fee_per_gas = some priority;
  })

abbrev bytes_or_default : Option (List ℕ) → List ℕ
bytes_or_default none = []
bytes_or_default (some bytes) = bytes

unfoldable pub dao_to_transaction : Codec → Hex → TxDbObj → Result TransactionParameters
unfolding decode_data_to_bytes fee_of
dao_to_transaction c hex tx = do
  nonce ← ok_or tx.nonce (custom_error "Missing nonce")
  to ← parse_address c tx.to_addr
  gas ← ok_or tx.gas_limit (custom_error "Missing gas limit")
  value ← parse_dec c tx.val
  bytes ← decode_data_to_bytes hex tx
  max_fee ← fee_of c tx.max_fee_per_gas "max_fee_per_gas has to be set"
  priority ← fee_of c tx.priority_fee "priority_fee has to be set"
  ok (record {
    nonce = some nonce;
    to = some to;
    gas = gas;
    gas_price = none;
    value = value;
    call_data = bytes_or_default bytes;
    chain_id = some tx.chain_id;
    transaction_type = some 2;
    max_fee_per_gas = some max_fee;
    max_priority_fee_per_gas = some priority;
  })
