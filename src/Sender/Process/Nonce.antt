-- ===== src/Sender/Process/Nonce.antt =====
-- The nonce and the fees of a transaction that has none: sender/process.rs.
use erc20_payment_lib.Prelude.{
  ℕ, ◌+◌, ◌*◌, ◌^◌, String, Bool, false, not, ◌&&◌, Option, none, some, ltb, max, ◌==◌,
  if◌then◌else◌, ok, err, panic, ok_or, ◌>>=◌,
}
use erc20_payment_lib.Text.{Codec}
use erc20_payment_lib.Error.{Result, custom, transaction_failed_error}
use erc20_payment_lib.U256.{add_u256, sub_u256, mul_u256, as_u64}
use erc20_payment_lib.Convert.{Decimal, to_u256_from_gwei, to_gwei, to_u256}
use erc20_payment_lib.Db.{Db, TxDbObj, get_transaction_highest_nonce}
use erc20_payment_lib.Node.{Web3}
use erc20_payment_lib.Sender.Setup.{ChainSetup}
use erc20_payment_lib.Sender.Process.Outside.{Outside}

-- eth.rs.
unfoldable pub get_transaction_count : Web3 → ℕ → Bool → Result ℕ
get_transaction_count web3 address pending = web3.eth_transaction_count address pending >>= as_u64

-- An error of the node, as the custom error that it becomes.
abbrev pub rpc_result : Result ℕ → Result ℕ
rpc_result (ok n) = ok n
rpc_result (err e) = custom "Web3 RPC endpoint failing for network"
rpc_result panic = panic

-- `nonce` is the node's, `db_nonce` the highest of a confirmed transaction.
unfoldable pub check_nonce : ℕ → Option ℕ → Result ℕ
check_nonce nonce none = ok nonce
check_nonce nonce (some db_nonce) =
    if ltb nonce (db_nonce + 1)
    then custom "Blockchain nonce is lower than db nonce, blockchain is not updated yet"
    else ok nonce

unfoldable pub fee_or : Codec → Option String → ℕ → Result ℕ
fee_or c none configured = ok configured
fee_or c (some fee) configured = to_u256 c fee

abbrev whole : Bool → ℕ → Decimal
whole is_negative n = record { is_negative = is_negative; mantissa = n; scale = 0 }

-- Between -10 and 30.
unfoldable pub clamp_extra_gas : Decimal → Decimal
clamp_extra_gas d =
    let bound = if d.is_negative then 10 else 30 in
    if ltb (bound * 10 ^ d.scale) d.mantissa then whole d.is_negative bound else d

unfoldable pub extra_gas_of : Option (Option Decimal) → Result Decimal
unfolding clamp_extra_gas
extra_gas_of none = ok (whole false 0)
extra_gas_of (some none) = custom "POLYGON_ECO_MODE_EXTRA_GAS has to be decimal format"
extra_gas_of (some (some d)) = ok (clamp_extra_gas d)

-- `new_target_gas_u256` of the block's gas price.
unfoldable pub eco_target : ℕ → Decimal → Result ℕ
eco_target gas_price extra_gas = to_u256_from_gwei extra_gas >>= λ extra.
    if not (extra_gas.is_negative && not (extra_gas.mantissa == 0))
    then add_u256 gas_price extra
    else (sub_u256 gas_price extra >>= λ target. add_u256 1_000_000_000 extra >>= λ limit.
        if ltb gas_price limit then ok 1_000_000_000 else ok target)

-- Both prices are written to the log in gwei, which fails from 2^96 on.
abbrev logged : ℕ → ℕ → Result ℕ
logged gas_price target = to_gwei gas_price >>= λ _. to_gwei target >>= λ _. ok target

-- The lower maximum fee of the eco mode, where it saves a tenth.
unfoldable pub eco_max_fee : Web3 → Option (Option Decimal) → ℕ → ℕ → Result ℕ
unfolding eco_target extra_gas_of
eco_max_fee web3 setting max_fee priority = do
  found ← web3.eth_block none
  block ← ok_or found (transaction_failed_error "Failed to get latest block from RPC node")
  gas_price ←
      ok_or block.base_fee_per_gas
        (transaction_failed_error "Failed to get base_fee_per_gas from RPC node")
  extra_gas ← extra_gas_of setting
  eco ← eco_target gas_price extra_gas
  let target = max eco priority
  bumped ← mul_u256 target 11
  allowed ← mul_u256 max_fee 10
  if ltb bumped allowed then logged gas_price target else ok max_fee

module _ (outside : Outside) (web3 : Web3) (chain_setup : ChainSetup) where
  abbrev is_polygon_eco_mode : Bool
  is_polygon_eco_mode = chain_setup.chain_id == 137 && outside.polygon_eco_mode

  abbrev pub max_fee_of : ℕ → ℕ → Result ℕ
  max_fee_of max_fee priority =
      if is_polygon_eco_mode
      then eco_max_fee web3 outside.extra_gas max_fee priority
      else ok max_fee

  -- The branch of `transaction_nonce` for a row without a nonce.
  unfoldable pub assign_nonce : Db → TxDbObj → ℕ → Result TxDbObj
  unfolding get_transaction_count check_nonce fee_or eco_max_fee
  assign_nonce db tx from_addr = do
    counted ← rpc_result (get_transaction_count web3 from_addr false)
    nonce ← check_nonce counted (get_transaction_highest_nonce db tx.chain_id tx.from_addr)
    configured ← fee_or outside.codec tx.max_fee_per_gas chain_setup.max_fee_per_gas
    priority ← fee_or outside.codec tx.priority_fee chain_setup.priority_fee
    max_fee ← max_fee_of configured priority
    ok (record tx {
      max_fee_per_gas = some (outside.codec.to_dec max_fee);
      priority_fee = some (outside.codec.to_dec priority);
      nonce = some nonce;
    })
