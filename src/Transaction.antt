-- ===== src/Transaction.antt =====
-- The rows that `create_…` builds for the table `tx`: crates/erc20_payment_lib/src/transaction.rs.
-- `now` is the time of `TxDbObj::default()`, and an `ethabi` error is an `eth_abi_error`.
pub mod Request
pub mod Check
pub mod Send
pub mod Receipt
pub mod Extended
use mathlib.Core.Option
use erc20_payment_lib.Prelude.{
  ℕ, String, List, Option, none, some, Bool, if◌then◌else◌, ok, ok_or, ◌>>=◌, not,
}
use erc20_payment_lib.Text.{Codec, u256_max}
use erc20_payment_lib.Error.{Result, eth_abi_error}
use erc20_payment_lib.Db.{TxDbObj, TokenTransferDbObj, default_tx}
use erc20_payment_lib.Multi.{pack_transfers_for_multi_contract}
use erc20_payment_lib.Contracts.{
  Abi, CreateDepositArgs, encode_erc20_transfer, encode_faucet_create, encode_erc20_approve,
  encode_deposit_transfer, encode_deposit_transfer_and_close, encode_multi_direct,
  encode_multi_direct_packed, encode_multi_indirect, encode_multi_indirect_packed,
  encode_close_deposit, encode_terminate_deposit, encode_create_deposit, encode_payout_single,
  encode_payout_single_and_close,
}

-- What the code outside `src` gives to these functions, and the time.
pub record Env : Type 0 where
  pub codec : Codec
  pub abi : Abi
  pub now : ℕ

pub record SingleTransferDepositArgs : Type 0 where
  pub from : ℕ
  pub lock_contract : ℕ
  pub erc20_to : ℕ
  pub erc20_amount : ℕ
  pub chain_id : ℕ
  pub gas_limit : Option ℕ
  pub deposit_id : ℕ
  pub deposit_finish : Bool

pub record MultiTransferDepositArgs : Type 0 where
  pub from : ℕ
  pub lock_contract : ℕ
  pub erc20_to : List ℕ
  pub erc20_amount : List ℕ
  pub chain_id : ℕ
  pub gas_limit : Option ℕ
  pub deposit_id : ℕ
  pub deposit_finish : Bool

pub record MultiTransferArgs : Type 0 where
  pub from : ℕ
  pub contract : ℕ
  pub erc20_to : List ℕ
  pub erc20_amount : List ℕ
  pub chain_id : ℕ
  pub gas_limit : Option ℕ
  pub direct : Bool
  pub unpacked : Bool

-- `TxDbObj { method, from_addr, to_addr, chain_id, gas_limit, call_data, ..Default::default() }`
abbrev pub call_tx : Env → String → ℕ → ℕ → ℕ → Option ℕ → String → TxDbObj
call_tx env method from to chain gas call = record (default_tx env.now) {
  method = method;
  from_addr = env.codec.address_to_hex from;
  to_addr = env.codec.address_to_hex to;
  chain_id = chain;
  gas_limit = gas;
  call_data = some call;
}

-- `hex::encode(encode_…(…).map_err(err_from!())?)`, put into a row.
abbrev pub with_call {ℓ} : {A : Type ℓ} → Option String → (String → A) → Result A
with_call o row = ok_or o eth_abi_error >>= λ call. ok (row call)

module _ (env : Env) where
  unfoldable pub create_token_transfer :
      ℕ → ℕ → ℕ → Option String → Option ℕ → ℕ → Option String → TokenTransferDbObj
  create_token_transfer from receiver chain payment_id token amount deposit_id = record {
    id = 0;
    payment_id = payment_id;
    from_addr = env.codec.address_to_hex from;
    receiver_addr = env.codec.address_to_hex receiver;
    chain_id = chain;
    token_addr = Option.map env.codec.address_to_hex token;
    token_amount = env.codec.to_dec amount;
    deposit_id = deposit_id;
    deposit_finish = 0;
    create_date = env.now;
    tx_id = none;
    paid_date = none;
    fee_paid = none;
    error = none;
  }

  unfoldable pub create_eth_transfer : ℕ → ℕ → ℕ → Option ℕ → ℕ → TxDbObj
  create_eth_transfer from to chain gas amount = record (default_tx env.now) {
    method = "transfer";
    from_addr = env.codec.address_to_hex from;
    to_addr = env.codec.address_to_hex to;
    chain_id = chain;
    gas_limit = gas;
    val = env.codec.to_dec amount;
  }

  unfoldable pub create_erc20_transfer : ℕ → ℕ → ℕ → ℕ → ℕ → Option ℕ → Result TxDbObj
  create_erc20_transfer from token to amount chain gas =
      with_call (encode_erc20_transfer env.abi to amount)
        (λ call. (call_tx env "ERC20.transfer" from token chain gas call))

  unfoldable pub create_erc20_deposit_transfer : SingleTransferDepositArgs → Result TxDbObj
  create_erc20_deposit_transfer a =
      if not a.deposit_finish
      then with_call (encode_payout_single env.abi a.deposit_id a.erc20_to a.erc20_amount) (λ call.
        (call_tx env "LOCK.depositSingleTransfer" a.from a.lock_contract a.chain_id a.gas_limit
          call))
      else with_call (encode_payout_single_and_close env.abi a.deposit_id a.erc20_to a.erc20_amount)
          (λ call.
            (call_tx env "LOCK.depositSingleTransferAndClose" a.from a.lock_contract a.chain_id
              a.gas_limit call))

  unfoldable pub create_erc20_transfer_multi_deposit : MultiTransferDepositArgs → Result TxDbObj
  create_erc20_transfer_multi_deposit a =
      pack_transfers_for_multi_contract a.erc20_to a.erc20_amount >>= λ (packed, sum).
      if not a.deposit_finish
      then with_call (encode_deposit_transfer env.abi a.deposit_id packed) (λ call.
        (call_tx env "LOCK.depositTransfer" a.from a.lock_contract a.chain_id a.gas_limit call))
      else with_call (encode_deposit_transfer_and_close env.abi a.deposit_id packed) (λ call.
        (call_tx env "LOCK.depositTransferAndClose" a.from a.lock_contract a.chain_id a.gas_limit
          call))

  -- The call data and the method of a multi transfer.
  unfoldable pub multi_call : MultiTransferArgs → Result (String × String)
  multi_call a =
      if a.unpacked
      then (if a.direct
          then with_call (encode_multi_direct env.abi a.erc20_to a.erc20_amount)
              (λ call. (call, "MULTI.golemTransferDirect"))
          else with_call (encode_multi_indirect env.abi a.erc20_to a.erc20_amount)
              (λ call. (call, "MULTI.golemTransferIndirect")))
      else (pack_transfers_for_multi_contract a.erc20_to a.erc20_amount >>= λ (packed, sum).
          if a.direct
          then with_call (encode_multi_direct_packed env.abi packed)
              (λ call. (call, "MULTI.golemTransferDirectPacked"))
          else with_call (encode_multi_indirect_packed env.abi packed sum)
              (λ call. (call, "MULTI.golemTransferIndirectPacked")))

  unfoldable pub create_erc20_transfer_multi : MultiTransferArgs → Result TxDbObj
  unfolding multi_call
  create_erc20_transfer_multi a = multi_call a >>= λ (call, method).
      ok (call_tx env method a.from a.contract a.chain_id a.gas_limit call)

  unfoldable pub create_faucet_mint : ℕ → ℕ → ℕ → Option ℕ → Result TxDbObj
  create_faucet_mint from faucet chain gas =
      with_call (encode_faucet_create env.abi)
        (λ call. (call_tx env "FAUCET.create" from faucet chain gas call))

  unfoldable pub create_create_deposit : ℕ → ℕ → ℕ → Option ℕ → CreateDepositArgs → Result TxDbObj
  create_create_deposit from lock chain gas args =
      with_call (encode_create_deposit env.abi args)
        (λ call. (call_tx env "LOCK.createDeposit" from lock chain gas call))

  unfoldable pub create_close_deposit : ℕ → ℕ → ℕ → Option ℕ → ℕ → Result TxDbObj
  create_close_deposit from lock chain gas deposit_id =
      with_call (encode_close_deposit env.abi deposit_id)
        (λ call. (call_tx env "LOCK.closeDeposit" from lock chain gas call))

  unfoldable pub create_terminate_deposit : ℕ → ℕ → ℕ → Option ℕ → ℕ → Result TxDbObj
  create_terminate_deposit from lock chain gas nonce =
      with_call (encode_terminate_deposit env.abi nonce)
        (λ call. (call_tx env "LOCK.terminateDeposit" from lock chain gas call))

  unfoldable pub create_erc20_approve : ℕ → ℕ → ℕ → ℕ → Option ℕ → Result TxDbObj
  create_erc20_approve from token spender chain gas =
      with_call (encode_erc20_approve env.abi spender u256_max)
        (λ call. (call_tx env "ERC20.approve" from token chain gas call))
