-- ===== src/Sender/Allowance.antt =====
-- `process_allowance` of crates/erc20_payment_lib/src/sender/allowance.rs, and `check_allowance` of
-- eth.rs: is the multi-transfer contract allowed to spend the tokens, and if not, the transaction
-- that allows it.
use erc20_payment_lib.Prelude.{
  ℕ, ◌/◌, ◌^◌, ◌-◌, String, List, [], Bool, Option, none, some, ◌==◌, ltb, not, length,
  if◌then◌else◌, Outcome, ok, err, panic, ok_or,
}
use erc20_payment_lib.Prelude as Plain
use erc20_payment_lib.Text.{u256_max}
use erc20_payment_lib.Error.{
  Result, AllowanceRequest, custom_error, eth_abi_error, transaction_failed_error,
}
use erc20_payment_lib.Contracts.{encode_erc20_allowance}
use erc20_payment_lib.Db.{
  AllowanceDbObj, find_allowance, insert_allowance, update_allowance, insert_tx,
}
use erc20_payment_lib.Events.{cant_sign, CantSignContent}
use erc20_payment_lib.Multi.Bytes.{from_bytes}
use erc20_payment_lib.Node.{Web3, Hex, Signer, CallRequest}
use erc20_payment_lib.World.{
  Run, pure, lift, raise, gets, ◌>>=◌, ◌>>◌, change_db, send_driver_event,
}
use erc20_payment_lib.Transaction.{Env, create_erc20_approve}
use erc20_payment_lib.Transaction.Request.{parse_address, parse_dec}
use erc20_payment_lib.Sender.Setup.{PaymentSetup}

abbrev pub minimum_allowance : ℕ
minimum_allowance = u256_max / 2

abbrev allowance_call : ℕ → ℕ → List ℕ → CallRequest
allowance_call owner token bytes = record {
  from = some owner;
  to = some token;
  gas = none;
  gas_price = none;
  value = none;
  call_data = some bytes;
  transaction_type = none;
  max_fee_per_gas = none;
  max_priority_fee_per_gas = none;
}

abbrev read_word : List ℕ → Result ℕ
read_word bytes =
    if length bytes == 32
    then ok (from_bytes 0 bytes)
    else err (custom_error "Invalid response from ERC20 allowance check")

module _ (env : Env) (hex : Hex) (web3 : Web3) where
  unfoldable pub check_allowance : ℕ → ℕ → ℕ → Result ℕ
  check_allowance owner token spender =
      Plain.◌>>=◌ (ok_or (encode_erc20_allowance env.abi owner spender) eth_abi_error) λ text.
        Plain.◌>>=◌ (ok_or (hex.decode text) eth_abi_error)
          λ bytes. Plain.◌>>=◌ (web3.eth_call (allowance_call owner token bytes)) read_word

  unfoldable pub allowance_on_chain : AllowanceRequest → Run ℕ
  unfolding check_allowance
  allowance_on_chain request = do
    owner ← lift (parse_address env.codec request.owner)
    token ← lift (parse_address env.codec request.token_addr)
    spender ← lift (parse_address env.codec request.spender_addr)
    lift (check_allowance owner token spender)

  abbrev pub row_of : AllowanceRequest → ℕ → Option ℕ → Option ℕ → AllowanceDbObj
  row_of request allowance tx_id confirm_date = record {
    id = 0;
    owner = request.owner;
    token_addr = request.token_addr;
    spender = request.spender_addr;
    allowance = env.codec.to_dec allowance;
    chain_id = request.chain_id;
    tx_id = tx_id;
    fee_paid = none;
    confirm_date = confirm_date;
    error = none;
  }

  abbrev confirm_row : ℕ → AllowanceDbObj → Run (Unit {0})
  confirm_row allowance row =
      if ltb minimum_allowance allowance
      then change_db (update_allowance (record row { confirm_date = some env.now }))
      else pure tt

  abbrev insert_found : AllowanceRequest → ℕ → Run (Unit {0})
  insert_found request allowance =
      if ltb minimum_allowance allowance
      then change_db (insert_allowance (row_of request allowance none (some env.now)))
      else pure tt

  -- `match db_allowance`: the allowance from the database where it is confirmed, else the chain's.
  unfoldable pub known_allowance : AllowanceRequest → Option AllowanceDbObj → Run ℕ
  unfolding allowance_on_chain
  known_allowance request none = do
    allowance ← allowance_on_chain request
    insert_found request allowance
    pure allowance
  known_allowance request (some row) = elim row.confirm_date [
    | some date ↦ lift (parse_dec env.codec row.allowance)
    | none ↦ do allowance ← allowance_on_chain request; confirm_row allowance row; pure allowance
  ]

  -- The approval, and the row that waits for it, in one SQL transaction.
  unfoldable pub store_approve : AllowanceRequest → ℕ → ℕ → ℕ → Run ℕ
  store_approve request owner token spender = do
    tx ← lift (create_erc20_approve env owner token spender request.chain_id none)
    w ← gets (λ w. w)
    let (db, stored) = insert_tx tx w.db
    change_db (λ _. insert_allowance (row_of request u256_max (some stored.id) none) db)
    pure 1

  unfoldable pub approve : Signer → AllowanceRequest → Run ℕ
  unfolding store_approve
  approve signer request = do
    owner ← lift (parse_address env.codec request.owner)
    elim (signer.check_if_sign_possible owner) [
      | err e ↦ do
        send_driver_event
            (cant_sign (CantSignContent.allowance (row_of request u256_max none none)))
        raise (transaction_failed_error e)
      | panic ↦ lift panic
      | ok _ ↦ do
        token ← lift (parse_address env.codec request.token_addr)
        spender ← lift (parse_address env.codec request.spender_addr)
        store_approve request owner token spender
    ]

  unfoldable pub process_allowance : PaymentSetup → Signer → AllowanceRequest → Run ℕ
  unfolding known_allowance approve
  process_allowance setup signer request = do
    _ ←
        lift
          (ok_or (setup.chain_setup request.chain_id) (custom_error "No chain setup for chain id"))
    w ← gets (λ w. w)
    allowance ←
        known_allowance request (
          find_allowance w.db request.owner request.token_addr request.spender_addr
            request.chain_id)
    if ltb allowance minimum_allowance then approve signer request else pure 0
