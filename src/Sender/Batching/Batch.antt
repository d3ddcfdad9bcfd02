-- ===== src/Sender/Batching/Batch.antt =====
-- A group becomes a transaction: `gather_transactions_batch`.
use erc20_payment_lib.Prelude.{
  ℕ, String, List, [], ◌∷◌, none, some, Bool, false, ◌||◌, ltb, ok, ok_or, ◌>>=◌,
}
use erc20_payment_lib.U256.{add_u256}
use erc20_payment_lib.Error.{Result, custom_error, from_dec_str_err, from_hex_error}
use erc20_payment_lib.Db.{Db, TxDbObj, TokenTransferDbObj, update_token_transfer, insert_tx}
use erc20_payment_lib.Transaction.{
  Env, create_eth_transfer, create_erc20_transfer, create_erc20_deposit_transfer,
}
use erc20_payment_lib.Sender.Setup.{ChainSetup, PaymentSetup}
use erc20_payment_lib.Sender.Batching.Keys.{TokenTransferKey}

-- `token_transfer.tx_id = Some(web3_tx_dao.id)` and the update, for each transfer.
unfoldable pub assign_tx : ℕ → List TokenTransferDbObj → Db → Db
assign_tx tx_id [] db = db
assign_tx tx_id (t ∷ tts) db =
    assign_tx tx_id tts (update_token_transfer (record t { tx_id = some tx_id }) db)

-- The SQL transaction that stores the new row and its transfers.
unfoldable pub store_batch : TxDbObj → List TokenTransferDbObj → Db → Db
unfolding assign_tx
store_batch web3tx tts db =
    let (db', web3_tx_dao) = insert_tx web3tx db in assign_tx web3_tx_dao.id tts db'

-- The transfers in memory afterwards.
abbrev pub with_tx : ℕ → List TokenTransferDbObj → List TokenTransferDbObj
with_tx tx_id [] = []
with_tx tx_id (t ∷ tts) = record t { tx_id = some tx_id } ∷ with_tx tx_id tts

abbrev pub any_finish : List TokenTransferDbObj → Bool
any_finish [] = false
any_finish (t ∷ tts) = ltb 0 t.deposit_finish || any_finish tts

module _ (env : Env) (setup : PaymentSetup) where
  -- The loop that adds up the amounts; `sum` is the sum so far.
  unfoldable pub sum_amounts : ℕ → List TokenTransferDbObj → Result ℕ
  sum_amounts sum [] = ok sum
  sum_amounts sum (t ∷ tts) =
      ok_or (env.codec.from_dec_str t.token_amount) from_dec_str_err >>= λ amount.
      add_u256 sum amount >>= λ more. sum_amounts more tts

  abbrev pub address : String → Result ℕ
  address text = ok_or (env.codec.address_from_str text) from_hex_error

  abbrev pub lock_of : ChainSetup → Result ℕ
  lock_of chain =
      ok_or chain.lock_contract_address (custom_error "Lock contract address not set for chain id")

  abbrev pub deposit_of : String → Result ℕ
  deposit_of text = ok_or (env.codec.u256_from_str text) (custom_error "Invalid deposit id")

  -- The transaction of one group.
  unfoldable pub batch_tx : ChainSetup → ℕ → Bool → TokenTransferKey → Result TxDbObj
  batch_tx chain sum finish key = elim key.token_addr [
    | none ↦ address key.from_addr >>= λ from. address key.receiver_addr >>= λ to.
        ok (create_eth_transfer env from to key.chain_id none sum)
    | some token_addr ↦ elim key.deposit_id [
      | some deposit_id ↦ lock_of chain >>= λ lock. deposit_of deposit_id >>= λ id.
          address key.from_addr >>= λ from. address key.receiver_addr >>= λ to.
          create_erc20_deposit_transfer env (record {
            from = from;
            lock_contract = lock;
            erc20_to = to;
            erc20_amount = sum;
            chain_id = key.chain_id;
            gas_limit = none;
            deposit_id = id;
            deposit_finish = finish;
          })
      | none ↦ address key.from_addr >>= λ from. address token_addr >>= λ token.
          address key.receiver_addr >>= λ to.
          create_erc20_transfer env from token to sum key.chain_id none
    ]
  ]

  unfoldable pub gather_transactions_batch :
      List TokenTransferDbObj → TokenTransferKey → Db → Result Db
  unfolding sum_amounts batch_tx store_batch
  gather_transactions_batch tts key db = sum_amounts 0 tts >>= λ sum.
      ok_or (setup.chain_setup key.chain_id) (custom_error "No setup found for chain id")
      >>= λ chain.
          batch_tx chain sum (any_finish tts) key >>= λ web3tx. ok (store_batch web3tx tts db)
