-- ===== src/Sender/Batching/MultiBatch.antt =====
-- Orders of several receivers become transactions: `gather_transactions_batch_multi`.
use erc20_payment_lib.Prelude.{
  ℕ, zero, suc, ◌/◌, String, List, [], ◌∷◌, ◌++◌, Option, none, some, Bool, false, not, ◌||◌, ltb,
  if◌then◌else◌, ok, err, panic, ok_or, ◌>>=◌, ◌>>◌, take, drop, length,
}
use erc20_payment_lib.Text.{u256_max}
use erc20_payment_lib.Error.{Result, custom, custom_error, from_dec_str_err, no_allowance_found}
use erc20_payment_lib.Db.{
  Db, TxDbObj, TokenTransferDbObj, AllowanceDbObj, insert_tx, find_allowance, is_null,
}
use erc20_payment_lib.Transaction.{
  Env, create_erc20_transfer, create_erc20_deposit_transfer, create_erc20_transfer_multi_deposit,
  create_erc20_transfer_multi,
}
use erc20_payment_lib.Sender.Setup.{ChainSetup, PaymentSetup}
use erc20_payment_lib.Sender.Batching.Keys.{TokenTransferMultiKey, TokenTransferMultiOrder}
use erc20_payment_lib.Sender.Batching.Batch.{
  sum_amounts, address, lock_of, deposit_of, any_finish, store_batch, with_tx,
}

module _ (env : Env) (setup : PaymentSetup) where
  -- `multi_order_vector.chunks_mut(max_per_batch)`, which panics where `max_per_batch` is 0. Fuel:
  -- the length of the list.
  unfoldable pub chunks : ℕ → ℕ → List TokenTransferMultiOrder → List (List TokenTransferMultiOrder)
  chunks fuel size [] = []
  chunks zero size (x ∷ xs) = []
  chunks (suc fuel) size (x ∷ xs) = take size (x ∷ xs) ∷ chunks fuel size (drop size (x ∷ xs))

  unfoldable pub split_orders :
      ℕ → List TokenTransferMultiOrder → Result (List (List TokenTransferMultiOrder))
  unfolding chunks
  split_orders zero orders = panic
  split_orders (suc n) orders = ok (chunks (length orders) (suc n) orders)

  -- The receivers and the sums of the amounts of one chunk.
  unfoldable pub order_sums : List TokenTransferMultiOrder → Result (List ℕ × List ℕ)
  unfolding sum_amounts
  order_sums [] = ok ([], [])
  order_sums (o ∷ orders) = sum_amounts env setup 0 o.token_transfers >>= λ sum.
      order_sums orders >>= λ (to, amounts). ok (o.receiver ∷ to, sum ∷ amounts)

  abbrev pub all_transfers : List TokenTransferMultiOrder → List TokenTransferDbObj
  all_transfers [] = []
  all_transfers (o ∷ orders) = o.token_transfers ++ all_transfers orders

  abbrev pub unstored : List (List TokenTransferMultiOrder) → List TokenTransferDbObj
  unstored [] = []
  unstored (chunk ∷ rest) = all_transfers chunk ++ unstored rest

  -- `u256 / 2`.
  abbrev pub minimum_allowance : ℕ
  minimum_allowance = u256_max / 2

  abbrev pub is_confirmed_allowance : Option AllowanceDbObj → Result Bool
  is_confirmed_allowance none = ok false
  is_confirmed_allowance (some a) =
      if is_null a.confirm_date
      then ok false
      else (ok_or (env.codec.from_dec_str a.allowance) from_dec_str_err >>= λ allowance.
          ok (not (ltb allowance minimum_allowance)))

  -- The check of the allowance of the multi contract.
  unfoldable pub check_allowance :
      ChainSetup → String → TokenTransferMultiKey → Db → Result (Unit {0})
  check_allowance chain token_addr key db =
      if setup.skip_multi_contract_check || not (is_null key.deposit_id)
      then ok tt
      else elim chain.multi_contract_address [
        | none ↦ ok tt
        | some multi ↦
            let spender = env.codec.address_to_hex multi in
            is_confirmed_allowance (find_allowance db key.from_addr token_addr spender key.chain_id)
            >>= λ met.
                if met
                then ok tt
                else err (
                    no_allowance_found (record {
                      owner = key.from_addr;
                      token_addr = token_addr;
                      spender_addr = spender;
                      chain_id = key.chain_id;
                      amount = u256_max;
                    }))
      ]

  -- Several receivers, or a single one that is not paid by a transfer of its own.
  unfoldable pub multi_tx :
      ChainSetup → List ℕ → List ℕ → Bool → TokenTransferMultiKey → Result TxDbObj
  multi_tx chain to amounts finish key = elim key.deposit_id [
    | some deposit_id ↦ lock_of env setup chain >>= λ lock.
        deposit_of env setup deposit_id >>= λ id. address env setup key.from_addr >>= λ from.
        create_erc20_transfer_multi_deposit env (record {
          from = from;
          lock_contract = lock;
          erc20_to = to;
          erc20_amount = amounts;
          chain_id = key.chain_id;
          gas_limit = none;
          deposit_id = id;
          deposit_finish = finish;
        })
    | none ↦ elim chain.multi_contract_address [
      | none ↦ custom "Multi contract address not set, but it is needed to process transactions"
      | some multi ↦ address env setup key.from_addr >>= λ from.
          create_erc20_transfer_multi env (record {
            from = from;
            contract = multi;
            erc20_to = to;
            erc20_amount = amounts;
            chain_id = key.chain_id;
            gas_limit = none;
            direct = setup.contract_use_direct_method;
            unpacked = setup.contract_use_unpacked_method;
          })
    ]
  ]

  unfoldable pub single_tx :
      ChainSetup → String → ℕ → ℕ → Bool → TokenTransferMultiKey → Result TxDbObj
  single_tx chain token_addr to amount finish key = elim key.deposit_id [
    | some deposit_id ↦ lock_of env setup chain >>= λ lock.
        deposit_of env setup deposit_id >>= λ id. address env setup key.from_addr >>= λ from.
        create_erc20_deposit_transfer env (record {
          from = from;
          lock_contract = lock;
          erc20_to = to;
          erc20_amount = amount;
          chain_id = key.chain_id;
          gas_limit = none;
          deposit_id = id;
          deposit_finish = finish;
        })
    | none ↦ address env setup key.from_addr >>= λ from. address env setup token_addr >>= λ token.
        create_erc20_transfer env from token to amount key.chain_id none
  ]

  abbrev pub use_transfer : ChainSetup → Bool
  use_transfer chain = setup.use_transfer_for_single_payment || is_null chain.multi_contract_address

  -- The transaction of one chunk.
  unfoldable pub chunk_tx :
      ChainSetup → String → List ℕ → List ℕ → Bool → TokenTransferMultiKey → Result TxDbObj
  unfolding single_tx multi_tx
  chunk_tx chain token_addr (to ∷ []) (amount ∷ []) finish key =
      if use_transfer chain
      then single_tx chain token_addr to amount finish key
      else multi_tx chain (to ∷ []) (amount ∷ []) finish key
  chunk_tx chain token_addr to amounts finish key = multi_tx chain to amounts finish key

  -- The loop over the chunks. A chunk is stored before the next is looked at; an error leaves the
  -- database as the chunks before it have made it. Between the two stand the transfers in memory.
  unfoldable pub store_chunks :
      ChainSetup
      → String
      → TokenTransferMultiKey
      → List (List TokenTransferMultiOrder)
      → Db
      → Db × List TokenTransferDbObj × Result (Unit {0})
  unfolding order_sums chunk_tx store_batch
  store_chunks chain token_addr key [] db = (db, [], ok tt)
  store_chunks chain token_addr key (chunk ∷ rest) db =
      let web3tx = order_sums chunk >>= λ (to, amounts).
      chunk_tx chain token_addr to amounts (any_finish (all_transfers chunk)) key in
      elim web3tx [
        | ok tx ↦
            let (db', tts, result) =
              store_chunks chain token_addr key rest (store_batch tx (all_transfers chunk) db) in
            (db', with_tx (insert_tx tx db).1.id (all_transfers chunk) ++ tts, result)
        | err e ↦ (db, unstored (chunk ∷ rest), err e)
        | panic ↦ (db, unstored (chunk ∷ rest), panic)
      ]

  -- What is checked before the first chunk: the chain's settings and the chunks.
  unfoldable pub prepare_multi :
      List TokenTransferMultiOrder
      → TokenTransferMultiKey
      → Db
      → Result (ChainSetup × String × List (List TokenTransferMultiOrder))
  unfolding check_allowance split_orders
  prepare_multi orders key db =
      ok_or (setup.chain_setup key.chain_id) (custom_error "No setup found for chain id")
      >>= λ chain. ok_or key.token_addr (custom_error "Not implemented for multi") >>= λ token_addr.
          check_allowance chain token_addr key db
          >> (split_orders chain.multi_contract_max_at_once orders >>= λ parts.
              ok (chain, token_addr, parts))

  unfoldable pub gather_transactions_batch_multi :
      List TokenTransferMultiOrder
      → TokenTransferMultiKey
      → Db
      → Db × List TokenTransferDbObj × Result (Unit {0})
  unfolding prepare_multi store_chunks
  gather_transactions_batch_multi orders key db = elim (prepare_multi orders key db) [
    | ok (chain, token_addr, parts) ↦ store_chunks chain token_addr key parts db
    | err e ↦ (db, all_transfers orders, err e)
    | panic ↦ (db, all_transfers orders, panic)
  ]
