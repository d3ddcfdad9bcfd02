-- ===== src/Sender/Batching/Post.antt =====
-- `gather_transactions_post`: the groups, in the order of their first transfers, become transactions.
-- `iter_order` is the order in which a hash map gives its entries.
use erc20_payment_lib.Prelude.{
  ℕ, ◌+◌, List, [], ◌∷◌, ◌++◌, Option, none, some, Bool, true, false, ◌&&◌, ◌==◌, ltb, min,
  if◌then◌else◌, ok, err, panic, str_eq,
}
use erc20_payment_lib.Error.{Result, PaymentError, custom_error, from_hex_error, no_allowance_found}
use erc20_payment_lib.Db.{Db, TokenTransferDbObj, update_token_transfer, insert_by}
use erc20_payment_lib.Transaction.{Env}
use erc20_payment_lib.Sender.Setup.{PaymentSetup}
use erc20_payment_lib.Sender.Batching.Keys.{
  TokenTransferKey, TokenTransferMultiKey, TokenTransferMultiOrder, TokenTransferMap, opt_str_eq,
}
use erc20_payment_lib.Sender.Batching.Batch.{gather_transactions_batch}
use erc20_payment_lib.Sender.Batching.MultiBatch.{gather_transactions_batch_multi}

abbrev pub MultiMap : Type 0
MultiMap = List (TokenTransferMultiKey × List TokenTransferMultiOrder)

-- `iter().map(|f| f.id).min()`.
unfoldable pub min_id : List TokenTransferDbObj → Option ℕ
min_id [] = none
min_id (t ∷ tts) = elim (min_id tts) [ none ↦ some t.id | some m ↦ some (min t.id m) ]

-- `sorted_order`, with each group beside its key.
unfoldable pub sort_groups :
    TokenTransferMap → Result (List (ℕ × TokenTransferKey × List TokenTransferDbObj))
unfolding min_id insert_by
sort_groups [] = ok []
sort_groups ((key, tts) ∷ rest) = elim (min_id tts) [
  | none ↦ err (custom_error "Failed algorithm when searching min")
  | some m ↦ elim (sort_groups rest) [
    | ok sorted ↦ ok (insert_by (λ (i, x, xs) (j, y, ys). ltb i j) (m, key, tts) sorted)
    | err e ↦ err e
    | panic ↦ panic
  ]
]

unfoldable pub multi_key_eq : TokenTransferMultiKey → TokenTransferMultiKey → Bool
multi_key_eq a b =
    str_eq a.from_addr b.from_addr
    && a.chain_id == b.chain_id
    && opt_str_eq a.token_addr b.token_addr
    && opt_str_eq a.deposit_id b.deposit_id

abbrev pub multi_key_of : TokenTransferKey → TokenTransferMultiKey
multi_key_of key = record {
  from_addr = key.from_addr;
  chain_id = key.chain_id;
  token_addr = key.token_addr;
  deposit_id = key.deposit_id;
}

unfoldable pub push_order : TokenTransferMultiKey → TokenTransferMultiOrder → MultiMap → MultiMap
unfolding multi_key_eq
push_order key o [] = (key, o ∷ []) ∷ []
push_order key o ((k, orders) ∷ rest) =
    if multi_key_eq k key then (k, orders ++ o ∷ []) ∷ rest else (k, orders) ∷ push_order key o rest

-- The transfers of a failed batch, marked as they stand in memory.
unfoldable pub mark_failed : List TokenTransferDbObj → Db → Db
mark_failed [] db = db
mark_failed (t ∷ tts) db =
    mark_failed tts
      (update_token_transfer (record t { error = some "Error in gathering transactions" }) db)

-- An error that ends the loop, rather than being logged.
abbrev pub passed_up : PaymentError → Bool
passed_up (no_allowance_found request) = true
passed_up _ = false

module _ (env : Env) (setup : PaymentSetup) (iter_order : MultiMap → MultiMap) where
  -- The loop over `multi_key_map`, with `inserted_tx_count`.
  unfoldable pub post_multi : MultiMap → ℕ → Db → Db × Result ℕ
  unfolding mark_failed
  post_multi [] count db = (db, ok count)
  post_multi ((key, orders) ∷ rest) count db =
      let (db', tts, result) = gather_transactions_batch_multi env setup orders key db in
      elim result [
        | ok _ ↦ post_multi rest (count + 2) db'
        | err e ↦
            if passed_up e then (db', err e) else post_multi rest (count + 1) (mark_failed tts db')
        | panic ↦ (db', panic)
      ]

  -- The loop over `sorted_order`: a group of the gas currency becomes a transaction at once, the
  -- others are collected.
  unfoldable pub post_groups :
      List (ℕ × TokenTransferKey × List TokenTransferDbObj) → MultiMap → ℕ → Db → Db × Result ℕ
  unfolding post_multi push_order
  post_groups [] multi count db = post_multi (iter_order multi) count db
  post_groups ((m, key, tts) ∷ rest) multi count db = elim key.token_addr [
    | none ↦ elim (gather_transactions_batch env setup tts key db) [
      | ok db' ↦ post_groups rest multi (count + 2) db'
      | err e ↦ if passed_up e then (db, err e) else post_groups rest multi (count + 1) db
      | panic ↦ (db, panic)
    ]
    | some token_addr ↦ elim (env.codec.address_from_str key.receiver_addr) [
      | none ↦ (db, err from_hex_error)
      | some receiver ↦
          post_groups rest
            (push_order (multi_key_of key) (record { receiver = receiver; token_transfers = tts })
              multi)
            count db
    ]
  ]

  unfoldable pub gather_transactions_post : TokenTransferMap → Db → Db × Result ℕ
  unfolding sort_groups post_groups
  gather_transactions_post transfer_map db = elim (sort_groups transfer_map) [
    | ok sorted ↦ post_groups sorted [] 0 db
    | err e ↦ (db, err e)
    | panic ↦ (db, panic)
  ]
