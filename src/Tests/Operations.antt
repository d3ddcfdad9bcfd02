-- ===== src/Tests/Operations.antt =====
-- The theorems on the operations of the runtime and on the sender's loops, at concrete inputs.
use erc20_payment_lib.Sender.Loop.Turn.{
  gather_turn, after_processing, finished, with_db, after_pre, after_post, end_turn,
}
use erc20_payment_lib.Sender.Loop.Finish.{gather_turn-finished}
use erc20_payment_lib.Sender.Batching.Pre.{
  Gathered, gather_transactions_pre, gather_all, gather_transfer, gather_checked, group_transfer,
}
use erc20_payment_lib.Sender.Batching.Post.{
  gather_transactions_post, sort_groups, post_groups, post_multi,
}
use erc20_payment_lib.Prelude.{
  ℕ, ◌≡◌, ◌≤◌, ◌+◌, min, refl, List, [], ◌∷◌, none, some, ok, true, false, arith, All,
}
use erc20_payment_lib.Error.{custom}
use erc20_payment_lib.Db.{
  Db, TokenTransferDbObj, select, chain_from, get_transaction, order_by, insert_by,
  get_pending_token_transfers, get_token_transfers_by_deposit_id,
  insert_token_transfer_with_deposit_check, insert_token_transfer,
}
use erc20_payment_lib.Db.{
  delete_tx, names_tx, cleanup_token_transfer_tx, cleanup_allowance_tx, update_where,
}
use erc20_payment_lib.World.{World}
use erc20_payment_lib.Node.{Web3, Transaction, TransactionReceipt}
use erc20_payment_lib.U256.{add_u256, mul_u256, checked, as_u64}
use erc20_payment_lib.Transaction.{create_token_transfer}
use erc20_payment_lib.Transaction.Receipt.{datetime_from_u256_timestamp}
use erc20_payment_lib.Transaction.Extended.{
  ChainTxDbObj, ChainTransferDbObj, success, find_receipt_extended, chain_row, read_logs, read_log,
  sent_to_contract, token_transfers, erc20_transfer_event_signature,
}
use erc20_payment_lib.Multi.Bytes.{from_bytes}
use erc20_payment_lib.Sender.Loop.Backoff.{wait_after, wait_after-bounds}
use erc20_payment_lib.Sender.Loop.Deadlines.{deadline_is_kept}
use erc20_payment_lib.Runtime.Transfers.{
  Account, TransferArgs, ChainConfig, Queued, gas, transfer_with_account, bring_forward, earlier,
}
use erc20_payment_lib.Runtime.Verify.{verified, verify_transaction, search_ours, is_ours, judge}
use erc20_payment_lib.Runtime.Payments.{Pays, Some, verify_transaction-Pays}
use erc20_payment_lib.Runtime.Deposits.{
  CloseDepositOptionsInt, close_deposit, queue_close, candidate_for_mark_close, DepositDetails,
}
use erc20_payment_lib.Runtime.Refusals.{at_once, after, inserted, close_deposit-refuses}
use erc20_payment_lib.Sender.Batching.Refused.{OnlyErrors}
use erc20_payment_lib.Runtime.Remove.{remove_transaction_force, remove_rows}
use erc20_payment_lib.Runtime.Removal.{IsChain, IsGone, remove_transaction_force-IsGone}
use erc20_payment_lib.Tests.Codec.{test_codec, test_env, unary}
use erc20_payment_lib.Tests.Sender.{transfer, test_db}
use erc20_payment_lib.Tests.Batching.{setup}
use erc20_payment_lib.Tests.Process.{test_hex, quiet, world, outside}

abbrev doubled : ℕ → ℕ
doubled wait = wait + wait

wait_after-bounds_example :
    (wait_after setup doubled 2 ≤ wait_after setup doubled 3)
    × (min 4 60 ≤ wait_after setup doubled 3)
    × (wait_after setup doubled 3 ≤ 60)
wait_after-bounds_example = wait_after-bounds setup doubled 2 (λ wait. omega arith)

abbrev account : Account
account = record { address = 3; external_gather_time = some 90 }

abbrev order : TransferArgs
order = record {
  network = "holesky";
  from = 3;
  receiver = 4;
  tx_type = gas;
  amount = 2;
  payment_id = "a";
  deadline = some 70;
  deposit_id = none;
}

abbrev one_chain : ChainConfig
one_chain = record { chain_id = 5; token_address = 6 }

order_queued :
    (queued : Queued) × (transfer_with_account test_env
        (λ name. some one_chain)
        false
        account
        order
        test_db
      ≡ ok queued)
    × (queued.account.external_gather_time ≡ some 70)
unfolding transfer_with_account bring_forward earlier create_token_transfer
    insert_token_transfer_with_deposit_check insert_token_transfer
order_queued = (_, refl, refl)

deadline_is_kept_example :
    ((time : ℕ) × (order_queued.0.account.external_gather_time ≡ some time) × (time ≤ 70))
    × (after_processing test_env setup
          (λ m. m)
          outside
          quiet
          60
          75
          80
          (order_queued.0.account)
          5
          world
        ≡ gather_turn test_env setup
            (λ m. m)
            outside
            quiet
            (record account { external_gather_time = none })
            60
            75
            5
            world)
unfolding order_queued
deadline_is_kept_example =
    deadline_is_kept test_env (λ name. some one_chain) account order test_db 70 setup (λ m. m)
      outside quiet 60 75 80 5 world (omega arith) refl (order_queued.1) (omega arith)

-- A transaction of account 3 that moves 2 of token 6 to account 4.
abbrev moved : TransactionReceipt
moved = record {
  from = 3;
  to = some 6;
  logs =
      record {
        address = 6;
        topics = erc20_transfer_event_signature ∷ 3 ∷ 4 ∷ [];
        log_data = 2 ∷ [];
      }
      ∷ [];
  block_number = some 9;
  status = some 1;
  gas_used = some 6;
  effective_gas_price = some 2;
}

abbrev call : Transaction
call = record {
  from = some 3;
  to = some 6;
  nonce = 1;
  gas = 7;
  value = 0;
  max_fee_per_gas = none;
  max_priority_fee_per_gas = none;
  input = [];
}

abbrev node : Web3
node = record quiet {
  eth_transaction_receipt = λ hash. ok (some moved);
  eth_transaction = λ hash. ok (some call);
}

payment_verified : verify_transaction test_codec 3 4 2 test_hex node 100 5 1 6 ≡ ok (verified 2)
unfolding verify_transaction find_receipt_extended chain_row read_logs read_log sent_to_contract
    token_transfers datetime_from_u256_timestamp as_u64 mul_u256 add_u256 checked from_bytes
    search_ours is_ours judge
payment_verified = refl

verify_transaction-Pays_example :
    (row : ChainTxDbObj) × (ts : List ChainTransferDbObj) × (find_receipt_extended test_codec
        test_hex node 100 1 5 6
      ≡ ok (success row ts))
    × (row.chain_status ≡ 1)
    × Some (Pays test_codec 3 4 2 row 2) ts
verify_transaction-Pays_example =
    verify_transaction-Pays test_codec 3 4 2 test_hex node 100 5 1 6 payment_verified

abbrev closing : CloseDepositOptionsInt
closing = record { skip_deposit_check = true; deposit_id = 8; token_address = 6 }

abbrev unknown_deposit : DepositDetails
unknown_deposit = record { amount = 0; spender = 0; funder = 0; valid_to = 0 }

deposit_closed :
    (closed : Db) × (close_deposit test_codec test_hex 7 (ok unknown_deposit) 5 3 closing test_db
      ≡ ok closed)
unfolding close_deposit queue_close candidate_for_mark_close get_token_transfers_by_deposit_id
    order_by insert_by select
deposit_closed = (_, refl)

abbrev late_payment : TokenTransferDbObj
late_payment = record (transfer 9 none) { deposit_id = some (unary 8) }

-- A payment of another deposit comes in between.
close_deposit-refuses_example :
    insert_token_transfer_with_deposit_check 9 late_payment
      ((insert_token_transfer 8 (transfer 9 none) (deposit_closed.0)).0)
    ≡ custom "Cannot add token_transfer to already finished deposit"
close_deposit-refuses_example =
    close_deposit-refuses test_codec test_hex 7 5 3 closing (ok unknown_deposit) test_db 9
      late_payment (deposit_closed.1)
      (after at_once (inserted 8 (transfer 9 none) (deposit_closed.0))) refl refl

four_removed : (w : World) × (remove_transaction_force 4 world ≡ (w, ok (some (4 ∷ []))))
unfolding remove_transaction_force remove_rows chain_from get_transaction select delete_tx names_tx
    cleanup_token_transfer_tx cleanup_allowance_tx update_where
four_removed = (_, refl)

remove_transaction_force-IsGone_example :
    IsChain world.db 4 (4 ∷ []) × All (IsGone (four_removed.0.db)) (4 ∷ [])
remove_transaction_force-IsGone_example =
    remove_transaction_force-IsGone 4 world (four_removed.0) (4 ∷ []) (four_removed.1)

-- The only pending payment of account 3 goes to the address 0.
abbrev idle_world : World
idle_world = record world {
  db = record test_db {
    token_transfers = record (transfer 2 none) { from_addr = "iii"; receiver_addr = "" } ∷ [];
  };
}

loop_ends :
    (gather_turn test_env setup (λ m. m) outside quiet account 60 100 5 idle_world).next
    ≡ ok finished
unfolding gather_turn gather_transactions_pre gather_all gather_transfer gather_checked
    group_transfer get_pending_token_transfers select order_by insert_by after_pre after_post
    end_turn gather_transactions_post sort_groups post_groups post_multi
loop_ends = refl

gather_turn-finished_example :
    (setup.finish_when_done ≡ true)
    × (g : Gathered) × (gather_transactions_pre test_env setup
          (test_env.codec.address_to_hex 3)
          5
          idle_world.db
          false
        ≡ (g, ok []))
    × (g.process_tx_needed ≡ false)
    × ((gather_turn test_env setup (λ m. m) outside quiet account 60 100 5 idle_world).world
        ≡ with_db idle_world g.db)
    × OnlyErrors (test_env.codec.address_to_hex 3) 5 idle_world.db g.db
gather_turn-finished_example =
    gather_turn-finished test_env setup (λ m. m) outside quiet account 60 100 5 idle_world
      (λ m h. h) (tt, tt) loop_ends
