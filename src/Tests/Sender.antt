-- ===== src/Tests/Sender.antt =====
-- The theorems on packing, and on storing the result of a transaction, at concrete inputs.
use erc20_payment_lib.Prelude.{
  ℕ, ◌≡◌, ◌≢◌, refl, inl, inr, List, [], ◌∷◌, map, Option, none, some, ok, length, All, true, not,
  arith, ap, ◌≤◌,
}
use erc20_payment_lib.Tests.Codec.{test_codec, test_codec-IsCodec, test_env}
use erc20_payment_lib.Db.{
  Db, TxDbObj, TokenTransferDbObj, default_tx, select, DistinctTransfers, get_token_transfers_by_tx,
  update_tx,
}
use erc20_payment_lib.Multi.{max_value, pack_transfers_for_multi_contract}
use erc20_payment_lib.Multi.Unpack.{unpack, pairs, pack_roundtrip, unpack-pack}
use erc20_payment_lib.Transaction.{
  SingleTransferDepositArgs, MultiTransferDepositArgs, MultiTransferArgs,
  create_erc20_deposit_transfer, create_erc20_transfer_multi, call_tx, multi_call,
}
use erc20_payment_lib.Contracts.{encode_payout_single_and_close, encode_multi_direct}
use erc20_payment_lib.Prelude.{◌<◌, ◌↔◌}
use erc20_payment_lib.Text.{u256_mod}
use erc20_payment_lib.Sender.Fees.{sum}
use erc20_payment_lib.Sender.Settle.{
  Settled, confirmed, update_result, update_token_transfer_result,
}
use erc20_payment_lib.Sender.Settle.Rows.{of_tx}
use erc20_payment_lib.Sender.Settle.Paid.{IsPaid, paid_total, confirmed_pays_fee}
use erc20_payment_lib.Sender.Settle.Routing.{deposit_payment_stays_unpaid, payment_is_settled}

abbrev pub transfer : ℕ → Option ℕ → TokenTransferDbObj
transfer id tx_id = record {
  id = id;
  payment_id = none;
  from_addr = "iii";
  receiver_addr = "iiii";
  chain_id = 5;
  token_addr = none;
  token_amount = "ii";
  deposit_id = none;
  deposit_finish = 0;
  create_date = 1;
  tx_id = tx_id;
  paid_date = none;
  fee_paid = none;
  error = none;
}

abbrev pub paying_tx : TxDbObj
paying_tx = record (default_tx 1) { id = 4; method = "ERC20.transfer"; fee_paid = some "iiiii" }

-- Two transfers of transaction 4, and another that waits.
abbrev pub test_db : Db
test_db = record {
  txs = paying_tx ∷ [];
  token_transfers = transfer 1 (some 4) ∷ transfer 2 none ∷ transfer 3 (some 4) ∷ [];
  allowances = [];
  last_tx_id = 4;
  last_transfer_id = 3;
  last_allowance_id = 0;
}

two_transfers : get_token_transfers_by_tx test_db 4 ≡ transfer 1 (some 4) ∷ transfer 3 (some 4) ∷ []
unfolding get_token_transfers_by_tx select
two_transfers = refl

two_transfers-ne : get_token_transfers_by_tx test_db 4 ≢ []
unfolding get_token_transfers_by_tx select
two_transfers-ne h = absurd (omega (arith, ap length h))

test_db-DistinctTransfers : DistinctTransfers test_db.token_transfers
test_db-DistinctTransfers = (
  ((λ h. omega (arith, h)), ((λ h. omega (arith, h)), tt)),
  (((λ h. omega (arith, h)), tt), (tt, tt)),
)

confirmed_pays_fee_example :
    (s : Settled) × (update_token_transfer_result test_codec 9 paying_tx test_db confirmed ≡ ok s)
    × All (IsPaid 9) (get_token_transfers_by_tx s.db 4)
    × (paid_total test_codec (get_token_transfers_by_tx s.db 4) ≡ some 5)
    × (select (λ t. not (of_tx 4 t)) s.db.token_transfers
        ≡ select (λ t. not (of_tx 4 t)) test_db.token_transfers)
    × (s.db.txs ≡ (update_tx (record paying_tx { processing = 0 }) test_db).txs)
unfolding get_token_transfers_by_tx select
confirmed_pays_fee_example =
    confirmed_pays_fee test_codec 9 paying_tx test_db 5 test_codec-IsCodec test_db-DistinctTransfers
      refl refl (omega arith) two_transfers-ne (omega arith)

pack_roundtrip_example :
    (packed : List (List ℕ)) × (pack_transfers_for_multi_contract (17 ∷ 300 ∷ []) (5 ∷ 6 ∷ [])
      ≡ ok (packed, 11))
    × (map unpack packed ≡ pairs (17 ∷ 300 ∷ []) (5 ∷ 6 ∷ []))
pack_roundtrip_example =
    pack_roundtrip (17 ∷ 300 ∷ []) (5 ∷ 6 ∷ []) (omega arith, (omega arith, tt))
      (omega arith, (omega arith, tt)) (omega arith)

unpack-pack_example :
    (All (λ a. a ≤ max_value) (max_value ∷ []) × (sum (max_value ∷ []) < u256_mod)) ↔ (
      (packed : List (List ℕ)) × (pack_transfers_for_multi_contract (17 ∷ []) (max_value ∷ [])
        ≡ ok (packed, sum (max_value ∷ [])))
      × (map unpack packed ≡ pairs (17 ∷ []) (0 ∷ [])))
unpack-pack_example = unpack-pack (17 ∷ []) (max_value ∷ []) (omega arith, tt)

abbrev single : SingleTransferDepositArgs
single = record {
  from = 3;
  lock_contract = 8;
  erc20_to = 4;
  erc20_amount = 2;
  chain_id = 5;
  gas_limit = none;
  deposit_id = 6;
  deposit_finish = true;
}

abbrev multi_deposit : MultiTransferDepositArgs
multi_deposit = record {
  from = 3;
  lock_contract = 8;
  erc20_to = 4 ∷ [];
  erc20_amount = 2 ∷ [];
  chain_id = 5;
  gas_limit = none;
  deposit_id = 6;
  deposit_finish = true;
}

abbrev deposit_tx : TxDbObj
deposit_tx =
    call_tx test_env "LOCK.depositSingleTransferAndClose" 3 8 5 none "depositSingleTransferAndClose"

deposit_tx_created : create_erc20_deposit_transfer test_env single ≡ ok deposit_tx
unfolding create_erc20_deposit_transfer encode_payout_single_and_close
deposit_tx_created = refl

deposit_payment_stays_unpaid_example :
    (s : Settled) × (update_result test_codec 9 (record deposit_tx { id = 4 }) test_db confirmed
      ≡ ok s)
    × (s.db.token_transfers ≡ test_db.token_transfers)
deposit_payment_stays_unpaid_example =
    deposit_payment_stays_unpaid test_env single multi_deposit deposit_tx
      (record deposit_tx { id = 4 }) 9 test_db confirmed (inl deposit_tx_created) refl

abbrev multi : MultiTransferArgs
multi = record {
  from = 3;
  contract = 8;
  erc20_to = 4 ∷ [];
  erc20_amount = 2 ∷ [];
  chain_id = 5;
  gas_limit = none;
  direct = true;
  unpacked = true;
}

abbrev multi_tx : TxDbObj
multi_tx = call_tx test_env "MULTI.golemTransferDirect" 3 8 5 none "golemTransferDirect"

multi_tx_created : create_erc20_transfer_multi test_env multi ≡ ok multi_tx
unfolding create_erc20_transfer_multi multi_call encode_multi_direct
multi_tx_created = refl

payment_is_settled_example :
    update_result test_codec 9 (record multi_tx { id = 4 }) test_db confirmed
    ≡ update_token_transfer_result test_codec 9 (record multi_tx { id = 4 }) test_db confirmed
payment_is_settled_example =
    payment_is_settled test_env 3 8 2 4 5 none multi multi_tx (record multi_tx { id = 4 }) 9 test_db
      confirmed (inr (inr multi_tx_created)) refl
