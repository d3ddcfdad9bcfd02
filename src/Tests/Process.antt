-- ===== src/Tests/Process.antt =====
-- The theorems on processing a transaction at concrete transactions.
use erc20_payment_lib.Prelude.{
  ℕ, ◌≡◌, ◌*◌, ◌^◌, ◌≤◌, refl, none, some, ok, err, true, false, arith, [], ◌∷◌, All, ◌==◌, ◌↔◌,
}
use erc20_payment_lib.Error.{conversion_error}
use erc20_payment_lib.Convert.{
  Decimal, u256_to_rust_dec, rust_dec_to_u256_strict, scale_up, to_gwei, to_u256, str_to_gwei,
}
use erc20_payment_lib.Convert.Exact.{rust_dec_to_u256_strict_exact}
use erc20_payment_lib.Node.{Web3, Hex, Signer, Block, TransactionReceipt}
use erc20_payment_lib.Transaction.Receipt.{find_receipt}
use erc20_payment_lib.World.{World, SharedState}
use erc20_payment_lib.Db.{
  Db, TxDbObj, default_tx, get_transaction_highest_nonce, max_nonce, is_confirmed_of, select,
  update_tx, get_transaction, delete_tx, names_tx, delete_where, update_where,
  remap_token_transfer_tx, remap_allowance_tx,
}
use erc20_payment_lib.U256.{add_u256, mul_u256, checked, as_u64}
use erc20_payment_lib.Tests.Codec.{test_codec, test_codec-IsCodec, unary}
use erc20_payment_lib.Tests.Sender.{test_db, transfer}
use erc20_payment_lib.Tests.Batching.{chain, setup}
use erc20_payment_lib.Sender.Settle.{confirmed}
use erc20_payment_lib.Sender.Process.Outside.{Outside, Moment, go, stop}
use erc20_payment_lib.Sender.Process.Nonce.{
  assign_nonce, check_nonce, fee_or, get_transaction_count, eco_target,
}
use erc20_payment_lib.Sender.Process.Start.{check_funds, check_original, compare_balance}
use erc20_payment_lib.Transaction.Check.{check_transaction, estimate_gas, set_gas_limit, limit_of}
use erc20_payment_lib.Transaction.Request.{dao_to_call_request, decode_data_to_bytes, fee_of}
use erc20_payment_lib.Sender.Process.Funds.{IsCovered, check_funds-IsCovered}
use erc20_payment_lib.Sender.Process.Receipts.{find_in_chain}
use erc20_payment_lib.Sender.Process.Replace.{
  due_replacement, read_fees, replacement_fees, is_ready_for_replacement,
}
use erc20_payment_lib.Sender.Process.Round.{round}
use erc20_payment_lib.Sender.Process.Bumps.{IsBump, due_replacement-IsBump}
use erc20_payment_lib.Sender.Process.Numbering.{IsUsedBelow, assign_nonce-IsUsedBelow}
use erc20_payment_lib.Sender.Process.Eco.{eco_target-negative}
use erc20_payment_lib.Sender.Process.Stall.{HasNoReceipt, find_in_chain-stalls}
use erc20_payment_lib.Sender.Process.CleanUp.{
  clean_up, clean_up_from, cleaned, find_orig, delete_others, remap_tx,
}
use erc20_payment_lib.Sender.Process.Chain.{Returns, clean_up-Returns}
use erc20_payment_lib.Sender.Process.Origin.{LeadsTo, find_orig-LeadsTo}
use erc20_payment_lib.Sender.Process.Cleaned.{clean_up-IsMoved}
use erc20_payment_lib.Sender.Process.Redirect.{IsMoved}
use erc20_payment_lib.Db.Rows.{stored}
use erc20_payment_lib.Sender.Process.Confirms.{confirmed_row, round-confirmed, IsMined}

abbrev pub test_hex : Hex
test_hex = record {
  decode = λ s. some [];
  encode = λ bytes. "";
  h256_from_str = λ s. some 1;
  h256_to_hex = unary;
  u256_to_hex = unary;
  from_timestamp = λ t. some t;
}

-- A node where nothing has happened.
abbrev pub quiet : Web3
quiet = record {
  eth_transaction_count = λ address pending. ok 4;
  eth_block_number = ok 20;
  eth_estimate_gas = λ request. ok 50_000;
  eth_balance = λ address. ok 300_000;
  eth_block =
      λ number. ok (some (record { number = some 9; base_fee_per_gas = some 3; timestamp = 8 }));
  eth_send_raw_transaction = λ bytes. ok 1;
  eth_transaction_receipt = λ hash. ok none;
  eth_transaction = λ hash. ok none;
  eth_call = λ request. ok [];
  token_balance = λ token address. ok (some 7);
}

abbrev block : Block
block = record { number = some 9; base_fee_per_gas = some 3; timestamp = 8 }

abbrev receipt : TransactionReceipt
receipt = record {
  from = 3;
  to = some 4;
  logs = [];
  block_number = some 9;
  status = some 1;
  gas_used = some 6;
  effective_gas_price = some 2;
}

-- The same node, where every transaction is in block 9.
abbrev pub mined : Web3
mined = record quiet { eth_transaction_receipt = λ hash. ok (some receipt) }

abbrev pub willing : Signer
willing = record {
  check_if_sign_possible = λ address. ok tt;
  sign = λ address tx. ok (record { raw_transaction = []; transaction_hash = 1 });
}

abbrev pub outside : Outside
outside = record {
  codec = test_codec;
  hex = test_hex;
  signer = willing;
  polygon_eco_mode = false;
  extra_gas = none;
}

abbrev pub moment : Moment
moment = record { now = 100; web3 = mined; retry = λ turn. mined }

abbrev pub waiting : TxDbObj
waiting = record (default_tx 1) {
  id = 4;
  from_addr = "iii";
  to_addr = "iiii";
  chain_id = 5;
  max_fee_per_gas = some (unary 10);
  priority_fee = some (unary 1);
  nonce = some 3;
  first_processed = some 1;
  tx_hash = some "i";
}

abbrev pub world : World
world = record {
  db = test_db;
  shared = record { current_tx_info = λ id. none; idling = false };
  events = [];
}

abbrev one_and_a_half : Decimal
one_and_a_half = record { is_negative = false; mantissa = 15; scale = 1 }

abbrev one_and_a_half_gwei : ℕ
one_and_a_half_gwei = 1_500_000_000

one_and_a_half_reads : rust_dec_to_u256_strict one_and_a_half 9 ≡ ok one_and_a_half_gwei
unfolding rust_dec_to_u256_strict scale_up
one_and_a_half_reads = refl

rust_dec_to_u256_strict_exact_example :
    (one_and_a_half_gwei * 10 ^ 1 ≡ 15 * 10 ^ 9)
    × (9 ≤ 18)
    × (one_and_a_half.is_negative ≡ true → one_and_a_half_gwei ≡ 0)
rust_dec_to_u256_strict_exact_example =
    rust_dec_to_u256_strict_exact one_and_a_half 9 one_and_a_half_gwei one_and_a_half_reads

abbrev below_zero : Decimal
below_zero = record { is_negative = true; mantissa = 5; scale = 0 }

eco_target-negative_example : eco_target 40_000_000_000 below_zero ≡ err conversion_error
eco_target-negative_example = eco_target-negative 40_000_000_000 below_zero refl (omega arith)

-- A confirmed transaction has the nonce 3.
abbrev paid_db : Db
paid_db = record test_db { txs = record waiting { confirm_date = some 50 } ∷ [] }

abbrev fresh : TxDbObj
fresh = record waiting { id = 6; nonce = none }

fresh_numbered :
    assign_nonce outside mined chain paid_db fresh 3 ≡ ok (record fresh { nonce = some 4 })
unfolding assign_nonce get_transaction_highest_nonce max_nonce select get_transaction_count
    check_nonce fee_or to_u256 as_u64
fresh_numbered = refl

assign_nonce-IsUsedBelow_example :
    (nonce : ℕ) × (some 4 ≡ some nonce)
    × All (IsUsedBelow nonce (is_confirmed_of 5 "iii")) paid_db.txs
assign_nonce-IsUsedBelow_example =
    assign_nonce-IsUsedBelow outside mined chain paid_db fresh 3 fresh_numbered

waiting_due :
    due_replacement test_codec chain 100 waiting
    ≡ ok (some (record { max_fee_per_gas = 20; priority_fee = 2 }))
unfolding due_replacement read_fees replacement_fees is_ready_for_replacement str_to_gwei to_u256
    to_gwei u256_to_rust_dec
waiting_due = refl

due_replacement-IsBump_example :
    IsBump
      (record { max_fee_per_gas = 10; priority_fee = 1 })
      (record { max_fee_per_gas = 20; priority_fee = 2 })
due_replacement-IsBump_example =
    due_replacement-IsBump test_codec chain 100 waiting 10 1 test_codec-IsCodec (omega arith)
      (omega arith) refl refl (omega arith) waiting_due

abbrev older : TxDbObj
older = record waiting { id = 2 }

abbrev replaced_db : Db
replaced_db = record test_db { txs = older ∷ [] }

older_found : get_transaction replaced_db 2 ≡ ok older
unfolding get_transaction select
older_found = refl

nothing_for :
    (tx : TxDbObj) → tx.tx_hash ≡ some "i" → HasNoReceipt test_codec test_hex (λ turn. quiet) tx
unfolding find_receipt
nothing_for tx has_hash turn =
    (record tx { block_number = none; chain_status = none; fee_paid = none }, rw has_hash)

find_in_chain-stalls_example :
    find_in_chain test_codec test_hex (λ turn. quiet) replaced_db 1_000 0 (some 2) waiting ≡ none
find_in_chain-stalls_example =
    find_in_chain-stalls test_codec test_hex (λ turn. quiet) replaced_db waiting older 2 older_found
      (nothing_for waiting refl) (nothing_for older refl) 1_000 0

waiting-IsMined : IsMined test_hex mined waiting receipt block 9 8 6 2
waiting-IsMined = record {
  hash_text = "i";
  hash = 1;
  has_hash = refl;
  reads_hash = refl;
  has_receipt = refl;
  has_number = refl;
  has_gas = refl;
  has_price = refl;
  gas_fits = omega arith;
  fee_fits = omega arith;
  has_block = refl;
  time_fits = omega arith;
  has_date = refl;
}

latest_is_four : get_transaction_count mined 3 false ≡ ok 4
unfolding get_transaction_count as_u64
latest_is_four = refl

round-confirmed_example :
    (shared : SharedState) × (round outside setup chain moment 1 false 3 waiting world
      ≡ some (
        record world {
          db =
              update_tx
                (confirmed_row outside setup chain moment waiting receipt block 9 8 6 2)
                world.db;
          shared = shared;
        },
        ok (
            stop
              (confirmed_row outside setup chain moment waiting receipt block 9 8 6 2)
              confirmed),
      ))
round-confirmed_example =
    round-confirmed outside setup chain moment 0 false 3 waiting world receipt block 3 4 20 9 8 6 2
      refl refl latest_is_four (omega arith) refl waiting-IsMined (omega arith)

-- A payment of the gas currency that has not been sent.
abbrev unsent : TxDbObj
unsent = record waiting { signed_raw_data = none; orig_tx_id = none }

funds_checked :
    (w : World) × (check_funds outside moment chain unsent 3 world
      ≡ (w, ok (go (record unsent { gas_limit = some 21_000 }))))
unfolding check_funds check_original compare_balance check_transaction estimate_gas set_gas_limit
    limit_of dao_to_call_request decode_data_to_bytes fee_of as_u64 mul_u256 add_u256 checked
funds_checked = (_, refl)

check_funds-IsCovered_example :
    (balance : ℕ) × (mined.eth_balance 3 ≡ ok balance)
    × IsCovered test_codec balance unsent (record unsent { gas_limit = some 21_000 })
check_funds-IsCovered_example =
    check_funds-IsCovered outside moment chain unsent (record unsent { gas_limit = some 21_000 }) 3
      world (funds_checked.0) refl (funds_checked.1)

-- A transaction that was replaced twice; the first replacement is confirmed.
abbrev second : TxDbObj
second = record waiting { id = 4; orig_tx_id = some 2 }

abbrev third : TxDbObj
third = record waiting { id = 6; orig_tx_id = some 4 }

abbrev chained_db : Db
chained_db = record test_db {
  txs = older ∷ second ∷ third ∷ [];
  token_transfers = transfer 1 (some 2) ∷ transfer 2 none ∷ [];
}

clean_up-Returns_example : Returns (clean_up second third chained_db)
clean_up-Returns_example =
    clean_up-Returns second third chained_db (tt, (omega arith, (omega arith, tt))) (omega arith)
      (omega arith)

second_there : get_transaction chained_db 4 ≡ ok second
unfolding get_transaction select
second_there = refl

chain_cleaned : (db : Db) × (clean_up second third chained_db ≡ some (ok db))
unfolding clean_up clean_up_from find_orig delete_others remap_tx get_transaction select delete_tx
    names_tx delete_where update_tx update_where remap_token_transfer_tx remap_allowance_tx
chain_cleaned = (_, refl)

clean_up-IsMoved_example :
    All (λ (t : TxDbObj). (t.id == 6) ≡ false) (chain_cleaned.0).txs
    × (get_transaction (chain_cleaned.0) 4 ≡ ok (stored (cleaned second)))
    × (orig_tx : TxDbObj) × (find_orig 5 chained_db second ≡ some (ok orig_tx))
    × IsMoved orig_tx.id 4 chained_db (chain_cleaned.0)
clean_up-IsMoved_example =
    clean_up-IsMoved second third second chained_db refl second_there (chain_cleaned.1)

find_orig-LeadsTo_example :
    (find_orig 7 chained_db third ≡ some (ok older)) ↔ LeadsTo chained_db third older
find_orig-LeadsTo_example =
    find_orig-LeadsTo chained_db third older (tt, (omega arith, (omega arith, tt))) (omega arith)
