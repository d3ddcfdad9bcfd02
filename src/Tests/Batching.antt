-- ===== src/Tests/Batching.antt =====
-- The theorems on batching at concrete transfers.
use erc20_payment_lib.Prelude.{◌≡◌, ◌&&◌, refl, [], ◌∷◌, none, some, true, false, ok}
use erc20_payment_lib.Db.{TxDbObj, select, get_pending_token_transfers, order_by, insert_by}
use erc20_payment_lib.Transaction.{create_eth_transfer}
use erc20_payment_lib.Tests.Codec.{test_env}
use erc20_payment_lib.Tests.Sender.{transfer, test_db}
use erc20_payment_lib.Sender.Setup.{ChainSetup, PaymentSetup}
use erc20_payment_lib.Sender.Batching.{
  TokenTransferKey, TokenTransferMap, key_of, key_eq, group_of, push_group,
}
use erc20_payment_lib.Sender.Batching.Pre.{
  Gathered, gather_transactions_pre, gather_all, gather_transfer, gather_checked, group_transfer,
}
use erc20_payment_lib.Sender.Batching.Returns.{gathering_returns}
use erc20_payment_lib.Sender.Batching.Groups.{is_payment, gathered_groups}

abbrev pub chain : ChainSetup
chain = record {
  chain_id = 5;
  max_fee_per_gas = 20;
  priority_fee = 2;
  glm_address = 6;
  multi_contract_address = some 9;
  lock_contract_address = some 8;
  multi_contract_max_at_once = 2;
  transaction_timeout = 100;
  confirmation_blocks = 3;
  replacement_timeout = none;
}

abbrev pub setup : PaymentSetup
setup = record {
  chain_setup = λ id. some chain;
  finish_when_done = true;
  generate_tx_only = false;
  skip_multi_contract_check = true;
  process_interval = 30;
  process_interval_after_error = 30;
  process_interval_after_no_gas_or_token_start = 4;
  process_interval_after_no_gas_or_token_max = 60;
  gather_interval = 60;
  gather_at_start = true;
  mark_as_unrecoverable_after_seconds = 300;
  automatic_recover = false;
  contract_use_direct_method = false;
  contract_use_unpacked_method = false;
  use_transfer_for_single_payment = true;
}

abbrev key : TokenTransferKey
key = key_of (transfer 2 none)

abbrev groups : TokenTransferMap
groups = (key, transfer 2 none ∷ []) ∷ []

gathered :
    gather_transactions_pre test_env setup "iii" 5 test_db false
    ≡ (record { db = test_db; transfer_map = groups; process_tx_needed = false }, ok groups)
unfolding gather_transactions_pre gather_all gather_transfer gather_checked group_transfer
    push_group get_pending_token_transfers order_by insert_by select
gathered = refl

gathered_groups_example :
    group_of key groups
    ≡ select
        (λ f. is_payment test_env setup f && key_eq (key_of f) key)
        (get_pending_token_transfers test_db "iii" 5)
gathered_groups_example = gathered_groups test_env setup "iii" 5 test_db false key gathered

abbrev eth_tx : TxDbObj
eth_tx = create_eth_transfer test_env 3 4 5 none 2

gathering_returns_example :
    (s : Gathered) × (m : TokenTransferMap) × (gather_transactions_pre test_env setup "iii" 5
        test_db false
      ≡ (s, ok m))
    × (s.db.txs ≡ test_db.txs)
    × (s.process_tx_needed ≡ false)
unfolding get_pending_token_transfers order_by insert_by select
gathering_returns_example = gathering_returns test_env setup "iii" 5 test_db false (refl, tt)
