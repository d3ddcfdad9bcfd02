-- ===== src/Sender/Loop/Deadlines.antt =====
-- What the deadline of a payment does to the gathering of payments.
use erc20_payment_lib.Prelude.{
  ℕ, ◌≤◌, ◌<◌, ◌≡◌, ◌+◌, ◌*◌, ◌-◌, ◌^◌, String, Option, some, none, true, false, ok, min, arith,
  ltb, leb, >>=-eq-ok, ok_or, subst, sym, ap, ◌∙◌,
}
use erc20_payment_lib.Error.{Result}
use erc20_payment_lib.Db.{Db, insert_token_transfer_with_deposit_check}
use erc20_payment_lib.Node.{Web3}
use erc20_payment_lib.World.{World}
use erc20_payment_lib.Transaction.{Env, create_token_transfer}
use erc20_payment_lib.Runtime.Transfers.{
  Account, TransferArgs, ChainConfig, Queued, transfer_with_account, bring_forward, earlier,
  token_of,
}
use erc20_payment_lib.Sender.Setup.{PaymentSetup}
use erc20_payment_lib.Sender.Batching.Post.{MultiMap}
use erc20_payment_lib.Sender.Process.Outside.{Outside}
use erc20_payment_lib.Sender.Loop.Gather.{get_next_gather_time_and_clear_if_success, try_seconds}
use erc20_payment_lib.Sender.Loop.Turn.{after_processing, gather_or_wait, gather_turn}

earlier_by : (old : Option ℕ) (deadline : ℕ) → (earlier old deadline).0 ≤ deadline
unfolding earlier
earlier_by none deadline = omega arith
earlier_by (some time) deadline = omega arith

abbrev time_of : Result Queued → Option ℕ
time_of (ok queued) = queued.account.external_gather_time
time_of _ = none

-- The time of the next gathering, whatever the last one and the interval, is not after the deadline.
next_gathering :
    (env : Env) (chains : String → Option ChainConfig) (account : Account) (args : TransferArgs)
    (db : Db) (deadline last interval : ℕ) {queued : Queued}
    → interval * 1_000 < 2 ^ 63
    → args.deadline ≡ some deadline
    → transfer_with_account env chains false account args db ≡ ok queued
    → (next : ℕ) × (queued.account.external_gather_time ≡ some next) × (next ≤ deadline)
unfolding transfer_with_account bring_forward
next_gathering env chains account args db deadline last interval {queued} fits due h =
    let (chain_cfg, _, h1) = >>=-eq-ok (ok_or (chains args.network) _) _ h in
    let (stored, _, h2) =
      >>=-eq-ok
        (insert_token_transfer_with_deposit_check env.now
          (create_token_transfer env args.from args.receiver chain_cfg.chain_id
            (some args.payment_id) (token_of chain_cfg args.tx_type) args.amount args.deposit_id)
          db)
        _ h1 in
    let time = (earlier account.external_gather_time deadline).0 in
    let kept : queued.account.external_gather_time ≡ some time =
      sym (ap time_of h2) ∙ ap (λ d. (bring_forward false d account).0.external_gather_time) due in
    (time, kept, earlier_by account.external_gather_time deadline)

due_now :
    (time last interval now : ℕ)
    → interval * 1_000 < 2 ^ 63
    → time ≤ now
    → get_next_gather_time_and_clear_if_success (some time) last interval now ≡ ok (none, none)
unfolding get_next_gather_time_and_clear_if_success try_seconds
due_now time last interval now fits h =
    let valid : ltb (2 ^ 63 - 1) (interval * 1_000) ≡ false = ground arith in
    let due : leb (min time (last + interval)) now ≡ true = ground arith in rw (valid, due)

-- Let a payment with a deadline be accepted, where deadlines count, and let the interval of the
-- settings be one that chrono has. Then the account is to gather at a time that is not after the
-- deadline; and a turn of the service loop that has processed the transactions, at the deadline or
-- after it, does not wait: it gathers the payments of the account, whatever the time of the last
-- gathering, and the time that was set is cleared.
pub deadline_is_kept :
    (env : Env) (chains : String → Option ChainConfig) (account : Account) (args : TransferArgs)
    (db : Db) (deadline : ℕ) {queued : Queued} (setup : PaymentSetup)
    (iter_order : MultiMap → MultiMap) (outside : Outside) (web3 : Web3)
    (last current_time now chain_id : ℕ) (w : World)
    → setup.gather_interval * 1_000 < 2 ^ 63
    → args.deadline ≡ some deadline
    → transfer_with_account env chains false account args db ≡ ok queued
    → deadline ≤ now
    → ((time : ℕ) × (queued.account.external_gather_time ≡ some time) × (time ≤ deadline))
      × (after_processing env setup iter_order outside web3 last current_time now queued.account
            chain_id w
          ≡ gather_turn env setup iter_order outside web3
              (record queued.account { external_gather_time = none })
              last
              current_time
              chain_id
              w)
unfolding after_processing gather_or_wait
deadline_is_kept env chains account args db deadline {queued} setup iter_order outside web3 last
      current_time now chain_id w fits due h reached =
    let (time, is_time, by) =
      next_gathering env chains account args db deadline last setup.gather_interval fits due h in
    let clears : get_next_gather_time_and_clear_if_success queued.account.external_gather_time last
          setup.gather_interval now
        ≡ ok (none, none) =
      subst
        (λ t.
          get_next_gather_time_and_clear_if_success t last setup.gather_interval now
          ≡ ok (none, none))
        (sym is_time) (due_now time last setup.gather_interval now fits (omega arith)) in
    ((time, is_time, by), rw (clears, after_processing, gather_or_wait))
