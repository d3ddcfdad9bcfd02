-- ===== src/Sender/Loop/Finish.antt =====
-- When the loop that finishes when done ends.
use erc20_payment_lib.Prelude.{
  ℕ, ◌≡◌, ◌≢◌, [], Bool, true, false, not, ◌&&◌, ◌||◌, ltb, Option, none, some, ok, err, panic,
  arith, Bool-cases, inl, inr, sym, ap, ◌∙◌,
}
use erc20_payment_lib.Error.{Result, AllowanceRequest}
use erc20_payment_lib.Db.{Db, DistinctTransfers}
use erc20_payment_lib.Transaction.{Env}
use erc20_payment_lib.World.{World}
use erc20_payment_lib.Node.{Web3}
use erc20_payment_lib.Runtime.Transfers.{Account}
use erc20_payment_lib.Sender.Setup.{PaymentSetup}
use erc20_payment_lib.Sender.Process.Outside.{Outside}
use erc20_payment_lib.Sender.Batching.{TokenTransferMap}
use erc20_payment_lib.Sender.Batching.Pre.{Gathered, gather_transactions_pre}
use erc20_payment_lib.Sender.Batching.Post.{MultiMap, gather_transactions_post}
use erc20_payment_lib.Sender.Batching.Refused.{OnlyErrors}
use erc20_payment_lib.Sender.Batching.Written.{gather_transactions_pre-OnlyErrors}
use erc20_payment_lib.Sender.Batching.Counted.{gather_transactions_post-zero}
use erc20_payment_lib.Sender.Loop.Turn.{
  NextTurn, finished, at_once, after_sleep, with_db, end_turn, after_allowance, after_error,
  after_post, after_pre, gather_turn,
}

module _ (env : Env) (setup : PaymentSetup) (iter_order : MultiMap → MultiMap) where
  module _ (outside : Outside) (web3 : Web3) (account : Account) (last current_time : ℕ) where
    end_turn-finished :
        (needed : Bool) (next : NextTurn) (w : World)
        → next ≢ finished
        → (end_turn env setup iter_order outside web3 account last current_time needed next w).next
          ≡ ok finished
        → (setup.finish_when_done ≡ true)
          × (needed ≡ false)
          × ((end_turn env setup iter_order outside web3 account last current_time needed next
                w).world
              ≡ w)
    unfolding end_turn
    end_turn-finished needed next w other h =
        elim (Bool-cases (setup.finish_when_done && not needed)) [
          | inl e ↦ (ground arith, ground arith, rw e)
          | inr e ↦ let h' = rw (e, end_turn) at h in absurd (other (cc))
        ]

    after_allowance-goes_on :
        (r : World × Result ℕ)
        → (after_allowance env setup iter_order outside web3 account last current_time r).next
          ≢ ok finished
    unfolding after_allowance
    after_allowance-goes_on (w, ok n) h = cc
    after_allowance-goes_on (w, err e) h =
        let (_, bad, _) =
          end_turn-finished true (after_sleep setup.process_interval_after_error) w (λ e. cc) h in
        cc
    after_allowance-goes_on (w, panic) h = cc

    after_error-goes_on :
        (wanted : Option AllowanceRequest) (w : World)
        → (after_error env setup iter_order outside web3 account last current_time wanted w).next
          ≢ ok finished
    unfolding after_error
    after_error-goes_on none w h =
        let (_, bad, _) = end_turn-finished true at_once w (λ e. cc) h in cc
    after_error-goes_on (some request) w h = after_allowance-goes_on _ h

    after_post-finished :
        (w : World) (needed : Bool) (r : Db × Result ℕ)
        → (after_post env setup iter_order outside web3 account last current_time w needed r).next
          ≡ ok finished
        → (setup.finish_when_done ≡ true)
          × (needed ≡ false)
          × (db : Db) × (r ≡ (db, ok 0))
          × ((after_post env setup iter_order outside web3 account last current_time w needed
                r).world
              ≡ with_db w db)
    unfolding after_post
    after_post-finished w needed (db, ok count) h =
        let (done, nothing, same) =
          end_turn-finished (ltb 0 count || needed) at_once (with_db w db) (λ e. cc) h in
        let none_left : count ≡ 0 = ground arith in
        (done, ground arith, db, ap (λ n. (db, ok n)) none_left, same)
    after_post-finished w needed (db, err e) h = absurd (after_error-goes_on _ _ h)
    after_post-finished w needed (db, panic) h = cc

    after_pre-finished :
        (gives_all : (m : MultiMap) → iter_order m ≡ [] → m ≡ []) (w : World)
        (r : Gathered × Result TokenTransferMap)
        → (after_pre env setup iter_order outside web3 account last current_time w r).next
          ≡ ok finished
        → (setup.finish_when_done ≡ true)
          × (g : Gathered) × (r ≡ (g, ok []))
          × (g.process_tx_needed ≡ false)
          × ((after_pre env setup iter_order outside web3 account last current_time w r).world
              ≡ with_db w g.db)
    unfolding after_pre
    after_pre-finished gives_all w (g, ok transfer_map) h =
        let (done, unneeded, db, posted, same) =
          after_post-finished (with_db w g.db) g.process_tx_needed
            (gather_transactions_post env setup iter_order transfer_map g.db) h in
        let (no_group, kept) =
          gather_transactions_post-zero env setup iter_order gives_all transfer_map g.db posted in
        (done, g, ap (λ m. (g, ok m)) no_group, unneeded, same ∙ ap (with_db w) (sym kept))
    after_pre-finished gives_all w (g, err e) h = cc
    after_pre-finished gives_all w (g, panic) h = cc

-- Let the hash map of multi orders leave no entry out, let the ids of the transfers differ, and let
-- a turn of the loop that has come to gather payments end the loop. Then the loop was to finish when
-- done. The pending payments of the account were gone through without an error of the loop, none of
-- them is left to be sent, and no deposit was closed. What the turn leaves differs from before in
-- the errors of payments of the account that were pending, and in nothing else.
pub gather_turn-finished :
    (env : Env) (setup : PaymentSetup) (iter_order : MultiMap → MultiMap) (outside : Outside)
    (web3 : Web3) (account : Account) (last current_time chain_id : ℕ) (w : World)
    → ((m : MultiMap) → iter_order m ≡ [] → m ≡ [])
    → DistinctTransfers w.db.token_transfers
    → (gather_turn env setup iter_order outside web3 account last current_time chain_id w).next
      ≡ ok finished
    → (setup.finish_when_done ≡ true)
      × (g : Gathered) × (gather_transactions_pre env setup
            (env.codec.address_to_hex account.address)
            chain_id
            w.db
            false
          ≡ (g, ok []))
      × (g.process_tx_needed ≡ false)
      × ((gather_turn env setup iter_order outside web3 account last current_time chain_id w).world
          ≡ with_db w g.db)
      × OnlyErrors (env.codec.address_to_hex account.address) chain_id w.db g.db
unfolding gather_turn
gather_turn-finished env setup iter_order outside web3 account last current_time chain_id w
      gives_all distinct h =
    let name = env.codec.address_to_hex account.address in
    let (done, g, gathered, unneeded, same) =
      after_pre-finished env setup iter_order outside web3 account last current_time gives_all w
        (gather_transactions_pre env setup name chain_id w.db false) h in
    (
      done,
      g,
      gathered,
      unneeded,
      same,
      gather_transactions_pre-OnlyErrors env setup name chain_id w.db distinct gathered unneeded,
    )
