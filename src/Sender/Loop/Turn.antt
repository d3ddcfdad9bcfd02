-- ===== src/Sender/Loop/Turn.antt =====
-- `service_loop` of crates/erc20_payment_lib/src/sender/service.rs: one turn of the loop. The
-- current time of a turn is read at its start; what happens later in the turn has clocks of its own.
use erc20_payment_lib.Prelude.{
  ℕ, List, Bool, true, false, not, ◌&&◌, ◌||◌, Option, none, some, ltb, if◌then◌else◌, ok, err,
  panic,
}
use erc20_payment_lib.Error.{Result, PaymentError, AllowanceRequest, no_allowance_found}
use erc20_payment_lib.Db.{Db}
use erc20_payment_lib.Node.{Web3}
use erc20_payment_lib.Transaction.{Env}
use erc20_payment_lib.World.{World}
use erc20_payment_lib.Runtime.Transfers.{Account}
use erc20_payment_lib.Sender.Setup.{PaymentSetup}
use erc20_payment_lib.Sender.Allowance.{process_allowance}
use erc20_payment_lib.Sender.Batching.{TokenTransferMap}
use erc20_payment_lib.Sender.Batching.Pre.{Gathered, gather_transactions_pre}
use erc20_payment_lib.Sender.Batching.Post.{MultiMap, gather_transactions_post}
use erc20_payment_lib.Sender.Process.Outside.{Outside, Moment}
use erc20_payment_lib.Sender.Service.{process_transactions}
use erc20_payment_lib.Sender.Loop.Gather.{get_next_gather_time_and_clear_if_success}

-- How the loop goes on after a turn: it ends, or the next turn follows, at once, after a sleep, or
-- when it is time to gather.
pub data NextTurn : Type 0 where
  finished at_once till_gather_time : NextTurn
  after_sleep : ℕ → NextTurn

pub record Turned : Type 0 where
  pub world : World
  pub account : Account
  pub last_gather_time : ℕ
  pub next : Result NextTurn

abbrev pub set_idling : Bool → World → World
set_idling idling w = record w { shared = record w.shared { idling = idling } }

abbrev pub with_db : World → Db → World
with_db w db = record w { db = db }

abbrev pub wanted_allowance : PaymentError → Option AllowanceRequest
wanted_allowance (no_allowance_found request) = some request
wanted_allowance _ = none

module _ (env : Env) (setup : PaymentSetup) (iter_order : MultiMap → MultiMap) where
  module _ (outside : Outside) (web3 : Web3) (account : Account) (last current_time : ℕ) where
    -- The end of a turn that has gathered.
    unfoldable pub end_turn : Bool → NextTurn → World → Turned
    end_turn process_tx_needed next w =
        if setup.finish_when_done && not process_tx_needed
        then record {
          world = w;
          account = account;
          last_gather_time = current_time;
          next = ok finished;
        }
        else record {
          world = set_idling (not process_tx_needed) w;
          account = account;
          last_gather_time = current_time;
          next = ok next;
        }

    abbrev pub turned : Result NextTurn → World → Turned
    turned next w = record { world = w; account = account; last_gather_time = last; next = next }

    -- An allowance that is there or on its way lets the loop go on without a gathering.
    unfoldable pub after_allowance : World × Result ℕ → Turned
    unfolding end_turn
    after_allowance (w, ok _) = turned (ok at_once) (set_idling false w)
    after_allowance (w, err e) = end_turn true (after_sleep setup.process_interval_after_error) w
    after_allowance (w, panic) = turned panic w

    unfoldable pub after_error : Option AllowanceRequest → World → Turned
    unfolding end_turn after_allowance process_allowance
    after_error none w = end_turn true at_once w
    after_error (some request) w =
        after_allowance (process_allowance env outside.hex web3 setup outside.signer request w)

    unfoldable pub after_post : World → Bool → Db × Result ℕ → Turned
    unfolding end_turn after_error
    after_post w process_tx_needed (db, ok count) =
        end_turn (ltb 0 count || process_tx_needed) at_once (with_db w db)
    after_post w process_tx_needed (db, err e) = after_error (wanted_allowance e) (with_db w db)
    after_post w process_tx_needed (db, panic) = turned panic (with_db w db)

    unfoldable pub after_pre : World → Gathered × Result TokenTransferMap → Turned
    unfolding after_post gather_transactions_post
    after_pre w (g, ok transfer_map) =
        after_post (with_db w g.db) g.process_tx_needed
          (gather_transactions_post env setup iter_order transfer_map g.db)
    after_pre w (g, err e) =
        turned (ok (after_sleep setup.process_interval_after_error)) (with_db w g.db)
    after_pre w (g, panic) = turned panic (with_db w g.db)

    unfoldable pub gather_turn : ℕ → World → Turned
    unfolding after_pre gather_transactions_pre
    gather_turn chain_id w = after_pre w (
        gather_transactions_pre env setup (env.codec.address_to_hex account.address) chain_id w.db
          false)

    -- Waits until the next gathering, or gathers.
    unfoldable pub gather_or_wait : ℕ → World → Option ℕ → Turned
    unfolding gather_turn
    gather_or_wait chain_id w none = gather_turn chain_id w
    gather_or_wait chain_id w (some time) =
        if setup.finish_when_done then gather_turn chain_id w else turned (ok till_gather_time) w

  module _ (outside : Outside) (web3 : Web3) (last current_time now : ℕ) where
    -- At the time `now`, when all pending transactions are processed.
    unfoldable pub after_processing : Account → ℕ → World → Turned
    unfolding gather_or_wait get_next_gather_time_and_clear_if_success
    after_processing account chain_id w =
        elim (get_next_gather_time_and_clear_if_success account.external_gather_time last
          setup.gather_interval now) [
            | ok (external, next) ↦
                gather_or_wait outside web3 (record account { external_gather_time = external })
                  last current_time chain_id w next
            | err e ↦ turned outside web3 account last current_time (err e) w
            | panic ↦ turned outside web3 account last current_time panic w
          ]

    -- An error of `process_transactions` is logged.
    unfoldable pub processed_turn : Account → ℕ → Option (World × Result (List ℕ)) → Option Turned
    unfolding after_processing
    processed_turn account chain_id none = none
    processed_turn account chain_id (some (w, ok _)) = some (after_processing account chain_id w)
    processed_turn account chain_id (some (w, err e)) =
        some (
          turned outside web3 account last current_time (ok (after_sleep setup.process_interval)) w)
    processed_turn account chain_id (some (w, panic)) =
        some (turned outside web3 account last current_time panic w)

    -- One turn, for an account that is there; `process_transactions` has its own clocks and bounds.
    unfoldable pub service_turn :
        (ℕ → ℕ) → (ℕ → ℕ → Moment) → (ℕ → ℕ) → ℕ → ℕ → ℕ → Account → ℕ → World → Option Turned
    unfolding processed_turn process_transactions
    service_turn increase moments times rounds turns fuel account chain_id w =
        if setup.generate_tx_only
        then some (after_processing account chain_id w)
        else processed_turn account chain_id (
            process_transactions outside setup increase moments times rounds turns
              (env.codec.address_to_hex account.address) chain_id fuel 0 0 w)
