-- ===== src/RpcPool/Call.antt =====
-- `eth_generic_call` of eth_generic_call.rs with web3_error_list.rs: endpoints are tried in turn,
-- with growing pauses. How the endpoints are chosen at a time of the world, and what a request
-- comes to, are parameters; the rest of the pool stays as it is while a request is under way.
pub mod Attempts
pub mod Ends
use erc20_payment_lib.Prelude.{
  ℕ, zero, suc, ◌+◌, String, List, [], ◌∷◌, ◌++◌, Option, none, some, Bool, true, false, not, ◌&&◌,
  if◌then◌else◌, leb, get_or, ok, err, panic, Outcome,
}
use erc20_payment_lib.Error.{Result}
use erc20_payment_lib.Db.{is_null}
use erc20_payment_lib.Events.{Web3RpcPoolContent, success, error, all_endpoints_failed}
use erc20_payment_lib.RpcPool.Endpoint.{
  Web3RpcPool, VerifyEndpointResult, rpc_web3_error, other_network_error, get_endpoint,
}
use erc20_payment_lib.RpcPool.Marks.{mark_rpc_chosen, mark_rpc_success, mark_rpc_error}
use text.Mathlib.Text.{find?}

-- `web3::Error`: the variants that the code tells apart.
pub data Web3Error : Type 0 where
  unreachable : Web3Error
  rpc : String → Web3Error
  other : String → Web3Error

-- `check_if_proper_rpc_error`, whose two tests are the same.
abbrev pub check_if_proper_rpc_error : String → Bool
check_if_proper_rpc_error e = not (is_null (find? e "transfer amount exceeds balance"))

pub data Reply (A : Type 0) : Type 0 where
  value : A → Reply A
  rpc_error : String → Reply A
  other_error : String → Reply A
  timeout : Reply A

-- What surrounds the call: the state `W` of the world, the choice of endpoints at a state (with
-- `is_resolving`), and the endpoint's reply.
pub record Network (W A : Type 0) : Type 0 where
  pub choose : Web3RpcPool → W → Web3RpcPool × W × List ℕ × Bool
  pub call : W → ℕ → W × Reply A
  pub now : W → ℕ
  pub pause : ℕ → W → W

-- The progress: the pool, the world, `loop_no`, the endpoints called and the events sent so far.
pub record Progress (W : Type 0) : Type 0 where
  pub pool : Web3RpcPool
  pub world : W
  pub loop_no : ℕ
  pub called : List ℕ
  pub sent : List Web3RpcPoolContent

pub data Step (W A : Type 0) : Type 0 where
  returned : Progress W → Outcome Web3Error A → Step W A
  go_on : Progress W → Step W A
  panicked : Step W A

abbrev pub loop_count : ℕ
loop_count = 4

abbrev pub sleep_time : ℕ → ℕ
sleep_time loop_no = get_or (800 ∷ 1200 ∷ 2000 ∷ 2800 ∷ []) loop_no 0

module _ {W A : Type 0} (net : Network W A) (method : String) where
  -- A proper answer: the endpoint is marked, and the call returns.
  abbrev pub succeed : Progress W → ℕ → Outcome Web3Error A → Step W A
  succeed s idx result =
      returned
        (record s {
          pool = mark_rpc_success (net.now s.world) idx method s.pool;
          sent = s.sent ++ success ∷ [];
        })
        result

  -- The pause of a try, or the return when `loop_no` is used up.
  abbrev pub again : Progress W → Web3RpcPoolContent → Web3Error → Step W A
  again s content e =
      if leb loop_count s.loop_no
      then returned (record s { sent = s.sent ++ content ∷ [] }) (err e)
      else go_on
          (record s { world = net.pause (sleep_time s.loop_no) s.world; loop_no = suc s.loop_no })

  abbrev pub fail_call : Progress W → ℕ → VerifyEndpointResult → Web3Error → Step W A
  fail_call s idx result e = elim (mark_rpc_error (net.now s.world) idx method result s.pool) [
    | ok pool ↦ again (record s { pool = pool }) (error "Web3 rpc call failed") e
    | err _ ↦ panicked
    | panic ↦ panicked
  ]

  unfoldable pub handle_reply : Progress W → ℕ → Reply A → Step W A
  handle_reply s idx (value a) = succeed s idx (ok a)
  handle_reply s idx (rpc_error e) =
      if check_if_proper_rpc_error e
      then succeed s idx (err (rpc e))
      else fail_call s idx (rpc_web3_error e) (rpc e)
  handle_reply s idx (other_error e) = fail_call s idx (other_network_error e) (other e)
  handle_reply s idx timeout = fail_call s idx VerifyEndpointResult.unreachable unreachable

  -- `for idx in idx_vec`; an endpoint that is gone is passed over.
  unfoldable pub try_endpoints : List ℕ → Progress W → Step W A
  unfolding handle_reply
  try_endpoints [] s = go_on s
  try_endpoints (idx ∷ rest) s = elim (get_endpoint s.pool.endpoints idx) [
    | none ↦ try_endpoints rest s
    | some e ↦
        let (world, reply) = net.call s.world idx in
        elim (handle_reply (record s { world = world; called = s.called ++ idx ∷ [] }) idx reply) [
          | returned s' r ↦ returned s' r
          | go_on s' ↦ try_endpoints rest s'
          | panicked ↦ panicked
        ]
  ]

  -- `if let Some(idx_chosen) = idx_vec.first()`.
  unfoldable pub mark_first : List ℕ → Progress W → Result Web3RpcPool
  mark_first [] s = ok s.pool
  mark_first (idx ∷ rest) s = mark_rpc_chosen (net.now s.world) idx s.pool

  abbrev pub attempt : List ℕ → Progress W → Step W A
  attempt [] s = again s all_endpoints_failed unreachable
  attempt (idx ∷ rest) s = try_endpoints (idx ∷ rest) s

  abbrev pub nothing_to_try : List ℕ → Bool → Bool
  nothing_to_try [] is_resolving = not is_resolving
  nothing_to_try (idx ∷ rest) is_resolving = false

  -- One turn of the outer loop.
  unfoldable pub turn : Progress W → Step W A
  unfolding try_endpoints mark_first
  turn s =
      let (pool, world, idx_vec, is_resolving) = net.choose s.pool s.world in
      let s' = record s { pool = pool; world = world } in
      if nothing_to_try idx_vec is_resolving
      then returned s' (err unreachable)
      else (elim (mark_first idx_vec s') [
        | ok marked ↦ attempt idx_vec (record s' { pool = marked })
        | err _ ↦ panicked
        | panic ↦ panicked
      ])

  -- `eth_generic_call`, for as many turns as there is fuel.
  unfoldable pub run : ℕ → Progress W → Step W A
  unfolding turn
  run zero s = go_on s
  run (suc fuel) s = elim (turn s) [
    | returned s' r ↦ returned s' r
    | go_on s' ↦ run fuel s'
    | panicked ↦ panicked
  ]

  unfoldable pub eth_generic_call : ℕ → Web3RpcPool → W → Step W A
  unfolding run
  eth_generic_call fuel pool world =
      run fuel (record { pool = pool; world = world; loop_no = 0; called = []; sent = [] })
