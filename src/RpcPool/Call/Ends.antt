-- ===== src/RpcPool/Call/Ends.antt =====
-- How long `eth_generic_call` runs.
use erc20_payment_lib.Prelude.{
  ℕ, zero, suc, ◌+◌, ◌≤◌, ◌<◌, ◌≡◌, refl, sym, subst, String, List, [], ◌∷◌, some, Bool, true,
  false, if◌then◌else◌, length, ok, err, panic, Outcome, arith,
}
use erc20_payment_lib.RpcPool.Endpoint.{Web3RpcPool, Web3RpcEndpoint}
use erc20_payment_lib.RpcPool.Marks.{modify_at, mark_rpc_chosen}
use erc20_payment_lib.RpcPool.Members.{has_index, has_index-modify_at, get_endpoint-has_index}
use erc20_payment_lib.RpcPool.Call.{
  Web3Error, unreachable, Network, Progress, Step, returned, go_on, panicked, mark_first, attempt,
  nothing_to_try, turn, run, eth_generic_call,
}
use erc20_payment_lib.RpcPool.Call.Attempts.{
  ChoosesPresent, Fine, Present, Present-keep, again-Fine, try-Fine,
}

module _ {W A : Type 0} (net : Network W A) (method : String) where
  -- After the endpoints have been chosen.
  chosen : List ℕ → Bool → Progress W → Step W A
  chosen idxs is_resolving s =
      if nothing_to_try net method idxs is_resolving
      then returned s (err unreachable)
      else (elim (mark_first net method idxs s) [
        | ok marked ↦ attempt net method idxs (record s { pool = marked })
        | err _ ↦ panicked
        | panic ↦ panicked
      ])

  mark_rpc_chosen-run :
      (now idx : ℕ) (pool : Web3RpcPool)
      → has_index idx pool.endpoints ≡ true
      → mark_rpc_chosen now idx pool
        ≡ ok (record pool {
          endpoints = modify_at (λ info. record info { last_chosen = some now }) idx pool.endpoints;
        })
  unfolding mark_rpc_chosen
  mark_rpc_chosen-run now idx pool h =
      let (e, found) = get_endpoint-has_index idx pool.endpoints h in
      rw (found, mark_rpc_chosen) refl

  -- What is left of `Fine` when the pool does not matter.
  abbrev Ends : ℕ → Step W A → Type 0
  Ends n (returned s r) = length s.called ≤ 5
  Ends n (go_on s) = (n < s.loop_no) × (s.loop_no ≤ 4) × (length s.called ≤ s.loop_no)
  Ends n panicked = ⊥

  Fine-Ends :
      (n : ℕ) (es : List (ℕ × Web3RpcEndpoint)) (step : Step W A) → Fine n es step → Ends n step
  Fine-Ends n es (returned s r) h = h
  Fine-Ends n es (go_on s) (a, b, c, keep) = (a, b, c)
  Fine-Ends n es panicked h = h

  chosen-Ends :
      (idxs : List ℕ) (is_resolving : Bool) (s : Progress W)
      → Present net method idxs s.pool.endpoints
      → s.loop_no ≤ 4
      → length s.called ≤ s.loop_no
      → Ends s.loop_no (chosen idxs is_resolving s)
  unfolding chosen mark_first
  chosen-Ends [] false s h b c = omega arith
  chosen-Ends [] true s h b c =
      Fine-Ends s.loop_no s.pool.endpoints _ (again-Fine net method s _ _ b (omega arith))
  chosen-Ends (idx ∷ rest) is_resolving s h b c =
      rw (mark_rpc_chosen-run (net.now s.world) idx s.pool h.0) (
        Fine-Ends s.loop_no _ _ (
          try-Fine net method idx rest _
            (Present-keep net method (idx ∷ rest) s.pool.endpoints _
              (λ k. has_index-modify_at _ idx k s.pool.endpoints) h)
            b c))

  turn-Ends :
      (s : Progress W)
      → ChoosesPresent net
      → s.loop_no ≤ 4
      → length s.called ≤ s.loop_no
      → Ends s.loop_no (turn net method s)
  unfolding turn chosen
  turn-Ends s present b c =
      chosen-Ends (net.choose s.pool s.world).2 (net.choose s.pool s.world).3
        (record s { pool = (net.choose s.pool s.world).0; world = (net.choose s.pool s.world).1 })
        (present s.pool s.world) b c

  -- The other turns, after one.
  more_turns : ℕ → Step W A → Step W A
  more_turns fuel (returned s r) = returned s r
  more_turns fuel (go_on s) = run net method fuel s
  more_turns fuel panicked = panicked

  abbrev Returns : Step W A → Type 0
  Returns step =
      (s : Progress W) × (r : Outcome Web3Error A) × (step ≡ returned s r) × (length s.called ≤ 5)

  more_turns-eq :
      (fuel : ℕ) (step : Step W A)
      → (elim step [
        | returned s r ↦ returned s r
        | go_on s ↦ run net method fuel s
        | panicked ↦ panicked
      ])
        ≡ more_turns fuel step
  unfolding more_turns
  more_turns-eq fuel (returned s r) = refl
  more_turns-eq fuel (go_on s) = refl
  more_turns-eq fuel panicked = refl

  run-cons :
      (fuel : ℕ) (s : Progress W)
      → run net method (suc fuel) s ≡ more_turns fuel (turn net method s)
  unfolding run more_turns
  run-cons fuel s = more_turns-eq fuel (turn net method s)

  run-Returns :
      (fuel : ℕ) (step : Step W A) (n : ℕ)
      → ChoosesPresent net
      → Ends n step
      → 5 ≤ fuel + suc n
      → Returns (more_turns fuel step)
  unfolding more_turns run
  run-Returns fuel (returned s r) n present h f = (s, r, refl, h)
  run-Returns fuel panicked n present h f = absurd h
  run-Returns zero (go_on s) n present (a, b, c) f = absurd (omega arith)
  run-Returns (suc fuel) (go_on s) n present (a, b, c) f = subst Returns (sym (run-cons fuel s)) (
      run-Returns fuel (turn net method s) s.loop_no present (turn-Ends s present b c)
        (omega arith))

  -- Where every chosen endpoint is in the pool, five turns are enough for a call to return, and it
  -- sends at most five requests; it does not panic.
  pub eth_generic_call_ends :
      (pool : Web3RpcPool) (world : W)
      → ChoosesPresent net
      → (s : Progress W) × (r : Outcome Web3Error A) × (eth_generic_call net method 5 pool world
          ≡ returned s r)
        × (length s.called ≤ 5)
  unfolding eth_generic_call
  eth_generic_call_ends pool world present =
      let s : Progress W = record {
        pool = pool;
        world = world;
        loop_no = 0;
        called = [];
        sent = [];
      } in
      subst Returns (sym (run-cons 4 s)) (
        run-Returns 4 (turn net method s) 0 present
          (turn-Ends s present (omega arith) (omega arith)) (omega arith))
