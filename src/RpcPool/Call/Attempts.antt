-- ===== src/RpcPool/Call/Attempts.antt =====
-- One round of `eth_generic_call` over the chosen endpoints.
use erc20_payment_lib.Prelude.{
  ℕ, suc, ◌≤◌, ◌<◌, ◌≡◌, refl, sym, subst, ◌∙◌, inl, inr, String, List, [], ◌∷◌, ◌++◌, true,
  Bool-cases, leb, length, length-append, ok, All, arith,
}
use erc20_payment_lib.Events.{Web3RpcPoolContent}
use erc20_payment_lib.RpcPool.Endpoint.{
  Web3RpcPool, Web3RpcEndpoint, VerifyEndpointResult, rpc_web3_error, other_network_error,
}
use erc20_payment_lib.RpcPool.Marks.{modify_at, mark_rpc_error, on_error}
use erc20_payment_lib.RpcPool.Members.{has_index, has_index-modify_at, get_endpoint-has_index}
use erc20_payment_lib.RpcPool.Call.{
  Web3Error, unreachable, rpc, other, check_if_proper_rpc_error, Reply, value, rpc_error,
  other_error, timeout, Network, Progress, Step, returned, go_on, panicked, again, fail_call,
  handle_reply, try_endpoints,
}

-- Every endpoint that is chosen is in the pool.
abbrev pub ChoosesPresent : {W A : Type 0} → Network W A → Type 0
ChoosesPresent {W} net =
    (pool : Web3RpcPool) (w : W)
    → All (λ i. has_index i (net.choose pool w).0.endpoints ≡ true) (net.choose pool w).2

-- What holds after a step that began at `loop_no` and the endpoints `es`.
abbrev pub Fine : {W A : Type 0} → ℕ → List (ℕ × Web3RpcEndpoint) → Step W A → Type 0
Fine n es (returned s r) = length s.called ≤ 5
Fine n es (go_on s) =
    (n < s.loop_no)
    × (s.loop_no ≤ 4)
    × (length s.called ≤ s.loop_no)
    × ((k : ℕ) → has_index k s.pool.endpoints ≡ has_index k es)
Fine n es panicked = ⊥

shift-Fine :
    {W A : Type 0} (n : ℕ) (es fs : List (ℕ × Web3RpcEndpoint)) (step : Step W A)
    → ((k : ℕ) → has_index k fs ≡ has_index k es)
    → Fine n fs step
    → Fine n es step
shift-Fine n es fs (returned s r) same h = h
shift-Fine n es fs (go_on s) same (a, b, c, keep) = (a, b, c, (λ k. keep k ∙ same k))
shift-Fine n es fs panicked same h = h

module _ {W A : Type 0} (net : Network W A) (method : String) where
  pub again-Fine :
      (s : Progress W) (content : Web3RpcPoolContent) (e : Web3Error)
      → s.loop_no ≤ 4
      → length s.called ≤ suc s.loop_no
      → Fine s.loop_no s.pool.endpoints (again net method s content e)
  again-Fine s content e b c = elim (Bool-cases (leb 4 s.loop_no)) [
    | inl h ↦ rw h (omega arith)
    | inr h ↦
        let below : s.loop_no < 4 = ground arith in
        rw h (omega arith, omega arith, omega arith, (λ k. refl))
  ]

  mark_rpc_error-run :
      (now idx : ℕ) (v : VerifyEndpointResult) (pool : Web3RpcPool)
      → has_index idx pool.endpoints ≡ true
      → mark_rpc_error now idx method v pool
        ≡ ok (record pool { endpoints = modify_at (on_error now method v) idx pool.endpoints })
  unfolding mark_rpc_error
  mark_rpc_error-run now idx v pool h =
      let (e, found) = get_endpoint-has_index idx pool.endpoints h in
      rw (found, mark_rpc_error) refl

  fail_call-Fine :
      (s : Progress W) (idx : ℕ) (v : VerifyEndpointResult) (e : Web3Error)
      → has_index idx s.pool.endpoints ≡ true
      → s.loop_no ≤ 4
      → length s.called ≤ suc s.loop_no
      → Fine s.loop_no s.pool.endpoints (fail_call net method s idx v e)
  fail_call-Fine s idx v e h b c =
      rw (mark_rpc_error-run (net.now s.world) idx v s.pool h, fail_call)
        (shift-Fine s.loop_no s.pool.endpoints _ _
          (λ k. has_index-modify_at (on_error (net.now s.world) method v) idx k s.pool.endpoints)
          (again-Fine
            (record s {
              pool = record s.pool {
                endpoints = modify_at (on_error (net.now s.world) method v) idx s.pool.endpoints;
              };
            })
            _ e b c))

  reply-Fine :
      (s : Progress W) (idx : ℕ) (reply : Reply A)
      → has_index idx s.pool.endpoints ≡ true
      → s.loop_no ≤ 4
      → length s.called ≤ suc s.loop_no
      → Fine s.loop_no s.pool.endpoints (handle_reply net method s idx reply)
  unfolding handle_reply
  reply-Fine s idx (value a) h b c = omega (arith, c, b)
  reply-Fine s idx (rpc_error e) h b c = elim (Bool-cases (check_if_proper_rpc_error e)) [
    | inl t ↦ rw t (omega (arith, c, b))
    | inr t ↦ rw t (fail_call-Fine s idx (rpc_web3_error e) (rpc e) h b c)
  ]
  reply-Fine s idx (other_error e) h b c =
      fail_call-Fine s idx (other_network_error e) (other e) h b c
  reply-Fine s idx timeout h b c =
      fail_call-Fine s idx VerifyEndpointResult.unreachable unreachable h b c

  -- The rest of a list of endpoints, after a step that was fine.
  keep_trying : List ℕ → Step W A → Step W A
  keep_trying rest (returned s r) = returned s r
  keep_trying rest (go_on s) = try_endpoints net method rest s
  keep_trying rest panicked = panicked

  weaken-Fine :
      {m n : ℕ} (es : List (ℕ × Web3RpcEndpoint)) (step : Step W A)
      → m ≤ n
      → Fine n es step
      → Fine m es step
  weaken-Fine es (returned s r) h f = f
  weaken-Fine es (go_on s) h (a, b, c, keep) = (omega arith, b, c, keep)
  weaken-Fine es panicked h f = f

  abbrev pub Present : List ℕ → List (ℕ × Web3RpcEndpoint) → Type 0
  Present idxs es = All (λ i. has_index i es ≡ true) idxs

  pub Present-keep :
      (idxs : List ℕ) (es fs : List (ℕ × Web3RpcEndpoint))
      → ((k : ℕ) → has_index k fs ≡ has_index k es)
      → Present idxs es
      → Present idxs fs
  Present-keep [] es fs same h = tt
  Present-keep (i ∷ idxs) es fs same h = (same i ∙ h.0, Present-keep idxs es fs same h.1)

  try_endpoints-cons :
      (idx : ℕ) (rest : List ℕ) (s : Progress W)
      → has_index idx s.pool.endpoints ≡ true
      → try_endpoints net method (idx ∷ rest) s
        ≡ keep_trying rest (
            handle_reply net method
              (record s { world = (net.call s.world idx).0; called = s.called ++ idx ∷ [] })
              idx
              (net.call s.world idx).1)
  unfolding try_endpoints keep_trying
  try_endpoints-cons idx rest s h =
      let (e, found) = get_endpoint-has_index idx s.pool.endpoints h in
      rw (found, try_endpoints) refl

  called_lem : (s : Progress W) (idx : ℕ) → length (s.called ++ idx ∷ []) ≡ suc (length s.called)
  called_lem s idx = omega (arith, length-append s.called (idx ∷ []))

  call-Fine :
      (s : Progress W) (idx : ℕ)
      → has_index idx s.pool.endpoints ≡ true
      → s.loop_no ≤ 4
      → length s.called ≤ s.loop_no
      → Fine s.loop_no s.pool.endpoints (
          handle_reply net method
            (record s { world = (net.call s.world idx).0; called = s.called ++ idx ∷ [] })
            idx
            (net.call s.world idx).1)
  call-Fine s idx h b c =
      reply-Fine (record s { world = (net.call s.world idx).0; called = s.called ++ idx ∷ [] }) idx
        (net.call s.world idx).1 h b (omega (arith, called_lem s idx))

  keep-Fine :
      (rest : List ℕ) (n : ℕ) (es : List (ℕ × Web3RpcEndpoint)) (step : Step W A)
      → Present rest es
      → Fine n es step
      → Fine n es (keep_trying rest step)
  unfolding keep_trying try_endpoints
  keep-Fine rest n es (returned s r) h f = f
  keep-Fine rest n es panicked h f = f
  keep-Fine [] n es (go_on s) h f = f
  keep-Fine (idx ∷ rest) n es (go_on s) h (a, b, c, keep) =
      let (here, later) = Present-keep (idx ∷ rest) es s.pool.endpoints keep h in
      subst (Fine n es) (sym (try_endpoints-cons idx rest s here)) (
        shift-Fine n es s.pool.endpoints _ keep (
          weaken-Fine s.pool.endpoints _ (omega arith)
            (keep-Fine rest s.loop_no s.pool.endpoints _ later (call-Fine s idx here b c))))

  pub try-Fine :
      (idx : ℕ) (rest : List ℕ) (s : Progress W)
      → Present (idx ∷ rest) s.pool.endpoints
      → s.loop_no ≤ 4
      → length s.called ≤ s.loop_no
      → Fine s.loop_no s.pool.endpoints (try_endpoints net method (idx ∷ rest) s)
  try-Fine idx rest s (here, later) b c =
      subst (Fine s.loop_no s.pool.endpoints) (sym (try_endpoints-cons idx rest s here))
        (keep-Fine rest s.loop_no s.pool.endpoints _ later (call-Fine s idx here b c))
