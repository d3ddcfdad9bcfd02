-- ===== src/RpcPool/Invariant.antt =====
-- What each operation does to the order of a pool.
use erc20_payment_lib.Prelude.{
  ℕ, String, ◌≡◌, refl, sym, subst, inl, inr, List, [], ◌∷◌, some, Bool, true, false, ◌==◌,
  Bool-cases, Option-cases, ok, All, arith,
}
use erc20_payment_lib.Db.{select}
use erc20_payment_lib.RpcPool.Endpoint.{
  Web3RpcPool, Web3RpcEndpoint, Web3RpcInfo, Web3RpcSingleParams, VerifyEndpointResult,
  get_endpoint, is_removed, add_endpoint, insert_endpoint, new_endpoint, already_exists,
  cleanup_sources_after_grace_period,
}
use erc20_payment_lib.RpcPool.Marks.{
  modify_at, mark_rpc_success, mark_rpc_chosen, mark_rpc_error, on_success, on_error,
}
use erc20_payment_lib.RpcPool.Verify.{apply_verification}
use erc20_payment_lib.RpcPool.Resolve.{ExternalSource, is_gone, remove_gone}
use erc20_payment_lib.RpcPool.Members.{
  IsOrdered, Keeps, key, keys, keys-modify_at, Apart, AllApart, Member, insert-IsOrdered, All-imp,
}

pub modify-IsOrdered :
    (f : Web3RpcInfo → Web3RpcInfo) (idx : ℕ) (pool : Web3RpcPool)
    → Keeps f
    → IsOrdered pool
    → IsOrdered (record pool { endpoints = modify_at f idx pool.endpoints })
modify-IsOrdered f idx pool k h =
    subst (λ ks. All (Member pool.chain_id pool.next_index) ks × AllApart ks)
      (sym (keys-modify_at f idx pool.endpoints k)) h

select-All :
    (P : ℕ × Web3RpcSingleParams × Bool → Type 0) (p : ℕ × Web3RpcEndpoint → Bool)
    (es : List (ℕ × Web3RpcEndpoint))
    → All P (keys es)
    → All P (keys (select p es))
unfolding select
select-All P p [] h = tt
select-All P p (x ∷ es) h = elim (Bool-cases (p x)) [
  | inl e ↦ rw e (h.0, select-All P p es h.1)
  | inr e ↦ rw e (select-All P p es h.1)
]

select-AllApart :
    (p : ℕ × Web3RpcEndpoint → Bool) (es : List (ℕ × Web3RpcEndpoint))
    → AllApart (keys es)
    → AllApart (keys (select p es))
unfolding select
select-AllApart p [] h = tt
select-AllApart p (x ∷ es) h = elim (Bool-cases (p x)) [
  | inl e ↦ rw e (select-All (Apart (key x)) p es h.0, select-AllApart p es h.1)
  | inr e ↦ rw e (select-AllApart p es h.1)
]

pub cleanup-IsOrdered :
    (now : ℕ) (pool : Web3RpcPool)
    → IsOrdered pool
    → IsOrdered (cleanup_sources_after_grace_period now pool)
unfolding cleanup_sources_after_grace_period
cleanup-IsOrdered now pool h =
    (select-All _ _ pool.endpoints h.0, select-AllApart _ pool.endpoints h.1)

pub add-IsOrdered :
    (is_url : String → Bool) (params : Web3RpcSingleParams) (pool : Web3RpcPool)
    {next : Web3RpcPool}
    → add_endpoint is_url params pool ≡ ok next
    → IsOrdered pool
    → IsOrdered next
unfolding add_endpoint
add-IsOrdered is_url params pool {next} h o = elim (Bool-cases (params.chain_id == pool.chain_id)) [
  | inr other ↦ let e = rw other at h in let same : pool ≡ next = cc in subst IsOrdered same o
  | inl here ↦ elim (Bool-cases (already_exists params.endpoint pool.endpoints)) [
    | inl old ↦ let e = rw (here, old) at h in let same : pool ≡ next = cc in subst IsOrdered same o
    | inr new ↦ elim (Bool-cases (is_url params.endpoint)) [
      | inl valid ↦
          let e = rw (here, new, valid) at h in
          let same : insert_endpoint (new_endpoint params) pool ≡ next = cc in
          subst IsOrdered same (insert-IsOrdered params pool (ground (arith, here)) new o)
      | inr bad ↦ let e = rw (here, new, bad) at h in cc
    ]
  ]
]

pub mark_rpc_success-IsOrdered :
    (now idx : ℕ) (method : String) (pool : Web3RpcPool)
    → IsOrdered pool
    → IsOrdered (mark_rpc_success now idx method pool)
unfolding mark_rpc_success
mark_rpc_success-IsOrdered now idx method pool h =
    elim (Option-cases (get_endpoint pool.endpoints idx)) [
      | inl gone ↦ rw (gone, mark_rpc_success) h
      | inr (e, there) ↦
          rw (there, mark_rpc_success)
            (modify-IsOrdered (on_success now method) idx pool (λ info. refl) h)
    ]

pub mark_rpc_chosen-IsOrdered :
    (now idx : ℕ) (pool : Web3RpcPool) {next : Web3RpcPool}
    → mark_rpc_chosen now idx pool ≡ ok next
    → IsOrdered pool
    → IsOrdered next
unfolding mark_rpc_chosen
mark_rpc_chosen-IsOrdered now idx pool {next} h o =
    elim (Option-cases (get_endpoint pool.endpoints idx)) [
      | inl gone ↦ let e = rw (gone, mark_rpc_chosen) at h in cc
      | inr (x, there) ↦
          let e = rw (there, mark_rpc_chosen) at h in
          let f : Web3RpcInfo → Web3RpcInfo = λ info. record info { last_chosen = some now } in
          let same : record pool { endpoints = modify_at f idx pool.endpoints } ≡ next = cc in
          subst IsOrdered same (modify-IsOrdered f idx pool (λ info. refl) o)
    ]

pub mark_rpc_error-IsOrdered :
    (now idx : ℕ) (method : String) (r : VerifyEndpointResult) (pool : Web3RpcPool)
    {next : Web3RpcPool}
    → mark_rpc_error now idx method r pool ≡ ok next
    → IsOrdered pool
    → IsOrdered next
unfolding mark_rpc_error
mark_rpc_error-IsOrdered now idx method r pool {next} h o =
    elim (Option-cases (get_endpoint pool.endpoints idx)) [
      | inl gone ↦ let e = rw (gone, mark_rpc_error) at h in cc
      | inr (x, there) ↦
          let e = rw (there, mark_rpc_error) at h in
          let f : Web3RpcInfo → Web3RpcInfo = on_error now method r in
          let same : record pool { endpoints = modify_at f idx pool.endpoints } ≡ next = cc in
          subst IsOrdered same (modify-IsOrdered f idx pool (λ info. refl) o)
    ]

pub apply_verification-Keeps :
    (now : ℕ) (r : VerifyEndpointResult) → Keeps (apply_verification now r)
unfolding apply_verification
apply_verification-Keeps now (VerifyEndpointResult.verified s) info = refl
apply_verification-Keeps now _ info = refl

present_lem :
    (source : ExternalSource) (urls : List String) (e : Web3RpcEndpoint)
    → is_gone source urls e ≡ true
    → is_removed e ≡ false
unfolding is_gone
present_lem source urls e g = ground arith

pub remove_gone-All :
    (now : ℕ) (source : ExternalSource) (urls : List String)
    (P : ℕ × Web3RpcSingleParams × Bool → Type 0) (es : List (ℕ × Web3RpcEndpoint))
    → ((i : ℕ) (p : Web3RpcSingleParams) → P (i, p, false) → P (i, p, true))
    → All P (keys es)
    → All P (keys (remove_gone now source urls es))
unfolding remove_gone
remove_gone-All now source urls P [] f h = tt
remove_gone-All now source urls P ((i, e) ∷ es) f h = elim (Bool-cases (is_gone source urls e)) [
  | inl g ↦
      let present : is_removed e ≡ false = present_lem source urls e g in
      rw g (
        f i e.web3_rpc_params (subst (λ b. P (i, e.web3_rpc_params, b)) present h.0),
        remove_gone-All now source urls P es f h.1,
      )
  | inr g ↦ rw g (h.0, remove_gone-All now source urls P es f h.1)
]

pub remove_gone-AllApart :
    (now : ℕ) (source : ExternalSource) (urls : List String) (es : List (ℕ × Web3RpcEndpoint))
    → AllApart (keys es)
    → AllApart (keys (remove_gone now source urls es))
unfolding remove_gone
remove_gone-AllApart now source urls [] h = tt
remove_gone-AllApart now source urls ((i, e) ∷ es) h =
    let others =
      remove_gone-All now source urls (Apart (key (i, e))) es
        (λ j q (ne, urls_differ). (ne, (λ r s. cc))) h.0 in
    let rest = remove_gone-AllApart now source urls es h.1 in
    elim (Bool-cases (is_gone source urls e)) [
      | inl g ↦ rw g (All-imp _ _ _ (λ y (ne, urls_differ). (ne, (λ r s. cc))) others, rest)
      | inr g ↦ rw g (others, rest)
    ]
