-- ===== src/RpcPool/Lifetime.antt =====
-- The life of a pool: operations in any order.
use erc20_payment_lib.Prelude.{
  ℕ, String, ◌≡◌, subst, List, [], ◌∷◌, Option, none, some, Bool, ok, ◌>>=◌, >>=-eq-ok,
}
use erc20_payment_lib.Error.{Result}
use erc20_payment_lib.RpcPool.Endpoint.{
  Web3RpcPool, Web3RpcInfo, Web3RpcSingleParams, VerifyEndpointResult, add_endpoint,
  cleanup_sources_after_grace_period,
}
use erc20_payment_lib.RpcPool.Marks.{modify_at, mark_rpc_success, mark_rpc_chosen, mark_rpc_error}
use erc20_payment_lib.RpcPool.Verify.{apply_verification}
use erc20_payment_lib.RpcPool.Resolve.{
  ExternalSource, remove_gone, add_urls, sync_source, sync_all, resolve_external_addresses,
  source_params,
}
use erc20_payment_lib.RpcPool.Members.{IsOrdered}
use erc20_payment_lib.RpcPool.Invariant.{
  modify-IsOrdered, cleanup-IsOrdered, add-IsOrdered, mark_rpc_success-IsOrdered,
  mark_rpc_chosen-IsOrdered, mark_rpc_error-IsOrdered, apply_verification-Keeps, remove_gone-All,
  remove_gone-AllApart,
}

-- The operations on a pool.
pub data PoolOp : Type 0 where
  add : Web3RpcSingleParams → PoolOp
  chosen : ℕ → ℕ → PoolOp
  succeeded : ℕ → ℕ → String → PoolOp
  failed : ℕ → ℕ → String → VerifyEndpointResult → PoolOp
  verified : ℕ → ℕ → VerifyEndpointResult → PoolOp
  resolved : ℕ → List (ExternalSource × Option (List String × List String)) → PoolOp

unfoldable pub perform : (String → Bool) → PoolOp → Web3RpcPool → Result Web3RpcPool
perform is_url (add params) pool = add_endpoint is_url params pool
perform is_url (chosen now idx) pool = mark_rpc_chosen now idx pool
perform is_url (succeeded now idx method) pool = ok (mark_rpc_success now idx method pool)
perform is_url (failed now idx method r) pool = mark_rpc_error now idx method r pool
perform is_url (verified now idx r) pool =
    ok (record pool { endpoints = modify_at (apply_verification now r) idx pool.endpoints })
perform is_url (resolved now sources) pool = resolve_external_addresses is_url now sources pool

unfoldable pub perform_all : (String → Bool) → List PoolOp → Web3RpcPool → Result Web3RpcPool
unfolding perform
perform_all is_url [] pool = ok pool
perform_all is_url (op ∷ ops) pool = perform is_url op pool >>= λ next. perform_all is_url ops next

add_urls-IsOrdered :
    (is_url : String → Bool) (source : ExternalSource) (urls names : List String)
    (pool : Web3RpcPool) {added : Web3RpcPool}
    → add_urls is_url source urls names pool ≡ ok added
    → IsOrdered pool
    → IsOrdered added
unfolding add_urls
add_urls-IsOrdered is_url source [] [] pool {added} h o =
    let same : pool ≡ added = cc in subst IsOrdered same o
add_urls-IsOrdered is_url source [] (n ∷ names) pool {added} h o =
    let same : pool ≡ added = cc in subst IsOrdered same o
add_urls-IsOrdered is_url source (u ∷ urls) [] pool {added} h o =
    let same : pool ≡ added = cc in subst IsOrdered same o
add_urls-IsOrdered is_url source (u ∷ urls) (n ∷ names) pool h o =
    let params = source_params source pool.chain_id u n in
    let (mid, first, rest) = >>=-eq-ok (add_endpoint is_url params pool) _ h in
    add_urls-IsOrdered is_url source urls names mid rest (add-IsOrdered is_url params pool first o)

sync_source-IsOrdered :
    (is_url : String → Bool) (now : ℕ) (source : ExternalSource) (urls names : List String)
    (pool : Web3RpcPool) {synced : Web3RpcPool}
    → sync_source is_url now source urls names pool ≡ ok synced
    → IsOrdered pool
    → IsOrdered synced
unfolding sync_source
sync_source-IsOrdered is_url now source urls names pool {synced} h o =
    let (added, adds, e) = >>=-eq-ok (add_urls is_url source urls names pool) _ h in
    let (members, apart) = add_urls-IsOrdered is_url source urls names pool adds o in
    let same : record added { endpoints = remove_gone now source urls added.endpoints } ≡ synced =
      cc in
    subst IsOrdered same (
      remove_gone-All now source urls _ added.endpoints (λ i p m. m) members,
      remove_gone-AllApart now source urls added.endpoints apart,
    )

sync_all-IsOrdered :
    (is_url : String → Bool) (now : ℕ)
    (sources : List (ExternalSource × Option (List String × List String))) (pool : Web3RpcPool)
    {synced : Web3RpcPool}
    → sync_all is_url now sources pool ≡ ok synced
    → IsOrdered pool
    → IsOrdered synced
unfolding sync_all
sync_all-IsOrdered is_url now [] pool {synced} h o =
    let same : pool ≡ synced = cc in subst IsOrdered same o
sync_all-IsOrdered is_url now ((source, none) ∷ rest) pool h o =
    sync_all-IsOrdered is_url now rest pool h o
sync_all-IsOrdered is_url now ((source, some (urls, names)) ∷ rest) pool h o =
    let (mid, first, later) = >>=-eq-ok (sync_source is_url now source urls names pool) _ h in
    sync_all-IsOrdered is_url now rest mid later
      (sync_source-IsOrdered is_url now source urls names pool first o)

perform-IsOrdered :
    (is_url : String → Bool) (op : PoolOp) (pool : Web3RpcPool) {next : Web3RpcPool}
    → perform is_url op pool ≡ ok next
    → IsOrdered pool
    → IsOrdered next
unfolding perform resolve_external_addresses
perform-IsOrdered is_url (add params) pool h o = add-IsOrdered is_url params pool h o
perform-IsOrdered is_url (chosen now idx) pool h o = mark_rpc_chosen-IsOrdered now idx pool h o
perform-IsOrdered is_url (succeeded now idx method) pool {next} h o =
    let same : mark_rpc_success now idx method pool ≡ next = cc in
    subst IsOrdered same (mark_rpc_success-IsOrdered now idx method pool o)
perform-IsOrdered is_url (failed now idx method r) pool h o =
    mark_rpc_error-IsOrdered now idx method r pool h o
perform-IsOrdered is_url (verified now idx r) pool {next} h o =
    let f : Web3RpcInfo → Web3RpcInfo = apply_verification now r in
    let same : record pool { endpoints = modify_at f idx pool.endpoints } ≡ next = cc in
    subst IsOrdered same (modify-IsOrdered f idx pool (apply_verification-Keeps now r) o)
perform-IsOrdered is_url (resolved now sources) pool h o =
    sync_all-IsOrdered is_url now sources (cleanup_sources_after_grace_period now pool) h
      (cleanup-IsOrdered now pool o)

-- Whatever is done to a pool, in any order, if it does not panic then the endpoints stay of the
-- pool's chain, their indices differ, and no two endpoints in use have the same URL, provided
-- that this holds at the start and that the indices so far were given out in turn.
pub perform_all-IsOrdered :
    (is_url : String → Bool) (ops : List PoolOp) (pool : Web3RpcPool) {final : Web3RpcPool}
    → perform_all is_url ops pool ≡ ok final
    → IsOrdered pool
    → IsOrdered final
unfolding perform_all
perform_all-IsOrdered is_url [] pool {final} h o =
    let same : pool ≡ final = cc in subst IsOrdered same o
perform_all-IsOrdered is_url (op ∷ ops) pool h o =
    let (next, first, rest) = >>=-eq-ok (perform is_url op pool) _ h in
    perform_all-IsOrdered is_url ops next rest (perform-IsOrdered is_url op pool first o)
