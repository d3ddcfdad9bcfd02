-- ===== src/RpcPool/Marks.antt =====
-- What the pool records of its calls: the `mark_…` functions of pool.rs. A missing index panics
-- (`unwrap`) but in `mark_rpc_success`, which returns.
use erc20_payment_lib.Prelude.{
  ℕ, suc, String, List, [], ◌∷◌, none, some, ◌==◌, if◌then◌else◌, str_eq, ok, panic,
}
use erc20_payment_lib.Prelude.Int.{pos, ◌+ℤ◌}
use erc20_payment_lib.Error.{Result}
use erc20_payment_lib.RpcPool.Endpoint.{
  Web3RpcPool, Web3RpcEndpoint, Web3RpcInfo, ReqStats, VerifyEndpointResult, default_req_stats,
  get_endpoint,
}

-- Write to the endpoint at an index.
unfoldable pub modify_at :
    (Web3RpcInfo → Web3RpcInfo) → ℕ → List (ℕ × Web3RpcEndpoint) → List (ℕ × Web3RpcEndpoint)
modify_at f idx [] = []
modify_at f idx ((i, e) ∷ rest) =
    if i == idx
    then (i, record e { web3_rpc_info = f e.web3_rpc_info }) ∷ rest
    else (i, e) ∷ modify_at f idx rest

-- `request_stats.get_mut(&method)`, or a new entry.
unfoldable pub modify_stats :
    (ReqStats → ReqStats) → String → List (String × ReqStats) → List (String × ReqStats)
modify_stats f method [] = (method, f default_req_stats) ∷ []
modify_stats f method ((m, s) ∷ rest) =
    if str_eq m method then (m, f s) ∷ rest else (m, s) ∷ modify_stats f method rest

abbrev pub on_success : ℕ → String → Web3RpcInfo → Web3RpcInfo
on_success now method info = record info {
  endpoint_consecutive_errors = 0;
  web3_rpc_stats = record info.web3_rpc_stats {
    request_stats =
        modify_stats
          (λ el. (record el {
            request_succeeded_count = suc el.request_succeeded_count;
            last_success_request = some now;
          }))
          method info.web3_rpc_stats.request_stats;
    last_success_request = some now;
    request_count_total_succeeded = suc info.web3_rpc_stats.request_count_total_succeeded;
  };
}

abbrev pub on_error : ℕ → String → VerifyEndpointResult → Web3RpcInfo → Web3RpcInfo
on_error now method verify_result info = record info {
  web3_rpc_stats = record info.web3_rpc_stats {
    request_stats =
        modify_stats
          (λ el. (record el {
            request_error_count = suc el.request_error_count;
            last_error_request = some now;
          }))
          method info.web3_rpc_stats.request_stats;
    last_error_request = some now;
    request_count_total_error = suc info.web3_rpc_stats.request_count_total_error;
  };
  verify_result = some verify_result;
  endpoint_consecutive_errors = suc info.endpoint_consecutive_errors;
  penalty_from_last_critical_error = info.penalty_from_last_critical_error +ℤ pos 10;
}

unfoldable pub mark_rpc_chosen : ℕ → ℕ → Web3RpcPool → Result Web3RpcPool
mark_rpc_chosen now idx pool = elim (get_endpoint pool.endpoints idx) [
  | none ↦ panic
  | some e ↦ ok (record pool {
    endpoints = modify_at (λ info. record info { last_chosen = some now }) idx pool.endpoints;
  })
]

unfoldable pub mark_rpc_success : ℕ → ℕ → String → Web3RpcPool → Web3RpcPool
mark_rpc_success now idx method pool = elim (get_endpoint pool.endpoints idx) [
  | none ↦ pool
  | some e ↦ record pool {
    last_success_endpoints = idx ∷ pool.last_success_endpoints;
    endpoints = modify_at (on_success now method) idx pool.endpoints;
  }
]

unfoldable pub mark_rpc_error :
    ℕ → ℕ → String → VerifyEndpointResult → Web3RpcPool → Result Web3RpcPool
mark_rpc_error now idx method verify_result pool = elim (get_endpoint pool.endpoints idx) [
  | none ↦ panic
  | some e ↦
      ok (record pool {
        endpoints = modify_at (on_error now method verify_result) idx pool.endpoints;
      })
]
