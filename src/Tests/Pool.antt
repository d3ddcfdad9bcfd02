-- ===== src/Tests/Pool.antt =====
-- The theorems on the endpoint pool at concrete pools.
use erc20_payment_lib.Prelude.{
  ℕ, ◌≡◌, ◌↔◌, ◌≤◌, ◌/◌, ◌^◌, refl, [], ◌∷◌, String, none, some, Bool, true, false, ok, Outcome,
  length, All, List, arith,
}
use erc20_payment_lib.Prelude.Int.{ℤ, pos}
use erc20_payment_lib.Db.{select, order_by, insert_by}
use erc20_payment_lib.RpcPool.{
  Web3RpcPool, Web3RpcEndpoint, Web3EndpointParams, Web3RpcSingleParams, VerifyEndpointStatus,
  default_info, new_endpoint, add_endpoint, insert_endpoint, already_exists, is_allowed_now,
}
use erc20_payment_lib.RpcPool.Verify.{Probe, answer, verify_endpoint, is_fresh}
use erc20_payment_lib.RpcPool.Verify.Health.{
  IsHealthy, verify_endpoint-is_allowed, recovery_fades, reverify, successes,
}
use erc20_payment_lib.RpcPool.Choose.{
  choose_best_endpoints, extra_score_from_last_chosen, score_of, run_bonus, set_bonuses,
  allowed_endpoints, get_score,
}
use erc20_payment_lib.RpcPool.Members.{IsOrdered}
use erc20_payment_lib.RpcPool.Lifetime.{add, perform, perform_all, perform_all-IsOrdered}
use erc20_payment_lib.RpcPool.Resolve.{
  ExternalSource, contains_url, sync_source, add_urls, remove_gone, is_gone,
}
use erc20_payment_lib.RpcPool.Resolve.Synced.{IsListed, sync_source_follows}
use erc20_payment_lib.RpcPool.Call.{
  Web3Error, Network, Progress, timeout, returned, eth_generic_call,
}
use erc20_payment_lib.RpcPool.Call.Attempts.{ChoosesPresent}
use erc20_payment_lib.RpcPool.Call.Ends.{eth_generic_call_ends}

abbrev endpoint_params : Web3EndpointParams
endpoint_params = record {
  skip_validation = false;
  backup_level = pos 0;
  max_number_of_consecutive_errors = 5;
  verify_interval_secs = 120;
  min_interval_requests_ms = none;
  max_head_behind_secs = some 120;
  max_response_time_ms = 5000;
}

abbrev params : String → Web3RpcSingleParams
params url = record {
  chain_id = 5;
  name = url;
  endpoint = url;
  web3_endpoint_params = endpoint_params;
  source_id = none;
}

abbrev empty_pool : Web3RpcPool
empty_pool = record { chain_id = 5; endpoints = []; next_index = 0; last_success_endpoints = [] }

abbrev one_pool : Web3RpcPool
one_pool = record empty_pool { endpoints = (0, new_endpoint (params "a")) ∷ []; next_index = 1 }

any_url : String → Bool
any_url url = true

abbrev probe : Probe
probe = record {
  chain_id = answer 5;
  block = answer (some (some 980));
  now = 1000;
  elapsed_ms = 40;
}

verify_endpoint-is_allowed_example :
    (verified_one : Web3RpcEndpoint) × (verify_endpoint 5 true 990 probe (new_endpoint (params "a"))
      ≡ ok verified_one)
    × ((verified_one.web3_rpc_info.is_allowed ≡ true)
        ↔ IsHealthy 5 (new_endpoint (params "a")) probe)
unfolding is_fresh
verify_endpoint-is_allowed_example =
    verify_endpoint-is_allowed 5 true 990 probe (new_endpoint (params "a")) (omega arith) refl

abbrev status : VerifyEndpointStatus
status = record { head_seconds_behind = 20; check_time_ms = 40 }

recovery_fades_example :
    (reverify
      (successes ((1, status) ∷ (2, status) ∷ (3, status) ∷ []))
      (record default_info { last_verified = some 0 })).penalty_from_last_critical_error
    ≡ pos (100 / 2 ^ 2)
recovery_fades_example =
    recovery_fades (record default_info { last_verified = some 0 }) 0 1 status
      ((2, status) ∷ (3, status) ∷ []) refl refl

abbrev curve : ℤ → ℤ → ℤ
curve penalty bonus = bonus

-- An endpoint that a verification has allowed.
abbrev allowed : String → ℤ → Web3RpcEndpoint
allowed url level =
    record (new_endpoint (record (params url) {
      web3_endpoint_params = record endpoint_params { backup_level = level };
    })) {
      web3_rpc_info = record default_info { is_allowed = true; bonus_from_last_chosen = level };
    }

-- A backup endpoint that scores higher than one of level 0, and one that is not allowed.
abbrev three_endpoints : List (ℕ × Web3RpcEndpoint)
three_endpoints =
    (0, allowed "a" (pos 0)) ∷ (1, new_endpoint (params "b")) ∷ (2, allowed "c" (pos 1)) ∷ []

abbrev three_pool : Web3RpcPool
three_pool = record empty_pool {
  endpoints = three_endpoints;
  next_index = 3;
  last_success_endpoints = 2 ∷ [];
}

backup_first : (choose_best_endpoints curve [] three_pool).1 ≡ 2 ∷ 0 ∷ []
unfolding choose_best_endpoints extra_score_from_last_chosen score_of run_bonus set_bonuses
    allowed_endpoints select order_by insert_by get_score is_allowed_now
backup_first = refl

twice_added :
    perform_all any_url (add (params "a") ∷ add (params "a") ∷ []) empty_pool ≡ ok one_pool
unfolding perform_all perform add_endpoint insert_endpoint already_exists any_url
twice_added = refl

perform_all-IsOrdered_example : IsOrdered one_pool
perform_all-IsOrdered_example =
    perform_all-IsOrdered any_url (add (params "a") ∷ add (params "a") ∷ []) empty_pool twice_added
      (tt, tt)

abbrev source : ExternalSource
source = record { unique_source_id = 9; endpoint_params = endpoint_params }

abbrev synced_pool : Web3RpcPool
synced_pool = record empty_pool {
  endpoints = (0, new_endpoint (record (params "b") { name = "n"; source_id = some 9 })) ∷ [];
  next_index = 1;
}

synced : sync_source any_url 7 source ("b" ∷ []) ("n" ∷ []) empty_pool ≡ ok synced_pool
unfolding sync_source add_urls remove_gone is_gone add_endpoint insert_endpoint already_exists
    any_url
synced = refl

sync_source_follows_example :
    All (IsListed source ("b" ∷ [])) synced_pool.endpoints
    × ((url : String)
        → contains_url url ("b" ∷ []) ≡ true
        → already_exists url synced_pool.endpoints ≡ true)
sync_source_follows_example =
    sync_source_follows any_url 7 source ("b" ∷ []) ("n" ∷ []) empty_pool refl synced

-- The world is the number of the requests so far; the choice is every endpoint of the pool.
abbrev network : Network ℕ ℕ
network = record {
  choose =
      λ pool w. (record pool { endpoints = (0, new_endpoint (params "a")) ∷ [] }, w, 0 ∷ [], false);
  call = λ w idx. (w, timeout);
  now = λ w. 0;
  pause = λ ms w. w;
}

network-ChoosesPresent : ChoosesPresent network
network-ChoosesPresent pool w = (refl, tt)

eth_generic_call_ends_example :
    (s : Progress ℕ) × (r : Outcome Web3Error ℕ) × (eth_generic_call network "balance" 5 one_pool 0
      ≡ returned s r)
    × (length s.called ≤ 5)
eth_generic_call_ends_example =
    eth_generic_call_ends network "balance" one_pool 0 network-ChoosesPresent
