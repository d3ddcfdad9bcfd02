-- ===== src/RpcPool/Endpoint.antt =====
-- The data of the pool: verify/verify_info.rs and the structs of pool.rs. A penalty is an i64, a
-- date a number of seconds. The arena of endpoints is a list with the index of each; an index is
-- never given twice, as `thunderdome` documents.
use erc20_payment_lib.Prelude.{
  ℕ, suc, String, List, [], ◌∷◌, ◌++◌, map, Option, none, some, Bool, true, false, not, ◌&&◌, ◌||◌,
  ◌==◌, ltb, if◌then◌else◌, str_eq, ok, panic, ◌-◌,
}
use erc20_payment_lib.Prelude.Int.{ℤ, pos}
use erc20_payment_lib.Error.{Result}
use erc20_payment_lib.Db.{select}

pub record VerifyEndpointStatus : Type 0 where
  pub head_seconds_behind : ℕ
  pub check_time_ms : ℕ

-- `verified` is `Ok`.
pub data VerifyEndpointResult : Type 0 where
  verified : VerifyEndpointStatus → VerifyEndpointResult
  no_block_info : VerifyEndpointResult
  wrong_chain_id : VerifyEndpointResult
  rpc_web3_error : String → VerifyEndpointResult
  other_network_error : String → VerifyEndpointResult
  head_behind : ℕ → VerifyEndpointResult
  unreachable : VerifyEndpointResult

pub record Web3EndpointParams : Type 0 where
  pub skip_validation : Bool
  pub backup_level : ℤ
  pub max_number_of_consecutive_errors : ℕ
  pub verify_interval_secs : ℕ
  pub min_interval_requests_ms : Option ℕ
  pub max_head_behind_secs : Option ℕ
  pub max_response_time_ms : ℕ

pub record Web3RpcSingleParams : Type 0 where
  pub chain_id : ℕ
  pub name : String
  pub endpoint : String
  pub web3_endpoint_params : Web3EndpointParams
  pub source_id : Option ℕ

pub record ReqStats : Type 0 where
  pub request_succeeded_count : ℕ
  pub last_success_request : Option ℕ
  pub request_error_count : ℕ
  pub last_error_request : Option ℕ

pub record Web3RpcStats : Type 0 where
  pub request_count_total_succeeded : ℕ
  pub request_count_total_error : ℕ
  pub request_count_chain_id : ℕ
  pub request_stats : List (String × ReqStats)
  pub last_success_request : Option ℕ
  pub last_error_request : Option ℕ

pub record Web3RpcInfo : Type 0 where
  pub last_verified : Option ℕ
  pub verify_result : Option VerifyEndpointResult
  pub web3_rpc_stats : Web3RpcStats
  pub last_chosen : Option ℕ
  pub is_allowed : Bool
  pub penalty_from_last_critical_error : ℤ
  pub penalty_from_errors : ℤ
  pub penalty_from_head_behind : ℤ
  pub penalty_from_ms : ℤ
  pub bonus_from_last_chosen : ℤ
  pub endpoint_consecutive_errors : ℕ
  pub removed_date : Option ℕ

pub record Web3RpcEndpoint : Type 0 where
  pub web3_rpc_params : Web3RpcSingleParams
  pub web3_rpc_info : Web3RpcInfo

-- `next_index` is the arena's: the index that the next endpoint gets.
pub record Web3RpcPool : Type 0 where
  pub chain_id : ℕ
  pub endpoints : List (ℕ × Web3RpcEndpoint)
  pub next_index : ℕ
  pub last_success_endpoints : List ℕ

-- `Default::default()`.
abbrev pub default_req_stats : ReqStats
default_req_stats = record {
  request_succeeded_count = 0;
  last_success_request = none;
  request_error_count = 0;
  last_error_request = none;
}

abbrev pub default_info : Web3RpcInfo
default_info = record {
  last_verified = none;
  verify_result = none;
  web3_rpc_stats = record {
    request_count_total_succeeded = 0;
    request_count_total_error = 0;
    request_count_chain_id = 0;
    request_stats = [];
    last_success_request = none;
    last_error_request = none;
  };
  last_chosen = none;
  is_allowed = false;
  penalty_from_last_critical_error = pos 0;
  penalty_from_errors = pos 0;
  penalty_from_head_behind = pos 0;
  penalty_from_ms = pos 0;
  bonus_from_last_chosen = pos 0;
  endpoint_consecutive_errors = 0;
  removed_date = none;
}

abbrev pub is_removed : Web3RpcEndpoint → Bool
is_removed e = elim e.web3_rpc_info.removed_date [ none ↦ false | some date ↦ true ]

-- `Web3RpcEndpoint::is_allowed`.
unfoldable pub is_allowed_now : Web3RpcEndpoint → Bool
is_allowed_now e =
    if is_removed e
    then false
    else e.web3_rpc_info.is_allowed || e.web3_rpc_params.web3_endpoint_params.skip_validation

abbrev pub new_endpoint : Web3RpcSingleParams → Web3RpcEndpoint
new_endpoint params = record { web3_rpc_params = params; web3_rpc_info = default_info }

-- `Arena::get` and `Arena::insert`.
unfoldable pub get_endpoint : List (ℕ × Web3RpcEndpoint) → ℕ → Option Web3RpcEndpoint
get_endpoint [] idx = none
get_endpoint ((i, e) ∷ rest) idx = if i == idx then some e else get_endpoint rest idx

unfoldable pub insert_endpoint : Web3RpcEndpoint → Web3RpcPool → Web3RpcPool
insert_endpoint e pool = record pool {
  endpoints = pool.endpoints ++ (pool.next_index, e) ∷ [];
  next_index = suc pool.next_index;
}

-- A present endpoint with this URL.
unfoldable pub already_exists : String → List (ℕ × Web3RpcEndpoint) → Bool
already_exists url [] = false
already_exists url ((i, e) ∷ rest) =
    (not (is_removed e) && str_eq e.web3_rpc_params.endpoint url) || already_exists url rest

-- `is_url` is the parser of `Http::new`, whose failure is unwrapped.
module _ (is_url : String → Bool) where
  unfoldable pub add_endpoint : Web3RpcSingleParams → Web3RpcPool → Result Web3RpcPool
  unfolding already_exists insert_endpoint
  add_endpoint params pool =
      if not (params.chain_id == pool.chain_id)
      then ok pool
      else if already_exists params.endpoint pool.endpoints
      then ok pool
      else if is_url params.endpoint
      then ok (insert_endpoint (new_endpoint params) pool)
      else panic

  -- The loop of `Web3RpcPool::new`, which takes every endpoint of the pool's chain.
  unfoldable pub insert_all : List Web3RpcSingleParams → Web3RpcPool → Result Web3RpcPool
  unfolding insert_endpoint
  insert_all [] pool = ok pool
  insert_all (params ∷ rest) pool =
      if not (params.chain_id == pool.chain_id)
      then insert_all rest pool
      else if is_url params.endpoint
      then insert_all rest (insert_endpoint (new_endpoint params) pool)
      else panic

  unfoldable pub new_pool : ℕ → List Web3RpcSingleParams → Result Web3RpcPool
  unfolding insert_all
  new_pool chain_id params =
      insert_all params (record {
        chain_id = chain_id;
        endpoints = [];
        next_index = 0;
        last_success_endpoints = [];
      })

  -- `new_from_urls`, with its fixed parameters.
  unfoldable pub new_from_urls : ℕ → List String → Result Web3RpcPool
  unfolding new_pool
  new_from_urls chain_id urls = new_pool chain_id (
      map
        (λ url. (record {
          chain_id = chain_id;
          name = url;
          endpoint = url;
          web3_endpoint_params = record {
            skip_validation = false;
            backup_level = pos 0;
            max_number_of_consecutive_errors = 5;
            verify_interval_secs = 120;
            min_interval_requests_ms = none;
            max_head_behind_secs = some 120;
            max_response_time_ms = 5000;
          };
          source_id = none;
        }))
        urls)

-- `cleanup_sources_after_grace_period`: 300 seconds after its removal an endpoint is dropped.
abbrev pub can_remove : ℕ → Web3RpcEndpoint → Bool
can_remove now e = elim e.web3_rpc_info.removed_date [
  | none ↦ false
  | some removed_date ↦ ltb 300 (now - removed_date)
]

unfoldable pub cleanup_sources_after_grace_period : ℕ → Web3RpcPool → Web3RpcPool
cleanup_sources_after_grace_period now pool = record pool {
  endpoints = select (λ (i, e). not (can_remove now e)) pool.endpoints;
}
