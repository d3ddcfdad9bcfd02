-- ===== src/RpcPool/Resolve.antt =====
-- External lists of endpoints: pool/resolver.rs. What a source answers, and whether it answers, is
-- a parameter; for a DNS source the names are the URLs.
pub mod Synced
use erc20_payment_lib.Prelude.{
  ℕ, suc, zero, String, List, [], ◌∷◌, Option, none, some, Bool, true, false, not, ◌&&◌, ◌||◌, ◌==◌,
  if◌then◌else◌, str_eq, ok, ◌>>=◌, Outcome,
}
use erc20_payment_lib.Error.{Result}
use erc20_payment_lib.Db.{opt_is}
use erc20_payment_lib.RpcPool.Endpoint.{
  Web3RpcPool, Web3RpcEndpoint, Web3EndpointParams, Web3RpcSingleParams, is_removed, add_endpoint,
  cleanup_sources_after_grace_period,
}

pub record ExternalSource : Type 0 where
  pub unique_source_id : ℕ
  pub endpoint_params : Web3EndpointParams

abbrev pub contains_url : String → List String → Bool
contains_url url [] = false
contains_url url (u ∷ urls) = str_eq u url || contains_url url urls

abbrev pub source_params : ExternalSource → ℕ → String → String → Web3RpcSingleParams
source_params source chain_id url name = record {
  chain_id = chain_id;
  name = name;
  endpoint = url;
  web3_endpoint_params = source.endpoint_params;
  source_id = some source.unique_source_id;
}

-- An endpoint of the source that the source does not list any more.
unfoldable pub is_gone : ExternalSource → List String → Web3RpcEndpoint → Bool
is_gone source urls e =
    not (is_removed e)
    && opt_is e.web3_rpc_params.source_id source.unique_source_id
    && not (contains_url e.web3_rpc_params.endpoint urls)

unfoldable pub remove_gone :
    ℕ → ExternalSource → List String → List (ℕ × Web3RpcEndpoint) → List (ℕ × Web3RpcEndpoint)
unfolding is_gone
remove_gone now source urls [] = []
remove_gone now source urls ((i, e) ∷ rest) =
    (
      i,
      if is_gone source urls e
          then record e { web3_rpc_info = record e.web3_rpc_info { removed_date = some now } }
          else e,
    )
    ∷ remove_gone now source urls rest

module _ (is_url : String → Bool) where
  -- `for (url, name) in urls.iter().zip(names)`
  unfoldable pub add_urls :
      ExternalSource → List String → List String → Web3RpcPool → Result Web3RpcPool
  add_urls source (url ∷ urls) (name ∷ names) pool =
      add_endpoint is_url (source_params source pool.chain_id url name) pool >>= λ added.
      add_urls source urls names added
  add_urls source _ _ pool = ok pool

  unfoldable pub sync_source :
      ℕ → ExternalSource → List String → List String → Web3RpcPool → Result Web3RpcPool
  unfolding add_urls remove_gone
  sync_source now source urls names pool = add_urls source urls names pool >>= λ added.
      ok (record added { endpoints = remove_gone now source urls added.endpoints })

  unfoldable pub sync_all :
      ℕ
      → List (ExternalSource × Option (List String × List String))
      → Web3RpcPool
      → Result Web3RpcPool
  unfolding sync_source
  sync_all now [] pool = ok pool
  sync_all now ((source, none) ∷ rest) pool = sync_all now rest pool
  sync_all now ((source, some (urls, names)) ∷ rest) pool =
      sync_source now source urls names pool >>= λ synced. sync_all now rest synced

  -- `resolve_external_addresses_int`: the DNS sources and then the JSON sources.
  unfoldable pub resolve_external_addresses :
      ℕ
      → List (ExternalSource × Option (List String × List String))
      → Web3RpcPool
      → Result Web3RpcPool
  unfolding sync_all
  resolve_external_addresses now sources pool =
      sync_all now sources (cleanup_sources_after_grace_period now pool)
