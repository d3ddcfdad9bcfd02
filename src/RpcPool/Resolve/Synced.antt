-- ===== src/RpcPool/Resolve/Synced.antt =====
-- The pool against the list of a source.
use erc20_payment_lib.Prelude.{
  ℕ, String, ◌≡◌, refl, ap, sym, subst, ◌∙◌, inl, inr, List, [], ◌∷◌, ◌++◌, Bool, true, false, ◌||◌,
  ◌==◌, Bool-cases, str_eq, str_eq_iff, ok, All, arith, length, >>=-eq-ok,
}
use erc20_payment_lib.Db.{opt_is}
use erc20_payment_lib.RpcPool.Endpoint.{
  Web3RpcPool, Web3RpcEndpoint, Web3RpcSingleParams, is_removed, add_endpoint, insert_endpoint,
  already_exists, new_endpoint,
}
use erc20_payment_lib.RpcPool.Resolve.{
  ExternalSource, contains_url, source_params, is_gone, remove_gone, add_urls, sync_source,
}

-- A present endpoint of the source is on its list.
abbrev pub IsListed : ExternalSource → List String → ℕ × Web3RpcEndpoint → Type 0
IsListed source urls (i, e) =
    is_removed e ≡ false
    → opt_is e.web3_rpc_params.source_id source.unique_source_id ≡ true
    → contains_url e.web3_rpc_params.endpoint urls ≡ true

remove_gone-IsListed :
    (now : ℕ) (source : ExternalSource) (urls : List String) (es : List (ℕ × Web3RpcEndpoint))
    → All (IsListed source urls) (remove_gone now source urls es)
unfolding remove_gone is_gone
remove_gone-IsListed now source urls [] = tt
remove_gone-IsListed now source urls ((i, e) ∷ es) = (
  elim (Bool-cases (is_gone source urls e)) [
    | inl g ↦ rw g (λ r s. cc)
    | inr g ↦ rw g (λ r s. ground arith)
  ],
  remove_gone-IsListed now source urls es,
)

-- Listing keeps what the list names.
exists-remove_gone :
    (now : ℕ) (source : ExternalSource) (urls : List String) (url : String)
    (es : List (ℕ × Web3RpcEndpoint))
    → contains_url url urls ≡ true
    → already_exists url es ≡ true
    → already_exists url (remove_gone now source urls es) ≡ true
unfolding remove_gone is_gone already_exists
exists-remove_gone now source urls url [] c h = h
exists-remove_gone now source urls url ((i, e) ∷ es) c h =
    elim (Bool-cases (is_gone source urls e)) [
      | inl g ↦
          let unlisted : contains_url e.web3_rpc_params.endpoint urls ≡ false = ground arith in
          let elsewhere : str_eq e.web3_rpc_params.endpoint url ≡ false =
            elim (Bool-cases (str_eq e.web3_rpc_params.endpoint url)) [
              | inl same ↦
                  let u = (str_eq_iff e.web3_rpc_params.endpoint url).0 same in
                  let listed : contains_url e.web3_rpc_params.endpoint urls ≡ true =
                    subst (λ x. contains_url x urls ≡ true) (sym u) c in
                  let bad : true ≡ false = sym listed ∙ unlisted in cc
              | inr other ↦ other
            ] in
          let later : already_exists url es ≡ true = ground arith in
          rw g (exists-remove_gone now source urls url es c later)
      | inr g ↦ rw g (ground (arith, exists-remove_gone now source urls url es))
    ]

exists-append :
    (url : String) (es fs : List (ℕ × Web3RpcEndpoint))
    → already_exists url (es ++ fs) ≡ already_exists url es || already_exists url fs
unfolding already_exists
exists-append url [] fs = refl
exists-append url ((i, e) ∷ es) fs = ground (arith, exists-append url es fs)

str_eq_refl : (s : String) → str_eq s s ≡ true
str_eq_refl s = (str_eq_iff s s).1 refl

insert-exists :
    (params : Web3RpcSingleParams) (pool : Web3RpcPool) (url : String)
    → already_exists url (insert_endpoint (new_endpoint params) pool).endpoints
      ≡ already_exists url pool.endpoints || (str_eq params.endpoint url || false)
unfolding insert_endpoint already_exists
insert-exists params pool url =
    exists-append url pool.endpoints ((pool.next_index, new_endpoint params) ∷ [])

-- An endpoint that was added is present, with what was there before.
add_endpoint-exists :
    (is_url : String → Bool) (params : Web3RpcSingleParams) (pool : Web3RpcPool)
    {added : Web3RpcPool}
    → params.chain_id ≡ pool.chain_id
    → add_endpoint is_url params pool ≡ ok added
    → (already_exists params.endpoint added.endpoints ≡ true)
      × (added.chain_id ≡ pool.chain_id)
      × ((url : String)
          → already_exists url pool.endpoints ≡ true
          → already_exists url added.endpoints ≡ true)
unfolding add_endpoint insert_endpoint
add_endpoint-exists is_url params pool {added} c h =
    let here : (params.chain_id == pool.chain_id) ≡ true = ground arith in
    elim (Bool-cases (already_exists params.endpoint pool.endpoints)) [
      | inl old ↦
          let same : pool ≡ added = (let e = rw (here, old) at h in cc) in
          (
            subst (λ p. already_exists params.endpoint p.endpoints ≡ true) same old,
            sym (ap (λ p. p.chain_id) same),
            (λ url there. subst (λ p. already_exists url p.endpoints ≡ true) same there),
          )
      | inr new ↦ elim (Bool-cases (is_url params.endpoint)) [
        | inl valid ↦
            let same : insert_endpoint (new_endpoint params) pool ≡ added =
              (let e = rw (here, new, valid) at h in cc) in
            (
              subst (λ p. already_exists params.endpoint p.endpoints ≡ true) same
                  (insert-exists params pool params.endpoint
                    ∙ rw (str_eq_refl params.endpoint, new) refl),
              sym (ap (λ p. p.chain_id) same),
              (λ url there.
                  subst (λ p. already_exists url p.endpoints ≡ true) same
                    (insert-exists params pool url ∙ rw there refl)),
            )
        | inr bad ↦ let no = rw (here, new, bad) at h in cc
      ]
    ]

add_urls-exists :
    (is_url : String → Bool) (source : ExternalSource) (urls names : List String)
    (pool : Web3RpcPool) {added : Web3RpcPool}
    → length urls ≡ length names
    → add_urls is_url source urls names pool ≡ ok added
    → ((url : String) → contains_url url urls ≡ true → already_exists url added.endpoints ≡ true)
      × ((url : String)
          → already_exists url pool.endpoints ≡ true
          → already_exists url added.endpoints ≡ true)
unfolding add_urls
add_urls-exists is_url source [] [] pool {added} l h =
    let same : pool ≡ added = cc in
    ((λ url c. cc), (λ url there. subst (λ p. already_exists url p.endpoints ≡ true) same there))
add_urls-exists is_url source [] (n ∷ names) pool l h = absurd (omega arith)
add_urls-exists is_url source (u ∷ urls) [] pool l h = absurd (omega arith)
add_urls-exists is_url source (u ∷ urls) (n ∷ names) pool {added} l h =
    let (mid, first, rest) =
      >>=-eq-ok (add_endpoint is_url (source_params source pool.chain_id u n) pool) _ h in
    let (here, chain, kept) =
      add_endpoint-exists is_url (source_params source pool.chain_id u n) pool refl first in
    let (listed, kept') = add_urls-exists is_url source urls names mid (omega arith) rest in
    (
      (λ url c. elim (Bool-cases (str_eq u url)) [
        | inl same ↦
            kept' url
              (subst (λ x. already_exists x mid.endpoints ≡ true) ((str_eq_iff u url).0 same) here)
        | inr other ↦ listed url (ground arith)
      ]),
      (λ url there. kept' url (kept url there)),
    )

-- When the list of a source, with a name for each URL, has been read without a panic, the
-- endpoints in use that come from the source are on the list, and every URL of the list is in
-- use.
pub sync_source_follows :
    (is_url : String → Bool) (now : ℕ) (source : ExternalSource) (urls names : List String)
    (pool : Web3RpcPool) {synced : Web3RpcPool}
    → length urls ≡ length names
    → sync_source is_url now source urls names pool ≡ ok synced
    → All (IsListed source urls) synced.endpoints
      × ((url : String) → contains_url url urls ≡ true → already_exists url synced.endpoints ≡ true)
unfolding sync_source
sync_source_follows is_url now source urls names pool {synced} l h =
    let (added, adds, e) = >>=-eq-ok (add_urls is_url source urls names pool) _ h in
    let same : remove_gone now source urls added.endpoints ≡ synced.endpoints = cc in
    (
      subst (All (IsListed source urls)) same
          (remove_gone-IsListed now source urls added.endpoints),
      (λ url c.
          subst (λ es. already_exists url es ≡ true) same
            (exists-remove_gone now source urls url added.endpoints c
              ((add_urls-exists is_url source urls names pool l adds).0 url c))),
    )
