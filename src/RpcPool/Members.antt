-- ===== src/RpcPool/Members.antt =====
-- The members of the pool: which URLs and indices it holds, whatever is done to it.
use erc20_payment_lib.Prelude.{
  ℕ, suc, ◌≡◌, ◌≢◌, ◌<◌, refl, ap, sym, subst, inl, inr, List, [], ◌∷◌, ◌++◌, map, some, Bool, true,
  false, ◌||◌, ◌==◌, Bool-cases, str_eq, All, arith,
}
use erc20_payment_lib.RpcPool.Endpoint.{
  Web3RpcPool, Web3RpcEndpoint, Web3RpcInfo, Web3RpcSingleParams, get_endpoint, is_removed,
  insert_endpoint, already_exists, new_endpoint,
}
use erc20_payment_lib.RpcPool.Marks.{modify_at}

-- `modify_at` touches no params and no index.
abbrev pub has_index : ℕ → List (ℕ × Web3RpcEndpoint) → Bool
has_index idx [] = false
has_index idx ((i, e) ∷ rest) = i == idx || has_index idx rest

pub has_index-modify_at :
    (f : Web3RpcInfo → Web3RpcInfo) (idx k : ℕ) (es : List (ℕ × Web3RpcEndpoint))
    → has_index k (modify_at f idx es) ≡ has_index k es
unfolding modify_at
has_index-modify_at f idx k [] = refl
has_index-modify_at f idx k ((i, e) ∷ rest) = ground (arith, has_index-modify_at f idx k rest)

pub get_endpoint-has_index :
    (k : ℕ) (es : List (ℕ × Web3RpcEndpoint))
    → has_index k es ≡ true
    → (e : Web3RpcEndpoint) × (get_endpoint es k ≡ some e)
unfolding get_endpoint
get_endpoint-has_index k [] h = cc
get_endpoint-has_index k ((i, e) ∷ rest) h = elim (Bool-cases (i == k)) [
  | inl t ↦ rw t (e, refl)
  | inr t ↦ rw t (get_endpoint-has_index k rest (rw t at h))
]

-- What identifies an endpoint: its index, its params, and whether it has been removed.
abbrev pub key : ℕ × Web3RpcEndpoint → ℕ × Web3RpcSingleParams × Bool
key (i, e) = (i, e.web3_rpc_params, is_removed e)

abbrev pub Keeps : (Web3RpcInfo → Web3RpcInfo) → Type 0
Keeps f = (info : Web3RpcInfo) → (f info).removed_date ≡ info.removed_date

abbrev pub keys : List (ℕ × Web3RpcEndpoint) → List (ℕ × Web3RpcSingleParams × Bool)
keys = map key

pub keys-modify_at :
    (f : Web3RpcInfo → Web3RpcInfo) (idx : ℕ) (es : List (ℕ × Web3RpcEndpoint))
    → Keeps f
    → keys (modify_at f idx es) ≡ keys es
unfolding modify_at
keys-modify_at f idx [] k = refl
keys-modify_at f idx ((i, e) ∷ rest) k = elim (Bool-cases (i == idx)) [
  | inl t ↦ rw t (rw (k e.web3_rpc_info) refl)
  | inr t ↦ rw t (ap (◌∷◌ (key (i, e))) (keys-modify_at f idx rest k))
]

-- Two endpoints have different indices, and different URLs while neither is removed.
abbrev pub Apart : ℕ × Web3RpcSingleParams × Bool → ℕ × Web3RpcSingleParams × Bool → Type 0
Apart (i, p, r) (j, q, s) = (i ≢ j) × (r ≡ false → s ≡ false → str_eq p.endpoint q.endpoint ≡ false)

abbrev pub AllApart : List (ℕ × Web3RpcSingleParams × Bool) → Type 0
AllApart [] = Unit {0}
AllApart (x ∷ xs) = All (λ y. Apart x y) xs × AllApart xs

abbrev pub Member : ℕ → ℕ → ℕ × Web3RpcSingleParams × Bool → Type 0
Member chain_id next (i, p, r) = (p.chain_id ≡ chain_id) × (i < next)

-- A pool in order: the endpoints are of its chain, no two of those present have the same URL, and
-- their indices differ and were given out.
abbrev pub IsOrdered : Web3RpcPool → Type 0
IsOrdered pool =
    All (Member pool.chain_id pool.next_index) (keys pool.endpoints)
    × AllApart (keys pool.endpoints)

map-snoc :
    {A B : Type 0} (f : A → B) (xs : List A) (x : A) → map f (xs ++ x ∷ []) ≡ map f xs ++ f x ∷ []
map-snoc f [] x = refl
map-snoc f (y ∷ ys) x = ap (◌∷◌ (f y)) (map-snoc f ys x)

All-snoc {ℓ} :
    {A : Type 0} (P : A → Type ℓ) (xs : List A) (x : A) → All P xs → P x → All P (xs ++ x ∷ [])
All-snoc P [] x h hx = (hx, tt)
All-snoc P (y ∷ ys) x h hx = (h.0, All-snoc P ys x h.1 hx)

pub All-imp {ℓ κ} :
    {A : Type 0} (P : A → Type ℓ) (Q : A → Type κ) (xs : List A)
    → ((x : A) → P x → Q x)
    → All P xs
    → All Q xs
All-imp P Q [] f h = tt
All-imp P Q (x ∷ xs) f h = (f x h.0, All-imp P Q xs f h.1)

AllApart-snoc :
    (xs : List (ℕ × Web3RpcSingleParams × Bool)) (x : ℕ × Web3RpcSingleParams × Bool)
    → AllApart xs
    → All (λ y. Apart y x) xs
    → AllApart (xs ++ x ∷ [])
AllApart-snoc [] x h a = (tt, tt)
AllApart-snoc (y ∷ ys) x h a = (All-snoc (Apart y) ys x h.0 a.0, AllApart-snoc ys x h.1 a.1)

fresh-Apart :
    (es : List (ℕ × Web3RpcEndpoint)) (chain_id next : ℕ) (params : Web3RpcSingleParams)
    → already_exists params.endpoint es ≡ false
    → All (Member chain_id next) (keys es)
    → All (λ y. Apart y (next, params, false)) (keys es)
unfolding already_exists
fresh-Apart [] chain_id next params h m = tt
fresh-Apart ((i, e) ∷ es) chain_id next params h m =
    let later : already_exists params.endpoint es ≡ false = ground arith in
    (
      ((λ same. omega (arith, same, m.0.1)), (λ r s. ground (arith, r))),
      fresh-Apart es chain_id next params later m.1,
    )

pub insert-IsOrdered :
    (params : Web3RpcSingleParams) (pool : Web3RpcPool)
    → params.chain_id ≡ pool.chain_id
    → already_exists params.endpoint pool.endpoints ≡ false
    → IsOrdered pool
    → IsOrdered (insert_endpoint (new_endpoint params) pool)
unfolding insert_endpoint
insert-IsOrdered params pool c fresh (members, apart) =
    let x : ℕ × Web3RpcEndpoint = (pool.next_index, new_endpoint params) in
    subst (λ ks. All (Member pool.chain_id (suc pool.next_index)) ks × AllApart ks)
      (sym (map-snoc key pool.endpoints x))
      (
        All-snoc _ (keys pool.endpoints) (key x)
            (All-imp _ _ (keys pool.endpoints) (λ k (same, below). (same, omega arith)) members)
            (c, omega arith),
        AllApart-snoc (keys pool.endpoints) (key x) apart
            (fresh-Apart pool.endpoints pool.chain_id pool.next_index params fresh members),
      )
