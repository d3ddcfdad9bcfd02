-- ===== src/RpcPool/Choose/Best.antt =====
-- The order in which endpoints are tried.
use erc20_payment_lib.Prelude.{ℕ, List, [], ◌∷◌, All}
use erc20_payment_lib.Prelude.Int.{ℤ, ◌≤ℤ◌}
use erc20_payment_lib.RpcPool.Endpoint.{Web3RpcEndpoint}
use erc20_payment_lib.RpcPool.Choose.{get_score}

module _ {A : Type 0} where
  -- Every element is related to each later one.
  abbrev pub Pairwise : (A → A → Type 0) → List A → Type 0
  Pairwise R [] = Unit {0}
  Pairwise R (x ∷ xs) = All (R x) xs × Pairwise R xs

module _ (curve : ℤ → ℤ → ℤ) where
  -- The first scores at least as high.
  abbrev pub NotLower : ℕ × Web3RpcEndpoint → ℕ × Web3RpcEndpoint → Type 0
  NotLower (i, e) (j, f) = get_score curve f ≤ℤ get_score curve e
