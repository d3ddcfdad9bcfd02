-- ===== src/RpcPool/Choose.antt =====
-- The choice of endpoints: `extra_score_from_last_chosen` and `choose_best_endpoints` of pool.rs.
-- The score is computed in floating point: `curve` stands for the whole number that
-- `((-negative_score / 200.0).exp() * 75.0 + bonus) * 1000.0` is cut to.
pub mod Best
use erc20_payment_lib.Prelude.{
  ℕ, zero, suc, ◌+◌, List, [], ◌∷◌, ◌++◌, map, take, Option, none, some, Bool, true, false, not,
  ◌==◌, if◌then◌else◌,
}
use erc20_payment_lib.Prelude.Int.{ℤ, pos, ◌+ℤ◌, ltb_ℤ}
use erc20_payment_lib.Db.{select, order_by, opt_is}
use erc20_payment_lib.RpcPool.Endpoint.{
  Web3RpcPool, Web3RpcEndpoint, Web3RpcInfo, is_removed, is_allowed_now,
}

abbrev pub reverse {ℓ} : {A : Type ℓ} → List A → List A
reverse [] = []
reverse (x ∷ xs) = reverse xs ++ x ∷ []

-- The tests of the second, third and fourth last successes, each with its bonus: the first that
-- differs ends them.
unfoldable pub run_bonus : ℕ → List ℕ → List ℕ → ℕ
run_bonus chosen [] bonuses = 0
run_bonus chosen (last ∷ older) [] = 0
run_bonus chosen (last ∷ older) (bonus ∷ bonuses) =
    if chosen == last then bonus + run_bonus chosen older bonuses else 0

unfoldable pub score_of : List ℕ → Option ℕ × ℕ
unfolding run_bonus
score_of [] = (none, 0)
score_of (newest ∷ older) = (some newest, 10 + run_bonus newest older (7 ∷ 5 ∷ 3 ∷ []))

-- `last_success_endpoints` is cut to four, with the newest at the front.
unfoldable pub extra_score_from_last_chosen : List ℕ → Option ℕ × ℕ × List ℕ
unfolding score_of
extra_score_from_last_chosen last_success =
    let (chosen, score) = score_of (take 4 last_success) in (chosen, score, take 4 last_success)

abbrev pub negative_score : Web3RpcInfo → ℤ
negative_score info =
    info.penalty_from_last_critical_error +ℤ info.penalty_from_ms +ℤ info.penalty_from_head_behind
    +ℤ info.penalty_from_errors

-- `bonus_from_last_chosen` is set on every endpoint.
unfoldable pub set_bonuses : Option ℕ → ℕ → List (ℕ × Web3RpcEndpoint) → List (ℕ × Web3RpcEndpoint)
set_bonuses chosen bonus = map (λ (i, e). (
  i,
  record e {
    web3_rpc_info = record e.web3_rpc_info {
      bonus_from_last_chosen = if opt_is chosen i then pos bonus else pos 0;
    };
  },
))

module _ (curve : ℤ → ℤ → ℤ) where
  -- `(get_score() * 1000.0) as i64`.
  unfoldable pub get_score : Web3RpcEndpoint → ℤ
  get_score e =
      if is_removed e
      then pos 0
      else if not e.web3_rpc_info.is_allowed
      then pos 0
      else curve (negative_score e.web3_rpc_info) e.web3_rpc_info.bonus_from_last_chosen

  abbrev pub lower_score : ℕ × Web3RpcEndpoint → ℕ × Web3RpcEndpoint → Bool
  lower_score (i, e) (j, f) = ltb_ℤ (get_score e) (get_score f)

  -- `filter`, `sort_by_key` (which keeps the order of equals) and `reverse`.
  unfoldable pub allowed_endpoints : List (ℕ × Web3RpcEndpoint) → List (ℕ × Web3RpcEndpoint)
  allowed_endpoints es = reverse (order_by lower_score (select (λ (i, e). is_allowed_now e) es))

  -- `max_by_key`, the last of the greatest.
  unfoldable pub greatest : ℕ × Web3RpcEndpoint → List (ℕ × Web3RpcEndpoint) → ℕ × Web3RpcEndpoint
  greatest best [] = best
  greatest best (x ∷ xs) = if lower_score x best then greatest best xs else greatest x xs

  -- The loop without an allowed endpoint: what each round sees, the end of the verification first.
  unfoldable pub wait_for_endpoint : List (Bool × List (ℕ × Web3RpcEndpoint)) → List ℕ
  unfolding greatest
  wait_for_endpoint [] = []
  wait_for_endpoint ((is_finished, es) ∷ rounds) =
      let later = wait_for_endpoint rounds in
      elim (select (λ (i, e). is_allowed_now e) es) [
        | x ∷ xs ↦ (greatest x xs).0 ∷ []
        | [] ↦ if is_finished then [] else later
      ]

  -- `choose_best_endpoints`: the indices to try, the pool, and what the rounds of waiting see.
  unfoldable pub choose_best_endpoints :
      List (Bool × List (ℕ × Web3RpcEndpoint)) → Web3RpcPool → Web3RpcPool × List ℕ
  unfolding set_bonuses extra_score_from_last_chosen allowed_endpoints wait_for_endpoint
  choose_best_endpoints rounds pool =
      let (chosen, bonus, kept) = extra_score_from_last_chosen pool.last_success_endpoints in
      let es = set_bonuses chosen bonus pool.endpoints in
      let pool' = record pool { endpoints = es; last_success_endpoints = kept } in
      elim (allowed_endpoints es) [
        | [] ↦ (pool', wait_for_endpoint rounds)
        | x ∷ xs ↦ (pool', map (λ (i, e). i) (x ∷ xs))
      ]
