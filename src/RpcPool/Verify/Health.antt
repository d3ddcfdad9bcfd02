-- ===== src/RpcPool/Verify/Health.antt =====
-- What a verification decides about an endpoint, and how its penalty fades.
use native.Mathlib.Nat.{div-div-eq-div-mul}
use erc20_payment_lib.Prelude.{
  ℕ, suc, ◌*◌, ◌/◌, ◌^◌, ◌≤◌, ◌≡◌, refl, ap, subst, ◌∙◌, Option, none, some, Bool, true, false, not,
  ◌&&◌, ◌==◌, ltb, if◌then◌else◌, arith, inl, inr, ◌↔◌, List, [], ◌∷◌, Bool-cases, length,
  Option-cases, ok,
}
use erc20_payment_lib.Prelude.Int.{pos, ◌-ℤ◌, ◌/ℤ◌, ◌≤ℤ◌}
use erc20_payment_lib.RpcPool.Endpoint.{
  Web3RpcEndpoint, Web3RpcInfo, VerifyEndpointStatus, VerifyEndpointResult, verified, no_block_info,
  wrong_chain_id, other_network_error, head_behind, unreachable, rpc_web3_error,
}
use erc20_payment_lib.RpcPool.Verify.Plain.{plain_block, plain_int, Fits, int_plain}
use erc20_payment_lib.RpcPool.Verify.{
  VerifyEndpointParams, i64_as_u64, Probe, Answer, answer, failed, is_fresh, apply_verification,
  verify_endpoint,
}

-- The endpoint answered in time, is on the right chain, and has a dated block that is not too old.
abbrev pub IsRecent : Option ℕ → ℕ → ℕ → Type 0
IsRecent none now date = Unit {0}
IsRecent (some limit) now date = pos now -ℤ pos date ≤ℤ pos limit

abbrev pub IsHealthy : ℕ → Web3RpcEndpoint → Probe → Type 0
IsHealthy chain_id e p =
    let params = e.web3_rpc_params.web3_endpoint_params in
    (p.elapsed_ms ≤ params.max_response_time_ms)
    × (p.chain_id ≡ answer chain_id)
    × (date : ℕ) × (p.block ≡ answer (some (some date)))
    × IsRecent params.max_head_behind_secs p.now date

apply-is_allowed :
    (now : ℕ) (r : VerifyEndpointResult) (info : Web3RpcInfo)
    → ((apply_verification now r info).is_allowed ≡ true)
      ↔ ((s : VerifyEndpointStatus) × (r ≡ verified s))
unfolding apply_verification
apply-is_allowed now (verified s) info = ((λ h. (s, refl)), (λ h. refl))
apply-is_allowed now no_block_info info = ((λ h. cc), (λ (s, h). cc))
apply-is_allowed now wrong_chain_id info = ((λ h. cc), (λ (s, h). cc))
apply-is_allowed now (rpc_web3_error m) info = ((λ h. cc), (λ (s, h). cc))
apply-is_allowed now (other_network_error m) info = ((λ h. cc), (λ (s, h). cc))
apply-is_allowed now (head_behind d) info = ((λ h. cc), (λ (s, h). cc))
apply-is_allowed now unreachable info = ((λ h. cc), (λ (s, h). cc))

block_lem :
    (vep : VerifyEndpointParams) (p : Probe) (b : Option (Option ℕ))
    → ((s : VerifyEndpointStatus) × (plain_block vep p b ≡ verified s))
      ↔ ((date : ℕ) × (b ≡ some (some date)) × IsRecent vep.allow_max_head_behind_secs p.now date)
unfolding plain_block
block_lem vep p none = ((λ (s, h). cc), (λ (d, h, r). cc))
block_lem vep p (some none) = ((λ (s, h). cc), (λ (d, h, r). cc))
block_lem vep p (some (some date)) = elim (Option-cases vep.allow_max_head_behind_secs) [
  | inl e ↦ rw e ((λ (s, h). (date, refl, tt)), (λ (d, h, r). (_, refl)))
  | inr (limit, e) ↦ rw e (
    (λ (s, h). (date, refl, ground arith)),
    (λ (d, h, r).
        let same : d ≡ date = cc in
        let near = subst (λ x. pos p.now -ℤ pos x ≤ℤ pos limit) same r in
        (
          record {
            head_seconds_behind = i64_as_u64 (pos p.now -ℤ pos date);
            check_time_ms = p.elapsed_ms;
          },
          ground arith,
        )),
  )
]

answer_lem :
    (vep : VerifyEndpointParams) (p : Probe) (c : Answer ℕ) (b : Answer (Option (Option ℕ)))
    → p.chain_id ≡ c
    → p.block ≡ b
    → p.elapsed_ms ≤ vep.allow_max_response_time_ms
    → ((s : VerifyEndpointStatus) × (plain_int vep p ≡ verified s)) ↔ (
        (c ≡ answer vep.chain_id)
        × (date : ℕ) × (b ≡ answer (some (some date)))
        × IsRecent vep.allow_max_head_behind_secs p.now date)
unfolding plain_int
answer_lem vep p (failed m) b hc hb t =
    let in_time : ltb vep.allow_max_response_time_ms p.elapsed_ms ≡ false = ground arith in
    rw (in_time, hc) ((λ (s, h). cc), (λ (h, d, r, n). cc))
answer_lem vep p (answer id) (failed m) hc hb t =
    let in_time : ltb vep.allow_max_response_time_ms p.elapsed_ms ≡ false = ground arith in
    elim (Bool-cases (vep.chain_id == id)) [
      | inl e ↦ rw (in_time, hc, e, hb) ((λ (s, h). cc), (λ (h, d, r, n). cc))
      | inr e ↦ rw (in_time, hc, e) ((λ (s, h). cc), (λ (h, d, r, n). cc))
    ]
answer_lem vep p (answer id) (answer block) hc hb t =
    let in_time : ltb vep.allow_max_response_time_ms p.elapsed_ms ≡ false = ground arith in
    elim (Bool-cases (vep.chain_id == id)) [
      | inl e ↦
          let same : id ≡ vep.chain_id = ground arith in
          rw (in_time, hc, e, hb)
            (
              (λ (s, h).
                  let (date, there, recent) = (block_lem vep p block).0 (s, h) in
                  (ap answer same, date, ap answer there, recent)),
              (λ (h, date, there, recent).
                  let found : block ≡ some (some date) = cc in
                  (block_lem vep p block).1 (date, found, recent)),
            )
      | inr e ↦
          rw (in_time, hc, e)
            (
              (λ (s, h). cc),
              (λ (h, d, r, n). let same : id ≡ vep.chain_id = cc in absurd (ground (arith, same))),
            )
    ]

late_lem :
    (vep : VerifyEndpointParams) (p : Probe) {s : VerifyEndpointStatus}
    → plain_int vep p ≡ verified s
    → p.elapsed_ms ≤ vep.allow_max_response_time_ms
unfolding plain_int
late_lem vep p h = elim (Bool-cases (ltb vep.allow_max_response_time_ms p.elapsed_ms)) [
  | inl e ↦ let late = rw e at h in cc
  | inr e ↦ ground arith
]

-- Let the endpoint's limit, where it has one, be a duration that chrono has (2^63 milliseconds).
-- A forced verification, or one of an endpoint that was not verified lately, then does not panic,
-- and allows the endpoint exactly if it answered in time, is on the pool's chain, and has a latest
-- block with a date that is not further behind than that limit.
pub verify_endpoint-is_allowed :
    (chain_id : ℕ) (force : Bool) (started : ℕ) (p : Probe) (e : Web3RpcEndpoint)
    → Fits e.web3_rpc_params.web3_endpoint_params.max_head_behind_secs
    → is_fresh force started e ≡ ok false
    → (verified_one : Web3RpcEndpoint) × (verify_endpoint chain_id force started p e
        ≡ ok verified_one)
      × ((verified_one.web3_rpc_info.is_allowed ≡ true) ↔ IsHealthy chain_id e p)
unfolding verify_endpoint
verify_endpoint-is_allowed chain_id force started p e fits h =
    let vep : VerifyEndpointParams = record {
      chain_id = chain_id;
      allow_max_head_behind_secs = e.web3_rpc_params.web3_endpoint_params.max_head_behind_secs;
      allow_max_response_time_ms = e.web3_rpc_params.web3_endpoint_params.max_response_time_ms;
    } in
    let r = plain_int vep p in
    (
      record e { web3_rpc_info = apply_verification p.now r e.web3_rpc_info },
      rw (h, int_plain vep p p.chain_id p.block refl refl fits),
      (
        (λ allowed.
            let (s, is_ok) = (apply-is_allowed p.now r e.web3_rpc_info).0 allowed in
            let t = late_lem vep p is_ok in
            let (same, date, there, recent) =
              (answer_lem vep p p.chain_id p.block refl refl t).0 (s, is_ok) in
            (t, same, date, there, recent)),
        (λ (t, same, date, there, recent).
            (apply-is_allowed p.now r e.web3_rpc_info).1
              ((answer_lem vep p p.chain_id p.block refl refl t).1 (same, date, there, recent))),
      ),
    )

-- The penalty after verifications with these results, each at its time.
abbrev pub reverify : List (ℕ × VerifyEndpointResult) → Web3RpcInfo → Web3RpcInfo
reverify [] info = info
reverify ((now, r) ∷ rs) info = reverify rs (apply_verification now r info)

abbrev pub successes : List (ℕ × VerifyEndpointStatus) → List (ℕ × VerifyEndpointResult)
successes [] = []
successes ((now, s) ∷ ss) = (now, verified s) ∷ successes ss

halve_lem :
    (n : ℕ) (d : Option ℕ)
    → (if (elim d [ none ↦ false | some date ↦ true ]) && not true then pos 100 else pos n /ℤ 2)
      ≡ pos (n / 2)
unfolding ◌/ℤ◌
halve_lem n none = ground arith
halve_lem n (some date) = ground arith

pow_two : (k : ℕ) → 2 * 2 ^ k ≡ 2 ^ suc k
pow_two k = omega arith

fade :
    (ss : List (ℕ × VerifyEndpointStatus)) (info : Web3RpcInfo) (n : ℕ)
    → info.is_allowed ≡ true
    → info.penalty_from_last_critical_error ≡ pos n
    → (reverify (successes ss) info).penalty_from_last_critical_error ≡ pos (n / 2 ^ length ss)
unfolding apply_verification
fade [] info n a h = h ∙ ap pos (omega arith)
fade ((now, s) ∷ ss) info n a h =
    fade ss (apply_verification now (verified s) info) (n / 2) refl
      (rw (a, h) (halve_lem n info.last_verified))
    ∙ ap pos (div-div-eq-div-mul n 2 (2 ^ length ss) ∙ ap (λ d. n / d) (pow_two (length ss)))

-- An endpoint that had failed its last verification starts again with a penalty of 100 when one
-- succeeds, and every further success in a row halves it.
pub recovery_fades :
    (info : Web3RpcInfo) (date now : ℕ) (s : VerifyEndpointStatus)
    (ss : List (ℕ × VerifyEndpointStatus))
    → info.last_verified ≡ some date
    → info.is_allowed ≡ false
    → (reverify (successes ((now, s) ∷ ss)) info).penalty_from_last_critical_error
      ≡ pos (100 / 2 ^ length ss)
unfolding apply_verification
recovery_fades info date now s ss v a =
    fade ss (apply_verification now (verified s) info) 100 refl (rw (v, a) refl)
