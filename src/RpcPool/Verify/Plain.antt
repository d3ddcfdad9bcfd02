-- ===== src/RpcPool/Verify/Plain.antt =====
-- What a verification comes to where no duration overflows.
use erc20_payment_lib.Prelude.{
  ℕ, ◌≤◌, ◌^◌, ◌≡◌, refl, subst, Option, none, some, true, false, not, ◌==◌, ltb, if◌then◌else◌,
  arith, inl, inr, ok, Bool-cases, Option-cases,
}
use erc20_payment_lib.Prelude.Int.{pos, ◌-ℤ◌, ltb_ℤ}
use erc20_payment_lib.RpcPool.Endpoint.{
  VerifyEndpointResult, verified, no_block_info, wrong_chain_id, other_network_error, head_behind,
  unreachable,
}
use erc20_payment_lib.RpcPool.Verify.{
  VerifyEndpointParams, i64_as_u64, u64_as_i64, Probe, Answer, answer, failed, verify_block,
  verify_endpoint_int, max_seconds, expect_seconds,
}

-- Where the durations are such as chrono has, nothing panics, and this is what comes out.
unfoldable pub plain_block : VerifyEndpointParams → Probe → Option (Option ℕ) → VerifyEndpointResult
plain_block vep p none = no_block_info
plain_block vep p (some none) = no_block_info
plain_block vep p (some (some date)) =
    let behind = pos p.now -ℤ pos date in
    let status =
      verified (record { head_seconds_behind = i64_as_u64 behind; check_time_ms = p.elapsed_ms }) in
    elim vep.allow_max_head_behind_secs [
      | none ↦ status
      | some limit ↦ if ltb_ℤ (pos limit) behind then head_behind date else status
    ]

unfoldable pub plain_int : VerifyEndpointParams → Probe → VerifyEndpointResult
unfolding plain_block
plain_int vep p =
    if ltb vep.allow_max_response_time_ms p.elapsed_ms then unreachable else elim p.chain_id [
      | failed e ↦ other_network_error e
      | answer id ↦ if not (vep.chain_id == id) then wrong_chain_id else elim p.block [
        | failed e ↦ other_network_error e
        | answer block ↦ plain_block vep p block
      ]
    ]

-- A limit that is a `chrono::Duration`.
abbrev pub Fits : Option ℕ → Type 0
Fits none = Unit {0}
Fits (some limit) = limit ≤ max_seconds

seconds_fit : (n : ℕ) → n ≤ max_seconds → expect_seconds (u64_as_i64 n) ≡ ok (pos n)
unfolding expect_seconds
seconds_fit n h =
    let small : ltb n (2 ^ 63) ≡ true = ground arith in
    let short : ltb max_seconds n ≡ false = ground arith in rw (small, short)

block_plain :
    (vep : VerifyEndpointParams) (p : Probe) (b : Option (Option ℕ))
    → Fits vep.allow_max_head_behind_secs
    → verify_block vep p b ≡ ok (plain_block vep p b)
unfolding verify_block plain_block
block_plain vep p none fits = refl
block_plain vep p (some none) fits = refl
block_plain vep p (some (some date)) fits = elim (Option-cases vep.allow_max_head_behind_secs) [
  | inl e ↦ rw e refl
  | inr (limit, e) ↦
      let short : limit ≤ max_seconds = subst Fits e fits in rw (e, seconds_fit limit short) refl
]

pub int_plain :
    (vep : VerifyEndpointParams) (p : Probe) (c : Answer ℕ) (b : Answer (Option (Option ℕ)))
    → p.chain_id ≡ c
    → p.block ≡ b
    → Fits vep.allow_max_head_behind_secs
    → verify_endpoint_int vep p ≡ ok (plain_int vep p)
unfolding verify_endpoint_int plain_int
int_plain vep p c b hc hb fits =
    elim (Bool-cases (ltb vep.allow_max_response_time_ms p.elapsed_ms)) [
      | inl late ↦ rw late refl
      | inr in_time ↦ by_answers c b hc hb in_time
    ]
  where
    by_answers :
        (c : Answer ℕ) (b : Answer (Option (Option ℕ)))
        → p.chain_id ≡ c
        → p.block ≡ b
        → ltb vep.allow_max_response_time_ms p.elapsed_ms ≡ false
        → verify_endpoint_int vep p ≡ ok (plain_int vep p)
    by_answers (failed m) b hc hb in_time = rw (in_time, hc) refl
    by_answers (answer id) (failed m) hc hb in_time = elim (Bool-cases (vep.chain_id == id)) [
      | inl e ↦ rw (in_time, hc, e, hb) refl
      | inr e ↦ rw (in_time, hc, e) refl
    ]
    by_answers (answer id) (answer block) hc hb in_time = elim (Bool-cases (vep.chain_id == id)) [
      | inl e ↦ rw (in_time, hc, e, hb) (block_plain vep p block fits)
      | inr e ↦ rw (in_time, hc, e) refl
    ]
