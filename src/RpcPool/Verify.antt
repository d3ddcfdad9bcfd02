-- ===== src/RpcPool/Verify.antt =====
-- Verification of an endpoint: verify/verify_impl.rs. What the endpoint answers, and how long it
-- takes, are parameters.
pub mod Plain
pub mod Health
use erc20_payment_lib.Prelude.{
  ℕ, zero, suc, ◌+◌, ◌-◌, ◌*◌, ◌/◌, ◌%◌, ◌^◌, ◌≤◌, ◌<◌, String, ◌≡◌, refl, ap, ◌∙◌, Option, none,
  some, Bool, true, false, not, ◌&&◌, ◌||◌, ◌==◌, ltb, leb, if◌then◌else◌, arith, inl, inr, ok,
  panic, ◌>>=◌,
}
use erc20_payment_lib.Prelude.Int.{ℤ, pos, negsuc, ◌+ℤ◌, ◌-ℤ◌, ◌/ℤ◌, ltb_ℤ, pos_part, sub_ℕ}
use erc20_payment_lib.Error.{Result}
use erc20_payment_lib.RpcPool.Endpoint.{
  Web3RpcEndpoint, Web3RpcInfo, VerifyEndpointStatus, VerifyEndpointResult, verified, no_block_info,
  wrong_chain_id, other_network_error, head_behind, unreachable, is_allowed_now,
}

pub record VerifyEndpointParams : Type 0 where
  pub chain_id : ℕ
  pub allow_max_head_behind_secs : Option ℕ
  pub allow_max_response_time_ms : ℕ

-- `x as u64` and `x as i64`.
abbrev pub i64_as_u64 : ℤ → ℕ
i64_as_u64 (pos n) = n % 2 ^ 64
i64_as_u64 (negsuc n) = (2 ^ 64 - 1) - n % 2 ^ 64

abbrev pub u64_as_i64 : ℕ → ℤ
u64_as_i64 n = if ltb n (2 ^ 63) then pos n else negsuc ((2 ^ 64 - 1) - n)

-- What a request comes to.
pub data Answer (A : Type 0) : Type 0 where
  answer : A → Answer A
  failed : String → Answer A

-- What the endpoint does during one verification: its chain id, its latest block with the date of
-- it (`none` for no block, and a date that does not fit), the clock at the end, and the time taken.
pub record Probe : Type 0 where
  pub chain_id : Answer ℕ
  pub block : Answer (Option (Option ℕ))
  pub now : ℕ
  pub elapsed_ms : ℕ

-- `Duration::try_seconds(n).expect(…)`: no duration has more than i64::MAX milliseconds.
abbrev pub max_seconds : ℕ
max_seconds = 9_223_372_036_854_775

unfoldable pub expect_seconds : ℤ → Result ℤ
expect_seconds (pos n) = if ltb max_seconds n then panic else ok (pos n)
expect_seconds (negsuc n) = if ltb max_seconds (suc n) then panic else ok (negsuc n)

unfoldable pub verify_block :
    VerifyEndpointParams → Probe → Option (Option ℕ) → Result VerifyEndpointResult
unfolding expect_seconds
verify_block vep p none = ok no_block_info
verify_block vep p (some none) = ok no_block_info
verify_block vep p (some (some date)) =
    let behind = pos p.now -ℤ pos date in
    let status =
      verified (record { head_seconds_behind = i64_as_u64 behind; check_time_ms = p.elapsed_ms }) in
    elim vep.allow_max_head_behind_secs [
      | none ↦ ok status
      | some limit ↦ expect_seconds (u64_as_i64 limit) >>= λ longest.
          ok (if ltb_ℤ longest behind then head_behind date else status)
    ]

-- `verify_endpoint_int`: the timer wins over an answer that takes longer.
unfoldable pub verify_endpoint_int : VerifyEndpointParams → Probe → Result VerifyEndpointResult
unfolding verify_block
verify_endpoint_int vep p =
    if ltb vep.allow_max_response_time_ms p.elapsed_ms then ok unreachable else elim p.chain_id [
      | failed e ↦ ok (other_network_error e)
      | answer id ↦ if not (vep.chain_id == id) then ok wrong_chain_id else elim p.block [
        | failed e ↦ ok (other_network_error e)
        | answer block ↦ verify_block vep p block
      ]
    ]

-- The skip at the start of `verify_endpoint`.
unfoldable pub is_fresh : Bool → ℕ → Web3RpcEndpoint → Result Bool
unfolding expect_seconds
is_fresh force now e = elim e.web3_rpc_info.last_verified [
  | none ↦ ok false
  | some last_verified ↦
      if force
      then ok false
      else (expect_seconds (u64_as_i64 e.web3_rpc_params.web3_endpoint_params.verify_interval_secs)
          >>= λ interval. ok (ltb_ℤ (pos now -ℤ pos last_verified) interval))
]

-- The new info, from the result of the verification.
unfoldable pub apply_verification : ℕ → VerifyEndpointResult → Web3RpcInfo → Web3RpcInfo
apply_verification now result info =
    let was_already_verified_and_not_allowed =
      (elim info.last_verified [ none ↦ false | some date ↦ true ]) && not info.is_allowed in
    let base = record info {
      penalty_from_last_critical_error =
          if was_already_verified_and_not_allowed
          then pos 100
          else info.penalty_from_last_critical_error /ℤ 2;
      last_verified = some now;
      verify_result = some result;
      penalty_from_errors = pos 0;
      penalty_from_ms = pos 0;
      penalty_from_head_behind = pos 0;
      is_allowed = false;
    } in
    elim result [
      | verified status ↦ record base {
        penalty_from_ms = u64_as_i64 status.check_time_ms /ℤ 10;
        penalty_from_head_behind = u64_as_i64 status.head_seconds_behind;
        is_allowed = true;
      }
      | _ ↦ base
    ]

-- `started` is the time at the start.
unfoldable pub verify_endpoint : ℕ → Bool → ℕ → Probe → Web3RpcEndpoint → Result Web3RpcEndpoint
unfolding is_fresh verify_endpoint_int apply_verification
verify_endpoint chain_id force started p e = is_fresh force started e >>= λ fresh.
    if fresh
    then ok e
    else (verify_endpoint_int
          (record {
            chain_id = chain_id;
            allow_max_head_behind_secs =
                e.web3_rpc_params.web3_endpoint_params.max_head_behind_secs;
            allow_max_response_time_ms =
                e.web3_rpc_params.web3_endpoint_params.max_response_time_ms;
          })
          p
        >>= λ result.
            ok (record e { web3_rpc_info = apply_verification p.now result e.web3_rpc_info }))
