-- ===== src/Sender/Loop/Gather.antt =====
-- When payments are gathered next: sender/service.rs. A `chrono::Duration` of more than
-- i64::MAX milliseconds does not exist, and `expect` panics.
use erc20_payment_lib.Prelude.{
  ℕ, ◌+◌, ◌-◌, ◌^◌, ◌*◌, Option, none, some, ltb, leb, min, if◌then◌else◌, ok, panic, ◌>>=◌,
}
use erc20_payment_lib.Error.{Result}

unfoldable pub try_seconds : ℕ → Result ℕ
try_seconds seconds = if ltb (2 ^ 63 - 1) (seconds * 1_000) then panic else ok seconds

abbrev sooner : Option ℕ → ℕ → ℕ
sooner none time = time
sooner (some external) time = min external time

unfoldable pub get_next_gather_time : Option ℕ → ℕ → ℕ → Result ℕ
unfolding try_seconds
get_next_gather_time external_gather_time last_gather_time interval =
    try_seconds interval >>= λ duration.
    ok (sooner external_gather_time (last_gather_time + duration))

-- The external time that is left, and the time to wait for; nothing where it is time now.
unfoldable pub get_next_gather_time_and_clear_if_success :
    Option ℕ → ℕ → ℕ → ℕ → Result (Option ℕ × Option ℕ)
unfolding try_seconds
get_next_gather_time_and_clear_if_success external_gather_time last_gather_time interval now =
    try_seconds interval >>= λ duration.
    let next_gather_time = sooner external_gather_time (last_gather_time + duration) in
    if leb next_gather_time now
    then ok (none, none)
    else ok (external_gather_time, some next_gather_time)
