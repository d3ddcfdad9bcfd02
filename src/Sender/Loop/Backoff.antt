-- ===== src/Sender/Loop/Backoff.antt =====
-- How long the sender sleeps while there is no gas or no token.
use erc20_payment_lib.Prelude.{ℕ, zero, suc, ◌≤◌, min, arith}
use erc20_payment_lib.Sender.Setup.{PaymentSetup}
use erc20_payment_lib.Sender.Service.{next_wait}

-- The wait after `n` results in a row without gas or token.
abbrev pub wait_after : PaymentSetup → (ℕ → ℕ) → ℕ → ℕ
wait_after setup increase zero = 0
wait_after setup increase (suc n) = next_wait setup increase (wait_after setup increase n)

next_wait-le_max :
    (setup : PaymentSetup) (increase : ℕ → ℕ) (wait : ℕ)
    → next_wait setup increase wait ≤ setup.process_interval_after_no_gas_or_token_max
unfolding next_wait
next_wait-le_max setup increase wait = ground arith

wait_after-le_max :
    (setup : PaymentSetup) (increase : ℕ → ℕ) (n : ℕ)
    → wait_after setup increase n ≤ setup.process_interval_after_no_gas_or_token_max
wait_after-le_max setup increase zero = omega arith
wait_after-le_max setup increase (suc n) =
    next_wait-le_max setup increase (wait_after setup increase n)

next_wait-grows :
    (setup : PaymentSetup) (increase : ℕ → ℕ) (wait : ℕ)
    → wait ≤ increase wait
    → wait ≤ setup.process_interval_after_no_gas_or_token_max
    → wait ≤ next_wait setup increase wait
unfolding next_wait
next_wait-grows setup increase wait grows small = ground arith

next_wait-starts :
    (setup : PaymentSetup) (increase : ℕ → ℕ) (wait : ℕ)
    → wait ≤ increase wait
    → min setup.process_interval_after_no_gas_or_token_start
        setup.process_interval_after_no_gas_or_token_max
      ≤ next_wait setup increase wait
unfolding next_wait
next_wait-starts setup increase wait grows = ground arith

-- Let the growth never shrink a wait. Then every wait of a row of results without gas or token is
-- at least the one before it, at least the first interval of the settings where that is below the
-- greatest, and at most the greatest.
pub wait_after-bounds :
    (setup : PaymentSetup) (increase : ℕ → ℕ) (n : ℕ)
    → ((wait : ℕ) → wait ≤ increase wait)
    → (wait_after setup increase n ≤ wait_after setup increase (suc n))
      × (min setup.process_interval_after_no_gas_or_token_start
            setup.process_interval_after_no_gas_or_token_max
          ≤ wait_after setup increase (suc n))
      × (wait_after setup increase (suc n) ≤ setup.process_interval_after_no_gas_or_token_max)
wait_after-bounds setup increase n grows =
    let wait = wait_after setup increase n in
    (
      next_wait-grows setup increase wait (grows wait) (wait_after-le_max setup increase n),
      next_wait-starts setup increase wait (grows wait),
      wait_after-le_max setup increase (suc n),
    )
