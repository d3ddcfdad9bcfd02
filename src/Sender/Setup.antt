-- ===== src/Sender/Setup.antt =====
-- The settings that the sender reads: `ChainSetup` and `PaymentSetup` of
-- crates/erc20_payment_lib/src/setup.rs.
use erc20_payment_lib.Prelude.{ℕ, Option, Bool}

-- `replacement_timeout` in whole seconds, which is what the code reads of it.
pub record ChainSetup : Type 0 where
  pub chain_id : ℕ
  pub max_fee_per_gas : ℕ
  pub priority_fee : ℕ
  pub glm_address : ℕ
  pub multi_contract_address : Option ℕ
  pub lock_contract_address : Option ℕ
  pub multi_contract_max_at_once : ℕ
  pub transaction_timeout : ℕ
  pub confirmation_blocks : ℕ
  pub replacement_timeout : Option ℕ

-- `chain_setup` is the map of the chains that are configured.
pub record PaymentSetup : Type 0 where
  pub chain_setup : ℕ → Option ChainSetup
  pub finish_when_done : Bool
  pub generate_tx_only : Bool
  pub skip_multi_contract_check : Bool
  pub process_interval : ℕ
  pub process_interval_after_error : ℕ
  pub process_interval_after_no_gas_or_token_start : ℕ
  pub process_interval_after_no_gas_or_token_max : ℕ
  pub gather_interval : ℕ
  pub gather_at_start : Bool
  pub mark_as_unrecoverable_after_seconds : ℕ
  pub automatic_recover : Bool
  pub contract_use_direct_method : Bool
  pub contract_use_unpacked_method : Bool
  pub use_transfer_for_single_payment : Bool
