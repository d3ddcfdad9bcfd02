-- ===== src/Error.antt =====
-- `PaymentError`: crates/erc20_payment_lib_common/src/error/bag.rs, custom.rs and allowance.rs.
-- An error message keeps its fixed text and drops the values that `format!` puts in.
use erc20_payment_lib.Prelude.{ℕ, String, Outcome, err}

pub record AllowanceRequest : Type 0 where
  pub owner : String
  pub token_addr : String
  pub spender_addr : String
  pub chain_id : ℕ
  pub amount : ℕ

pub data PaymentError : Type 0 where
  parse_error : PaymentError
  io_error : PaymentError
  custom_error : String → PaymentError
  transaction_failed_error : String → PaymentError
  sqlx_error : PaymentError
  sqlx_migrate_error : PaymentError
  eth_abi_error : PaymentError
  web3_error : PaymentError
  conversion_error : PaymentError
  from_hex_error : PaymentError
  from_dec_str_err : PaymentError
  time_limit_reached : ℕ → PaymentError
  no_allowance_found : AllowanceRequest → PaymentError

abbrev pub Result {ℓ} : Type ℓ → Type ℓ
Result A = Outcome PaymentError A

-- `err_custom_create!`.
abbrev pub custom {ℓ} : {A : Type ℓ} → String → Result A
custom message = err (custom_error message)
