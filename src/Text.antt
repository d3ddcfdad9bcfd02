-- ===== src/Text.antt =====
-- How `U256` and `Address` are written in the database and read back. The conversions belong to
-- the `ethereum_types` crate, so they are a parameter: `Codec` holds the operations that the
-- source calls, `IsCodec` what it relies on.
use erc20_payment_lib.Prelude.{ℕ, ◌^◌, ◌<◌, ◌-◌, ◌≡◌, Option, some, String}

-- 2^256, the first number that a `U256` cannot hold.
abbrev pub u256_mod : ℕ
u256_mod = 2 ^ 256

-- `U256::max_value()`.
abbrev pub u256_max : ℕ
u256_max = 2 ^ 256 - 1

pub record Codec : Type 0 where
  -- `U256::from_dec_str` and `to_string`.
  pub from_dec_str : String → Option ℕ
  pub to_dec : ℕ → String
  -- `U256::from_str`, which reads hexadecimal.
  pub u256_from_str : String → Option ℕ
  -- `Address::from_str` and `{:#x}`.
  pub address_from_str : String → Option ℕ
  pub address_to_hex : ℕ → String

pub record IsCodec (c : Codec) : Type 0 where
  pub dec_roundtrip : (n : ℕ) → n < u256_mod → c.from_dec_str (c.to_dec n) ≡ some n
