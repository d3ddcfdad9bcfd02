-- ===== src/Runtime/Unpaid.antt =====
-- `get_token_balance` and `get_unpaid_token_amount` of crates/erc20_payment_lib/src/runtime.rs.
use erc20_payment_lib.Prelude.{ℕ, List, [], ◌∷◌, none, some, ◌==◌, if◌then◌else◌, ok, ok_or, ◌>>=◌}
use erc20_payment_lib.Text.{Codec}
use erc20_payment_lib.Error.{Result, custom, custom_error, from_hex_error}
use erc20_payment_lib.U256.{add_u256}
use erc20_payment_lib.Convert.{to_u256}
use erc20_payment_lib.Node.{Web3}
use erc20_payment_lib.Db.{Db, TokenTransferDbObj, get_unpaid_token_transfers}

unfoldable pub get_token_balance : Web3 → ℕ → ℕ → Result ℕ
get_token_balance web3 token address = web3.token_balance token address >>= λ balance.
    ok_or balance (custom_error "get_balance didn't yield token_balance")

-- The loop over the transfers, from the sum so far. A transfer of the gas currency is left out.
unfoldable pub add_unpaid : Codec → ℕ → ℕ → List TokenTransferDbObj → Result ℕ
add_unpaid c token sum [] = ok sum
add_unpaid c token sum (t ∷ ts) = elim t.token_addr [
  | none ↦ add_unpaid c token sum ts
  | some text ↦ ok_or (c.address_from_str text) from_hex_error >>= λ addr.
      if addr == token
      then (to_u256 c t.token_amount >>= λ amount.
          add_u256 sum amount >>= λ more. add_unpaid c token more ts)
      else custom "Token address mismatch table token_transfer"
]

unfoldable pub get_unpaid_token_amount : Codec → Db → ℕ → ℕ → ℕ → Result ℕ
unfolding add_unpaid
get_unpaid_token_amount c db chain_id token sender =
    add_unpaid c token 0 (get_unpaid_token_transfers db chain_id (c.address_to_hex sender))
