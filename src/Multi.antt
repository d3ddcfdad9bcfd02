-- ===== src/Multi.antt =====
-- crates/erc20_payment_lib/src/multi.rs: transfers packed for the multi-transfer contract, each in
-- 32 bytes, an address of 20 bytes before an amount. A number stands for an `Address`.
pub mod Bytes
pub mod Unpack
use erc20_payment_lib.Prelude.{
  ℕ, ◌+◌, ◌^◌, List, [], ◌∷◌, ◌++◌, ok, err, ◌>>=◌, ◌>>◌, fail_if, ltb, take, drop,
}
use erc20_payment_lib.Error.{Result, custom_error}
use erc20_payment_lib.U256.{add_u256}
use Bytes.{to_big_endian}

abbrev pub max_value : ℕ
max_value = 2 ^ 96

-- The loop over `amounts`; `total` is `sum` so far.
unfoldable pub check_amounts : ℕ → List ℕ → Result ℕ
check_amounts total [] = ok total
check_amounts total (amount ∷ amounts) =
    fail_if (ltb max_value amount) (custom_error "Amount is too big to use packed error")
    >> (add_u256 total amount >>= λ more. check_amounts more amounts)

-- `packet2[..20].copy_from_slice(&receiver[..20])` over the 32 bytes of the amount.
unfoldable pub pack_transfer : ℕ → ℕ → List ℕ
pack_transfer receiver amount = to_big_endian 20 receiver ++ drop 20 (to_big_endian 32 amount)

-- `receivers.iter().zip(amounts.iter()).map(…)`
unfoldable pub pack_all : List ℕ → List ℕ → List (List ℕ)
unfolding pack_transfer
pack_all (r ∷ receivers) (a ∷ amounts) = pack_transfer r a ∷ pack_all receivers amounts
pack_all _ _ = []

unfoldable pub pack_transfers_for_multi_contract : List ℕ → List ℕ → Result (List (List ℕ) × ℕ)
pack_transfers_for_multi_contract receivers amounts =
    check_amounts 0 amounts >>= λ total. ok (pack_all receivers amounts, total)
