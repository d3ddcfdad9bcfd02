-- ===== src/Tests/Codec.antt =====
-- A concrete `Codec` for the witnesses: a number is written as that many characters.
use Prim.Native.String.{String, count}
use Prim.Native.String.{[] as empty, ◌∷◌ as cons}
use erc20_payment_lib.Prelude.{ℕ, zero, suc, ◌≡◌, ap, ◌∙◌, some}
use text.Mathlib.TextLemmas.{length-nil, length-cons}
use erc20_payment_lib.Text.{Codec, IsCodec}
use erc20_payment_lib.Contracts.{Abi}
use erc20_payment_lib.Transaction.{Env}

abbrev pub unary : ℕ → String
unary zero = empty
unary (suc n) = cons "i" (unary n)

count-unary : (n : ℕ) → count (unary n) ≡ n
count-unary zero = length-nil
count-unary (suc n) = length-cons "i" (unary n) ∙ ap suc (count-unary n)

abbrev pub test_codec : Codec
test_codec = record {
  from_dec_str = λ s. some (count s);
  to_dec = unary;
  u256_from_str = λ s. some (count s);
  address_from_str = λ s. some (count s);
  address_to_hex = unary;
}

pub test_codec-IsCodec : IsCodec test_codec
test_codec-IsCodec = record { dec_roundtrip = λ n h. ap some (count-unary n) }

abbrev test_abi : Abi
test_abi template name tokens = some name

abbrev pub test_env : Env
test_env = record { codec = test_codec; abi = test_abi; now = 7 }
