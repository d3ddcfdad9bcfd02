-- ===== src/Runtime/Verify.antt =====
-- `verify_transaction` of crates/erc20_payment_lib/src/runtime.rs: has a payment been made?
use erc20_payment_lib.Prelude.{
  ℕ, String, List, [], ◌∷◌, Bool, true, false, ◌==◌, leb, if◌then◌else◌, ok, ◌>>=◌,
}
use erc20_payment_lib.Text.{Codec}
use erc20_payment_lib.Error.{Result}
use erc20_payment_lib.Node.{Web3, Hex}
use erc20_payment_lib.Transaction.Request.{parse_address, parse_dec}
use erc20_payment_lib.Transaction.Extended.{
  ChainTxDbObj, ChainTransferDbObj, FindReceiptParseResult, success, failure, find_receipt_extended,
}

pub data VerifyTransactionResult : Type 0 where
  verified : ℕ → VerifyTransactionResult
  rejected : String → VerifyTransactionResult

module _ (c : Codec) (sender receiver amount : ℕ) where
  -- The address of the row is not read where the transfer's own is the sender.
  abbrev pub is_from : String → String → Result Bool
  is_from from_addr tx_from = parse_address c from_addr >>= λ from.
      if from == sender
      then ok true
      else (parse_address c tx_from >>= λ caller. ok (caller == sender))

  -- Is it our transfer?
  unfoldable pub is_ours : ChainTxDbObj → ChainTransferDbObj → Result Bool
  is_ours row t = parse_address c t.receiver_addr >>= λ to.
      if to == receiver then is_from t.from_addr row.from_addr else ok false

  unfoldable pub judge : ChainTransferDbObj → Result VerifyTransactionResult
  judge t = parse_dec c t.token_amount >>= λ tx_amount.
      if leb amount tx_amount
      then ok (verified tx_amount)
      else ok (rejected "Transaction found but amount insufficient")

  -- The first of the transfers that is ours decides.
  unfoldable pub search_ours :
      ChainTxDbObj → List ChainTransferDbObj → Result VerifyTransactionResult
  unfolding is_ours judge
  search_ours row [] = ok (rejected "Transaction found but not matching")
  search_ours row (t ∷ ts) =
      let rest = search_ours row ts in is_ours row t >>= λ ours. if ours then judge t else rest

  abbrev pub verify_found : FindReceiptParseResult → Result VerifyTransactionResult
  verify_found (failure reason) = ok (rejected "Transaction cannot be parsed")
  verify_found (success row transfers) =
      if row.chain_status == 1
      then search_ours row transfers
      else ok (rejected "Transaction not found")

  unfoldable pub verify_transaction : Hex → Web3 → ℕ → ℕ → ℕ → ℕ → Result VerifyTransactionResult
  unfolding find_receipt_extended search_ours
  verify_transaction hex web3 now chain_id tx_hash glm_address =
      find_receipt_extended c hex web3 now tx_hash chain_id glm_address >>= verify_found
