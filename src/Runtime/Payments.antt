-- ===== src/Runtime/Payments.antt =====
-- What a positive answer of `verify_transaction` says of the chain.
use erc20_payment_lib.Prelude.{
  ℕ, ◌≤◌, ◌≡◌, List, [], ◌∷◌, true, ok, leb, ◌==◌, arith, >>=-eq-ok, Bool-cases, inl, inr, ◌⊎◌,
  String,
}
use erc20_payment_lib.Text.{Codec}
use erc20_payment_lib.Node.{Web3, Hex}
use erc20_payment_lib.Transaction.Request.{parse_address, parse_dec}
use erc20_payment_lib.Transaction.Extended.{
  ChainTxDbObj, ChainTransferDbObj, FindReceiptParseResult, success, failure, find_receipt_extended,
}
use erc20_payment_lib.Runtime.Verify.{
  verified, verify_transaction, verify_found, search_ours, is_ours, judge, is_from,
}

-- A transfer of at least the amount, to the receiver, that the sender made or asked for.
abbrev pub Pays : Codec → ℕ → ℕ → ℕ → ChainTxDbObj → ℕ → ChainTransferDbObj → Type 0
Pays c sender receiver amount row n t =
    (parse_address c t.receiver_addr ≡ ok receiver)
    × ((parse_address c t.from_addr ≡ ok sender) ⊎ (parse_address c row.from_addr ≡ ok sender))
    × (parse_dec c t.token_amount ≡ ok n)
    × (amount ≤ n)

abbrev pub Some : (ChainTransferDbObj → Type 0) → List ChainTransferDbObj → Type 0
Some P [] = ⊥
Some P (t ∷ ts) = P t ⊎ Some P ts

module _ (c : Codec) (sender receiver amount : ℕ) where
  judge-eq_verified :
      (t : ChainTransferDbObj) {n : ℕ}
      → judge c sender receiver amount t ≡ ok (verified n)
      → (parse_dec c t.token_amount ≡ ok n) × (amount ≤ n)
  unfolding judge
  judge-eq_verified t {n} h =
      let (tx_amount, parsed, h1) = >>=-eq-ok (parse_dec c t.token_amount) _ h in
      elim (Bool-cases (leb amount tx_amount)) [
        | inl enough ↦
            let same = rw enough at h1 in
            let e : tx_amount ≡ n = cc in (rw (← e) parsed, ground arith)
        | inr low ↦ let bad = rw low at h1 in cc
      ]

  is_from-eq_true :
      (from_addr tx_from : String)
      → is_from c sender receiver amount from_addr tx_from ≡ ok true
      → (parse_address c from_addr ≡ ok sender) ⊎ (parse_address c tx_from ≡ ok sender)
  is_from-eq_true from_addr tx_from h =
      let (from, parsed, h1) = >>=-eq-ok (parse_address c from_addr) _ h in
      elim (Bool-cases (from == sender)) [
        | inl own ↦ let e : from ≡ sender = ground arith in inl (rw (← e) parsed)
        | inr else_one ↦
            let h2 = rw else_one at h1 in
            let (caller, parsed', h3) = >>=-eq-ok (parse_address c tx_from) _ h2 in
            let is_caller : (caller == sender) ≡ true = cc in
            let e : caller ≡ sender = ground arith in inr (rw (← e) parsed')
      ]

  is_ours-eq_true :
      (row : ChainTxDbObj) (t : ChainTransferDbObj)
      → is_ours c sender receiver amount row t ≡ ok true
      → (parse_address c t.receiver_addr ≡ ok receiver)
        × ((parse_address c t.from_addr ≡ ok sender) ⊎ (parse_address c row.from_addr ≡ ok sender))
  unfolding is_ours
  is_ours-eq_true row t h =
      let (to, parsed, h1) = >>=-eq-ok (parse_address c t.receiver_addr) _ h in
      elim (Bool-cases (to == receiver)) [
        | inl here ↦
            let e : to ≡ receiver = ground arith in
            let h2 = rw here at h1 in
            (rw (← e) parsed, is_from-eq_true t.from_addr row.from_addr h2)
        | inr elsewhere ↦ let bad = rw elsewhere at h1 in cc
      ]

  search_ours-Some :
      (row : ChainTxDbObj) (ts : List ChainTransferDbObj) {n : ℕ}
      → search_ours c sender receiver amount row ts ≡ ok (verified n)
      → Some (Pays c sender receiver amount row n) ts
  unfolding search_ours
  search_ours-Some row [] h = cc
  search_ours-Some row (t ∷ ts) h =
      let (ours, found, h1) = >>=-eq-ok (is_ours c sender receiver amount row t) _ h in
      elim (Bool-cases ours) [
        | inl e ↦
            let h2 = rw e at h1 in
            let (to, from) = is_ours-eq_true row t (rw e at found) in
            let (parsed, enough) = judge-eq_verified t h2 in inl (to, from, parsed, enough)
        | inr e ↦ inr (search_ours-Some row ts (rw e at h1))
      ]

  -- Let a payment be verified, with the amount `n`. Then the transaction has been found and has
  -- succeeded, and among its transfers is one of `n` to the receiver, which comes from the sender
  -- or from a transaction of the sender, and `n` is at least the amount that was asked for.
  pub verify_transaction-Pays :
      (hex : Hex) (web3 : Web3) (now chain_id tx_hash glm_address : ℕ) {n : ℕ}
      → verify_transaction c sender receiver amount hex web3 now chain_id tx_hash glm_address
        ≡ ok (verified n)
      → (row : ChainTxDbObj) × (ts : List ChainTransferDbObj) × (find_receipt_extended c hex web3
            now tx_hash chain_id glm_address
          ≡ ok (success row ts))
        × (row.chain_status ≡ 1)
        × Some (Pays c sender receiver amount row n) ts
  unfolding verify_transaction
  verify_transaction-Pays hex web3 now chain_id tx_hash glm_address {n} h =
      let (result, found, h1) =
        >>=-eq-ok (find_receipt_extended c hex web3 now tx_hash chain_id glm_address) _ h in
      of_result result found h1
    where
      of_result :
          (result : FindReceiptParseResult)
          → find_receipt_extended c hex web3 now tx_hash chain_id glm_address ≡ ok result
          → verify_found c sender receiver amount result ≡ ok (verified n)
          → (row : ChainTxDbObj) × (ts : List ChainTransferDbObj) × (find_receipt_extended c hex
                web3 now tx_hash chain_id glm_address
              ≡ ok (success row ts))
            × (row.chain_status ≡ 1)
            × Some (Pays c sender receiver amount row n) ts
      of_result (failure reason) found h1 = cc
      of_result (success row ts) found h1 = elim (Bool-cases (row.chain_status == 1)) [
        | inl done ↦ (row, ts, found, ground arith, search_ours-Some row ts (rw done at h1))
        | inr failed ↦ let bad = rw failed at h1 in cc
      ]
