-- ===== src/Sender/Process/Numbering.antt =====
-- The nonce that a transaction is given, against those of confirmed transactions.
use erc20_payment_lib.Prelude.{
  ℕ, ◌+◌, ◌<◌, ◌≡◌, Bool, true, false, List, [], ◌∷◌, Option, none, some, ltb, ok, >>=-eq-ok,
  Bool-cases, inl, inr, arith, All,
}
use erc20_payment_lib.Db.{
  Db, TxDbObj, select, max_nonce, get_transaction_highest_nonce, is_confirmed_of, opt_max,
}
use erc20_payment_lib.Node.{Web3}
use erc20_payment_lib.Sender.Setup.{ChainSetup}
use erc20_payment_lib.Sender.Process.Outside.{Outside}
use erc20_payment_lib.Sender.Process.Nonce.{
  assign_nonce, check_nonce, rpc_result, get_transaction_count, fee_or, max_fee_of,
}

-- The nonce of the row, where it has one, is below `n`.
abbrev pub IsBelow : ℕ → Option ℕ → Type 0
IsBelow n none = Unit {0}
IsBelow n (some nonce) = nonce < n

-- Of a row that matches: its nonce is below `n`.
abbrev pub IsUsedBelow : ℕ → (TxDbObj → Bool) → TxDbObj → Type 0
IsUsedBelow n p t = p t ≡ true → IsBelow n t.nonce

IsBelow-max : (n : ℕ) (a b : Option ℕ) → IsBelow n (opt_max a b) → IsBelow n a × IsBelow n b
IsBelow-max n none none h = (tt, tt)
IsBelow-max n none (some b) h = (tt, h)
IsBelow-max n (some a) none h = (h, tt)
IsBelow-max n (some a) (some b) h = (omega (arith, h), omega (arith, h))

max_nonce-IsBelow :
    (p : TxDbObj → Bool) (n : ℕ) (txs : List TxDbObj)
    → IsBelow n (max_nonce (select p txs))
    → All (IsUsedBelow n p) txs
unfolding max_nonce select
max_nonce-IsBelow p n [] h = tt
max_nonce-IsBelow p n (t ∷ txs) h = elim (Bool-cases (p t)) [
  | inl hit ↦
      let h' = rw hit at h in
      let (here, later) = IsBelow-max n t.nonce (max_nonce (select p txs)) h' in
      ((λ _. here), max_nonce-IsBelow p n txs later)
  | inr miss ↦
      let h' = rw miss at h in
      ((λ e. let bad : true ≡ false = cc in cc), max_nonce-IsBelow p n txs h')
]

check_nonce-IsBelow :
    (nonce : ℕ) (highest : Option ℕ) {n : ℕ} → check_nonce nonce highest ≡ ok n → IsBelow n highest
unfolding check_nonce
check_nonce-IsBelow nonce none h = tt
check_nonce-IsBelow nonce (some m) {n} h = elim (Bool-cases (ltb nonce (m + 1))) [
  | inl low ↦ let bad = rw low at h in cc
  | inr high ↦ let same = rw high at h in let e : nonce ≡ n = cc in ground arith
]

-- Let a transaction be given a nonce. Then every confirmed transaction of the same account and
-- chain, of those that have a nonce, has a smaller one.
pub assign_nonce-IsUsedBelow :
    (outside : Outside) (web3 : Web3) (chain_setup : ChainSetup) (db : Db) (tx : TxDbObj)
    (from_addr : ℕ) {numbered : TxDbObj}
    → assign_nonce outside web3 chain_setup db tx from_addr ≡ ok numbered
    → (nonce : ℕ) × (numbered.nonce ≡ some nonce)
      × All (IsUsedBelow nonce (is_confirmed_of tx.chain_id tx.from_addr)) db.txs
unfolding assign_nonce get_transaction_highest_nonce
assign_nonce-IsUsedBelow outside web3 chain_setup db tx from_addr {numbered} h =
    let highest = get_transaction_highest_nonce db tx.chain_id tx.from_addr in
    let (counted, _, h1) =
      >>=-eq-ok (rpc_result (get_transaction_count web3 from_addr false)) _ h in
    let (nonce, checked, h2) = >>=-eq-ok (check_nonce counted highest) _ h1 in
    let (configured, _, h3) =
      >>=-eq-ok (fee_or outside.codec tx.max_fee_per_gas chain_setup.max_fee_per_gas) _ h2 in
    let (priority, _, h4) =
      >>=-eq-ok (fee_or outside.codec tx.priority_fee chain_setup.priority_fee) _ h3 in
    let (max_fee, _, h5) =
      >>=-eq-ok (max_fee_of outside web3 chain_setup configured priority) _ h4 in
    (
      nonce,
      cc,
      max_nonce-IsBelow (is_confirmed_of tx.chain_id tx.from_addr) nonce db.txs
          (check_nonce-IsBelow counted highest checked),
    )
