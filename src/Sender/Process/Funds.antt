-- ===== src/Sender/Process/Funds.antt =====
-- The check of the balance in sender/process.rs, for a transaction that replaces none.
use mathlib.Core.Option
use erc20_payment_lib.Prelude.{
  ℕ, ◌+◌, ◌*◌, ◌≤◌, ◌≡◌, Bool, true, false, Option, none, some, ltb, ok, arith, inl, inr,
  Bool-cases, ap, ◌^◌, sym, ◌∙◌, subst,
}
use erc20_payment_lib.Text.{Codec, u256_mod}
use erc20_payment_lib.Error.{Result}
use erc20_payment_lib.U256.{mul_u256, add_u256, as_u64, checked}
use erc20_payment_lib.Convert.{to_eth}
use erc20_payment_lib.Db.{TxDbObj}
use erc20_payment_lib.World.{World, set_message, send_driver_event, continue_with-eq_ok, lift-eq_ok}
use erc20_payment_lib.Transaction.Request.{dao_to_call_request, fee_of, parse_dec}
use erc20_payment_lib.Transaction.Check.{
  check_transaction, checked_with, estimate_gas, set_gas_limit, limit_of,
}
use erc20_payment_lib.Sender.Setup.{ChainSetup}
use erc20_payment_lib.Sender.Process.Outside.{Outside, Moment, Step, go}
use erc20_payment_lib.Sender.Process.Start.{
  check_funds, check_original, check_by, compare_balance, report_no_gas,
}

-- The gas that the account may have to pay is covered by its balance.
abbrev pub IsCovered : Codec → ℕ → TxDbObj → TxDbObj → Type 0
IsCovered c balance tx checked =
    (limit fee value : ℕ) × (checked.gas_limit ≡ some limit)
    × (fee_of c tx.max_fee_per_gas "max_fee_per_gas has to be set here" ≡ ok fee)
    × (parse_dec c tx.val ≡ ok value)
    × (value + limit * fee ≤ balance)

checked-eq_ok : (n : ℕ) {m : ℕ} → checked n ≡ ok m → n ≡ m
unfolding checked
checked-eq_ok n {m} h = elim (Bool-cases (ltb n u256_mod)) [
  | inl small ↦ let same = rw small at h in cc
  | inr big ↦ let bad = rw big at h in cc
]

as_u64-same : (n : ℕ) {m : ℕ} → as_u64 n ≡ ok m → n ≡ m
unfolding as_u64
as_u64-same n {m} h = elim (Bool-cases (ltb n (2 ^ 64))) [
  | inl small ↦ let same = rw small at h in cc
  | inr big ↦ let bad = rw big at h in cc
]

abbrev outcome_of : World × Result (Option (ℕ × TxDbObj)) → ℕ × Option ℕ
outcome_of (w, ok (some (needed, tx))) = (needed, tx.gas_limit)
outcome_of _ = (0, none)

abbrev is_some_of : World × Result (Option (ℕ × TxDbObj)) → Bool
is_some_of (w, ok (some checked)) = true
is_some_of _ = false

abbrev step_of : World × Result Step → Option TxDbObj
step_of (w, ok (go tx)) = some tx
step_of _ = none

abbrev is_go : World × Result Step → Bool
is_go (w, ok (go tx)) = true
is_go _ = false

module _ (outside : Outside) (moment : Moment) (chain_setup : ChainSetup) where
  abbrev c : Codec
  c = outside.codec

  set_gas_limit-IsCovered :
      (tx : TxDbObj) (gas_est balance needed : ℕ) (checked_tx : TxDbObj) (w w' : World)
      → set_gas_limit c outside.hex moment.web3 chain_setup.glm_address tx gas_est w
        ≡ (w', ok (some (needed, checked_tx)))
      → needed ≤ balance
      → IsCovered c balance tx checked_tx
  unfolding set_gas_limit mul_u256 add_u256
  set_gas_limit-IsCovered tx gas_est balance needed checked_tx w w' h enough =
      let (limit, _, h1) =
        lift-eq_ok (limit_of c outside.hex moment.web3 chain_setup.glm_address gas_est) _ h in
      let (stored, is_stored, h2) = lift-eq_ok (as_u64 limit) _ h1 in
      let (fee, is_fee, h3) =
        lift-eq_ok (fee_of c tx.max_fee_per_gas "max_fee_per_gas has to be set here") _ h2 in
      let (value, is_value, h4) = lift-eq_ok (parse_dec c tx.val) _ h3 in
      let (cost, is_cost, h5) = lift-eq_ok (checked (limit * fee)) _ h4 in
      let (total, is_total, h6) = lift-eq_ok (checked (value + cost)) _ h5 in
      let e1 = checked-eq_ok (limit * fee) is_cost in
      let e2 = checked-eq_ok (value + cost) is_total in
      let e3 = as_u64-same limit is_stored in
      let last = ap outcome_of h6 in
      let e4 : total ≡ needed = ap (λ r. r.0) last in
      let e5 : some stored ≡ checked_tx.gas_limit = ap (λ r. r.1) last in
      (limit, fee, value, sym e5 ∙ ap some (sym e3), is_fee, is_value, omega arith)

  checked_with-IsCovered :
      (tx : TxDbObj) (gas_est : Option ℕ) (balance needed : ℕ) (checked_tx : TxDbObj) (w w' : World)
      → checked_with c outside.hex moment.web3 chain_setup.glm_address tx gas_est w
        ≡ (w', ok (some (needed, checked_tx)))
      → needed ≤ balance
      → IsCovered c balance tx checked_tx
  checked_with-IsCovered tx none balance needed checked_tx w w' h enough =
      let bad : false ≡ true = ap is_some_of h in cc
  checked_with-IsCovered tx (some gas_est) balance needed checked_tx w w' h enough =
      set_gas_limit-IsCovered tx gas_est balance needed checked_tx w w' h enough

  compare_balance-IsCovered :
      (tx : TxDbObj) (from_addr needed : ℕ) (checked_tx tx' : TxDbObj) (w w' : World)
      → compare_balance outside moment chain_setup tx from_addr (some (needed, checked_tx)) w
        ≡ (w', ok (go tx'))
      → (balance : ℕ) × (moment.web3.eth_balance from_addr ≡ ok balance)
        × (needed ≤ balance)
        × (checked_tx ≡ tx')
  unfolding compare_balance report_no_gas send_driver_event
  compare_balance-IsCovered tx from_addr needed checked_tx tx' w w' h =
      let (balance, is_balance, h1) = lift-eq_ok (moment.web3.eth_balance from_addr) _ h in
      elim (Bool-cases (ltb balance needed)) [
        | inr enough ↦
            let last = ap step_of (rw enough at h1) in
            (balance, is_balance, ground arith, Option.some-injective checked_tx tx' last)
        | inl low ↦
            let h2 = rw low at h1 in
            let (_, _, h3) = lift-eq_ok (to_eth balance) _ h2 in
            let (_, _, h4) = lift-eq_ok (to_eth needed) _ h3 in
            let bad : false ≡ true = ap is_go h4 in cc
      ]

  found-IsCovered :
      (tx tx' : TxDbObj) (from_addr : ℕ) (found : Option (ℕ × TxDbObj)) (w0 w1 w w' : World)
      → check_transaction c outside.hex moment.web3 chain_setup.glm_address tx w0 ≡ (w1, ok found)
      → compare_balance outside moment chain_setup tx from_addr found w ≡ (w', ok (go tx'))
      → (balance : ℕ) × (moment.web3.eth_balance from_addr ≡ ok balance)
        × IsCovered outside.codec balance tx tx'
  unfolding check_transaction compare_balance
  found-IsCovered tx tx' from_addr none w0 w1 w w' found h =
      let bad : false ≡ true = ap is_go h in cc
  found-IsCovered tx tx' from_addr (some (needed, checked_tx)) w0 w1 w w' found h =
      let (balance, is_balance, enough, same) =
        compare_balance-IsCovered tx from_addr needed checked_tx tx' w w' h in
      let (request, _, h1) = lift-eq_ok (dao_to_call_request c outside.hex tx) _ found in
      let (w2, gas_est, _, h2) =
        continue_with-eq_ok
          (estimate_gas c outside.hex moment.web3 chain_setup.glm_address tx request w0) _ h1 in
      let covered = checked_with-IsCovered tx gas_est balance needed checked_tx w2 w1 h2 enough in
      (balance, is_balance, subst (IsCovered c balance tx) same covered)

  check_original-IsCovered :
      (tx tx' : TxDbObj) (from_addr : ℕ) (w w' : World)
      → check_original outside moment chain_setup tx from_addr w ≡ (w', ok (go tx'))
      → (balance : ℕ) × (moment.web3.eth_balance from_addr ≡ ok balance)
        × IsCovered outside.codec balance tx tx'
  unfolding check_original
  check_original-IsCovered tx tx' from_addr w w' h =
      let w0 = (set_message tx.id "Checking transaction" w).0 in
      let (w1, found, is_found, h1) =
        continue_with-eq_ok
          (check_transaction c outside.hex moment.web3 chain_setup.glm_address tx w0) _ h in
      found-IsCovered tx tx' from_addr found w0 w1 w1 w' is_found h1

  -- Let the row of a transaction that replaces none pass the check before it is signed. Then the
  -- account's balance covers its value and all the gas that its limit and its maximum fee allow.
  pub check_funds-IsCovered :
      (tx tx' : TxDbObj) (from_addr : ℕ) (w w' : World)
      → tx.orig_tx_id ≡ none
      → check_funds outside moment chain_setup tx from_addr w ≡ (w', ok (go tx'))
      → (balance : ℕ) × (moment.web3.eth_balance from_addr ≡ ok balance)
        × IsCovered outside.codec balance tx tx'
  unfolding check_funds
  check_funds-IsCovered tx tx' from_addr w w' first h =
      let h0 : check_original outside moment chain_setup tx from_addr w ≡ (w', ok (go tx')) =
        subst (λ o. check_by outside moment chain_setup o tx from_addr w ≡ (w', ok (go tx'))) first
          h in
      check_original-IsCovered tx tx' from_addr w w' h0
