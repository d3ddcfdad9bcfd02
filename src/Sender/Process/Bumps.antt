-- ===== src/Sender/Process/Bumps.antt =====
-- The fees of a replacement against those of the row that it replaces: sender/process.rs.
use erc20_payment_lib.Prelude.{
  ℕ, ◌+◌, ◌*◌, ◌/◌, ◌^◌, ◌≤◌, ◌<◌, ◌≡◌, true, some, ltb, leb, max, ok, >>=-eq-ok, Bool-cases, inl,
  inr, arith, fail_if, subst,
}
use erc20_payment_lib.Text.{Codec, IsCodec, u256_mod}
use erc20_payment_lib.U256.{mul_u256-eq_ok, div_u256-eq_ok, add_u256-eq_ok}
use erc20_payment_lib.Convert.{to_gwei, to_u256, str_to_gwei, u256_to_rust_dec}
use erc20_payment_lib.Db.{TxDbObj}
use erc20_payment_lib.Sender.Setup.{ChainSetup}
use erc20_payment_lib.Sender.Process.Replace.{
  Fees, FeeView, bumped_10, raise_priority, replacement_fees, read_fees, due_replacement,
  is_ready_for_replacement,
}

-- A tenth more for both fees, and a priority fee within the maximum.
abbrev pub IsBump : Fees → Fees → Type 0
IsBump old new =
    (old.max_fee_per_gas * 11 ≤ new.max_fee_per_gas * 10)
    × (old.priority_fee * 11 ≤ new.priority_fee * 10)
    × (new.priority_fee ≤ new.max_fee_per_gas)

to_gwei-eq_ok : (n : ℕ) {m : ℕ} → to_gwei n ≡ ok m → (n ≡ m) × (n < 2 ^ 96)
unfolding to_gwei u256_to_rust_dec
to_gwei-eq_ok n {m} h = elim (Bool-cases (leb (2 ^ 96) n)) [
  | inl big ↦ let bad = rw big at h in cc
  | inr small ↦ let same = rw small at h in (cc, ground arith)
]

bumped_10-le : (old new : ℕ) → bumped_10 old new ≡ true → old * 11 ≤ new * 10
bumped_10-le old new h = ground arith

raise_priority-IsBump :
    (tx config : Fees) {fees : Fees}
    → tx.priority_fee < 2 ^ 96
    → tx.max_fee_per_gas * 11 ≤ config.max_fee_per_gas * 10
    → raise_priority tx config ≡ ok fees
    → IsBump tx fees
unfolding raise_priority
raise_priority-IsBump tx config {fees} small bumped h =
    let p = tx.priority_fee in
    let h' =
      rw
        (
          mul_u256-eq_ok p 11 (omega arith),
          div_u256-eq_ok (p * 11) 10 (omega arith),
          add_u256-eq_ok (p * 11 / 10) 1 (omega arith),
        )
        at h in
    let (_, _, made) = >>=-eq-ok (to_gwei (p * 11 / 10 + 1)) _ h' in
    let raised : Fees = record {
      max_fee_per_gas = max config.max_fee_per_gas (p * 11 / 10 + 1);
      priority_fee = p * 11 / 10 + 1;
    } in
    let same : raised ≡ fees = cc in
    let bump : IsBump tx raised = (omega arith, omega arith, omega arith) in
    subst (IsBump tx) same bump

replacement_fees-IsBump :
    (tx config : Fees) {fees : Fees}
    → tx.priority_fee < 2 ^ 96
    → config.priority_fee ≤ config.max_fee_per_gas
    → replacement_fees tx config ≡ ok (some fees)
    → IsBump tx fees
unfolding replacement_fees
replacement_fees-IsBump tx config {fees} small ordered h =
    elim (Bool-cases (bumped_10 tx.max_fee_per_gas config.max_fee_per_gas)) [
      | inr kept ↦ let bad = rw kept at h in cc
      | inl max_bumped ↦ elim (Bool-cases (bumped_10 tx.priority_fee config.priority_fee)) [
        | inl both ↦
            let made = rw (max_bumped, both) at h in
            let same : config ≡ fees = cc in
            subst (IsBump tx) same (bumped_10-le _ _ max_bumped, bumped_10-le _ _ both, ordered)
        | inr kept ↦
            let made = rw (max_bumped, kept) at h in
            let (raised, e, last) = >>=-eq-ok (raise_priority tx config) _ made in
            let same : raised ≡ fees = cc in
            subst (IsBump tx) same
              (raise_priority-IsBump tx config small (bumped_10-le _ _ max_bumped) e)
      ]
    ]

-- The fees that `read_fees` finds are those of the row and of the settings.
read_fees-eq_ok :
    (c : Codec) (chain_setup : ChainSetup) (tx : TxDbObj) (fee priority : ℕ) {view : FeeView}
    → IsCodec c
    → fee < u256_mod
    → priority < u256_mod
    → tx.max_fee_per_gas ≡ some (c.to_dec fee)
    → tx.priority_fee ≡ some (c.to_dec priority)
    → read_fees c chain_setup tx ≡ ok view
    → (view.tx_fees ≡ record { max_fee_per_gas = fee; priority_fee = priority })
      × (priority < 2 ^ 96)
      × (view.config_fees ≡ record {
        max_fee_per_gas = chain_setup.max_fee_per_gas;
        priority_fee = chain_setup.priority_fee;
      })
unfolding read_fees str_to_gwei to_u256
read_fees-eq_ok c chain_setup tx fee priority {view} codec fits fits' e e' h =
    let h0 = rw (e, e', codec.dec_roundtrip fee fits, codec.dec_roundtrip priority fits') at h in
    let (tx_fee, is_fee, h1) = >>=-eq-ok (to_gwei fee) _ h0 in
    let (max_fee, is_max, h2) = >>=-eq-ok (to_gwei chain_setup.max_fee_per_gas) _ h1 in
    let (tx_pr, is_pr, h3) = >>=-eq-ok (to_gwei priority) _ h2 in
    let (config_pr, is_config, h4) = >>=-eq-ok (to_gwei chain_setup.priority_fee) _ h3 in
    let (_, _, h5) = >>=-eq-ok (fail_if (ltb tx_fee tx_pr) _) _ h4 in
    let a = to_gwei-eq_ok fee is_fee in
    let b = to_gwei-eq_ok chain_setup.max_fee_per_gas is_max in
    let d = to_gwei-eq_ok priority is_pr in
    let f = to_gwei-eq_ok chain_setup.priority_fee is_config in (cc, omega (arith, d), cc)

-- Let a row have the fees `fee` and `priority`, let the settings have a priority fee of at most
-- the maximum fee, and let a replacement of the row be due. Then each fee of the replacement is
-- at least a tenth higher than the row's, and its priority fee is at most its maximum fee.
pub due_replacement-IsBump :
    (c : Codec) (chain_setup : ChainSetup) (now : ℕ) (tx : TxDbObj) (fee priority : ℕ) {fees : Fees}
    → IsCodec c
    → fee < u256_mod
    → priority < u256_mod
    → tx.max_fee_per_gas ≡ some (c.to_dec fee)
    → tx.priority_fee ≡ some (c.to_dec priority)
    → chain_setup.priority_fee ≤ chain_setup.max_fee_per_gas
    → due_replacement c chain_setup now tx ≡ ok (some fees)
    → IsBump (record { max_fee_per_gas = fee; priority_fee = priority }) fees
unfolding due_replacement
due_replacement-IsBump c chain_setup now tx fee priority {fees} codec fits fits' e e' ordered h =
    let (view, read, due) = >>=-eq-ok (read_fees c chain_setup tx) _ h in
    let (is_tx, small, is_config) =
      read_fees-eq_ok c chain_setup tx fee priority codec fits fits' e e' read in
    elim (Bool-cases (is_ready_for_replacement chain_setup now tx)) [
      | inr early ↦ let bad = rw early at due in cc
      | inl ready ↦
          let due' = rw (ready, is_tx, is_config) at due in
          replacement_fees-IsBump _ _ small ordered due'
    ]
