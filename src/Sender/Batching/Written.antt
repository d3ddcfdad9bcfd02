-- ===== src/Sender/Batching/Written.antt =====
-- What `gather_transactions_pre` writes where it closes no deposit.
use erc20_payment_lib.Prelude.{
  ℕ, ◌≡◌, ◌≢◌, ◌⊎◌, refl, String, List, [], ◌∷◌, Bool, true, false, Option, none, some, ◌==◌, ok,
  err, panic, All, arith, Bool-cases, Option-cases, Outcome-cases, inl, inr, ap, sym, ◌∙◌, subst,
  >>=-eq-ok, ok_or,
}
use erc20_payment_lib.Error.{Result}
use erc20_payment_lib.Db.{
  Db, TokenTransferDbObj, DistinctTransfers, update_token_transfer, is_pending,
  get_pending_token_transfers,
}
use erc20_payment_lib.Db.Ordered.{All-order, All-select}
use erc20_payment_lib.Transaction.{Env, create_close_deposit}
use erc20_payment_lib.Sender.Setup.{PaymentSetup}
use erc20_payment_lib.Sender.Batching.Keys.{TokenTransferMap, key_of, push_group}
use erc20_payment_lib.Sender.Batching.Pre.{
  Gathered, reject, is_close_request, lock_address, close_deposit_of, group_transfer,
  gather_checked, gather_transfer, gather_all, gather_transactions_pre,
}
use erc20_payment_lib.Sender.Batching.Refused.{OnlyErrors, IsRowOf, refuse-OnlyErrors, unwritten}

-- What one transfer can lead to: a deposit is closed, or at most its own error is written.
abbrev Treated : TokenTransferDbObj → Gathered → Gathered → Type 0
Treated f s s' =
    (s'.process_tx_needed ≡ true)
    ⊎ ((s'.process_tx_needed ≡ s.process_tx_needed)
        × ((s'.db ≡ s.db)
            ⊎ ((message : String) × (s'.db
                  ≡ update_token_transfer (record f { error = some message }) s.db))))

rejected :
    (message : String) (f : TokenTransferDbObj) (s : Gathered) {s' : Gathered}
    → reject message f s ≡ ok s'
    → Treated f s s'
rejected message f s {s'} h =
    let done : Gathered = record s {
      db = update_token_transfer (record f { error = some message }) s.db;
    } in
    let same : done ≡ s' = cc in subst (Treated f s) same (inr (refl, inr (message, refl)))

module _ (env : Env) (setup : PaymentSetup) where
  group_transfer-Treated :
      (f : TokenTransferDbObj) (s : Gathered) {s' : Gathered}
      → group_transfer env setup f s ≡ ok s'
      → Treated f s s'
  unfolding group_transfer
  group_transfer-Treated f s {s'} h =
      elim (Option-cases (env.codec.address_from_str f.receiver_addr)) [
        | inl e ↦ rejected "Invalid receiver address" f s (rw (e, group_transfer) at h)
        | inr (receiver, e) ↦ elim (Bool-cases (receiver == 0)) [
          | inl z ↦ rejected "receiver_addr is zero" f s (rw (e, z, group_transfer) at h)
          | inr z ↦
              let h' = rw (e, z, group_transfer) at h in
              let done : Gathered = record s {
                transfer_map = push_group (key_of f) f s.transfer_map;
              } in
              let same : done ≡ s' = cc in subst (Treated f s) same (inr (refl, inl refl))
        ]
      ]

  close_deposit_of-needed :
      (from : ℕ) (id : String) (f : TokenTransferDbObj) (s : Gathered) {s' : Gathered}
      → close_deposit_of env setup from id f s ≡ ok s'
      → s'.process_tx_needed ≡ true
  unfolding close_deposit_of
  close_deposit_of-needed from id f s {s'} h =
      let (deposit, _, h1) = >>=-eq-ok (ok_or (env.codec.u256_from_str id) _) _ h in
      let (lock, _, h2) = >>=-eq-ok (lock_address env setup f.chain_id) _ h1 in
      let (tx, _, h3) =
        >>=-eq-ok (create_close_deposit env from lock f.chain_id none deposit) _ h2 in
      ap needed_of (sym h3)
    where
      needed_of : Result Gathered → Bool
      needed_of (ok g) = g.process_tx_needed
      needed_of (err e) = false
      needed_of panic = false

  gather_checked-Treated :
      (from : ℕ) (deposit_id : Option String) (f : TokenTransferDbObj) (s : Gathered)
      {s' : Gathered}
      → gather_checked env setup from deposit_id f s ≡ ok s'
      → Treated f s s'
  unfolding gather_checked
  gather_checked-Treated from none f s h = group_transfer-Treated f s h
  gather_checked-Treated from (some id) f s h = elim (Bool-cases (is_close_request env setup f)) [
    | inl e ↦ inl (close_deposit_of-needed from id f s (rw e at h))
    | inr e ↦ group_transfer-Treated f s (rw e at h)
  ]

  gather_transfer-Treated :
      (f : TokenTransferDbObj) (s : Gathered) {s' : Gathered}
      → gather_transfer env setup f s ≡ ok s'
      → Treated f s s'
  unfolding gather_transfer
  gather_transfer-Treated f s h = elim (Option-cases (env.codec.address_from_str f.from_addr)) [
    | inl e ↦ rejected "Invalid from address" f s (rw (e, gather_transfer) at h)
    | inr (from, e) ↦ elim (Bool-cases (from == 0)) [
      | inl z ↦ rejected "from_addr is zero" f s (rw (e, z, gather_transfer) at h)
      | inr z ↦ gather_checked-Treated from f.deposit_id f s (rw (e, z, gather_transfer) at h)
    ]
  ]

  gather_all-step :
      (f : TokenTransferDbObj) (fs : List TokenTransferDbObj) (s : Gathered) {g : Gathered}
      {m : TokenTransferMap}
      → gather_all env setup (f ∷ fs) s ≡ (g, ok m)
      → (s' : Gathered) × (gather_transfer env setup f s ≡ ok s')
        × (gather_all env setup fs s' ≡ (g, ok m))
  unfolding gather_all
  gather_all-step f fs s {g} {m} h = elim (Outcome-cases (gather_transfer env setup f s)) [
    | inl (s', e) ↦ (s', e, rw (e, gather_all) at h)
    | inr (inl (error, e)) ↦ let bad = ap (λ r. r.1) (rw (e, gather_all) at h) in cc
    | inr (inr e) ↦ let bad = ap (λ r. r.1) (rw (e, gather_all) at h) in cc
  ]

  stays_needed :
      (fs : List TokenTransferDbObj) (s : Gathered) {g : Gathered} {m : TokenTransferMap}
      → gather_all env setup fs s ≡ (g, ok m)
      → s.process_tx_needed ≡ true
      → g.process_tx_needed ≡ true
  unfolding gather_all
  stays_needed [] s {g} h needed =
      let same : s ≡ g = ap (λ r. r.0) h in
      subst (λ (x : Gathered). x.process_tx_needed ≡ true) same needed
  stays_needed (f ∷ fs) s h needed =
      let (s', first, rest) = gather_all-step f fs s h in
      elim (gather_transfer-Treated f s first) [
        | inl now ↦ stays_needed fs s' rest now
        | inr (same, _) ↦ stays_needed fs s' rest (same ∙ needed)
      ]

  module _ (account : String) (chain_id : ℕ) (base : Db) where
    gather_all-OnlyErrors :
        (fs : List TokenTransferDbObj) (s : Gathered) {g : Gathered} {m : TokenTransferMap}
        → gather_all env setup fs s ≡ (g, ok m)
        → g.process_tx_needed ≡ false
        → All (IsRowOf account chain_id base.token_transfers) fs
        → OnlyErrors account chain_id base s.db
        → OnlyErrors account chain_id base g.db
    unfolding gather_all
    gather_all-OnlyErrors [] s {g} h unneeded all errors =
        let same : s ≡ g = ap (λ r. r.0) h in
        subst (λ (x : Gathered). OnlyErrors account chain_id base x.db) same errors
    gather_all-OnlyErrors (f ∷ fs) s h unneeded (is_row, all) errors =
        let (s', first, rest) = gather_all-step f fs s h in
        elim (gather_transfer-Treated f s first) [
          | inl now ↦ let bad = stays_needed fs s' rest now in let no = sym bad ∙ unneeded in cc
          | inr (_, inl kept) ↦
              gather_all-OnlyErrors fs s' rest unneeded all
                (subst (OnlyErrors account chain_id base) (sym kept) errors)
          | inr (_, inr (message, written)) ↦ gather_all-OnlyErrors fs s' rest unneeded all (
              subst (OnlyErrors account chain_id base) (sym written)
                (refuse-OnlyErrors account chain_id base s.db f message is_row errors))
        ]

-- A row of the table is the only one with its id.
abbrev IsOnly : List TokenTransferDbObj → TokenTransferDbObj → Type 0
IsOnly rows f = All (λ r. (r.id == f.id) ≡ true → r ≡ f) rows

others_differ :
    (x : TokenTransferDbObj) (rows : List TokenTransferDbObj)
    → All (λ s. s.id ≢ x.id) rows
    → All (λ r. (r.id == x.id) ≡ true → r ≡ x) rows
others_differ x [] h = tt
others_differ x (r ∷ rows) (here, rest) =
    ((λ e. absurd (here (ground arith))), others_differ x rows rest)

keep-IsOnly :
    (x : TokenTransferDbObj) (rows fs : List TokenTransferDbObj)
    → All (λ s. s.id ≢ x.id) fs
    → All (IsOnly rows) fs
    → All (IsOnly (x ∷ rows)) fs
keep-IsOnly x rows [] h only = tt
keep-IsOnly x rows (f ∷ fs) (here, rest) (first, only) =
    (((λ e. absurd (here (ground arith))), first), keep-IsOnly x rows fs rest only)

distinct-IsOnly : (rows : List TokenTransferDbObj) → DistinctTransfers rows → All (IsOnly rows) rows
distinct-IsOnly [] h = tt
distinct-IsOnly (x ∷ rows) (apart, rest) = (
  ((λ e. refl), others_differ x rows apart),
  keep-IsOnly x rows rows apart (distinct-IsOnly rows rest),
)

-- Where no deposit is closed, nothing but the errors of pending transfers is written.
pub gather_transactions_pre-OnlyErrors :
    (env : Env) (setup : PaymentSetup) (account : String) (chain_id : ℕ) (db : Db) {g : Gathered}
    {m : TokenTransferMap}
    → DistinctTransfers db.token_transfers
    → gather_transactions_pre env setup account chain_id db false ≡ (g, ok m)
    → g.process_tx_needed ≡ false
    → OnlyErrors account chain_id db g.db
unfolding gather_transactions_pre get_pending_token_transfers
gather_transactions_pre-OnlyErrors env setup account chain_id db distinct h unneeded =
    gather_all-OnlyErrors env setup account chain_id db
      (get_pending_token_transfers db account chain_id)
      (record { db = db; transfer_map = []; process_tx_needed = false }) h unneeded
      (All-order (IsRowOf account chain_id db.token_transfers) _ _ (
        All-select (IsOnly db.token_transfers) (is_pending account chain_id) db.token_transfers
          (distinct-IsOnly db.token_transfers distinct)))
      (unwritten account chain_id db)
