-- ===== src/Sender/Batching/Returns.antt =====
-- When `gather_transactions_pre` cannot fail.
use erc20_payment_lib.Prelude.{
  ℕ, ◌≡◌, refl, ◌∙◌, inl, inr, String, List, [], ◌∷◌, Option, none, some, Bool, false, ◌&&◌, ◌==◌,
  Bool-cases, Option-cases, ok, All,
}
use erc20_payment_lib.Db.{
  Db, TokenTransferDbObj, update_token_transfer, get_pending_token_transfers,
}
use erc20_payment_lib.Transaction.{Env}
use erc20_payment_lib.Sender.Setup.{PaymentSetup}
use erc20_payment_lib.Sender.Batching.Keys.{TokenTransferMap}
use erc20_payment_lib.Sender.Batching.Pre.{
  Gathered, is_close_request, group_transfer, gather_checked, gather_transfer, gather_all,
  gather_transactions_pre,
}
use erc20_payment_lib.Sender.Batching.Groups.{is_some}

module _ (env : Env) (setup : PaymentSetup) where
  abbrev pub IsNoClose : TokenTransferDbObj → Type 0
  IsNoClose f = (is_some f.deposit_id && is_close_request env setup f) ≡ false

  -- The transactions, and the flag, stay as they are.
  abbrev SameTxs : Gathered → Gathered → Type 0
  SameTxs s s' = (s'.db.txs ≡ s.db.txs) × (s'.process_tx_needed ≡ s.process_tx_needed)

  group_transfer-runs :
      (f : TokenTransferDbObj) (s : Gathered)
      → (s' : Gathered) × (group_transfer env setup f s ≡ ok s') × SameTxs s s'
  unfolding group_transfer update_token_transfer
  group_transfer-runs f s = elim (Option-cases (env.codec.address_from_str f.receiver_addr)) [
    | inl e ↦ rw (e, group_transfer) (_, refl, (refl, refl))
    | inr (a, e) ↦ elim (Bool-cases (a == 0)) [
      | inl z ↦ rw (e, z, group_transfer) (_, refl, (refl, refl))
      | inr z ↦ rw (e, z, group_transfer) (_, refl, (refl, refl))
    ]
  ]

  gather_checked-runs :
      (from : ℕ) (d : Option String) (f : TokenTransferDbObj) (s : Gathered)
      → (is_some d && is_close_request env setup f) ≡ false
      → (s' : Gathered) × (gather_checked env setup from d f s ≡ ok s') × SameTxs s s'
  unfolding gather_checked
  gather_checked-runs from none f s h = group_transfer-runs f s
  gather_checked-runs from (some d) f s h = rw h (group_transfer-runs f s)

  gather_transfer-runs :
      (f : TokenTransferDbObj) (s : Gathered)
      → IsNoClose f
      → (s' : Gathered) × (gather_transfer env setup f s ≡ ok s') × SameTxs s s'
  unfolding gather_transfer update_token_transfer
  gather_transfer-runs f s h = elim (Option-cases (env.codec.address_from_str f.from_addr)) [
    | inl e ↦ rw (e, gather_transfer) (_, refl, (refl, refl))
    | inr (a, e) ↦ elim (Bool-cases (a == 0)) [
      | inl z ↦ rw (e, z, gather_transfer) (_, refl, (refl, refl))
      | inr z ↦ rw (e, z, gather_transfer) (gather_checked-runs a f.deposit_id f s h)
    ]
  ]

  gather_all-runs :
      (fs : List TokenTransferDbObj) (s : Gathered)
      → All IsNoClose fs
      → (s' : Gathered) × (m : TokenTransferMap) × (gather_all env setup fs s ≡ (s', ok m))
        × SameTxs s s'
  unfolding gather_all
  gather_all-runs [] s h = (s, s.transfer_map, refl, (refl, refl))
  gather_all-runs (f ∷ fs) s h =
      let (s1, first, (txs, flag)) = gather_transfer-runs f s h.0 in
      let (s', m, rest, (txs', flag')) = gather_all-runs fs s1 h.1 in
      (s', m, rw (first, gather_all) rest, (txs' ∙ txs, flag' ∙ flag))

  -- Where no pending transfer asks to close a deposit, gathering returns its groups, whatever
  -- addresses the transfers have, and adds no transaction.
  pub gathering_returns :
      (account : String) (chain_id : ℕ) (db : Db) (needed : Bool)
      → All IsNoClose (get_pending_token_transfers db account chain_id)
      → (s : Gathered) × (m : TokenTransferMap) × (gather_transactions_pre env setup account
            chain_id db needed
          ≡ (s, ok m))
        × (s.db.txs ≡ db.txs)
        × (s.process_tx_needed ≡ needed)
  unfolding gather_transactions_pre
  gathering_returns account chain_id db needed h =
      let (s, m, runs, (txs, flag)) =
        gather_all-runs (get_pending_token_transfers db account chain_id)
          (record { db = db; transfer_map = []; process_tx_needed = needed }) h in
      (s, m, runs, txs, flag)
