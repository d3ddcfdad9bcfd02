-- ===== src/Sender/Batching/Refused.antt =====
-- A table of transfers in which nothing but the errors of pending transfers has changed.
use erc20_payment_lib.Prelude.{
  ℕ, ◌≡◌, ◌⊎◌, refl, String, List, [], ◌∷◌, true, some, ◌==◌, All, Bool-cases, inl, inr,
  if◌then◌else◌, ap, sym, ◌∙◌, subst,
}
use erc20_payment_lib.Db.{Db, TokenTransferDbObj, update_token_transfer, update_where, is_pending}

-- The rows of two tables are related, one by one.
abbrev pub Each :
    (TokenTransferDbObj → TokenTransferDbObj → Type 0)
    → List TokenTransferDbObj
    → List TokenTransferDbObj
    → Type 0
Each R [] [] = Unit {0}
Each R (x ∷ xs) (y ∷ ys) = R x y × Each R xs ys
Each R [] (y ∷ ys) = ⊥
Each R (x ∷ xs) [] = ⊥

module _ (account : String) (chain_id : ℕ) where
  -- The row is as before, or it was pending and has an error now.
  abbrev pub IsKeptOrRefused : TokenTransferDbObj → TokenTransferDbObj → Type 0
  IsKeptOrRefused r r' =
      (r' ≡ r)
      ⊎ ((is_pending account chain_id r ≡ true)
          × (message : String) × (r' ≡ record r { error = some message }))

  -- Nothing but the errors of pending transfers differs.
  pub record OnlyErrors (before after : Db) : Type 0 where
    pub same_txs : after.txs ≡ before.txs
    pub same_allowances : after.allowances ≡ before.allowances
    pub same_last_tx_id : after.last_tx_id ≡ before.last_tx_id
    pub same_last_transfer_id : after.last_transfer_id ≡ before.last_transfer_id
    pub same_last_allowance_id : after.last_allowance_id ≡ before.last_allowance_id
    pub transfers : Each IsKeptOrRefused before.token_transfers after.token_transfers

  -- A pending row, which is the only one of the table with its id.
  abbrev pub IsRowOf : List TokenTransferDbObj → TokenTransferDbObj → Type 0
  IsRowOf rows f =
      (is_pending account chain_id f ≡ true) × All (λ r. (r.id == f.id) ≡ true → r ≡ f) rows

  refuse_row :
      (f r r' : TokenTransferDbObj) (message : String)
      → is_pending account chain_id f ≡ true
      → ((r.id == f.id) ≡ true → r ≡ f)
      → IsKeptOrRefused r r'
      → IsKeptOrRefused r (
          if r'.id == f.id
          then record f { error = some message; create_date = r'.create_date }
          else r')
  refuse_row f r r' message pending only h = elim (Bool-cases (r'.id == f.id)) [
    | inr e ↦ rw e h
    | inl e ↦ elim h [
      | inl same ↦
          let hit : (r.id == f.id) ≡ true =
            subst (λ (t : TokenTransferDbObj). (t.id == f.id) ≡ true) same e in
          let is_f = only hit in
          let date : r'.create_date ≡ f.create_date =
            ap (λ (t : TokenTransferDbObj). t.create_date) (same ∙ is_f) in
          rw (e, date)
            (subst (λ t. IsKeptOrRefused t (record f { error = some message })) (sym is_f)
              (inr (pending, message, refl)))
      | inr (_, old, same) ↦
          let hit : (r.id == f.id) ≡ true =
            subst (λ (t : TokenTransferDbObj). (t.id == f.id) ≡ true) same e in
          let is_f = only hit in
          let date : r'.create_date ≡ f.create_date =
            ap (λ (t : TokenTransferDbObj). t.create_date) same
            ∙ ap (λ (t : TokenTransferDbObj). t.create_date) is_f in
          rw (e, date)
            (subst (λ t. IsKeptOrRefused t (record f { error = some message })) (sym is_f)
              (inr (pending, message, refl)))
    ]
  ]

  refuse_rows :
      (f : TokenTransferDbObj) (message : String) (rows rows' : List TokenTransferDbObj)
      → is_pending account chain_id f ≡ true
      → All (λ r. (r.id == f.id) ≡ true → r ≡ f) rows
      → Each IsKeptOrRefused rows rows'
      → Each IsKeptOrRefused rows (
          update_where
            (λ r. r.id == f.id)
            (λ r. record f { error = some message; create_date = r.create_date })
            rows')
  unfolding update_where
  refuse_rows f message [] [] pending only h = tt
  refuse_rows f message [] (r' ∷ rows') pending only h = absurd h
  refuse_rows f message (r ∷ rows) [] pending only h = absurd h
  refuse_rows f message (r ∷ rows) (r' ∷ rows') pending (here, rest) (h, hs) =
      (refuse_row f r r' message pending here h, refuse_rows f message rows rows' pending rest hs)

  pub refuse-OnlyErrors :
      (base db : Db) (f : TokenTransferDbObj) (message : String)
      → IsRowOf base.token_transfers f
      → OnlyErrors base db
      → OnlyErrors base (update_token_transfer (record f { error = some message }) db)
  unfolding update_token_transfer
  refuse-OnlyErrors base db f message (pending, only) h = record {
    same_txs = h.same_txs;
    same_allowances = h.same_allowances;
    same_last_tx_id = h.same_last_tx_id;
    same_last_transfer_id = h.same_last_transfer_id;
    same_last_allowance_id = h.same_last_allowance_id;
    transfers =
        refuse_rows f message base.token_transfers db.token_transfers pending only h.transfers;
  }

  Each-kept : (rows : List TokenTransferDbObj) → Each IsKeptOrRefused rows rows
  Each-kept [] = tt
  Each-kept (r ∷ rows) = (inl refl, Each-kept rows)

  pub unwritten : (db : Db) → OnlyErrors db db
  unwritten db = record {
    same_txs = refl;
    same_allowances = refl;
    same_last_tx_id = refl;
    same_last_transfer_id = refl;
    same_last_allowance_id = refl;
    transfers = Each-kept db.token_transfers;
  }
