-- ===== src/Sender/Settle/Rows.antt =====
-- The effect of `pay_transfers` of sender/service.rs on the table of transfers.
use erc20_payment_lib.Prelude.{
  ℕ, ◌≡◌, ◌≢◌, refl, ap, ◌∙◌, subst, inl, inr, List, [], ◌∷◌, Option, Bool, true, false, Bool-cases,
  ◌==◌, if◌then◌else◌, All, arith,
}
use erc20_payment_lib.Text.{Codec}
use erc20_payment_lib.Db.{
  Db, TokenTransferDbObj, DistinctTransfers, select, update_where, update_token_transfer, opt_is,
}
use erc20_payment_lib.Sender.Settle.{mark_paid, pay_transfers}

abbrev update_row : TokenTransferDbObj → List TokenTransferDbObj → List TokenTransferDbObj
update_row t = update_where (λ r. r.id == t.id) (λ r. record t { create_date = r.create_date })

pay_rows :
    Codec
    → ℕ
    → List TokenTransferDbObj
    → List (Option ℕ)
    → List TokenTransferDbObj
    → List TokenTransferDbObj
pay_rows c now [] fees rows = rows
pay_rows c now (t ∷ tts) [] rows = rows
pay_rows c now (t ∷ tts) (fee ∷ fees) rows =
    pay_rows c now tts fees (update_row (mark_paid c now t fee) rows)

unfoldable pub paid_list :
    Codec → ℕ → List TokenTransferDbObj → List (Option ℕ) → List TokenTransferDbObj
paid_list c now [] fees = []
paid_list c now (t ∷ tts) [] = t ∷ tts
paid_list c now (t ∷ tts) (fee ∷ fees) = mark_paid c now t fee ∷ paid_list c now tts fees

pay_transfers-eq :
    (c : Codec) (now : ℕ) (tts : List TokenTransferDbObj) (fees : List (Option ℕ)) (db : Db)
    → pay_transfers c now tts fees db ≡ (
      record db { token_transfers = pay_rows c now tts fees db.token_transfers },
      paid_list c now tts fees,
    )
unfolding pay_transfers pay_rows paid_list update_token_transfer
pay_transfers-eq c now [] fees db = refl
pay_transfers-eq c now (t ∷ tts) [] db = refl
pay_transfers-eq c now (t ∷ tts) (fee ∷ fees) db =
    rw (pay_transfers-eq c now tts fees (update_token_transfer (mark_paid c now t fee) db))

-- The table afterwards, row by row.
unfoldable pub settle :
    Codec → ℕ → ℕ → List (Option ℕ) → List TokenTransferDbObj → List TokenTransferDbObj
settle c now k fees [] = []
settle c now k [] (r ∷ rs) = r ∷ settle c now k [] rs
settle c now k (fee ∷ fees) (r ∷ rs) =
    if opt_is r.tx_id k
    then mark_paid c now r fee ∷ settle c now k fees rs
    else r ∷ settle c now k (fee ∷ fees) rs

abbrev pub of_tx : ℕ → TokenTransferDbObj → Bool
of_tx k t = opt_is t.tx_id k

-- A row whose id is none of those updated stays.
pay_rows-skip :
    (c : Codec) (now : ℕ) (tts : List TokenTransferDbObj) (fees : List (Option ℕ))
    (r : TokenTransferDbObj) (rows : List TokenTransferDbObj)
    → All (λ t. t.id ≢ r.id) tts
    → pay_rows c now tts fees (r ∷ rows) ≡ r ∷ pay_rows c now tts fees rows
unfolding pay_rows update_where
pay_rows-skip c now [] fees r rows h = refl
pay_rows-skip c now (t ∷ tts) [] r rows h = refl
pay_rows-skip c now (t ∷ tts) (fee ∷ fees) r rows h =
    let e : (r.id == t.id) ≡ false = ground (arith, h.0) in
    rw e (pay_rows-skip c now tts fees r (update_row (mark_paid c now t fee) rows) h.1)

update_row-none :
    (t : TokenTransferDbObj) (rows : List TokenTransferDbObj)
    → All (λ s. s.id ≢ t.id) rows
    → update_row t rows ≡ rows
unfolding update_where
update_row-none t [] h = refl
update_row-none t (r ∷ rows) h =
    let e : (r.id == t.id) ≡ false = ground (arith, h.0) in
    rw e (ap (◌∷◌ r) (update_row-none t rows h.1))

All-select {ℓ} :
    {A : Type 0} (P : A → Type ℓ) (p : A → Bool) (xs : List A) → All P xs → All P (select p xs)
unfolding select
All-select P p [] h = tt
All-select P p (x ∷ xs) h = elim (Bool-cases (p x)) [
  | inl e ↦ rw e (h.0, All-select P p xs h.1)
  | inr e ↦ rw e (All-select P p xs h.1)
]

pay_rows-nil :
    (c : Codec) (now : ℕ) (tts rows : List TokenTransferDbObj) → pay_rows c now tts [] rows ≡ rows
unfolding pay_rows
pay_rows-nil c now [] rows = refl
pay_rows-nil c now (t ∷ tts) rows = refl

settle-nil :
    (c : Codec) (now k : ℕ) (rows : List TokenTransferDbObj) → settle c now k [] rows ≡ rows
unfolding settle
settle-nil c now k [] = refl
settle-nil c now k (r ∷ rows) = ap (◌∷◌ r) (settle-nil c now k rows)

update_row_self :
    (r t : TokenTransferDbObj) (rows : List TokenTransferDbObj)
    → r.id ≡ t.id
    → All (λ s. s.id ≢ r.id) rows
    → update_row t (r ∷ rows) ≡ record t { create_date = r.create_date } ∷ rows
unfolding update_where
update_row_self r t rows h d =
    let e : (r.id == t.id) ≡ true = ground arith in
    rw e (
      ap (◌∷◌ (record t { create_date = r.create_date }))
        (update_row-none t rows (subst (λ i. All (λ s. s.id ≢ i) rows) h d)))

pay_rows-select :
    (c : Codec) (now k : ℕ) (fees : List (Option ℕ)) (rows : List TokenTransferDbObj)
    → DistinctTransfers rows
    → pay_rows c now (select (of_tx k) rows) fees rows ≡ settle c now k fees rows
unfolding settle select pay_rows
pay_rows-select c now k fees [] h = refl
pay_rows-select c now k [] (r ∷ rows) h =
    rw (settle-nil c now k rows) (pay_rows-nil c now _ (r ∷ rows))
pay_rows-select c now k (fee ∷ fees) (r ∷ rows) h = elim (Bool-cases (opt_is r.tx_id k)) [
  | inl e ↦ rw e (
      ap (pay_rows c now (select (of_tx k) rows) fees)
        (update_row_self r (mark_paid c now r fee) rows refl h.0)
      ∙ pay_rows-skip c now (select (of_tx k) rows) fees (mark_paid c now r fee) rows
          (All-select _ (of_tx k) rows h.0)
      ∙ ap (◌∷◌ (mark_paid c now r fee)) (pay_rows-select c now k fees rows h.1))
  | inr e ↦ rw e (
      pay_rows-skip c now (select (of_tx k) rows) (fee ∷ fees) r rows
        (All-select _ (of_tx k) rows h.0)
      ∙ ap (◌∷◌ r) (pay_rows-select c now k (fee ∷ fees) rows h.1))
]

-- Paying the transfers of transaction `k` rewrites their rows, and nothing else of the database.
pub pay_transfers-settle :
    (c : Codec) (now k : ℕ) (fees : List (Option ℕ)) (db : Db)
    → DistinctTransfers db.token_transfers
    → pay_transfers c now (select (of_tx k) db.token_transfers) fees db ≡ (
      record db { token_transfers = settle c now k fees db.token_transfers },
      paid_list c now (select (of_tx k) db.token_transfers) fees,
    )
pay_transfers-settle c now k fees db h =
    rw (← pay_rows-select c now k fees db.token_transfers h)
      (pay_transfers-eq c now (select (of_tx k) db.token_transfers) fees db)
