-- ===== src/Sender/Process/Origin.antt =====
-- The loop that looks for the transaction a chain of replacements began with.
use erc20_payment_lib.Prelude.{
  ℕ, zero, suc, ◌<◌, ◌≡◌, ◌↔◌, none, some, ok, All, arith, Option-cases, Outcome-cases, inl, inr,
  subst, sym, ◌∙◌,
}
use erc20_payment_lib.Db.{Db, TxDbObj, get_transaction}
use erc20_payment_lib.Sender.Process.CleanUp.{find_orig}
use erc20_payment_lib.Sender.Process.Chain.{
  IsNewer, IsDescending, get_transaction-IsDescending, find_orig-step,
}

-- Each row names the row that it replaces, down to one that replaces nothing.
pub data LeadsTo (db : Db) : TxDbObj → TxDbObj → Type 0 where
  begins : {t : TxDbObj} → t.orig_tx_id ≡ none → LeadsTo db t t
  replaces :
      {t row orig_tx : TxDbObj} (orig : ℕ)
      → t.orig_tx_id ≡ some orig
      → get_transaction db orig ≡ ok row
      → LeadsTo db row orig_tx
      → LeadsTo db t orig_tx

found-LeadsTo :
    (fuel : ℕ) (db : Db) (t : TxDbObj) {orig_tx : TxDbObj}
    → find_orig fuel db t ≡ some (ok orig_tx)
    → LeadsTo db t orig_tx
unfolding find_orig
found-LeadsTo zero db t e = cc
found-LeadsTo (suc fuel) db t {orig_tx} e = elim (Option-cases t.orig_tx_id) [
  | inl alone ↦
      let e' = rw (alone, find_orig) at e in
      let same : t ≡ orig_tx = cc in subst (LeadsTo db t) same (begins alone)
  | inr (orig, names) ↦ elim (Outcome-cases (get_transaction db orig)) [
    | inl (row, found) ↦
        replaces orig names found
          (found-LeadsTo fuel db row (sym (find_orig-step fuel db t row orig names found) ∙ e))
    | inr (inl (error, failed)) ↦ let bad = rw (names, failed, find_orig) at e in cc
    | inr (inr panics) ↦ let bad = rw (names, panics, find_orig) at e in cc
  ]
]

begins_here :
    (fuel : ℕ) (db : Db) (t : TxDbObj)
    → t.orig_tx_id ≡ none
    → find_orig (suc fuel) db t ≡ some (ok t)
unfolding find_orig
begins_here fuel db t alone = rw alone

LeadsTo-found :
    (fuel : ℕ) (db : Db) {t orig_tx : TxDbObj}
    → All IsDescending db.txs
    → IsDescending t
    → t.id < fuel
    → LeadsTo db t orig_tx
    → find_orig fuel db t ≡ some (ok orig_tx)
LeadsTo-found zero db {t} all newer h leads = absurd (omega arith)
LeadsTo-found (suc fuel) db {t} all newer h (begins alone) = begins_here fuel db t alone
LeadsTo-found (suc fuel) db {t} all newer h (replaces {row = row} orig names found leads) =
    let below : orig < t.id = subst (IsNewer t.id) names newer in
    let (is_id, newer') = get_transaction-IsDescending db orig all found in
    find_orig-step fuel db t row orig names found
    ∙ LeadsTo-found fuel db all newer' (omega arith) leads

-- Let every row of the database that replaces another, and the given one, have a greater id than
-- the row it replaces. Then the loop finds a row exactly when the chain of replacements leads to
-- it: each row of the chain names the next, and the row found replaces none.
pub find_orig-LeadsTo :
    (db : Db) (t orig_tx : TxDbObj)
    → All IsDescending db.txs
    → IsDescending t
    → (find_orig (suc t.id) db t ≡ some (ok orig_tx)) ↔ LeadsTo db t orig_tx
find_orig-LeadsTo db t orig_tx all newer =
    (found-LeadsTo (suc t.id) db t, LeadsTo-found (suc t.id) db all newer (omega arith))
