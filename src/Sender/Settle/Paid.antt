-- ===== src/Sender/Settle/Paid.antt =====
-- What `update_token_transfer_result` of sender/service.rs stores for a confirmed transaction.
use mathlib.Core.Option
use erc20_payment_lib.Prelude.{
  ℕ, ◌+◌, ◌-◌, ◌*◌, ◌/◌, ◌≤◌, ◌<◌, ◌^◌, ◌≡◌, ◌≢◌, refl, ap, ◌∙◌, List, [], ◌∷◌, map, Option, none,
  some, String, not, length, All, ok, arith,
}
use erc20_payment_lib.Text.{Codec, IsCodec, u256_mod}
use erc20_payment_lib.Db.{
  Db, TxDbObj, TokenTransferDbObj, DistinctTransfers, select, get_token_transfers_by_tx, update_tx,
}
use erc20_payment_lib.Events.{transfer_finished}
use erc20_payment_lib.Sender.Fees.{
  sum, fee_list, sum-fee_list, length-fee_list, distribute_fee_run, share_fits, left-lt,
}
use erc20_payment_lib.Sender.Settle.{
  Settled, confirmed, transfer_fees, update_token_transfer_result, confirm_token_transfers,
  pay_transfers,
}
use erc20_payment_lib.Sender.Settle.Rows.{settle, paid_list, pay_transfers-settle, of_tx}

-- The sum of the fees stored with the transfers, if each has one that can be read.
abbrev pub add_fee : Option ℕ → Option ℕ → Option ℕ
add_fee none n = none
add_fee (some m) n = Option.map (λ k. m + k) n

abbrev pub read_fee : Codec → Option String → Option ℕ
read_fee c none = none
read_fee c (some text) = c.from_dec_str text

abbrev pub paid_total : Codec → List TokenTransferDbObj → Option ℕ
paid_total c [] = some 0
paid_total c (t ∷ tts) = add_fee (read_fee c t.fee_paid) (paid_total c tts)

abbrev pub IsPaid : ℕ → TokenTransferDbObj → Type 0
IsPaid now t = t.paid_date ≡ some now

module _ (c : Codec) (now k : ℕ) where
  settle-others :
      (fees : List (Option ℕ)) (rows : List TokenTransferDbObj)
      → select (λ t. not (of_tx k t)) (settle c now k fees rows)
        ≡ select (λ t. not (of_tx k t)) rows
  unfolding settle select
  settle-others fees [] = refl
  settle-others [] (r ∷ rows) = ground (arith, settle-others [] rows)
  settle-others (fee ∷ fees) (r ∷ rows) =
      ground (arith, settle-others fees rows, settle-others (fee ∷ fees) rows)

  settle-IsPaid :
      (fees : List ℕ) (rows : List TokenTransferDbObj)
      → length fees ≡ length (select (of_tx k) rows)
      → All (IsPaid now) (select (of_tx k) (settle c now k (map some fees) rows))
  unfolding settle select
  settle-IsPaid fees [] h = tt
  settle-IsPaid [] (r ∷ rows) h = ground (arith, settle-IsPaid [] rows)
  settle-IsPaid (fee ∷ fees) (r ∷ rows) h =
      ground (arith, settle-IsPaid fees rows, settle-IsPaid (fee ∷ fees) rows)

  settle-paid_total :
      IsCodec c
      → (fees : List ℕ) (rows : List TokenTransferDbObj) → sum fees < u256_mod
      → length fees ≡ length (select (of_tx k) rows)
      → paid_total c (select (of_tx k) (settle c now k (map some fees) rows)) ≡ some (sum fees)
  unfolding settle select
  settle-paid_total laws [] [] b h = refl
  settle-paid_total laws (fee ∷ fees) [] b h = absurd (omega arith)
  settle-paid_total laws [] (r ∷ rows) b h = ground (arith, settle-paid_total laws [] rows)
  settle-paid_total laws (fee ∷ fees) (r ∷ rows) b h = ground (
    arith,
    laws.dec_roundtrip fee,
    settle-paid_total laws fees rows,
    settle-paid_total laws (fee ∷ fees) rows,
  )

-- What a confirmed transaction leaves, once its fees are known.
abbrev pub settled : Codec → ℕ → TxDbObj → Db → List (Option ℕ) → Settled
settled c now tx db fees =
    let tx' = record tx { processing = 0 } in
    record {
      tx = tx';
      db =
          update_tx tx'
            (record db { token_transfers = settle c now tx.id fees db.token_transfers });
      events =
          map (λ p. transfer_finished (record { token_transfer_dao = p; tx_dao = tx' }))
            (paid_list c now (get_token_transfers_by_tx db tx.id) fees);
    }

confirm_lem :
    (c : Codec) (now : ℕ) (tx : TxDbObj) (tts : List TokenTransferDbObj) (db : Db) {db' : Db}
    {paid : List TokenTransferDbObj} {fees : List (Option ℕ)}
    → tts ≢ []
    → transfer_fees c tx.fee_paid tts ≡ ok fees
    → pay_transfers c now tts fees db ≡ (db', paid)
    → let tx' = record tx { processing = 0 } in
      confirm_token_transfers c now tx tts db
      ≡ ok (record {
        tx = tx';
        db = update_tx tx' db';
        events =
            map (λ p. transfer_finished (record { token_transfer_dao = p; tx_dao = tx' })) paid;
      })
unfolding confirm_token_transfers
confirm_lem c now tx [] db ne h e = absurd (ne refl)
confirm_lem c now tx (t ∷ tts) db ne h e = rw (h, e)

pub confirm_run :
    (c : Codec) (now : ℕ) (tx : TxDbObj) (db : Db) (fees : List (Option ℕ))
    → DistinctTransfers db.token_transfers
    → get_token_transfers_by_tx db tx.id ≢ []
    → transfer_fees c tx.fee_paid (get_token_transfers_by_tx db tx.id) ≡ ok fees
    → update_token_transfer_result c now tx db confirmed ≡ ok (settled c now tx db fees)
unfolding update_token_transfer_result get_token_transfers_by_tx
confirm_run c now tx db fees d ne h =
    confirm_lem c now tx (select (of_tx tx.id) db.token_transfers) db ne h
      (pay_transfers-settle c now tx.id fees db d)

-- The fees that the code gives to `n` transfers for a fee of `fee`.
abbrev pub fees_of : ℕ → ℕ → List ℕ
fees_of n fee = fee_list n (fee - n * (fee / n)) (fee / n)

length_pos {ℓ} : {A : Type ℓ} (xs : List A) → xs ≢ [] → 0 < length xs
length_pos [] h = absurd (h refl)
length_pos (x ∷ xs) h = omega arith

sum-fees_of : (n fee : ℕ) → 0 < n → sum (fees_of n fee) ≡ fee
sum-fees_of n fee h =
    sum-fee_list n (fee - n * (fee / n)) (fee / n) (omega (arith, left-lt fee n h))
    ∙ omega (arith, share_fits fee n)

transfer_fees_run :
    (c : Codec) (tts : List TokenTransferDbObj) {text : String} (o : Option String) (fee : ℕ)
    → o ≡ some text
    → c.from_dec_str text ≡ some fee
    → tts ≢ []
    → length tts ≤ 2 ^ 64
    → fee < u256_mod
    → transfer_fees c o tts ≡ ok (map some (fees_of (length tts) fee))
unfolding transfer_fees
transfer_fees_run c tts o fee e p ne small fits =
    rw (e, p, transfer_fees) (distribute_fee_run fee tts (length_pos tts ne) small fits)

-- Once a transaction is confirmed with a fee that can be read, its transfers (there are some) are
-- all paid, and the fees stored with them add up to exactly that fee; the other transfers are as
-- before, and the transaction is stored as no longer processed. The fee is a U256, the number of
-- its transfers at most 2^64, the ids of the transfers differ, and number texts read back.
pub confirmed_pays_fee :
    (c : Codec) (now : ℕ) (tx : TxDbObj) (db : Db) {text : String} (fee : ℕ)
    → IsCodec c
    → DistinctTransfers db.token_transfers
    → tx.fee_paid ≡ some text
    → c.from_dec_str text ≡ some fee
    → fee < u256_mod
    → get_token_transfers_by_tx db tx.id ≢ []
    → length (get_token_transfers_by_tx db tx.id) ≤ 2 ^ 64
    → (s : Settled) × (update_token_transfer_result c now tx db confirmed ≡ ok s)
      × All (IsPaid now) (get_token_transfers_by_tx s.db tx.id)
      × (paid_total c (get_token_transfers_by_tx s.db tx.id) ≡ some fee)
      × (select (λ t. not (of_tx tx.id t)) s.db.token_transfers
          ≡ select (λ t. not (of_tx tx.id t)) db.token_transfers)
      × (s.db.txs ≡ (update_tx (record tx { processing = 0 }) db).txs)
unfolding get_token_transfers_by_tx update_tx
confirmed_pays_fee c now tx db fee laws d e p fits ne small =
    let rows = db.token_transfers in
    let n = length (select (of_tx tx.id) rows) in
    let pos : 0 < n = length_pos (select (of_tx tx.id) rows) ne in
    let fees = fees_of n fee in
    let total : sum fees ≡ fee = sum-fees_of n fee pos in
    let count : length fees ≡ n = length-fee_list n (fee - n * (fee / n)) (fee / n) in
    (
      settled c now tx db (map some fees),
      confirm_run c now tx db (map some fees) d ne
          (transfer_fees_run c (select (of_tx tx.id) rows) tx.fee_paid fee e p ne small fits),
      settle-IsPaid c now tx.id fees rows count,
      settle-paid_total c now tx.id laws fees rows (rw total fits) count ∙ ap some total,
      settle-others c now tx.id (map some fees) rows,
      refl,
    )
