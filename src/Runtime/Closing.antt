-- ===== src/Runtime/Closing.antt =====
-- What `close_deposit` of crates/erc20_payment_lib/src/runtime.rs leaves in the table of transfers.
use mathlib.Core.Option
use erc20_payment_lib.Prelude.{
  ℕ, ◌<◌, ◌≡◌, refl, String, List, [], ◌∷◌, ◌++◌, Bool, true, false, ◌&&◌, Option, none, some, ok,
  ltb, ◌==◌, length, arith, Bool-cases, inl, inr, fail_if-eq_ok, >>-eq-ok, if◌then◌else◌, ◌⊎◌,
  str_eq, str_eq_iff, subst, sym, ◌∙◌,
}
use erc20_payment_lib.Error.{Result, custom_error}
use erc20_payment_lib.Text.{Codec}
use erc20_payment_lib.Db.{
  Db, TokenTransferDbObj, select, update_where, order_by, insert_by,
  get_token_transfers_by_deposit_id, update_token_transfer, insert_token_transfer, is_null,
  opt_str_is,
}
use erc20_payment_lib.Node.{Hex}
use erc20_payment_lib.Runtime.Deposits.{
  CloseDepositOptionsInt, DepositDetails, close_deposit, queue_close, mark_close, close_marker,
  candidate_for_mark_close, newer, any_finishing, check_spender,
}

-- A payment of the deposit, of the chain.
abbrev pub is_of : ℕ → String → TokenTransferDbObj → Bool
is_of chain_id id t = t.chain_id == chain_id && opt_str_is t.deposit_id id

-- A row that closes the deposit, among the rows.
abbrev pub IsClosing : ℕ → String → TokenTransferDbObj → Type 0
IsClosing chain_id id t = (is_of chain_id id t ≡ true) × (t.deposit_finish ≡ 1)

abbrev pub Any : (TokenTransferDbObj → Type 0) → List TokenTransferDbObj → Type 0
Any P [] = ⊥
Any P (t ∷ ts) = P t ⊎ Any P ts

and_third : (a b c : Bool) → (a && b) ≡ true → c ≡ true → (a && b && c) ≡ true
and_third true true c h e = e
and_third true false c h e = cc
and_third false b c h e = cc

is_one : (n : ℕ) → n ≡ 1 → (n == 1) ≡ true
is_one n h = ground arith

pub closing_counts :
    (chain_id : ℕ) (id : String) (ts : List TokenTransferDbObj)
    → Any (IsClosing chain_id id) ts
    → 0
      < length (
          select
            (λ t. t.chain_id == chain_id && opt_str_is t.deposit_id id && t.deposit_finish == 1)
            ts)
unfolding select
closing_counts chain_id id [] h = absurd h
closing_counts chain_id id (t ∷ ts) (inl (of, finish)) =
    let e =
      and_third (t.chain_id == chain_id) (opt_str_is t.deposit_id id) (t.deposit_finish == 1) of
        (is_one t.deposit_finish finish) in
    rw e (omega arith)
closing_counts chain_id id (t ∷ ts) (inr later) =
    let ih = closing_counts chain_id id ts later in
    elim (Bool-cases
      (t.chain_id == chain_id && opt_str_is t.deposit_id id && t.deposit_finish == 1)) [
        | inl e ↦ rw e (omega arith)
        | inr e ↦ rw e ih
      ]

Any-append :
    (P : TokenTransferDbObj → Type 0) (ts : List TokenTransferDbObj) (t : TokenTransferDbObj)
    → P t
    → Any P (ts ++ t ∷ [])
Any-append P [] t h = inl h
Any-append P (s ∷ ts) t h = inr (Any-append P ts t h)

newer-cases :
    (best : Option TokenTransferDbObj) (s : TokenTransferDbObj)
    → (newer best s ≡ s) ⊎ (best ≡ some (newer best s))
newer-cases none s = inl refl
newer-cases (some old) s = elim (Bool-cases (ltb old.id s.id)) [
  | inl e ↦ inl (rw e)
  | inr e ↦ inr (rw e)
]

-- The candidate is the one so far, or one of the rows.
candidate-Any :
    (best : Option TokenTransferDbObj) (ts : List TokenTransferDbObj) {t : TokenTransferDbObj}
    → candidate_for_mark_close best ts ≡ some t
    → (best ≡ some t) ⊎ Any (λ s. s ≡ t) ts
unfolding candidate_for_mark_close
candidate-Any best [] h = inl h
candidate-Any best (s ∷ ts) {t} h =
    elim (candidate-Any (if is_null s.tx_id then some (newer best s) else best) ts h) [
      | inr later ↦ inr (inr later)
      | inl now ↦ elim (Bool-cases (is_null s.tx_id)) [
        | inr e ↦ inl (rw e at now)
        | inl e ↦
            let now' : some (newer best s) ≡ some t = rw e at now in
            let same = Option.some-injective (newer best s) t now' in
            elim (newer-cases best s) [
              | inl is_s ↦ inr (inl (sym is_s ∙ same))
              | inr is_best ↦ inl (is_best ∙ now')
            ]
      ]
    ]

module _ (P : TokenTransferDbObj → Type 0)
    (before : TokenTransferDbObj → TokenTransferDbObj → Bool) where
  Any-insert_by :
      (x : TokenTransferDbObj) (ys : List TokenTransferDbObj)
      → Any P (insert_by before x ys)
      → P x ⊎ Any P ys
  unfolding insert_by
  Any-insert_by x [] h = h
  Any-insert_by x (y ∷ ys) h = elim (Bool-cases (before y x)) [
    | inl e ↦ elim (rw e at h) [
      | inl here ↦ inr (inl here)
      | inr later ↦ elim (Any-insert_by x ys later) [
        | inl here ↦ inl here
        | inr rest ↦ inr (inr rest)
      ]
    ]
    | inr e ↦ rw e at h
  ]

  Any-order_by : (ys : List TokenTransferDbObj) → Any P (order_by before ys) → Any P ys
  unfolding order_by
  Any-order_by [] h = h
  Any-order_by (y ∷ ys) h = elim (Any-insert_by y (order_by before ys) h) [
    | inl here ↦ inl here
    | inr later ↦ inr (Any-order_by ys later)
  ]

Any-select :
    (P : TokenTransferDbObj → Type 0) (p : TokenTransferDbObj → Bool) (ys : List TokenTransferDbObj)
    → Any P (select p ys)
    → Any (λ y. P y × (p y ≡ true)) ys
unfolding select
Any-select P p [] h = h
Any-select P p (y ∷ ys) h = elim (Bool-cases (p y)) [
  | inl e ↦ elim (rw e at h) [
    | inl here ↦ inl (here, e)
    | inr later ↦ inr (Any-select P p ys later)
  ]
  | inr e ↦ inr (Any-select P p ys (rw e at h))
]

abbrev marked : TokenTransferDbObj → TokenTransferDbObj → TokenTransferDbObj
marked t r = record t { deposit_finish = 1; create_date = r.create_date }

same_id : (n : ℕ) → (n == n) ≡ true
same_id n = ground arith

update-Closing :
    (chain_id : ℕ) (id : String) (t : TokenTransferDbObj) (ys : List TokenTransferDbObj)
    → Any (λ y. (y ≡ t) × (is_of chain_id id y ≡ true)) ys
    → Any (IsClosing chain_id id) (update_where (λ r. r.id == t.id) (marked t) ys)
unfolding update_where
update-Closing chain_id id t [] h = h
update-Closing chain_id id t (y ∷ ys) (inl (same, of)) =
    let hit : (y.id == t.id) ≡ true =
      subst (λ r. (r.id == t.id) ≡ true) (sym same) (same_id t.id) in
    let of_t : is_of chain_id id t ≡ true = subst (λ r. is_of chain_id id r ≡ true) same of in
    rw hit (inl (of_t, refl))
update-Closing chain_id id t (y ∷ ys) (inr later) = inr (update-Closing chain_id id t ys later)

module _ (c : Codec) (hex : Hex) (now chain_id from : ℕ) (opt : CloseDepositOptionsInt) where
  abbrev id : String
  id = hex.u256_to_hex opt.deposit_id

  marker-IsClosing : IsClosing chain_id id (close_marker c hex now chain_id from opt)
  unfolding close_marker
  marker-IsClosing =
      let e : str_eq id id ≡ true = (str_eq_iff id id).1 refl in (rw (same_id chain_id, e), refl)

  mark_close-Any :
      (db : Db)
      → Any
          (IsClosing chain_id id)
          (mark_close c hex now chain_id from opt
            (candidate_for_mark_close none (get_token_transfers_by_deposit_id db chain_id id))
            db).token_transfers
  unfolding update_token_transfer insert_token_transfer get_token_transfers_by_deposit_id
  mark_close-Any db =
      by_candidate
        (candidate_for_mark_close none (get_token_transfers_by_deposit_id db chain_id id)) refl
    where
      by_candidate :
          (found : Option TokenTransferDbObj)
          → candidate_for_mark_close none (get_token_transfers_by_deposit_id db chain_id id) ≡ found
          → Any
              (IsClosing chain_id id)
              (mark_close c hex now chain_id from opt found db).token_transfers
      by_candidate none e = Any-append (IsClosing chain_id id) db.token_transfers _ marker-IsClosing
      by_candidate (some t) e = elim (candidate-Any none _ e) [
        | inl bad ↦ absurd (Option.none-ne-some t bad)
        | inr found ↦ update-Closing chain_id id t db.token_transfers (
            Any-select (λ s. s ≡ t) (is_of chain_id id) db.token_transfers
              (Any-order_by (λ s. s ≡ t) _ _ found))
      ]

  pub close_deposit-Closing :
      (details : Result DepositDetails) (db : Db) {closed : Db}
      → close_deposit c hex now details chain_id from opt db ≡ ok closed
      → Any (IsClosing chain_id (hex.u256_to_hex opt.deposit_id)) closed.token_transfers
  unfolding close_deposit queue_close
  close_deposit-Closing details db {closed} h =
      let (_, _, h1) =
        >>-eq-ok (if opt.skip_deposit_check then ok tt else check_spender details from) _ h in
      let current = get_token_transfers_by_deposit_id db chain_id id in
      let made =
        mark_close c hex now chain_id from opt (candidate_for_mark_close none current) db in
      let (_, h2) = fail_if-eq_ok (any_finishing current) (custom_error _) (ok made) h1 in
      let same : made ≡ closed = cc in
      subst (λ (d : Db). Any (IsClosing chain_id id) d.token_transfers) same (mark_close-Any db)
