-- ===== src/Sender/Batching/Counted.antt =====
-- The number that `gather_transactions_post` of sender/batching.rs returns.
use erc20_payment_lib.Prelude.{
  ℕ, ◌+◌, ◌<◌, ◌≤◌, ◌≡◌, ◌≢◌, ◌⊎◌, refl, List, [], ◌∷◌, Bool, ok, arith, Bool-cases, Option-cases,
  Outcome-cases, inl, inr, ap, ◌∙◌, subst, ltb,
}
use erc20_payment_lib.Db.{Db, TokenTransferDbObj, insert_by}
use erc20_payment_lib.Transaction.{Env}
use erc20_payment_lib.Sender.Setup.{PaymentSetup}
use erc20_payment_lib.Sender.Batching.Keys.{
  TokenTransferKey, TokenTransferMultiKey, TokenTransferMultiOrder, TokenTransferMap,
}
use erc20_payment_lib.Sender.Batching.Batch.{gather_transactions_batch}
use erc20_payment_lib.Sender.Batching.MultiBatch.{gather_transactions_batch_multi}
use erc20_payment_lib.Sender.Batching.Post.{
  MultiMap, post_multi, post_groups, push_order, passed_up, mark_failed, multi_key_of, sort_groups,
  gather_transactions_post, min_id,
}

insert_by-some :
    {A : Type 0} (before : A → A → Bool) (x : A) (xs : List A) → insert_by before x xs ≢ []
unfolding insert_by
insert_by-some before x [] h = cc
insert_by-some before x (y ∷ ys) h = elim (Bool-cases (before y x)) [
  | inl e ↦ let bad = rw (e, insert_by) at h in cc
  | inr e ↦ let bad = rw (e, insert_by) at h in cc
]

sort_groups-none : (m : TokenTransferMap) → sort_groups m ≡ ok [] → m ≡ []
unfolding sort_groups
sort_groups-none [] h = refl
sort_groups-none ((key, tts) ∷ rest) h = elim (Option-cases (min_id tts)) [
  | inl e ↦ let bad = rw (e, sort_groups) at h in cc
  | inr (m, e) ↦ elim (Outcome-cases (sort_groups rest)) [
    | inl (sorted, e') ↦
        let h' = rw (e, e', sort_groups) at h in
        absurd (insert_by-some (λ (i, x, xs) (j, y, ys). ltb i j) (m, key, tts) sorted (cc))
    | inr (inl (error, e')) ↦ let bad = rw (e, e', sort_groups) at h in cc
    | inr (inr e') ↦ let bad = rw (e, e', sort_groups) at h in cc
  ]
]

module _ (env : Env) (setup : PaymentSetup) (iter_order : MultiMap → MultiMap) where
  post_multi-step :
      (key : TokenTransferMultiKey) (orders : List TokenTransferMultiOrder) (m : MultiMap) (c : ℕ)
      (db : Db) {db' : Db} {n : ℕ}
      → post_multi env setup iter_order ((key, orders) ∷ m) c db ≡ (db', ok n)
      → (c' : ℕ) × (next : Db) × (c < c')
        × (post_multi env setup iter_order m c' next ≡ (db', ok n))
  unfolding post_multi
  post_multi-step key orders m c db {db'} {n} h =
      let tried = gather_transactions_batch_multi env setup orders key db in
      elim (Outcome-cases (tried.2)) [
        | inl (done, e) ↦ (c + 2, tried.0, omega arith, rw (e, post_multi) at h)
        | inr (inl (error, e)) ↦ elim (Bool-cases (passed_up error)) [
          | inl up ↦ let bad = ap (λ r. r.1) (rw (e, up, post_multi) at h) in cc
          | inr down ↦
              (c + 1, mark_failed (tried.1) (tried.0), omega arith, rw (e, down, post_multi) at h)
        ]
        | inr (inr e) ↦ let bad = ap (λ r. r.1) (rw (e, post_multi) at h) in cc
      ]

  post_multi-grows :
      (m : MultiMap) (c : ℕ) (db : Db) {db' : Db} {n : ℕ}
      → post_multi env setup iter_order m c db ≡ (db', ok n)
      → (c ≤ n) × (n ≡ c → m ≡ [])
  unfolding post_multi
  post_multi-grows [] c db {db'} {n} h =
      let same : ok c ≡ ok n = ap (λ r. r.1) h in let same' : c ≡ n = cc in (omega arith, λ e. refl)
  post_multi-grows ((key, orders) ∷ m) c db h =
      let (c', next, more, h') = post_multi-step key orders m c db h in
      let (grows, _) = post_multi-grows m c' next h' in (omega arith, λ e. absurd (omega arith))

  push_order-some :
      (key : TokenTransferMultiKey) (o : TokenTransferMultiOrder) (m : MultiMap)
      → push_order key o m ≢ []
  unfolding push_order
  push_order-some key o [] h = cc
  push_order-some key o ((k, orders) ∷ m) h = ground arith

  post_groups-step :
      (first : ℕ × TokenTransferKey × List TokenTransferDbObj)
      (rest : List (ℕ × TokenTransferKey × List TokenTransferDbObj)) (multi : MultiMap) (c : ℕ)
      (db : Db) {db' : Db} {n : ℕ}
      → post_groups env setup iter_order (first ∷ rest) multi c db ≡ (db', ok n)
      → (multi' : MultiMap) × (c' : ℕ) × (next : Db) × ((c < c') ⊎ ((c ≡ c') × (multi' ≢ [])))
        × (post_groups env setup iter_order rest multi' c' next ≡ (db', ok n))
  unfolding post_groups
  post_groups-step (m, key, tts) rest multi c db {db'} {n} h = elim (Option-cases key.token_addr) [
    | inl gas ↦ elim (Outcome-cases (gather_transactions_batch env setup tts key db)) [
      | inl (stored, e) ↦ (multi, c + 2, stored, inl (omega arith), rw (gas, e, post_groups) at h)
      | inr (inl (error, e)) ↦ elim (Bool-cases (passed_up error)) [
        | inl up ↦ let bad = ap (λ r. r.1) (rw (gas, e, up, post_groups) at h) in cc
        | inr down ↦ (multi, c + 1, db, inl (omega arith), rw (gas, e, down, post_groups) at h)
      ]
      | inr (inr e) ↦ let bad = ap (λ r. r.1) (rw (gas, e, post_groups) at h) in cc
    ]
    | inr (token_addr, token) ↦ elim (Option-cases (env.codec.address_from_str key.receiver_addr)) [
      | inl bad_text ↦ let bad = ap (λ r. r.1) (rw (token, bad_text, post_groups) at h) in cc
      | inr (receiver, reads) ↦
          let order : TokenTransferMultiOrder = record {
            receiver = receiver;
            token_transfers = tts;
          } in
          (
            push_order (multi_key_of key) order multi,
            c,
            db,
            inr (refl, push_order-some (multi_key_of key) order multi),
            rw (token, reads, post_groups) at h,
          )
    ]
  ]

  module _ (gives_all : (m : MultiMap) → iter_order m ≡ [] → m ≡ []) where
    pub post_groups-grows :
        (groups : List (ℕ × TokenTransferKey × List TokenTransferDbObj)) (multi : MultiMap) (c : ℕ)
        (db : Db) {db' : Db} {n : ℕ}
        → post_groups env setup iter_order groups multi c db ≡ (db', ok n)
        → (c ≤ n) × (n ≡ c → (groups ≡ []) × (multi ≡ []))
    unfolding post_groups
    post_groups-grows [] multi c db h =
        let (grows, nothing) = post_multi-grows (iter_order multi) c db h in
        (grows, λ e. (refl, gives_all multi (nothing e)))
    post_groups-grows (g ∷ groups) multi c db {db'} {n} h =
        let (multi', c', next, counted, h') = post_groups-step g groups multi c db h in
        let (grows, nothing) = post_groups-grows groups multi' c' next h' in
        elim counted [
          | inl more ↦ (omega arith, λ e. absurd (omega arith))
          | inr (same, full) ↦
              (omega arith, λ e. let (_, empty) = nothing (e ∙ same) in absurd (full empty))
        ]

    -- Where it returns 0 there was no group, and the database is as it was.
    pub gather_transactions_post-zero :
        (m : TokenTransferMap) (db : Db) {db' : Db}
        → gather_transactions_post env setup iter_order m db ≡ (db', ok 0)
        → (m ≡ []) × (db ≡ db')
    unfolding gather_transactions_post post_groups post_multi
    gather_transactions_post-zero m db {db'} h = elim (Outcome-cases (sort_groups m)) [
      | inl (groups, e) ↦
          let h' = rw (e, gather_transactions_post) at h in
          let (_, nothing) = post_groups-grows groups [] 0 db h' in
          let (no_group, _) = nothing refl in
          let h2 : post_groups env setup iter_order [] [] 0 db ≡ (db', ok 0) =
            subst (λ gs. post_groups env setup iter_order gs [] 0 db ≡ (db', ok 0)) no_group h' in
          let (_, nothing') = post_multi-grows (iter_order []) 0 db h2 in
          let h3 : post_multi env setup iter_order [] 0 db ≡ (db', ok 0) =
            subst (λ o. post_multi env setup iter_order o 0 db ≡ (db', ok 0)) (nothing' refl) h2 in
          (sort_groups-none m (e ∙ ap (λ gs. ok gs) no_group), ap (λ r. r.0) h3)
      | inr (inl (error, e)) ↦ let bad = ap (λ r. r.1) (rw (e, gather_transactions_post) at h) in cc
      | inr (inr e) ↦ let bad = ap (λ r. r.1) (rw (e, gather_transactions_post) at h) in cc
    ]
