-- ===== src/Sender/Batching/Groups.antt =====
-- What `gather_transactions_pre` puts into the groups.
use erc20_payment_lib.Prelude.{
  ℕ, String, ◌≡◌, refl, ap, sym, subst, ◌∙◌, inl, inr, List, [], ◌∷◌, ◌++◌, Option, none, some,
  Bool, true, false, not, ◌&&◌, ◌==◌, Bool-cases, Option-cases, if◌then◌else◌, str_eq_iff, ok,
  ok_or, >>=-eq-ok, Outcome-cases, arith,
}
use erc20_payment_lib.Db.{Db, TokenTransferDbObj, select, get_pending_token_transfers}
use erc20_payment_lib.Transaction.{Env, create_close_deposit}
use erc20_payment_lib.Sender.Setup.{PaymentSetup}
use erc20_payment_lib.Sender.Batching.Keys.{
  TokenTransferKey, TokenTransferMap, opt_str_eq, key_eq, key_of, push_group, group_of,
}
use erc20_payment_lib.Sender.Batching.Pre.{
  Gathered, is_close_request, lock_address, close_deposit_of, group_transfer, gather_checked,
  gather_transfer, gather_all, gather_transactions_pre,
}

opt_str_eq-eq : (a b : Option String) → opt_str_eq a b ≡ true → a ≡ b
opt_str_eq-eq none none h = refl
opt_str_eq-eq (some s) (some t) h = ap some ((str_eq_iff s t).0 h)
opt_str_eq-eq none (some t) h = cc
opt_str_eq-eq (some s) none h = cc

and_parts : (a b : Bool) → (a && b) ≡ true → (a ≡ true) × (b ≡ true)
and_parts true true h = (refl, refl)
and_parts true false h = cc
and_parts false b h = cc

key_eq-eq : (a b : TokenTransferKey) → key_eq a b ≡ true → a ≡ b
unfolding key_eq
key_eq-eq a b h =
    let (h4, deposit) = and_parts _ _ h in
    let (h3, token) = and_parts _ _ h4 in
    let (h2, chain) = and_parts _ _ h3 in
    let (from, receiver) = and_parts _ _ h2 in
    let p1 = (str_eq_iff a.from_addr b.from_addr).0 from in
    let p2 = (str_eq_iff a.receiver_addr b.receiver_addr).0 receiver in
    let p3 : a.chain_id ≡ b.chain_id = ground (arith, chain) in
    let p4 = opt_str_eq-eq a.token_addr b.token_addr token in
    let p5 = opt_str_eq-eq a.deposit_id b.deposit_id deposit in
    λ i. record {
      from_addr = p1 i;
      receiver_addr = p2 i;
      chain_id = p3 i;
      token_addr = p4 i;
      deposit_id = p5 i;
    }

append_none : (xs : List TokenTransferDbObj) → xs ++ [] ≡ xs
append_none [] = refl
append_none (x ∷ xs) = ap (◌∷◌ x) (append_none xs)

append_test :
    (xs : List TokenTransferDbObj) (b : Bool) (x : TokenTransferDbObj)
    (ys : List TokenTransferDbObj)
    → (xs ++ (if b then x ∷ [] else [])) ++ ys ≡ xs ++ (if b then x ∷ ys else ys)
append_test [] true x ys = refl
append_test [] false x ys = refl
append_test (z ∷ xs) b x ys = ap (◌∷◌ z) (append_test xs b x ys)

apart :
    (j key k : TokenTransferKey) → key_eq j key ≡ false → key_eq j k ≡ true → key_eq key k ≡ false
apart j key k e here = elim (Bool-cases (key_eq key k)) [
  | inl same ↦
      let through : key_eq j key ≡ true =
        subst (λ x. key_eq j x ≡ true) (sym (key_eq-eq key k same)) here in
      let bad : true ≡ false = sym through ∙ e in cc
  | inr other ↦ other
]

-- A push goes to the group of its key, and to no other.
group_of-push :
    (key k : TokenTransferKey) (f : TokenTransferDbObj) (m : TokenTransferMap)
    → group_of k (push_group key f m) ≡ group_of k m ++ (if key_eq key k then f ∷ [] else [])
unfolding push_group
group_of-push key k f [] = ground arith
group_of-push key k f ((j, v) ∷ m) = elim (Bool-cases (key_eq j key)) [
  | inl e ↦
      let same : key_eq j k ≡ key_eq key k = ap (λ x. key_eq x k) (key_eq-eq j key e) in
      rw (e, same)
        (elim (Bool-cases (key_eq key k)) [
          | inl here ↦ rw here refl
          | inr other ↦ rw other (sym (append_none (group_of k m)))
        ])
  | inr e ↦ rw e (elim (Bool-cases (key_eq j k)) [
    | inl here ↦
        let other : key_eq key k ≡ false = apart j key k e here in
        rw (here, other) (sym (append_none v))
    | inr there ↦ rw there (group_of-push key k f m)
  ])
]

abbrev pub is_some : Option String → Bool
is_some none = false
is_some (some d) = true

module _ (env : Env) (setup : PaymentSetup) where
  -- The text is an address, and not the zero address.
  abbrev pub is_account : String → Bool
  is_account text = elim (env.codec.address_from_str text) [ none ↦ false | some a ↦ not (a == 0) ]

  -- A transfer between accounts that is no request to close a deposit.
  abbrev pub is_payment : TokenTransferDbObj → Bool
  is_payment f =
      is_account f.from_addr
      && not (is_some f.deposit_id && is_close_request env setup f)
      && is_account f.receiver_addr

  account_none : {text : String} → env.codec.address_from_str text ≡ none → is_account text ≡ false
  account_none e = rw (e, is_account) refl

  account_some :
      {text : String} {a : ℕ} (b : Bool)
      → env.codec.address_from_str text ≡ some a
      → (a == 0) ≡ b
      → is_account text ≡ not b
  account_some b e z = rw (e, z, is_account) refl

  -- The groups after one transfer.
  abbrev grouped : Bool → TokenTransferDbObj → TokenTransferMap → TokenTransferMap
  grouped b f m = if b then push_group (key_of f) f m else m

  group_transfer-map :
      (f : TokenTransferDbObj) (s : Gathered) {s' : Gathered}
      → group_transfer env setup f s ≡ ok s'
      → s'.transfer_map ≡ grouped (is_account f.receiver_addr) f s.transfer_map
  unfolding group_transfer
  group_transfer-map f s h = elim (Option-cases (env.codec.address_from_str f.receiver_addr)) [
    | inl none_there ↦
        let e = rw (none_there, group_transfer) at h in rw (account_none none_there) (cc)
    | inr (a, there) ↦ elim (Bool-cases (a == 0)) [
      | inl zero ↦
          let e = rw (there, zero, group_transfer) at h in rw (account_some true there zero) (cc)
      | inr account ↦
          let e = rw (there, account, group_transfer) at h in
          rw (account_some false there account) (cc)
    ]
  ]

  close_deposit_of-map :
      (from : ℕ) (deposit_id : String) (f : TokenTransferDbObj) (s : Gathered) {s' : Gathered}
      → close_deposit_of env setup from deposit_id f s ≡ ok s'
      → s'.transfer_map ≡ s.transfer_map
  unfolding close_deposit_of
  close_deposit_of-map from deposit_id f s h =
      let (id, _, h1) = >>=-eq-ok (ok_or (env.codec.u256_from_str deposit_id) _) _ h in
      let (lock, _, h2) = >>=-eq-ok (lock_address env setup f.chain_id) _ h1 in
      let (tx, _, h3) = >>=-eq-ok (create_close_deposit env from lock f.chain_id none id) _ h2 in cc

  gather_checked-map :
      (from : ℕ) (d : Option String) (f : TokenTransferDbObj) (s : Gathered) {s' : Gathered}
      → gather_checked env setup from d f s ≡ ok s'
      → s'.transfer_map
        ≡ grouped
            (not (is_some d && is_close_request env setup f) && is_account f.receiver_addr)
            f
            s.transfer_map
  unfolding gather_checked
  gather_checked-map from none f s h = group_transfer-map f s h
  gather_checked-map from (some d) f s h = elim (Bool-cases (is_close_request env setup f)) [
    | inl e ↦ rw e (close_deposit_of-map from d f s (rw e at h))
    | inr e ↦ rw e (group_transfer-map f s (rw e at h))
  ]

  gather_transfer-map :
      (f : TokenTransferDbObj) (s : Gathered) {s' : Gathered}
      → gather_transfer env setup f s ≡ ok s'
      → s'.transfer_map ≡ grouped (is_payment f) f s.transfer_map
  unfolding gather_transfer
  gather_transfer-map f s h = elim (Option-cases (env.codec.address_from_str f.from_addr)) [
    | inl none_there ↦
        let e = rw (none_there, gather_transfer) at h in rw (account_none none_there) (cc)
    | inr (a, there) ↦ elim (Bool-cases (a == 0)) [
      | inl zero ↦
          let e = rw (there, zero, gather_transfer) at h in rw (account_some true there zero) (cc)
      | inr account ↦
          let e = rw (there, account, gather_transfer) at h in
          rw (account_some false there account) (gather_checked-map a f.deposit_id f s e)
    ]
  ]

  gather_transfer-group :
      (k : TokenTransferKey) (f : TokenTransferDbObj) (s : Gathered) {s' : Gathered}
      → gather_transfer env setup f s ≡ ok s'
      → group_of k s'.transfer_map
        ≡ group_of k s.transfer_map ++ (if is_payment f && key_eq (key_of f) k then f ∷ [] else [])
  gather_transfer-group k f s h =
      ap (group_of k) (gather_transfer-map f s h) ∙ (elim (Bool-cases (is_payment f)) [
        | inl e ↦ rw e (group_of-push (key_of f) k f s.transfer_map)
        | inr e ↦ rw e (sym (append_none (group_of k s.transfer_map)))
      ])

  gather_all-group :
      (k : TokenTransferKey) (fs : List TokenTransferDbObj) (s : Gathered) {s' : Gathered}
      {m : TokenTransferMap}
      → gather_all env setup fs s ≡ (s', ok m)
      → group_of k m
        ≡ group_of k s.transfer_map ++ select (λ f. is_payment f && key_eq (key_of f) k) fs
  unfolding gather_all select
  gather_all-group k [] s {s'} {m} h =
      let same : s.transfer_map ≡ m =
        (let both : ok s.transfer_map ≡ ok m = ap (λ r. r.1) h in cc) in
      ap (group_of k) (sym same) ∙ sym (append_none (group_of k s.transfer_map))
  gather_all-group k (f ∷ fs) s h = elim (Outcome-cases (gather_transfer env setup f s)) [
    | inl (s1, first) ↦
        gather_all-group k fs s1 (rw (first, gather_all) at h)
        ∙ ap (λ xs. xs ++ select (λ f. is_payment f && key_eq (key_of f) k) fs)
            (gather_transfer-group k f s first)
        ∙ append_test (group_of k s.transfer_map) (is_payment f && key_eq (key_of f) k) f _
    | inr (inl (e, stops)) ↦ let bad = rw (stops, gather_all) at h in cc
    | inr (inr stops) ↦ let bad = rw (stops, gather_all) at h in cc
  ]

  -- When the pending transfers have been gathered without an error, the group of a key holds, in
  -- the order of their ids, exactly the pending transfers with that key that go from an account to
  -- an account (an address that is not zero) and do not ask to close a deposit.
  pub gathered_groups :
      (account : String) (chain_id : ℕ) (db : Db) (needed : Bool) {s : Gathered}
      {m : TokenTransferMap} (k : TokenTransferKey)
      → gather_transactions_pre env setup account chain_id db needed ≡ (s, ok m)
      → group_of k m
        ≡ select
            (λ f. is_payment f && key_eq (key_of f) k)
            (get_pending_token_transfers db account chain_id)
  unfolding gather_transactions_pre
  gathered_groups account chain_id db needed k h =
      gather_all-group k (get_pending_token_transfers db account chain_id)
        (record { db = db; transfer_map = []; process_tx_needed = needed }) h
