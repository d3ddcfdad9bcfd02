-- ===== src/Runtime/Status/Issues.antt =====
-- The status list of the tracker against a map from each problem to its latest report.
use erc20_payment_lib.Prelude.{
  ℕ, String, ◌≡◌, refl, ap, sym, ◌∙◌, inl, inr, List, [], ◌∷◌, Option, none, some, Bool, true,
  false, ◌&&◌, ◌==◌, str_eq, str_eq_iff, Bool-cases, if◌then◌else◌, arith, ◌↔◌,
}
use erc20_payment_lib.Db.{select, delete_where, first}
use erc20_payment_lib.Events.{StatusProperty, cant_sign, web3_rpc_error, tx_stuck}
use erc20_payment_lib.Runtime.Status.{merge, update, chain_of, clear_issues}

-- What a problem is about: its kind, its chain, and its account where it has one.
abbrev pub kind : StatusProperty → ℕ
kind (cant_sign id addr) = 0
kind (StatusProperty.no_gas id addr missing) = 1
kind (StatusProperty.no_token id addr missing) = 2
kind (web3_rpc_error id message) = 3
kind (tx_stuck id) = 4

abbrev pub account : StatusProperty → String
account (cant_sign id addr) = addr
account (StatusProperty.no_gas id addr missing) = addr
account (StatusProperty.no_token id addr missing) = addr
account (web3_rpc_error id message) = ""
account (tx_stuck id) = ""

abbrev pub same_issue : StatusProperty → StatusProperty → Bool
same_issue p q = kind p == kind q && chain_of p == chain_of q && str_eq (account p) (account q)

-- `update` answers whether the report carries a value.
abbrev pub has_value : StatusProperty → Bool
has_value (cant_sign id addr) = false
has_value (StatusProperty.no_gas id addr missing) = true
has_value (StatusProperty.no_token id addr missing) = true
has_value (web3_rpc_error id message) = true
has_value (tx_stuck id) = false

merge-eq :
    (old new : StatusProperty)
    → merge old new ≡ (if same_issue old new then some (new, has_value new) else none)
unfolding merge
merge-eq (cant_sign id1 a1) (cant_sign id2 a2) = ground (arith, str_eq_iff a1 a2)
merge-eq (StatusProperty.no_gas id1 a1 old) (StatusProperty.no_gas id2 a2 new) =
    ground (arith, str_eq_iff a1 a2)
merge-eq (StatusProperty.no_token id1 a1 old) (StatusProperty.no_token id2 a2 new) =
    ground (arith, str_eq_iff a1 a2)
merge-eq (web3_rpc_error id1 err1) (web3_rpc_error id2 err2) = ground arith
merge-eq (tx_stuck id1) (tx_stuck id2) = ground arith
merge-eq _ _ = refl

same_issue_iff :
    (p q : StatusProperty)
    → (same_issue p q ≡ true)
      ↔ ((kind p ≡ kind q) × (chain_of p ≡ chain_of q) × (account p ≡ account q))
same_issue_iff p q = ground (arith, str_eq_iff (account p) (account q))

-- The report on the problem of `q`.
abbrev pub lookup : List StatusProperty → StatusProperty → Option StatusProperty
lookup props q = first (select (same_issue q) props)

lookup-cons :
    (p q : StatusProperty) (props : List StatusProperty)
    → lookup (p ∷ props) q ≡ (if same_issue q p then some p else lookup props q)
unfolding select
lookup-cons p q props = ground arith

pub same_issue-replace :
    (o p q : StatusProperty) → same_issue o p ≡ true → same_issue q o ≡ same_issue q p
same_issue-replace o p q h =
    let (k, c, a) = (same_issue_iff o p).0 h in rw (k, c, a, same_issue) refl

pub same_issue-replace_left :
    (o p q : StatusProperty) → same_issue o p ≡ true → same_issue p q ≡ same_issue o q
same_issue-replace_left o p q h =
    let (k, c, a) = (same_issue_iff o p).0 h in rw (k, c, a, same_issue) refl

swap_tests :
    (o p q : StatusProperty) (r : Option StatusProperty)
    → same_issue o p ≡ false
    → (if same_issue q o then some o else (if same_issue q p then some p else r))
      ≡ (if same_issue q p then some p else (if same_issue q o then some o else r))
swap_tests o p q r e =
    let clash : same_issue q o ≡ true → same_issue q p ≡ true → same_issue o p ≡ true = λ a b.
      let (k, c, n) = (same_issue_iff q o).0 a in
      let (k', c', n') = (same_issue_iff q p).0 b in
      (same_issue_iff o p).1 (sym k ∙ k', sym c ∙ c', sym n ∙ n') in
    elim (Bool-cases (same_issue q o)) [
      | inl a ↦ elim (Bool-cases (same_issue q p)) [
        | inl b ↦ let both = clash a b in cc
        | inr b ↦ rw (a, b) refl
      ]
      | inr a ↦ rw a refl
    ]

pub update-cons :
    (o p : StatusProperty) (props : List StatusProperty)
    → update (o ∷ props) p ≡ (
        if same_issue o p
        then (p ∷ props, has_value p)
        else (o ∷ (update props p).0, (update props p).1))
unfolding update
update-cons o p props =
    ap
      (λ m. elim m [
        | some (kept, changed) ↦ (kept ∷ props, changed)
        | none ↦ (o ∷ (update props p).0, (update props p).1)
      ])
      (merge-eq o p)
    ∙ ground arith

pub lookup-update :
    (props : List StatusProperty) (p q : StatusProperty)
    → lookup (update props p).0 q ≡ (if same_issue q p then some p else lookup props q)
unfolding update
lookup-update [] p q = lookup-cons p q []
lookup-update (o ∷ props) p q = elim (Bool-cases (same_issue o p)) [
  | inl e ↦
      ap (λ u. lookup u.0 q) (update-cons o p props)
      ∙ rw e (
          lookup-cons p q props
          ∙ (rw (lookup-cons o q props, same_issue-replace o p q e) (ground arith)))
  | inr e ↦
      ap (λ u. lookup u.0 q) (update-cons o p props)
      ∙ rw e (
          lookup-cons o q (update props p).0
          ∙ (rw (lookup-cons o q props, lookup-update props p q) (swap_tests o p q _ e)))
]

delete-cons {ℓ} :
    {A : Type ℓ} (f : A → Bool) (x : A) (xs : List A)
    → delete_where f (x ∷ xs) ≡ (if f x then delete_where f xs else x ∷ delete_where f xs)
unfolding delete_where select
delete-cons f x xs = ground arith

same_chain :
    (q o : StatusProperty) (c : ℕ) → same_issue q o ≡ true → (chain_of q == c) ≡ (chain_of o == c)
same_chain q o c h = let (k, e, n) = (same_issue_iff q o).0 h in rw e refl

pub lookup-clear_issues :
    (props : List StatusProperty) (c : ℕ) (q : StatusProperty)
    → lookup (clear_issues props c).0 q ≡ (if chain_of q == c then none else lookup props q)
unfolding clear_issues delete_where select
lookup-clear_issues [] c q = ground arith
lookup-clear_issues (o ∷ props) c q = elim (Bool-cases (chain_of o == c)) [
  | inl e ↦
      ap (λ u. lookup u q) (delete-cons (λ s. chain_of s == c) o props)
      ∙ rw (e, lookup-cons o q props)
          (lookup-clear_issues props c q ∙ ground (arith, same_chain q o c))
  | inr e ↦
      ap (λ u. lookup u q) (delete-cons (λ s. chain_of s == c) o props)
      ∙ rw (e, lookup-cons o q props)
          (lookup-cons o q (clear_issues props c).0
            ∙ rw (lookup-clear_issues props c q) (ground (arith, same_chain q o c)))
]
