-- ===== src/Prelude/Control.antt =====
-- How a Rust function ends: with a value, with an `Err`, or by a panic.
use mathlib.Core.Path.{◌≡◌, refl}
use mathlib.Core.Logic.{◌⊎◌, inl, inr}
use mathlib.Core.Option.{Option, none, some}
use mathlib.Core.Bool.{Bool, true, false}

pub data Outcome {ℓ κ} (E : Type κ) (A : Type ℓ) : Type (ℓ ⊔ κ) where
  ok : A → Outcome E A
  err : E → Outcome E A
  panic : Outcome E A

-- `?` and the combinators: what follows runs only on a value.
abbrev pub ◌>>=◌ {ℓ κ μ} :
    {E : Type μ} {A : Type ℓ} {B : Type κ} → Outcome E A → (A → Outcome E B) → Outcome E B
panic >>= next = panic
err failure >>= next = err failure
ok value >>= next = next value

-- The same where the value is not needed.
abbrev pub ◌>>◌ {ℓ κ μ} :
    {E : Type μ} {A : Type ℓ} {B : Type κ} → Outcome E A → Outcome E B → Outcome E B
panic >> next = panic
err failure >> next = err failure
ok _ >> next = next

infixl 5 ◌>>=◌ ◌>>◌
-- `ok_or`.
abbrev pub ok_or {ℓ μ} : {E : Type μ} {A : Type ℓ} → Option A → E → Outcome E A
ok_or none e = err e
ok_or (some a) e = ok a

-- `unwrap` of an option.
abbrev pub or_panic {ℓ μ} : {E : Type μ} {A : Type ℓ} → Option A → Outcome E A
or_panic none = panic
or_panic (some a) = ok a

-- An early `return Err(e)` when the test holds.
abbrev pub fail_if {μ} : {E : Type μ} → Bool → E → Outcome E (Unit {0})
fail_if false failure = ok tt
fail_if true failure = err failure

-- A chain that ends well went through a value of its first part.
pub >>=-eq-ok {ℓ κ μ} :
    {E : Type μ} {A : Type ℓ} {B : Type κ} (first : Outcome E A) (next : A → Outcome E B) {last : B}
    → (first >>= next) ≡ ok last
    → (value : A) × (first ≡ ok value) × (next value ≡ ok last)
>>=-eq-ok panic next ends = cc
>>=-eq-ok (err failure) next ends = cc
>>=-eq-ok (ok value) next ends = (value, refl, ends)

-- To split on how a call ends.
pub Outcome-cases {ℓ μ} :
    {E : Type μ} {A : Type ℓ} (m : Outcome E A)
    → ((a : A) × (m ≡ ok a)) ⊎ ((e : E) × (m ≡ err e)) ⊎ (m ≡ panic)
Outcome-cases (ok a) = inl (a, refl)
Outcome-cases (err e) = inr (inl (e, refl))
Outcome-cases panic = inr (inr refl)

-- What follows a test ends well only where the test does not hold.
pub fail_if-eq_ok {ℓ μ} :
    {E : Type μ} {A : Type ℓ} (b : Bool) (e : E) (next : Outcome E A) {last : A}
    → (fail_if b e >> next) ≡ ok last
    → (b ≡ false) × (next ≡ ok last)
fail_if-eq_ok true e next ends = cc
fail_if-eq_ok false e next ends = (refl, ends)

pub >>-eq-ok {ℓ κ μ} :
    {E : Type μ} {A : Type ℓ} {B : Type κ} (first : Outcome E A) (next : Outcome E B) {last : B}
    → (first >> next) ≡ ok last
    → (value : A) × (first ≡ ok value) × (next ≡ ok last)
>>-eq-ok panic next ends = cc
>>-eq-ok (err failure) next ends = cc
>>-eq-ok (ok value) next ends = (value, refl, ends)
