-- ===== src/World.antt =====
-- What the sender's code changes: the database, the messages that the web server shows, and the
-- channel of driver events. `Run` is code that works on them and may fail: an error keeps what
-- was changed before it.
use erc20_payment_lib.Prelude.{
  ℕ, Bool, true, false, String, List, [], ◌∷◌, ◌++◌, Option, none, some, ◌==◌, if◌then◌else◌, ok,
  err, panic, ◌≡◌, refl, ap,
}
use erc20_payment_lib.Error.{PaymentError, Result}
use erc20_payment_lib.Db.{Db}
use erc20_payment_lib.Events.{SharedInfoTx, DriverEventContent}

-- `SharedState` of crates/erc20_payment_lib/src/runtime.rs, less the accounts, the faucet and the
-- pool. A map is a function to an option.
pub record SharedState : Type 0 where
  pub current_tx_info : ℕ → Option SharedInfoTx
  pub idling : Bool

pub record World : Type 0 where
  pub db : Db
  pub shared : SharedState
  pub events : List DriverEventContent

abbrev pub Run {ℓ} : Type ℓ → Type ℓ
Run A = World → World × Result A

module _ {ℓ} {A : Type ℓ} where
  abbrev pub pure : A → Run A
  pure a w = (w, ok a)

  -- A call that changes nothing and may fail.
  abbrev pub lift : Result A → Run A
  lift m w = (w, m)

  abbrev pub raise : PaymentError → Run A
  raise e w = (w, err e)

module _ {ℓ κ} {A : Type ℓ} {B : Type κ} where
  abbrev pub continue_with : World × Result A → (A → Run B) → World × Result B
  continue_with (w, panic) next = (w, panic)
  continue_with (w, err e) next = (w, err e)
  continue_with (w, ok a) next = next a w

  abbrev pub ◌>>=◌ : Run A → (A → Run B) → Run B
  ◌>>=◌ m next w = continue_with (m w) next

abbrev pub ◌>>◌ {ℓ} : {B : Type ℓ} → Run (Unit {0}) → Run B → Run B
m >> next = m >>= λ _. next

infixl 5 ◌>>=◌ ◌>>◌
module _ {ℓ κ} {A : Type ℓ} {B : Type κ} where
  -- A chain of runs that ends well went through a value of its first part.
  pub continue_with-eq_ok :
      (first : World × Result A) (next : A → Run B) {w : World} {last : B}
      → continue_with first next ≡ (w, ok last)
      → (middle : World) × (value : A) × (first ≡ (middle, ok value))
        × (next value middle ≡ (w, ok last))
  continue_with-eq_ok (middle, panic) next h = let bad = ap (λ r. r.1) h in cc
  continue_with-eq_ok (middle, err e) next h = let bad = ap (λ r. r.1) h in cc
  continue_with-eq_ok (middle, ok value) next h = (middle, value, refl, h)

  pub lift-eq_ok :
      (m : Result A) (next : A → Run B) {w w' : World} {last : B}
      → continue_with (w, m) next ≡ (w', ok last)
      → (value : A) × (m ≡ ok value) × (next value w ≡ (w', ok last))
  lift-eq_ok panic next h = let bad = ap (λ r. r.1) h in cc
  lift-eq_ok (err e) next h = let bad = ap (λ r. r.1) h in cc
  lift-eq_ok (ok value) next h = (value, refl, h)

abbrev pub gets {ℓ} : {A : Type ℓ} → (World → A) → Run A
gets read w = (w, ok (read w))

-- A statement on the database.
abbrev pub change_db : (Db → Db) → Run (Unit {0})
change_db f w = (record w { db = f w.db }, ok tt)

unfoldable pub send_driver_event : DriverEventContent → Run (Unit {0})
send_driver_event event w = (record w { events = w.events ++ event ∷ [] }, ok tt)

abbrev pub change_info : (SharedInfoTx → SharedInfoTx) → ℕ → SharedState → SharedState
change_info f id s = record s {
  current_tx_info =
      λ i. if i == id then some (f (info (s.current_tx_info i))) else s.current_tx_info i;
}
  where
    info : Option SharedInfoTx → SharedInfoTx
    info none = record { message = ""; error = none; skip = false }
    info (some known) = known

unfoldable pub set_tx_message : ℕ → String → SharedState → SharedState
set_tx_message id message = change_info (λ i. record i { message = message }) id

unfoldable pub set_tx_error : ℕ → Option String → SharedState → SharedState
set_tx_error id error = change_info (λ i. record i { error = error }) id

-- The second part: whether the transaction was there.
unfoldable pub skip_tx : ℕ → SharedState → SharedState × Bool
skip_tx id s = elim (s.current_tx_info id) [
  | none ↦ (s, false)
  | some info ↦ (change_info (λ i. record i { skip = true }) id s, true)
]

unfoldable pub is_skipped : ℕ → SharedState → Bool
is_skipped id s = elim (s.current_tx_info id) [ none ↦ false | some info ↦ info.skip ]

unfoldable pub delete_tx_info : ℕ → SharedState → SharedState
delete_tx_info id s = record s {
  current_tx_info = λ i. if i == id then none else s.current_tx_info i;
}

abbrev pub change_shared : (SharedState → SharedState) → Run (Unit {0})
change_shared f w = (record w { shared = f w.shared }, ok tt)

abbrev pub set_message : ℕ → String → Run (Unit {0})
set_message id message = change_shared (set_tx_message id message)

abbrev pub set_error : ℕ → Option String → Run (Unit {0})
set_error id error = change_shared (set_tx_error id error)
