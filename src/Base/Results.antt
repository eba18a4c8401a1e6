-- ===== src/Base/Results.antt =====
-- What an operation of the agent comes to: a value, or the end of the process.
use mathlib.Core.Path.{◌≡◌, refl}
use mathlib.Core.Bool.{Bool, true, false}
use mathlib.Core.Option.{some}

-- The message with which report_error or logger->critical goes before exit(1).
pub data Reason : Type 0 where
  missing_options unknown_option missing_progress_point invalid_logging_level : Reason
  missing_required progress_point_not_set unhandled_jvmti_error : Reason
  no_thread_class no_thread_init : Reason

pub data Halt : Type 0 where
  exits : Reason → Halt  -- exit(1)
  invalid_argument out_of_range : Halt  -- a standard exception that nothing catches
  assertion_fails : Halt  -- assert()
  fault : Halt  -- a null, freed or out-of-bounds access

pub data Result {ℓ} (Value : Type ℓ) : Type ℓ where
  halt : Halt → Result Value
  ok : Value → Result Value

module _ {ℓ κ} {Before : Type ℓ} {After : Type κ} where
  infixl 5 ◌>>=◌
  -- What comes next, unless the process has ended.
  abbrev pub ◌>>=◌ : Result Before → (Before → Result After) → Result After
  halt reason >>= next = halt reason
  ok value >>= next = next value

  -- Both parts of a chain that gives a value give one.
  pub >>=-eq-ok :
      (first : Result Before) (next : Before → Result After) {last : After}
      → (first >>= next) ≡ ok last
      → (value : Before) × (first ≡ ok value) × (next value ≡ ok last)
  >>=-eq-ok (halt reason) next reaches = cc
  >>=-eq-ok (ok value) next reaches = (value, refl, reaches)

pub ok-injective {ℓ} : {A : Type ℓ} (a b : A) → ok a ≡ ok b → a ≡ b
ok-injective a b h = cc

pub some-injective {ℓ} : {A : Type ℓ} (a b : A) → some a ≡ some b → a ≡ b
some-injective a b h = cc

abbrev pub is_ok {ℓ} : {A : Type ℓ} → Result A → Bool
is_ok (ok a) = true
is_ok (halt h) = false

pub is_ok-eq {ℓ} : {A : Type ℓ} (r : Result A) → is_ok r ≡ true → (a : A) × (r ≡ ok a)
is_ok-eq (ok a) h = (a, refl)
is_ok-eq (halt e) h = cc
