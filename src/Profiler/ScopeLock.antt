-- ===== src/Profiler/ScopeLock.antt =====
-- in_scope_lock of src/profiler.cc: addInScopeMethods and clearInScopeMethods take it, and so does the
-- handler, which can interrupt a thread that holds it.
pub mod Exclusion
use jcoz.Base.{
  ℕ, ◌≡◌, ◌≢◌, refl, sym, ap, subst, ◌∙◌, ◌⊎◌, inl, inr, Bool, true, false, Option, none, some,
  ◌==◌, ==_iff, ==_refl, if◌then◌else◌, Bool-cases, arith,
}

-- Whether a thread is between the locking and the unlocking of one of the two functions.
pub data Place : Type 0 where
  outside inside : Place

-- Where a thread is, or where its handler interrupted it, with the handler's has_lock.
pub data Mode : Type 0 where
  runs : Place → Mode
  handles : Place → Bool → Mode

pub record Lock : Type 0 where
  pub in_scope_lock : ℕ  -- a pthread_t, or 0
  pub modes : ℕ → Mode

abbrev pub moved : (ℕ → Mode) → ℕ → Mode → ℕ → Mode
moved modes t m s = if s == t then m else modes s

-- The handler's lock by thread `self`: has_lock, and the lock; `none`: it spins.
unfoldable pub enter_handler : ℕ → ℕ → Option (Bool × ℕ)
enter_handler lock self =
    if lock == self then some (true, lock) else if lock == 0 then some (false, self) else none

abbrev pub leave_handler : ℕ → Bool → ℕ
leave_handler lock has_lock = if has_lock then lock else 0

-- One step of thread `t`, whose pthread_t is not 0.
pub data Step (l : Lock) : Lock → Type 0 where
  locks :
      (t : ℕ)
      → t ≢ 0
      → l.modes t ≡ runs outside
      → l.in_scope_lock ≡ 0
      → Step l (record { in_scope_lock = t; modes = moved l.modes t (runs inside) })
  unlocks :
      (t : ℕ)
      → l.modes t ≡ runs inside
      → Step l (record { in_scope_lock = 0; modes = moved l.modes t (runs outside) })
  enters :
      (t : ℕ) (place : Place) (has_lock : Bool) (lock : ℕ)
      → t ≢ 0
      → l.modes t ≡ runs place
      → enter_handler l.in_scope_lock t ≡ some (has_lock, lock)
      → Step l (record { in_scope_lock = lock; modes = moved l.modes t (handles place has_lock) })
  leaves :
      (t : ℕ) (place : Place) (has_lock : Bool)
      → l.modes t ≡ handles place has_lock
      → Step l (record {
        in_scope_lock = leave_handler l.in_scope_lock has_lock;
        modes = moved l.modes t (runs place);
      })

pub data Steps (l : Lock) : Lock → Type 0 where
  here : Steps l l
  next : {k m : Lock} → Steps l k → Step k m → Steps l m
