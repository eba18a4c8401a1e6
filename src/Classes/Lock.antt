-- ===== src/Classes/Lock.antt =====
-- The lock around the preparation of a class, src/entry.cc.
use jcoz.Base.{
  ℕ, ◌^◌, ◌≤◌, ◌<◌, ◌==◌, ◌≡◌, ◌≢◌, refl, ap, ◌∙◌, sym, ◌⊎◌, inl, inr, Bool, true, false, List,
  none, some, if◌then◌else◌, Option-cases, arith, ok, ◌>>=◌, >>=-eq-ok, ok-injective,
}
use jcoz.Text.{Bytes}
use jcoz.Progress.{LineTables}
use jcoz.Classes.{
  Classes, Class, narrow, widen, acquire_create_lock, release_if, prepare_methods,
  create_ids_locked, create_jmethod_ids,
}

-- JVMTI gives the class's methods or its signature.
abbrev pub IsKnown : Class → Type 0
IsKnown class = (class.methods ≢ none) ⊎ (class.signature ≢ none)

-- Preparing the methods does not touch the lock.
prepare_methods_lock :
    (tables : LineTables) (c q : Classes) (ksig : Bytes) (methods : List ℕ)
    → prepare_methods tables c ksig methods ≡ ok q
    → q.class_prep_lock ≡ c.class_prep_lock
unfolding prepare_methods
prepare_methods_lock tables c q ksig methods h = ground arith

released :
    (release : Bool) (q : Classes)
    → (release_if release q).class_prep_lock ≡ (if release then 0 else q.class_prep_lock)
released true q = refl
released false q = refl

locked_some :
    (tables : LineTables) (c q : Classes) (ksig : Bytes) (methods : List ℕ) (release : Bool)
    → (prepare_methods tables c ksig methods >>= (λ r. ok (release_if release r))) ≡ ok q
    → q.class_prep_lock ≡ (if release then 0 else c.class_prep_lock)
locked_some tables c q ksig methods release h =
    let (r, e, f) = >>=-eq-ok (prepare_methods tables c ksig methods) _ h in
    sym (ap (λ (x : Classes). x.class_prep_lock) (ok-injective _ q f))
    ∙ released release r
    ∙ ap (λ n. if release then 0 else n) (prepare_methods_lock tables c r ksig methods e)

-- Behind the lock: it is released if it was taken for this class.
create_ids_locked_lock :
    (tables : LineTables) (c q : Classes) (class : Class) (release : Bool)
    → IsKnown class
    → create_ids_locked tables c class release ≡ ok q
    → q.class_prep_lock ≡ (if release then 0 else c.class_prep_lock)
unfolding create_ids_locked
create_ids_locked_lock tables c q class release k h = elim (Option-cases class.methods) [
  | inl m ↦ elim (Option-cases class.signature) [
    | inl s ↦ absurd (ground arith)
    | inr (ksig, s) ↦
        sym (
          ap (λ (x : Classes). x.class_prep_lock)
            (ok-injective (release_if release c) q (ground (arith, h))))
        ∙ released release c
  ]
  | inr (methods, m) ↦ elim (Option-cases class.signature) [
    | inl s ↦ absurd (ground arith)
    | inr (ksig, s) ↦
        locked_some tables c q ksig methods release (rw (m, create_ids_locked, s) at h)
  ]
]

pub create_cases :
    (tables : LineTables) (self : ℕ) (c q : Classes) (class : Class)
    → create_jmethod_ids tables self c class ≡ some (ok q)
    → (c ≡ q)
      ⊎ (create_ids_locked tables c class false ≡ ok q)
      ⊎ ((c.class_prep_lock ≡ 0)
          × (create_ids_locked tables (record c { class_prep_lock = narrow self }) class true
              ≡ ok q))
unfolding create_jmethod_ids
create_cases tables self c q class e = ground arith

-- When a class of which JVMTI gives the methods or the signature has been prepared, the lock is as
-- it was before, whether it was taken for the class or held already.
pub create_jmethod_ids_lock :
    (tables : LineTables) (self : ℕ) (c q : Classes) (class : Class)
    → IsKnown class
    → create_jmethod_ids tables self c class ≡ some (ok q)
    → q.class_prep_lock ≡ c.class_prep_lock
create_jmethod_ids_lock tables self c q class k e = elim (create_cases tables self c q class e) [
  | inl same ↦ ap (λ (x : Classes). x.class_prep_lock) (sym same)
  | inr (inl f) ↦ create_ids_locked_lock tables c q class false k f
  | inr (inr (free, f)) ↦ create_ids_locked_lock tables _ q class true k f ∙ sym free
]

-- A pthread_t of a 64-bit process: an address past the range of an int, and of user space.
abbrev pub IsPthread : ℕ → Type 0
IsPthread thread = (2 ^ 32 ≤ thread) × (thread < 2 ^ 63)

widen_other : (lock thread : ℕ) → IsPthread thread → (widen lock == thread) ≡ false
widen_other lock thread (low, high) = ground arith

-- No thread of a 64-bit process gets past a lock that is taken.
acquire_create_lock_taken :
    (lock thread : ℕ) → lock ≢ 0 → IsPthread thread → acquire_create_lock lock thread ≡ none
unfolding acquire_create_lock
acquire_create_lock_taken lock thread taken h = rw (widen_other lock thread h) (ground arith)

acquire_create_lock_free :
    (thread : ℕ) → IsPthread thread → acquire_create_lock 0 thread ≡ some (narrow thread, true)
unfolding acquire_create_lock
acquire_create_lock_free thread h = rw (widen_other 0 thread h)

create_waits :
    (tables : LineTables) (self : ℕ) (c : Classes) (class : Class)
    → c.running ≡ true
    → c.class_prep_lock ≢ 0
    → IsPthread self
    → create_jmethod_ids tables self c class ≡ none
unfolding create_jmethod_ids
create_waits tables self c class run taken h =
    rw (run, create_jmethod_ids, acquire_create_lock_taken c.class_prep_lock self taken h)

pub create_free :
    (tables : LineTables) (self : ℕ) (c : Classes) (class : Class)
    → c.running ≡ true
    → c.class_prep_lock ≡ 0
    → IsPthread self
    → create_jmethod_ids tables self c class
      ≡ some (create_ids_locked tables (record c { class_prep_lock = narrow self }) class true)
unfolding create_jmethod_ids
create_free tables self c class run free h =
    let taken : acquire_create_lock c.class_prep_lock self ≡ some (narrow self, true) =
      ap (λ lock. acquire_create_lock lock self) free ∙ acquire_create_lock_free self h in
    ground (arith, taken)

create_ids_unknown :
    (tables : LineTables) (c : Classes) (class : Class) (release : Bool)
    → (class.methods ≡ none) × (class.signature ≡ none)
    → create_ids_locked tables c class release ≡ ok c
unfolding create_ids_locked
create_ids_unknown tables c class release (m, s) = rw (m, create_ids_locked, s)

-- If JVMTI gives neither the methods nor the signature of a class, a running profiler that took the
-- free lock returns with the lock taken, and every thread then waits for it with any class. Threads
-- are pthread_t values from 2^32 to 2^63, and the low 32 bits of the first are not 0.
pub create_jmethod_ids_leak :
    (tables : LineTables) (self other : ℕ) (c : Classes) (class later : Class)
    → (c.running ≡ true) × (c.class_prep_lock ≡ 0)
    → (narrow self ≢ 0) × IsPthread self × IsPthread other
    → (class.methods ≡ none) × (class.signature ≡ none)
    → let leaked = record c { class_prep_lock = narrow self } in
      (create_jmethod_ids tables self c class ≡ some (ok leaked))
      × (create_jmethod_ids tables other leaked later ≡ none)
create_jmethod_ids_leak tables self other c class later (run, free) (bits, own, foreign) unknown = (
  create_free tables self c class run free own
      ∙ ap some (
          create_ids_unknown tables (record c { class_prep_lock = narrow self }) class true
            unknown),
  create_waits tables other (record c { class_prep_lock = narrow self }) later run bits foreign,
)
