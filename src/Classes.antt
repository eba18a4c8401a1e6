-- ===== src/Classes.antt =====
-- The preparation of classes in src/entry.cc (CreateJMethodIDsForClass with its lock, OnClassPrepare,
-- the loop of run_profiler) and the set of methods in scope of src/profiler.cc. What JVMTI answers
-- about a class is an argument.
pub mod Lock
pub mod Methods
pub mod Loaded
pub mod Brings
pub mod Brought
pub mod Armed
pub mod Memory
pub mod GivenBack
use jcoz.Base.{
  ℕ, ◌+◌, ◌-◌, ◌%◌, ◌^◌, ltb, Bool, true, false, not, List, [], ◌∷◌, Option, none, some, ◌==◌,
  if◌then◌else◌, Result, ok, halt, ◌>>=◌, fault,
}
use jcoz.Text.{Bytes}
use jcoz.Scope.{is_in_allowed_scope, is_progress_class}
use jcoz.Profiler.{insert}
use jcoz.Progress.{Progress, LineTables, add_progress_point, clear_progress_point}

-- `class_prep_lock` has the bits of an int, 0 or those of the thread that holds it.
pub record Classes : Type 0 where
  pub running : Bool
  pub search_scopes : List Bytes
  pub ignored_scopes : List Bytes
  pub progress_class : Bytes
  pub in_scope_ids : List ℕ
  pub progress : Progress
  pub class_prep_lock : ℕ

-- GetClassMethods and GetClassSignature; `none` is an error, and leaves a null pointer.
pub record Class : Type 0 where
  pub methods : Option (List ℕ)
  pub signature : Option Bytes

-- addInScopeMethods, within its lock
unfoldable pub add_in_scope_methods : List ℕ → List ℕ → List ℕ
add_in_scope_methods ids [] = ids
add_in_scope_methods ids (m ∷ methods) = add_in_scope_methods (insert m ids) methods

-- A pthread_t as the `int` that class_prep_lock is, and that int as the pthread_t it is compared to:
-- the low 32 bits, by their sign.
abbrev pub narrow : ℕ → ℕ
narrow thread = thread % 2 ^ 32

abbrev pub widen : ℕ → ℕ
widen lock = if ltb lock (2 ^ 31) then lock else lock + (2 ^ 64 - 2 ^ 32)

-- acquireCreateLock by thread `self`: the lock, and whether it was taken now. `none`: the loop spins,
-- as the lock is not 0.
unfoldable pub acquire_create_lock : ℕ → ℕ → Option (ℕ × Bool)
acquire_create_lock lock self =
    if widen lock == self
    then some (lock, false)
    else if lock == 0
    then some (narrow self, true)
    else none

abbrev pub release_if : Bool → Classes → Classes
release_if release c = if release then record c { class_prep_lock = 0 } else c

-- The branch in which the methods are known. A null signature is used as a text.
unfoldable pub prepare_methods : LineTables → Classes → Bytes → List ℕ → Result Classes
unfolding add_in_scope_methods
prepare_methods tables c ksig methods =
    let scoped =
      if is_in_allowed_scope c.ignored_scopes c.search_scopes ksig
      then record c { in_scope_ids = add_in_scope_methods c.in_scope_ids methods }
      else c in
    if is_progress_class c.progress_class ksig
    then add_progress_point c.progress tables methods >>= (λ q. ok (record scoped { progress = q }))
    else ok scoped

-- The body of CreateJMethodIDsForClass behind the lock. If the signature cannot be had for the
-- message either, JVMTI_ERROR returns before the lock is released.
unfoldable pub create_ids_locked : LineTables → Classes → Class → Bool → Result Classes
create_ids_locked tables c class release = elim class.methods [
  | none ↦ elim class.signature [ none ↦ ok c | some ksig ↦ ok (release_if release c) ]
  | some methods ↦ elim class.signature [
    | none ↦ halt fault
    | some ksig ↦ prepare_methods tables c ksig methods >>= (λ q. ok (release_if release q))
  ]
]

-- CreateJMethodIDsForClass on thread `self`; `none`: it waits for the lock.
unfoldable pub create_jmethod_ids : LineTables → ℕ → Classes → Class → Option (Result Classes)
unfolding acquire_create_lock
create_jmethod_ids tables self c class =
    if not c.running then some (ok c) else elim (acquire_create_lock c.class_prep_lock self) [
      | none ↦ none
      | some (lock, release) ↦
          some (create_ids_locked tables (record c { class_prep_lock = lock }) class release)
    ]

abbrev pub and_then :
    Option (Result Classes) → (Classes → Option (Result Classes)) → Option (Result Classes)
and_then none next = none
and_then (some (halt reason)) next = some (halt reason)
and_then (some (ok c)) next = next c

-- The loop of run_profiler over the loaded classes
unfoldable pub load_classes : LineTables → ℕ → Classes → List Class → Option (Result Classes)
load_classes tables self c [] = some (ok c)
load_classes tables self c (class ∷ classes) =
    and_then (create_jmethod_ids tables self c class) (λ q. load_classes tables self q classes)
