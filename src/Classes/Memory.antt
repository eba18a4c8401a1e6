-- ===== src/Classes/Memory.antt =====
-- CreateJMethodIDsForClass and run_profiler's loop of src/entry.cc, and addProgressPoint of
-- src/profiler.cc, with the memory that JVMTI hands out in them.
use jcoz.Base.{
  ℕ, Bool, true, false, not, ◌||◌, List, [], ◌∷◌, ◌++◌, Option, none, some, ◌==◌, if◌then◌else◌,
  Result, ok, halt, ◌>>=◌, exits, fault, progress_point_not_set,
}
use jcoz.Base.Int.{ℤ}
use jcoz.Text.{Bytes}
use jcoz.Frame.{LineEntry}
use jcoz.Scope.{is_in_allowed_scope, is_progress_class}
use jcoz.Progress.{Progress, LineTables, set_breakpoint, find_line}
use jcoz.Classes.{Classes, Class, add_in_scope_methods, release_if}
use jcoz.Jvmti.{Jvmti, scoped}

abbrev pub is_some {ℓ} : {A : Type ℓ} → Option A → Bool
is_some none = false
is_some (some a) = true

-- The loops of addProgressPoint: each round has a scoped pointer for the line table of its method.
abbrev pub point_in : ℤ → ℕ → Option (List LineEntry) → Option (ℕ × ℤ)
point_in lineno m none = none
point_in lineno m (some entries) = elim (find_line lineno entries) [
  | none ↦ none
  | some location ↦ some (m, location)
]

abbrev pub or_later :
    Option (ℕ × ℤ) × Jvmti
    → (Jvmti → Result (Option (ℕ × ℤ) × Jvmti))
    → Result (Option (ℕ × ℤ) × Jvmti)
or_later (some point, j) later = ok (some point, j)
or_later (none, j) later = later j

unfoldable pub find_point_in : ℤ → LineTables → List ℕ → Jvmti → Result (Option (ℕ × ℤ) × Jvmti)
find_point_in lineno tables [] j = ok (none, j)
find_point_in lineno tables (m ∷ ms) j =
    scoped (is_some (tables m)) (λ k. ok (point_in lineno m (tables m), k)) j
    >>= (λ r. or_later r (λ k. find_point_in lineno tables ms k))

abbrev pub set_point : Progress → Option (ℕ × ℤ) × Jvmti → Result (Progress × Jvmti)
set_point p (none, j) = halt (exits progress_point_not_set)
set_point p (some (m, location), j) = ok (
  record p {
    progress_point = record (p.progress_point) { method_id = m; location = location };
    calls = p.calls ++ set_breakpoint m location ∷ [];
  },
  j,
)

unfoldable pub add_progress_point_in :
    Progress → LineTables → List ℕ → Jvmti → Result (Progress × Jvmti)
unfolding find_point_in
add_progress_point_in p tables methods j =
    if p.end_to_end || not (p.progress_point.method_id == 0)
    then ok (p, j)
    else find_point_in p.progress_point.lineno tables methods j >>= set_point p

abbrev pub set_progress : Classes → Progress × Jvmti → Result (Classes × Jvmti)
set_progress c (q, k) = ok (record c { progress = q }, k)

unfoldable pub prepare_methods_in :
    LineTables → Classes → Bytes → List ℕ → Jvmti → Result (Classes × Jvmti)
unfolding add_progress_point_in
prepare_methods_in tables c ksig methods j =
    let scope =
      if is_in_allowed_scope c.ignored_scopes c.search_scopes ksig
      then record c { in_scope_ids = add_in_scope_methods c.in_scope_ids methods }
      else c in
    if is_progress_class c.progress_class ksig
    then add_progress_point_in c.progress tables methods j >>= set_progress scope
    else ok (scope, j)

-- The two blocks with a pointer for the signature.
abbrev pub failed_block : Class → Classes → Bool → Jvmti → Result (Classes × Jvmti)
failed_block class c release k =
    ok (elim class.signature [ none ↦ c | some ksig ↦ release_if release c ], k)

abbrev pub release_in : Bool → Classes × Jvmti → Result (Classes × Jvmti)
release_in release (c, k) = ok (release_if release c, k)

abbrev pub methods_block :
    LineTables → Class → Classes → Bool → List ℕ → Jvmti → Result (Classes × Jvmti)
methods_block tables class c release methods k = elim class.signature [
  | none ↦ halt fault
  | some ksig ↦ prepare_methods_in tables c ksig methods k >>= release_in release
]

abbrev pub ids_block :
    LineTables → Class → Classes → Bool → Option (List ℕ) → Jvmti → Result (Classes × Jvmti)
ids_block tables class c release none k =
    scoped (is_some class.signature) (failed_block class c release) k
ids_block tables class c release (some methods) k =
    scoped (is_some class.signature) (methods_block tables class c release methods) k

-- create_ids_locked with its scoped pointers
unfoldable pub create_ids_in :
    LineTables → Classes → Class → Bool → Jvmti → Result (Classes × Jvmti)
unfolding prepare_methods_in
create_ids_in tables c class release j =
    scoped (is_some class.methods) (ids_block tables class c release class.methods) j
