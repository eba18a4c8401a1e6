-- ===== src/Classes/GivenBack.antt =====
-- The memory that JVMTI hands out is given back by CreateJMethodIDsForClass and addProgressPoint, and
-- the scoped pointers change nothing else, src/entry.cc and src/profiler.cc.
use jcoz.Base.{
  ℕ, ◌≡◌, refl, ap, ◌∙◌, Bool, not, ◌||◌, List, [], ◌∷◌, ◌++◌, Option, none, some, ◌==◌, if-both,
  Result, ok, halt, ◌>>=◌, exits, fault, progress_point_not_set, arith, inl, inr, Bool-cases,
}
use jcoz.Base.Int.{ℤ}
use jcoz.Text.{Bytes}
use jcoz.Scope.{is_progress_class}
use jcoz.Progress.{Progress, LineTables, set_breakpoint, find_line, find_point, add_progress_point}
use jcoz.Classes.{Classes, Class, release_if, prepare_methods, create_ids_locked}
use jcoz.Jvmti.{Jvmti, scoped}
use jcoz.Jvmti.Laws.{IsFresh, Balanced, Same-refl, scoped-Balanced, >>=-Balanced}
use jcoz.Jvmti.{forget}
use jcoz.Jvmti.Laws.{forget-scoped, forget-bind}
use jcoz.Classes.Memory.{
  is_some, point_in, or_later, find_point_in, set_point, add_progress_point_in, prepare_methods_in,
  release_in, methods_block, ids_block, create_ids_in,
}

or_later-Balanced :
    (o : Option (ℕ × ℤ)) (k : Jvmti) (later : Jvmti → Result (Option (ℕ × ℤ) × Jvmti))
    → Balanced k (later k)
    → Balanced k (or_later (o, k) later)
or_later-Balanced none k later h = h
or_later-Balanced (some (m, location)) k later h = Same-refl k

find_point-Balanced :
    (lineno : ℤ) (tables : LineTables) (ms : List ℕ) (j : Jvmti)
    → IsFresh j
    → Balanced j (find_point_in lineno tables ms j)
unfolding find_point_in
find_point-Balanced lineno tables [] j a = Same-refl j
find_point-Balanced lineno tables (m ∷ ms) j a =
    >>=-Balanced j _ (λ r. or_later r (λ k. find_point_in lineno tables ms k)) a
      (scoped-Balanced (is_some (tables m)) _ j a (λ k b. Same-refl k))
      (λ o k b. or_later-Balanced o k _ (find_point-Balanced lineno tables ms k b))

abbrev set_found : Progress → Option (ℕ × ℤ) → Result Progress
set_found p none = halt (exits progress_point_not_set)
set_found p (some (m, location)) = ok (record p {
  progress_point = record (p.progress_point) { method_id = m; location = location };
  calls = p.calls ++ set_breakpoint m location ∷ [];
})

set_point-Balanced :
    (p : Progress) (o : Option (ℕ × ℤ)) (k : Jvmti) → Balanced k (set_point p (o, k))
set_point-Balanced p none k = tt
set_point-Balanced p (some (m, location)) k = Same-refl k

add_point-Balanced :
    (p : Progress) (tables : LineTables) (methods : List ℕ) (j : Jvmti)
    → IsFresh j
    → Balanced j (add_progress_point_in p tables methods j)
unfolding add_progress_point_in
add_point-Balanced p tables methods j a =
    if-both (Balanced j) (p.end_to_end || not (p.progress_point.method_id == 0)) _ _ (Same-refl j) (
      >>=-Balanced j _ (set_point p) a
        (find_point-Balanced p.progress_point.lineno tables methods j a)
        (λ o k b. set_point-Balanced p o k))

prepare-Balanced :
    (tables : LineTables) (c : Classes) (ksig : Bytes) (methods : List ℕ) (j : Jvmti)
    → IsFresh j
    → Balanced j (prepare_methods_in tables c ksig methods j)
unfolding prepare_methods_in
prepare-Balanced tables c ksig methods j a =
    if-both (Balanced j) (is_progress_class c.progress_class ksig) _ _
      (>>=-Balanced j _ _ a (add_point-Balanced c.progress tables methods j a)
        (λ q k b. Same-refl k))
      (Same-refl j)

methods-Balanced :
    (tables : LineTables) (class : Class) (c : Classes) (release : Bool) (methods : List ℕ)
    (sig : Option Bytes) (k : Jvmti)
    → class.signature ≡ sig
    → IsFresh k
    → Balanced k (methods_block tables class c release methods k)
methods-Balanced tables class c release methods none k e a = rw e tt
methods-Balanced tables class c release methods (some ksig) k e a = rw e (
    >>=-Balanced k _ (release_in release) a (prepare-Balanced tables c ksig methods k a)
      (λ q i b. Same-refl i))

ids-Balanced :
    (tables : LineTables) (class : Class) (c : Classes) (release : Bool) (methods : Option (List ℕ))
    (k : Jvmti)
    → IsFresh k
    → Balanced k (ids_block tables class c release methods k)
ids-Balanced tables class c release none k a =
    scoped-Balanced (is_some class.signature) _ k a (λ i b. Same-refl i)
ids-Balanced tables class c release (some methods) k a =
    scoped-Balanced (is_some class.signature) _ k a
      (λ i b. methods-Balanced tables class c release methods class.signature i refl b)

pub create_ids-Balanced :
    (tables : LineTables) (c : Classes) (class : Class) (release : Bool) (j : Jvmti)
    → IsFresh j
    → Balanced j (create_ids_in tables c class release j)
unfolding create_ids_in
create_ids-Balanced tables c class release j a =
    scoped-Balanced (is_some class.methods) _ j a
      (λ k b. ids-Balanced tables class c release class.methods k b)

-- The memory aside, they do what the definitions without it do.
abbrev or_rest : Option (ℕ × ℤ) → Option (ℕ × ℤ) → Option (ℕ × ℤ)
or_rest none rest = rest
or_rest (some point) rest = some point

find_point_next :
    (lineno : ℤ) (tables : LineTables) (m : ℕ) (ms : List ℕ)
    → or_rest (point_in lineno m (tables m)) (find_point lineno tables ms)
      ≡ find_point lineno tables (m ∷ ms)
unfolding find_point find_line
find_point_next lineno tables m ms = ground arith

forget-or_later :
    (o rest : Option (ℕ × ℤ)) (k : Jvmti) (later : Jvmti → Result (Option (ℕ × ℤ) × Jvmti))
    → forget (later k) ≡ ok rest
    → forget (or_later (o, k) later) ≡ ok (or_rest o rest)
forget-or_later none rest k later h = h
forget-or_later (some (m, location)) rest k later h = refl

forget-find_point :
    (lineno : ℤ) (tables : LineTables) (ms : List ℕ) (j : Jvmti)
    → forget (find_point_in lineno tables ms j) ≡ ok (find_point lineno tables ms)
unfolding find_point_in find_point
forget-find_point lineno tables [] j = refl
forget-find_point lineno tables (m ∷ ms) j =
    forget-bind (scoped (is_some (tables m)) (λ k. ok (point_in lineno m (tables m), k)) j)
      (λ r. or_later r (λ k. find_point_in lineno tables ms k)) (ok (point_in lineno m (tables m)))
      (λ o. ok (or_rest o (find_point lineno tables ms)))
      (forget-scoped (is_some (tables m)) _ j _ (λ k. refl))
      (λ o k. forget-or_later o _ k _ (forget-find_point lineno tables ms k))
    ∙ ap ok (find_point_next lineno tables m ms)

forget-set_point :
    (p : Progress) (o : Option (ℕ × ℤ)) (k : Jvmti) → forget (set_point p (o, k)) ≡ set_found p o
forget-set_point p none k = refl
forget-set_point p (some (m, location)) k = refl

forget-add_point :
    (p : Progress) (tables : LineTables) (methods : List ℕ) (j : Jvmti)
    → forget (add_progress_point_in p tables methods j) ≡ add_progress_point p tables methods
unfolding add_progress_point_in add_progress_point
forget-add_point p tables methods j =
    let set_now =
      forget-bind (find_point_in p.progress_point.lineno tables methods j) (set_point p)
        (ok (find_point p.progress_point.lineno tables methods)) (set_found p)
        (forget-find_point p.progress_point.lineno tables methods j) (forget-set_point p) in
    ground (arith, set_now)

forget-prepare :
    (tables : LineTables) (c : Classes) (ksig : Bytes) (methods : List ℕ) (j : Jvmti)
    → forget (prepare_methods_in tables c ksig methods j) ≡ prepare_methods tables c ksig methods
unfolding prepare_methods_in prepare_methods
forget-prepare tables c ksig methods j =
    elim (Bool-cases (is_progress_class c.progress_class ksig)) [
      | inl set ↦ rw set (
          forget-bind (add_progress_point_in c.progress tables methods j) _
            (add_progress_point c.progress tables methods) _
            (forget-add_point c.progress tables methods j) (λ q k. refl))
      | inr other ↦ rw other refl
    ]

abbrev with_sig : LineTables → Classes → Bool → List ℕ → Option Bytes → Result Classes
with_sig tables c release methods none = halt fault
with_sig tables c release methods (some ksig) =
    prepare_methods tables c ksig methods >>= (λ q. ok (release_if release q))

forget-methods :
    (tables : LineTables) (class : Class) (c : Classes) (release : Bool) (methods : List ℕ)
    (sig : Option Bytes) (k : Jvmti)
    → class.signature ≡ sig
    → forget (methods_block tables class c release methods k)
      ≡ with_sig tables c release methods class.signature
forget-methods tables class c release methods none k e = rw e refl
forget-methods tables class c release methods (some ksig) k e = rw e (
    forget-bind (prepare_methods_in tables c ksig methods k) (release_in release)
      (prepare_methods tables c ksig methods) _ (forget-prepare tables c ksig methods k)
      (λ q i. refl))

forget-ids :
    (tables : LineTables) (class : Class) (c : Classes) (release : Bool) (methods : Option (List ℕ))
    (k : Jvmti)
    → class.methods ≡ methods
    → forget (ids_block tables class c release methods k) ≡ create_ids_locked tables c class release
unfolding create_ids_locked
forget-ids tables class c release none k e =
    rw e (forget-scoped (is_some class.signature) _ k _ (λ i. ground arith))
forget-ids tables class c release (some methods) k e = rw e (
    forget-scoped (is_some class.signature) _ k _
      (λ i. forget-methods tables class c release methods class.signature i refl)
    ∙ ground arith)

forget-create_ids :
    (tables : LineTables) (c : Classes) (class : Class) (release : Bool) (j : Jvmti)
    → forget (create_ids_in tables c class release j) ≡ create_ids_locked tables c class release
unfolding create_ids_in
forget-create_ids tables c class release j =
    forget-scoped (is_some class.methods) _ j _
      (λ k. forget-ids tables class c release class.methods k refl)

-- The body of CreateJMethodIDsForClass with its scoped pointers, those of the line tables included:
-- whatever JVMTI answers, if it comes to its end, on any of its paths, then all that JVMTI handed
-- out has been given back, no call of Deallocate was in error, and it has done what the body does
-- with the memory left aside. The pointers that are handed out at first are none of those that come
-- later.
pub create_ids_lem :
    (tables : LineTables) (c : Classes) (class : Class) (release : Bool) (j : Jvmti)
    → IsFresh j
    → Balanced j (create_ids_in tables c class release j)
      × (forget (create_ids_in tables c class release j) ≡ create_ids_locked tables c class release)
create_ids_lem tables c class release j a =
    (create_ids-Balanced tables c class release j a, forget-create_ids tables c class release j)
