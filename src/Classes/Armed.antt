-- ===== src/Classes/Armed.antt =====
-- The breakpoint of the progress point over any classes that are prepared, src/entry.cc.
use jcoz.Base.{
  ℕ, ◌≡◌, ◌≢◌, refl, sym, ap, subst, ◌∙◌, ◌⊎◌, inl, inr, Bool, true, false, List, [], ◌∷◌, ◌++◌,
  Option, none, some, Option-cases, Bool-cases, All, All-middle, arith, ok, ok-injective, >>=-eq-ok,
}
use jcoz.Base.Int.{ℤ}
use jcoz.Text.{Bytes}
use jcoz.Scope.{is_progress_class}
use jcoz.Progress.{
  Progress, Call, set_breakpoint, clear_breakpoint, LineTables, add_progress_point,
  clear_progress_point,
}
use jcoz.Classes.{
  Classes, Class, release_if, prepare_methods, create_ids_locked, create_jmethod_ids, narrow,
  load_classes,
}
use jcoz.Progress.Laws.{with_point, add_set, add_progress_point_lem}
use jcoz.Classes.Lock.{create_cases}
use jcoz.Classes.Loaded.{and_then-ok, some_ok}

-- The breakpoint that is left, where each call follows the ones before it.
unfoldable pub left_from : Option (ℕ × ℤ) → List Call → Option (ℕ × ℤ)
left_from now [] = now
left_from now (set_breakpoint m location ∷ calls) = left_from (some (m, location)) calls
left_from now (clear_breakpoint m location ∷ calls) = left_from none calls

abbrev pub left : List Call → Option (ℕ × ℤ)
left calls = left_from none calls

left_from-++ :
    (now : Option (ℕ × ℤ)) (calls more : List Call)
    → left_from now (calls ++ more) ≡ left_from (left_from now calls) more
unfolding left_from
left_from-++ now [] more = refl
left_from-++ now (set_breakpoint m location ∷ calls) more =
    left_from-++ (some (m, location)) calls more
left_from-++ now (clear_breakpoint m location ∷ calls) more = left_from-++ none calls more

-- The breakpoint that is left is the progress point, while that is set.
abbrev pub IsArmed : Progress → Type 0
IsArmed p =
    ((p.progress_point.method_id ≡ 0) × (left p.calls ≡ none))
    ⊎ ((p.end_to_end ≡ false)
        × (p.progress_point.method_id ≢ 0)
        × (left p.calls ≡ some (p.progress_point.method_id, p.progress_point.location)))

clear_set :
    (p : Progress)
    → p.end_to_end ≡ false
    → p.progress_point.method_id ≢ 0
    → (clear_progress_point p).calls
      ≡ p.calls ++ clear_breakpoint p.progress_point.method_id p.progress_point.location ∷ []
unfolding clear_progress_point
clear_set p whole is_set = ground arith

clear_unset : (p : Progress) → p.progress_point.method_id ≡ 0 → clear_progress_point p ≡ p
unfolding clear_progress_point
clear_unset p unset = ground arith

-- Clearing the point leaves no breakpoint.
pub clear-left : (p : Progress) → IsArmed p → left (clear_progress_point p).calls ≡ none
unfolding left_from
clear-left p (inl (unset, none_left)) =
    ap (λ (x : Progress). left x.calls) (clear_unset p unset) ∙ none_left
clear-left p (inr (whole, is_set, one)) =
    ap left (clear_set p whole is_set) ∙ left_from-++ none p.calls _

add_end :
    (p : Progress) (tables : LineTables) (methods : List ℕ)
    → p.end_to_end ≡ true
    → add_progress_point p tables methods ≡ ok p
unfolding add_progress_point
add_end p tables methods h = ground arith

with_point-IsArmed :
    (p : Progress) (m : ℕ) (location : ℤ)
    → p.end_to_end ≡ false
    → m ≢ 0
    → IsArmed (with_point p m location)
unfolding left_from
with_point-IsArmed p m location whole valid = inr (whole, valid, left_from-++ none p.calls _)

add_progress_point-IsArmed :
    (p q : Progress) (tables : LineTables) (methods : List ℕ)
    → All (λ m. m ≢ 0) methods
    → add_progress_point p tables methods ≡ ok q
    → IsArmed p
    → IsArmed q
add_progress_point-IsArmed p q tables methods valid h (inr (whole, is_set, one)) =
    subst IsArmed (ok-injective p q (sym (add_set p tables methods is_set) ∙ h))
      (inr (whole, is_set, one))
add_progress_point-IsArmed p q tables methods valid h (inl (unset, none_left)) =
    elim (Bool-cases p.end_to_end) [
      | inl e ↦
          subst IsArmed (ok-injective p q (sym (add_end p tables methods e) ∙ h))
            (inl (unset, none_left))
      | inr whole ↦ elim (add_progress_point_lem p tables methods (whole, unset)) [
        | inl (no_point, _) ↦ absurd (cc (sym no_point ∙ h))
        | inr (m, location, found, (before, after, entries, split, _, _, _)) ↦
            let point : m ≢ 0 =
              All-middle (λ m. m ≢ 0) before m after (subst (All (λ m. m ≢ 0)) split valid) in
            subst IsArmed (ok-injective _ q (sym found ∙ h))
              (with_point-IsArmed p m location whole point)
      ]
    ]

-- Where the progress point comes from.
abbrev Sets : LineTables → Class → Progress → Progress → Type 0
Sets tables class p r =
    (r ≡ p)
    ⊎ ((methods : List ℕ) × (class.methods ≡ some methods)
        × (add_progress_point p tables methods ≡ ok r))

release_progress : (release : Bool) (c : Classes) → (release_if release c).progress ≡ c.progress
release_progress true c = refl
release_progress false c = refl

prepare_progress :
    (tables : LineTables) (c q : Classes) (ksig : Bytes) (methods : List ℕ)
    → prepare_methods tables c ksig methods ≡ ok q
    → (q.progress ≡ c.progress) ⊎ (add_progress_point c.progress tables methods ≡ ok q.progress)
unfolding prepare_methods
prepare_progress tables c q ksig methods h =
    elim (Bool-cases (is_progress_class c.progress_class ksig)) [
      | inr e ↦ inl (ground arith)
      | inl e ↦
          let (r, f, g) =
            >>=-eq-ok (add_progress_point c.progress tables methods) _
              (rw (e, prepare_methods) at h) in
          inr (f ∙ ap (λ (x : Classes). ok x.progress) (ok-injective _ q g))
    ]

locked_progress :
    (tables : LineTables) (c q : Classes) (class : Class) (release : Bool)
    → create_ids_locked tables c class release ≡ ok q
    → Sets tables class c.progress q.progress
unfolding create_ids_locked
locked_progress tables c q class release h = elim (Option-cases class.methods) [
  | inl has ↦ elim (Option-cases class.signature) [
    | inl signed ↦
        let out : ok c ≡ ok q = rw (has, create_ids_locked, signed) at h in
        inl (ap (λ (x : Classes). x.progress) (sym (ok-injective c q out)))
    | inr (ksig, signed) ↦
        let out : ok (release_if release c) ≡ ok q = rw (has, create_ids_locked, signed) at h in
        inl (
          ap (λ (x : Classes). x.progress) (sym (ok-injective _ q out))
          ∙ release_progress release c)
  ]
  | inr (methods, has) ↦ elim (Option-cases class.signature) [
    | inl signed ↦ absurd (ground arith)
    | inr (ksig, signed) ↦
        let (r, e, f) =
          >>=-eq-ok (prepare_methods tables c ksig methods) (λ x. ok (release_if release x))
            (rw (has, create_ids_locked, signed) at h) in
        let same : r.progress ≡ q.progress =
          sym (release_progress release r)
          ∙ ap (λ (x : Classes). x.progress) (ok-injective _ q f) in
        elim (prepare_progress tables c r ksig methods e) [
          | inl stays ↦ inl (sym same ∙ stays)
          | inr adds ↦ inr (methods, has, adds ∙ ap ok same)
        ]
  ]
]

create_progress :
    (tables : LineTables) (self : ℕ) (c q : Classes) (class : Class)
    → create_jmethod_ids tables self c class ≡ some (ok q)
    → Sets tables class c.progress q.progress
create_progress tables self c q class h = elim (create_cases tables self c q class h) [
  | inl same ↦ inl (ap (λ (x : Classes). x.progress) (sym same))
  | inr (inl f) ↦ locked_progress tables c q class false f
  | inr (inr (free, f)) ↦
      locked_progress tables (record c { class_prep_lock = narrow self }) q class true f
]

-- No method that JVMTI gives is null.
abbrev pub HasMethods : Class → Type 0
HasMethods class = (methods : List ℕ) → class.methods ≡ some methods → All (λ m. m ≢ 0) methods

pub create-IsArmed :
    (tables : LineTables) (self : ℕ) (c q : Classes) (class : Class)
    → HasMethods class
    → create_jmethod_ids tables self c class ≡ some (ok q)
    → IsArmed c.progress
    → IsArmed q.progress
create-IsArmed tables self c q class valid h armed =
    elim (create_progress tables self c q class h) [
      | inl same ↦ subst IsArmed (sym same) armed
      | inr (methods, has, adds) ↦
          add_progress_point-IsArmed c.progress q.progress tables methods (valid methods has) adds
            armed
    ]

pub load-IsArmed :
    (tables : LineTables) (self : ℕ) (c q : Classes) (classes : List Class)
    → All HasMethods classes
    → load_classes tables self c classes ≡ some (ok q)
    → IsArmed c.progress
    → IsArmed q.progress
unfolding load_classes
load-IsArmed tables self c q [] valid h armed =
    subst IsArmed (ap (λ (x : Classes). x.progress) (some_ok c q h)) armed
load-IsArmed tables self c q (class ∷ classes) (valid, others) h armed =
    let (d, first, rest) =
      and_then-ok (create_jmethod_ids tables self c class) (λ x. load_classes tables self x classes)
        q h in
    load-IsArmed tables self d q classes others rest
      (create-IsArmed tables self c d class valid first armed)
