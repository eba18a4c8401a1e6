-- ===== src/Classes/Methods.antt =====
-- Which methods are in scope once a class is prepared, src/entry.cc and src/profiler.cc.
use jcoz.Base.{
  ℕ, ◌≡◌, refl, sym, ap, ◌∙◌, ◌↔◌, ◌⊎◌, inl, inr, Bool, true, false, ◌||◌, List, [], ◌∷◌, some,
  ◌==◌, if◌then◌else◌, Bool-cases, arith, All, ok, ok-injective, >>=-eq-ok,
}
use jcoz.Text.{Bytes}
use jcoz.Scope.{is_in_allowed_scope}
use jcoz.Scope.Laws.{HasOther, Covers, is_in_allowed_scope_iff}
use jcoz.Profiler.{is_member, insert}
use jcoz.Progress.{LineTables}
use jcoz.Classes.{
  Classes, Class, narrow, add_in_scope_methods, release_if, prepare_methods, create_ids_locked,
  create_jmethod_ids,
}

or_cases : (a b : Bool) → (a || b) ≡ true → (a ≡ true) ⊎ (b ≡ true)
or_cases a b h = ground arith

or_true : (a b : Bool) → (a ≡ true) ⊎ (b ≡ true) → (a || b) ≡ true
or_true a b h = ground arith

is_member-insert_eq :
    (m x : ℕ) (ids : List ℕ) → is_member m (insert x ids) ≡ (x == m) || is_member m ids
unfolding is_member insert
is_member-insert_eq m x ids = ground arith

pub add_in_scope_methods_eq :
    (m : ℕ) (ids methods : List ℕ)
    → is_member m (add_in_scope_methods ids methods) ≡ is_member m ids || is_member m methods
unfolding add_in_scope_methods is_member
add_in_scope_methods_eq m ids [] = ground arith
add_in_scope_methods_eq m ids (x ∷ methods) =
    ground (arith, add_in_scope_methods_eq m (insert x ids) methods, is_member-insert_eq m x ids)

pub prepare_methods_scope :
    (tables : LineTables) (c q : Classes) (ksig : Bytes) (methods : List ℕ)
    → prepare_methods tables c ksig methods ≡ ok q
    → q.in_scope_ids ≡ (
        if is_in_allowed_scope c.ignored_scopes c.search_scopes ksig
        then add_in_scope_methods c.in_scope_ids methods
        else c.in_scope_ids)
unfolding prepare_methods
prepare_methods_scope tables c q ksig methods h = ground arith

release_scope :
    (release : Bool) (c : Classes) → (release_if release c).in_scope_ids ≡ c.in_scope_ids
release_scope true c = refl
release_scope false c = refl

pub running_cases :
    (tables : LineTables) (self : ℕ) (c q : Classes) (class : Class)
    → c.running ≡ true
    → create_jmethod_ids tables self c class ≡ some (ok q)
    → (create_ids_locked tables c class false ≡ ok q)
      ⊎ (create_ids_locked tables (record c { class_prep_lock = narrow self }) class true ≡ ok q)
unfolding create_jmethod_ids
running_cases tables self c q class run e = ground arith

known_class :
    (tables : LineTables) (c q : Classes) (class : Class) (methods : List ℕ) (ksig : Bytes)
    (release : Bool)
    → (class.methods ≡ some methods) × (class.signature ≡ some ksig)
    → create_ids_locked tables c class release ≡ ok q
    → q.in_scope_ids ≡ (
        if is_in_allowed_scope c.ignored_scopes c.search_scopes ksig
        then add_in_scope_methods c.in_scope_ids methods
        else c.in_scope_ids)
unfolding create_ids_locked
known_class tables c q class methods ksig release (m, s) e =
    let (r, f, g) =
      >>=-eq-ok (prepare_methods tables c ksig methods) (λ x. ok (release_if release x))
        (rw (m, create_ids_locked, s) at e) in
    sym (ap (λ (x : Classes). x.in_scope_ids) (ok-injective _ q g))
    ∙ release_scope release r
    ∙ prepare_methods_scope tables c r ksig methods f

known_scope :
    (tables : LineTables) (self : ℕ) (c q : Classes) (class : Class) (methods : List ℕ)
    (ksig : Bytes)
    → c.running ≡ true
    → (class.methods ≡ some methods) × (class.signature ≡ some ksig)
    → create_jmethod_ids tables self c class ≡ some (ok q)
    → q.in_scope_ids ≡ (
        if is_in_allowed_scope c.ignored_scopes c.search_scopes ksig
        then add_in_scope_methods c.in_scope_ids methods
        else c.in_scope_ids)
known_scope tables self c q class methods ksig run k e =
    elim (running_cases tables self c q class run e) [
      | inl f ↦ known_class tables c q class methods ksig false k f
      | inr f ↦
          known_class tables (record c { class_prep_lock = narrow self }) q class methods ksig true
            k f
    ]

-- For scopes that each have a byte other than 'L', and a running profiler: once a class with
-- signature L<name> is prepared, a method is in scope exactly if it was before, or is one of the
-- class's and the class's name begins with a search scope and with no ignored one.
pub create_jmethod_ids_scope :
    (tables : LineTables) (self : ℕ) (c q : Classes) (class : Class) (methods : List ℕ)
    (name : Bytes) (m : ℕ)
    → c.running ≡ true
    → (class.methods ≡ some methods) × (class.signature ≡ some (b'L' ∷ name))
    → All HasOther c.ignored_scopes × All HasOther c.search_scopes
    → create_jmethod_ids tables self c class ≡ some (ok q)
    → (is_member m q.in_scope_ids ≡ true) ↔ (
        (is_member m c.in_scope_ids ≡ true)
        ⊎ ((Covers c.search_scopes name × ¬ Covers c.ignored_scopes name)
            × (is_member m methods ≡ true)))
create_jmethod_ids_scope tables self c q class methods name m run k (oi, os) e =
    let spec = is_in_allowed_scope_iff c.ignored_scopes c.search_scopes name oi os in
    let same = ap (is_member m) (known_scope tables self c q class methods (b'L' ∷ name) run k e) in
    let both = add_in_scope_methods_eq m c.in_scope_ids methods in
    elim (Bool-cases (is_in_allowed_scope c.ignored_scopes c.search_scopes (b'L' ∷ name))) [
      | inl t ↦ (
        λ h. elim (or_cases _ _ (sym both ∙ sym (rw t at same) ∙ h)) [
          | inl old ↦ inl old
          | inr new ↦ inr (spec.0 t, new)
        ],
        λ h.
            rw t at same
            ∙ both
            ∙ or_true _ _ (elim h [ inl old ↦ inl old | inr (_, new) ↦ inr new ]),
      )
      | inr f ↦ (
        λ h. inl (sym (rw f at same) ∙ h),
        λ h. elim h [
          | inl old ↦ rw f at same ∙ old
          | inr (covered, _) ↦ absurd (cc (sym f ∙ spec.1 covered))
        ],
      )
    ]
