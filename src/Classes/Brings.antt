-- ===== src/Classes/Brings.antt =====
-- What the preparation of one class brings into scope, src/entry.cc.
use jcoz.Base.{
  some-injective, ℕ, ◌≡◌, refl, sym, ap, subst, ◌∙◌, ◌↔◌, ◌⊎◌, inl, inr, Bool, true, false, List,
  some, if◌then◌else◌, arith, ok,
}
use jcoz.Text.{Bytes}
use jcoz.Scope.{is_in_allowed_scope}
use jcoz.Profiler.{is_member}
use jcoz.Progress.{LineTables}
use jcoz.Classes.{Classes, Class, add_in_scope_methods, release_if, prepare_methods}
use jcoz.Classes.Methods.{add_in_scope_methods_eq, prepare_methods_scope}

-- The class has the method, and is in the allowed scope.
pub record Brings (ignored search : List Bytes) (m : ℕ) (class : Class) : Type 0 where
  pub methods : List ℕ
  pub ksig : Bytes
  pub has : class.methods ≡ some methods
  pub signed : class.signature ≡ some ksig
  pub allowed : is_in_allowed_scope ignored search ksig ≡ true
  pub found : is_member m methods ≡ true

-- What the loop leaves alone.
pub record Same (c q : Classes) : Type 0 where
  pub running : q.running ≡ c.running
  pub search : q.search_scopes ≡ c.search_scopes
  pub ignored : q.ignored_scopes ≡ c.ignored_scopes

Same-trans : (c d q : Classes) → Same c d → Same d q → Same c q
Same-trans c d q s t = record {
  running = t.running ∙ s.running;
  search = t.search ∙ s.search;
  ignored = t.ignored ∙ s.ignored;
}

prepare_methods-Same :
    (tables : LineTables) (c q : Classes) (ksig : Bytes) (methods : List ℕ)
    → prepare_methods tables c ksig methods ≡ ok q
    → Same c q
unfolding prepare_methods
prepare_methods-Same tables c q ksig methods h = record {
  running = ground arith;
  search = ground arith;
  ignored = ground arith;
}

release-Same : (release : Bool) (c : Classes) → Same c (release_if release c)
release-Same true c = record { running = refl; search = refl; ignored = refl }
release-Same false c = record { running = refl; search = refl; ignored = refl }

-- A class is in scope with the method, or the methods in scope stay as they are.
abbrev pub After : Classes → Classes → ℕ → Class → Type 0
After c q m class =
    Same c q
    × ((is_member m q.in_scope_ids ≡ true)
        ↔ ((is_member m c.in_scope_ids ≡ true) ⊎ Brings c.ignored_scopes c.search_scopes m class))

pub nothing_new :
    (c q : Classes) (m : ℕ) (class : Class)
    → Same c q
    → q.in_scope_ids ≡ c.in_scope_ids
    → ¬ Brings c.ignored_scopes c.search_scopes m class
    → After c q m class
nothing_new c q m class same ids barren = (
  same,
  (
    λ h. inl (sym (ap (is_member m) ids) ∙ h),
    λ h. elim h [ inl old ↦ ap (is_member m) ids ∙ old | inr b ↦ absurd (barren b) ],
  ),
)

-- The class's own answers are the ones that it brings methods by.
pub Brings-known :
    (ignored search : List Bytes) (m : ℕ) (class : Class) (methods : List ℕ) (ksig : Bytes)
    → class.methods ≡ some methods
    → class.signature ≡ some ksig
    → Brings ignored search m class
    → (is_in_allowed_scope ignored search ksig ≡ true) × (is_member m methods ≡ true)
Brings-known ignored search m class methods ksig has signed b = (
  subst (λ k. is_in_allowed_scope ignored search k ≡ true)
      (some-injective b.ksig ksig (sym b.signed ∙ signed)) b.allowed,
  subst (λ ms. is_member m ms ≡ true) (some-injective b.methods methods (sym b.has ∙ has)) b.found,
)

scoped_ids :
    (m : ℕ) (allowed : Bool) (ids methods : List ℕ)
    → (is_member m (if allowed then add_in_scope_methods ids methods else ids) ≡ true)
      ↔ ((is_member m ids ≡ true) ⊎ ((allowed ≡ true) × (is_member m methods ≡ true)))
scoped_ids m true ids methods = rw (add_in_scope_methods_eq m ids methods) (ground arith)
scoped_ids m false ids methods =
    (λ h. inl h, λ h. elim h [ inl old ↦ old | inr (e, f) ↦ absurd cc ])

pub prepared-After :
    (tables : LineTables) (c q : Classes) (m : ℕ) (class : Class) (methods : List ℕ) (ksig : Bytes)
    → class.methods ≡ some methods
    → class.signature ≡ some ksig
    → prepare_methods tables c ksig methods ≡ ok q
    → After c q m class
prepared-After tables c q m class methods ksig has signed e =
    let ids = prepare_methods_scope tables c q ksig methods e in
    let (there, back) =
      scoped_ids m (is_in_allowed_scope c.ignored_scopes c.search_scopes ksig) c.in_scope_ids
        methods in
    (
      prepare_methods-Same tables c q ksig methods e,
      (
        λ h. elim (there (sym (ap (is_member m) ids) ∙ h)) [
          | inl old ↦ inl old
          | inr (allowed, found) ↦ inr (record {
            methods = methods;
            ksig = ksig;
            has = has;
            signed = signed;
            allowed = allowed;
            found = found;
          })
        ],
        λ h.
            ap (is_member m) ids
            ∙ back (elim h [
              | inl old ↦ inl old
              | inr b ↦
                  inr (
                    Brings-known c.ignored_scopes c.search_scopes m class methods ksig has signed b)
            ]),
      ),
    )

-- The lock is no part of this.
pub After-release :
    (c q : Classes) (m : ℕ) (class : Class) (release : Bool)
    → After c q m class
    → After c (release_if release q) m class
After-release c q m class true (s, f) =
    (record { running = s.running; search = s.search; ignored = s.ignored }, f)
After-release c q m class false h = h

pub After-lock :
    (c q : Classes) (m lock : ℕ) (class : Class)
    → After (record c { class_prep_lock = lock }) q m class
    → After c q m class
After-lock c q m lock class (s, f) =
    (record { running = s.running; search = s.search; ignored = s.ignored }, f)
