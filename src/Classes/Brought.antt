-- ===== src/Classes/Brought.antt =====
-- Which methods are in scope once all loaded classes are prepared, src/entry.cc.
use mathlib.Core.List.{Memᴰ}
use jcoz.Base.{
  ℕ, ◌≡◌, refl, sym, ap, subst, ◌∙◌, ◌↔◌, ◌⊎◌, inl, inr, Bool, true, false, List, [], ◌∷◌, some,
  Option-cases, arith, ok, ok-injective, >>=-eq-ok,
}
use jcoz.Text.{Bytes}
use jcoz.Profiler.{is_member}
use jcoz.Progress.{LineTables}
use jcoz.Classes.{
  Classes, Class, release_if, prepare_methods, create_ids_locked, create_jmethod_ids, load_classes,
  narrow,
}
use jcoz.Classes.Methods.{running_cases}
use jcoz.Classes.Loaded.{and_then-ok, some_ok}
use jcoz.Classes.Brings.{Brings, After, nothing_new, prepared-After, After-release, After-lock}

locked-After :
    (tables : LineTables) (c q : Classes) (m : ℕ) (class : Class) (release : Bool)
    → create_ids_locked tables c class release ≡ ok q
    → After c q m class
unfolding create_ids_locked
locked-After tables c q m class release h = elim (Option-cases class.methods) [
  | inl has ↦
      let barren : ¬ Brings c.ignored_scopes c.search_scopes m class =
        λ b. absurd (cc (sym has ∙ b.has)) in
      let same : After c c m class =
        nothing_new c c m class (record { running = refl; search = refl; ignored = refl }) refl
          barren in
      elim (Option-cases class.signature) [
        | inl signed ↦
            let out : ok c ≡ ok q = rw (has, create_ids_locked, signed) at h in
            subst (λ x. After c x m class) (ok-injective c q out) same
        | inr (ksig, signed) ↦
            let out : ok (release_if release c) ≡ ok q = rw (has, create_ids_locked, signed) at h in
            subst (λ x. After c x m class) (ok-injective (release_if release c) q out)
              (After-release c c m class release same)
      ]
  | inr (methods, has) ↦ elim (Option-cases class.signature) [
    | inl signed ↦ absurd (ground arith)
    | inr (ksig, signed) ↦
        let (r, e, f) =
          >>=-eq-ok (prepare_methods tables c ksig methods) (λ x. ok (release_if release x))
            (rw (has, create_ids_locked, signed) at h) in
        subst (λ x. After c x m class) (ok-injective _ q f)
          (After-release c r m class release
            (prepared-After tables c r m class methods ksig has signed e))
  ]
]

pub create-After :
    (tables : LineTables) (self m : ℕ) (c q : Classes) (class : Class)
    → c.running ≡ true
    → create_jmethod_ids tables self c class ≡ some (ok q)
    → After c q m class
create-After tables self m c q class run e = elim (running_cases tables self c q class run e) [
  | inl f ↦ locked-After tables c q m class false f
  | inr f ↦
      After-lock c q m (narrow self) class
        (locked-After tables (record c { class_prep_lock = narrow self }) q m class true f)
]

-- One of the classes brings the method.
abbrev pub SomeBrings : List Bytes → List Bytes → ℕ → List Class → Type 0
SomeBrings ignored search m classes =
    (class : Class) × Memᴰ class classes × Brings ignored search m class

SomeBrings-cases :
    (ignored search : List Bytes) (m : ℕ) (class : Class) (classes : List Class)
    → SomeBrings ignored search m (class ∷ classes)
    → Brings ignored search m class ⊎ SomeBrings ignored search m classes
SomeBrings-cases ignored search m class classes (x, Memᴰ.head e, b) =
    inl (subst (Brings ignored search m) e b)
SomeBrings-cases ignored search m class classes (x, Memᴰ.tail i, b) = inr (x, i, b)

SomeBrings-tail :
    (ignored search : List Bytes) (m : ℕ) (class : Class) (classes : List Class)
    → SomeBrings ignored search m classes
    → SomeBrings ignored search m (class ∷ classes)
SomeBrings-tail ignored search m class classes (x, i, b) = (x, Memᴰ.tail i, b)

-- After the loop over the loaded classes of a running profiler, a method is in scope exactly if it
-- was before, or if one of the classes has it, with a signature that JVMTI gives and that is in the
-- allowed scope.
pub load_classes_scope :
    (tables : LineTables) (self m : ℕ) (c q : Classes) (classes : List Class)
    → c.running ≡ true
    → load_classes tables self c classes ≡ some (ok q)
    → (is_member m q.in_scope_ids ≡ true) ↔ (
        (is_member m c.in_scope_ids ≡ true) ⊎ SomeBrings c.ignored_scopes c.search_scopes m classes)
unfolding load_classes
load_classes_scope tables self m c q [] run h =
    let same = ap (λ (x : Classes). is_member m x.in_scope_ids) (some_ok c q h) in
    (λ k. inl (same ∙ k), λ k. elim k [ inl old ↦ sym same ∙ old | inr (x, i, b) ↦ elim i [ ] ])
load_classes_scope tables self m c q (class ∷ classes) run h =
    let (d, first, rest) =
      and_then-ok (create_jmethod_ids tables self c class) (λ x. load_classes tables self x classes)
        q h in
    let (same, one) = create-After tables self m c d class run first in
    let (there, back) = load_classes_scope tables self m d q classes (same.running ∙ run) rest in
    let into : SomeBrings d.ignored_scopes d.search_scopes m classes
        ≡ SomeBrings c.ignored_scopes c.search_scopes m classes =
      ap (λ s. SomeBrings d.ignored_scopes s m classes) same.search
      ∙ ap (λ s. SomeBrings s c.search_scopes m classes) same.ignored in
    (
      λ k. elim (there k) [
        | inl here ↦ elim (one.0 here) [
          | inl old ↦ inl old
          | inr b ↦ inr (class, Memᴰ.head refl, b)
        ]
        | inr later ↦ inr (
            SomeBrings-tail c.ignored_scopes c.search_scopes m class classes
              (subst (λ T. T) into later))
      ],
      λ k. back (elim k [
        | inl old ↦ inl (one.1 (inl old))
        | inr new ↦ elim (SomeBrings-cases c.ignored_scopes c.search_scopes m class classes new) [
          | inl b ↦ inl (one.1 (inr b))
          | inr later ↦ inr (subst (λ T. T) (sym into) later)
        ]
      ]),
    )
