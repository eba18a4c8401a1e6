-- ===== src/Scope/Laws.antt =====
-- What the scope tests of src/entry.cc decide.
use mathlib.Core.List.{Memᴰ}
use jcoz.Base.{
  ℕ, zero, suc, get_elem?, if◌then◌else◌, ◌≡◌, refl, sym, ◌∙◌, ◌↔◌, inl, inr, true, false, not,
  ◌&&◌, List, [], ◌∷◌, ◌++◌, Option, none, some, ◌==◌, Bool-cases, Option-cases, arith, All,
}
use jcoz.Text.{Bytes, text_eq, next, is_prefix, strstr, drop_last}
use jcoz.Text.Laws.{
  text_eq_sound, text_eq_refl, is_prefix_sound, is_prefix-append, strstr_prefix, strstr_zero,
  is_prefix_shift, is_prefix_repeat, drop_last-append,
}
use jcoz.Scope.{
  points_at, is_class_fqn_prefix, contains_class_fqn_prefix, is_in_allowed_scope, is_progress_class,
  prepare_scope,
}

points_at-next : (o : Option ℕ) → points_at (next o) 1 ≡ points_at o 0
points_at-next none = refl
points_at-next (some i) = ground arith

pub points_at-strstr : (s p : Bytes) → points_at (strstr s p) 0 ≡ is_prefix p s
points_at-strstr s p = elim (Bool-cases (is_prefix p s)) [
  | inl e ↦ rw (e, strstr_prefix s p e)
  | inr e ↦ elim (Option-cases (strstr s p)) [
    | inl n ↦ rw (e, n)
    | inr (i, n) ↦ elim (Bool-cases (i == 0)) [
      | inl z ↦ absurd (ground (arith, strstr_zero s p))
      | inr z ↦ rw (e, n) z
    ]
  ]
]

-- A scope matches the signature `c ∷ name` if it is a prefix of the name and, since strstr returns
-- the first occurrence, no prefix of the signature itself.
pub is_class_fqn_prefix_cons :
    (p : Bytes) (c : ℕ) (name : Bytes)
    → is_class_fqn_prefix p (c ∷ name) ≡ is_prefix p name && not (is_prefix p (c ∷ name))
unfolding is_class_fqn_prefix strstr
is_class_fqn_prefix_cons p c name = elim (Bool-cases (is_prefix p (c ∷ name))) [
  | inl e ↦ ground arith
  | inr e ↦ rw (e, points_at-next (strstr name p), points_at-strstr name p) (ground arith)
]

-- The scope has a byte other than 'L'.
abbrev pub HasOther : Bytes → Type 0
HasOther p = ¬ All (λ b. b ≡ b'L') p

is_class_fqn_prefix_other :
    (p name : Bytes) → HasOther p → is_class_fqn_prefix p (b'L' ∷ name) ≡ is_prefix p name
is_class_fqn_prefix_other p name other =
    is_class_fqn_prefix_cons p b'L' name ∙ elim (Bool-cases (is_prefix p name)) [
      | inr e ↦ rw e
      | inl e ↦ elim (Bool-cases (is_prefix p (b'L' ∷ name))) [
        | inl f ↦ absurd (other (is_prefix_shift b'L' p name e f))
        | inr f ↦ rw (e, f)
      ]
    ]

-- A scope in the list that the name begins with.
abbrev pub Covers : List Bytes → Bytes → Type 0
Covers scopes name = (p : Bytes) × Memᴰ p scopes × (rest : Bytes) × (name ≡ p ++ rest)

pub contains_class_fqn_prefix-Covers :
    (scopes : List Bytes) (name : Bytes)
    → All HasOther scopes
    → contains_class_fqn_prefix scopes (b'L' ∷ name) ≡ true
    → Covers scopes name
unfolding contains_class_fqn_prefix
contains_class_fqn_prefix-Covers [] name o h = cc
contains_class_fqn_prefix-Covers (s ∷ ss) name o h =
    elim (Bool-cases (is_class_fqn_prefix s (b'L' ∷ name))) [
      | inl e ↦
          let (rest, f) = is_prefix_sound s name (sym (is_class_fqn_prefix_other s name o.0) ∙ e) in
          (s, Memᴰ.head refl, rest, f)
      | inr e ↦
          let (p, m, rest, f) = contains_class_fqn_prefix-Covers ss name o.1 (ground arith) in
          (p, Memᴰ.tail m, rest, f)
    ]

Covers-contains_class_fqn_prefix :
    (scopes : List Bytes) (name p rest : Bytes)
    → All HasOther scopes
    → Memᴰ p scopes
    → name ≡ p ++ rest
    → contains_class_fqn_prefix scopes (b'L' ∷ name) ≡ true
unfolding contains_class_fqn_prefix
Covers-contains_class_fqn_prefix [] name p rest o m e = elim m [ ]
Covers-contains_class_fqn_prefix (s ∷ ss) name p rest o (Memᴰ.head q) e =
    let hit : is_class_fqn_prefix s (b'L' ∷ name) ≡ true =
      is_class_fqn_prefix_other s name o.0 ∙ rw (e, q) (is_prefix-append s rest) in
    rw hit
Covers-contains_class_fqn_prefix (s ∷ ss) name p rest o (Memᴰ.tail m) e =
    ground (arith, Covers-contains_class_fqn_prefix ss name p rest o.1 m e)

contains_iff :
    (scopes : List Bytes) (name : Bytes)
    → All HasOther scopes
    → (contains_class_fqn_prefix scopes (b'L' ∷ name) ≡ true) ↔ Covers scopes name
contains_iff scopes name o = (
  contains_class_fqn_prefix-Covers scopes name o,
  λ (p, m, rest, e). Covers-contains_class_fqn_prefix scopes name p rest o m e,
)

-- For scopes that each have a byte other than 'L', the class with signature L<name> is in the
-- allowed scope exactly when its name begins with a search scope and with no ignored scope.
pub is_in_allowed_scope_iff :
    (ignored search : List Bytes) (name : Bytes)
    → All HasOther ignored
    → All HasOther search
    → (is_in_allowed_scope ignored search (b'L' ∷ name) ≡ true)
      ↔ (Covers search name × ¬ Covers ignored name)
unfolding is_in_allowed_scope
is_in_allowed_scope_iff ignored search name oi os = (
  λ h. (
    (contains_iff search name os).0 (ground arith),
    λ c. cc (contains_no h, (contains_iff ignored name oi).1 c),
  ),
  λ (s, i). elim (Bool-cases (contains_class_fqn_prefix ignored (b'L' ∷ name))) [
    | inl e ↦ absurd (i ((contains_iff ignored name oi).0 e))
    | inr e ↦ rw (e, (contains_iff search name os).1 s)
  ],
)
  where
    contains_no :
        is_in_allowed_scope ignored search (b'L' ∷ name) ≡ true
        → contains_class_fqn_prefix ignored (b'L' ∷ name) ≡ false
    contains_no h = ground arith

-- A scope of 'L's alone does not match a signature L<name> whose name begins with the scope.
pub is_class_fqn_prefix-All_l :
    (p name : Bytes)
    → All (λ b. b ≡ b'L') p
    → is_prefix p name ≡ true
    → is_class_fqn_prefix p (b'L' ∷ name) ≡ false
is_class_fqn_prefix-All_l p name h k =
    is_class_fqn_prefix_cons p b'L' name ∙ rw (k, is_prefix_repeat b'L' p name h k)

-- A name with one more byte behind it passes the checks for the progress class exactly when the
-- name is the progress class.
pub is_progress_class_iff :
    (progress_class name : Bytes) (last : ℕ)
    → (is_progress_class progress_class (name ++ last ∷ []) ≡ true) ↔ (name ≡ progress_class)
unfolding is_progress_class
is_progress_class_iff pc name last = (
  λ h. text_eq_sound name pc (rw (drop_last-append name last) at (second h)),
  λ e.
      rw (drop_last-append name last, ← e, points_at-strstr (name ++ last ∷ []) name)
        (rw (is_prefix-append name (last ∷ []), text_eq_refl name) refl),
)
  where
    second :
        is_progress_class pc (name ++ last ∷ []) ≡ true
        → text_eq (drop_last (name ++ last ∷ [])) pc ≡ true
    second h = ground arith

-- Slashes for dots, and every other byte as it was.
pub prepare_scope-get :
    (scope : Bytes) (i b : ℕ)
    → get_elem? scope i ≡ some b
    → get_elem? (prepare_scope scope) i ≡ some (if b == b'.' then b'/' else b)
unfolding prepare_scope
prepare_scope-get [] i b h = cc
prepare_scope-get (c ∷ s) zero b h = ground arith
prepare_scope-get (c ∷ s) (suc i) b h = prepare_scope-get s i b h
