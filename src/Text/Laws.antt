-- ===== src/Text/Laws.antt =====
-- Laws of the text operations: prefixes, first occurrences, equality.
use jcoz.Base.{
  ℕ, ◌≡◌, refl, ap, inl, inr, true, [], ◌∷◌, ◌++◌, Option, none, some, Bool-cases, arith, All,
}
use jcoz.Text.{Bytes, text_eq, next, is_prefix, strstr, drop_last}

pub text_eq_sound : (r s : Bytes) → text_eq r s ≡ true → r ≡ s
unfolding text_eq
text_eq_sound [] [] h = refl
text_eq_sound [] (c ∷ s) h = cc
text_eq_sound (b ∷ r) [] h = cc
text_eq_sound (b ∷ r) (c ∷ s) h = ground (arith, text_eq_sound r s)

pub text_eq_refl : (s : Bytes) → text_eq s s ≡ true
unfolding text_eq
text_eq_refl [] = refl
text_eq_refl (b ∷ s) = ground (arith, text_eq_refl s)

pub is_prefix_sound : (p s : Bytes) → is_prefix p s ≡ true → (rest : Bytes) × (s ≡ p ++ rest)
unfolding is_prefix
is_prefix_sound [] s h = (s, refl)
is_prefix_sound (b ∷ p) [] h = cc
is_prefix_sound (b ∷ p) (c ∷ s) h =
    let (rest, e) = is_prefix_sound p s (ground arith) in (rest, ground arith)

pub is_prefix-append : (p rest : Bytes) → is_prefix p (p ++ rest) ≡ true
unfolding is_prefix
is_prefix-append [] rest = refl
is_prefix-append (b ∷ p) rest = ground (arith, is_prefix-append p rest)

-- The first occurrence is at 0 exactly for a prefix.
pub strstr_prefix : (s p : Bytes) → is_prefix p s ≡ true → strstr s p ≡ some 0
unfolding strstr
strstr_prefix [] p h = rw h
strstr_prefix (c ∷ s) p h = rw h

next-ne-zero : (o : Option ℕ) → next o ≡ some 0 → ⊥
next-ne-zero none h = cc
next-ne-zero (some i) h = ground arith

pub strstr_zero : (s p : Bytes) → strstr s p ≡ some 0 → is_prefix p s ≡ true
unfolding strstr
strstr_zero [] p h = ground arith
strstr_zero (c ∷ s) p h = elim (Bool-cases (is_prefix p (c ∷ s))) [
  | inl e ↦ e
  | inr e ↦ absurd (next-ne-zero (strstr s p) (ground arith))
]

-- A text that is a prefix of `s` and of `c ∷ s` repeats `c`.
pub is_prefix_shift :
    (c : ℕ) (p s : Bytes) → is_prefix p s ≡ true → is_prefix p (c ∷ s) ≡ true → All (λ b. b ≡ c) p
unfolding is_prefix
is_prefix_shift c [] s h k = tt
is_prefix_shift c (b ∷ p) [] h k = cc
is_prefix_shift c (b ∷ p) (d ∷ s) h k =
    let e : d ≡ c = ground arith in
    (ground arith, is_prefix_shift c p s (ground arith) (rw (← e) (ground arith)))

pub drop_last-append : (s : Bytes) (c : ℕ) → drop_last (s ++ c ∷ []) ≡ s
unfolding drop_last
drop_last-append [] c = refl
drop_last-append (b ∷ []) c = refl
drop_last-append (b ∷ d ∷ s) c = ap (◌∷◌ b) (drop_last-append (d ∷ s) c)

pub is_prefix_repeat :
    (c : ℕ) (p s : Bytes) → All (λ b. b ≡ c) p → is_prefix p s ≡ true → is_prefix p (c ∷ s) ≡ true
unfolding is_prefix
is_prefix_repeat c [] s h k = refl
is_prefix_repeat c (b ∷ p) [] h k = cc
is_prefix_repeat c (b ∷ p) (d ∷ s) h k =
    let e : d ≡ c = ground arith in
    ground (arith, is_prefix_repeat c p s h.1 (ground arith), ap (λ x. is_prefix p (x ∷ s)) e)
