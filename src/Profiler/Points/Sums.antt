-- ===== src/Profiler/Points/Sums.antt =====
-- The points held by a set of threads, when one object or the set changes.
use jcoz.Base.{
  ℕ, ◌+◌, ◌≡◌, refl, ap, subst, inl, inr, true, false, List, [], ◌∷◌, ◌==◌, Bool-cases, ==_iff,
  arith,
}
use jcoz.Profiler.{Cell, is_member, insert, erase, update}
use jcoz.Profiler.Points.{points_of, pending, no_dup}

pub pending_absent :
    (cells : ℕ → Cell) (t : ℕ) (c : Cell) (ts : List ℕ)
    → is_member t ts ≡ false
    → pending (update cells t c) ts ≡ pending cells ts
unfolding pending is_member
pending_absent cells t c [] h = refl
pending_absent cells t c (s ∷ ts) h = ground (arith, pending_absent cells t c ts)

-- A new object for a thread in the set changes its share only.
pub pending-update :
    (cells : ℕ → Cell) (t : ℕ) (c : Cell) (ts : List ℕ)
    → no_dup ts ≡ true
    → is_member t ts ≡ true
    → pending (update cells t c) ts + points_of (cells t) ≡ pending cells ts + points_of c
unfolding pending is_member no_dup
pending-update cells t c [] d h = cc
pending-update cells t c (s ∷ ts) d h = elim (Bool-cases (s == t)) [
  | inl here ↦
      let same : s ≡ t = (==_iff s t).0 here in
      let new : points_of (update cells t c s) ≡ points_of c = rw here in
      let rest : is_member t ts ≡ false = subst (λ x. is_member x ts ≡ false) same (ground arith) in
      omega (arith, new, ap (λ x. points_of (cells x)) same, pending_absent cells t c ts rest)
  | inr later ↦
      let old : points_of (update cells t c s) ≡ points_of (cells s) = rw later in
      omega (arith, old, pending-update cells t c ts (ground arith) (ground arith))
]

pub pending-erase :
    (cells : ℕ → Cell) (t : ℕ) (ts : List ℕ)
    → points_of (cells t) ≡ 0
    → pending cells (erase t ts) ≡ pending cells ts
unfolding pending erase
pending-erase cells t [] h = refl
pending-erase cells t (s ∷ ts) h = elim (Bool-cases (s == t)) [
  | inl here ↦ rw here (
      omega
        (arith, h, pending-erase cells t ts h, ap (λ x. points_of (cells x)) ((==_iff s t).0 here)))
  | inr later ↦ rw later (omega (arith, pending-erase cells t ts h))
]

pub is_member-erase_other :
    (s t : ℕ) (ts : List ℕ)
    → s == t ≡ false
    → is_member s ts ≡ true
    → is_member s (erase t ts) ≡ true
unfolding is_member erase
is_member-erase_other s t [] e h = h
is_member-erase_other s t (y ∷ ts) e h = ground (arith, is_member-erase_other s t ts e)

pub is_member-insert_more :
    (t : ℕ) (ts : List ℕ) (s : ℕ) → is_member s ts ≡ true → is_member s (insert t ts) ≡ true
unfolding is_member insert
is_member-insert_more t ts s h = ground arith

pub is_member-insert_self : (t : ℕ) (ts : List ℕ) → is_member t (insert t ts) ≡ true
unfolding is_member insert
is_member-insert_self t ts = ground arith

pub no_dup-insert : (t : ℕ) (ts : List ℕ) → no_dup ts ≡ true → no_dup (insert t ts) ≡ true
unfolding no_dup insert
no_dup-insert t ts h = elim (Bool-cases (is_member t ts)) [
  | inl e ↦ rw e h
  | inr e ↦ rw (e, no_dup, e, h)
]

pub pending-insert :
    (cells : ℕ → Cell) (t : ℕ) (ts : List ℕ)
    → points_of (cells t) ≡ 0
    → pending cells (insert t ts) ≡ pending cells ts
unfolding pending insert
pending-insert cells t ts h = elim (Bool-cases (is_member t ts)) [
  | inl e ↦ rw e
  | inr e ↦ rw e (omega (arith, h))
]

pub update_self : (cells : ℕ → Cell) (t : ℕ) (c : Cell) → update cells t c t ≡ c
update_self cells t c = ground arith

pub is_member-erase-false :
    (x t : ℕ) (ts : List ℕ) → is_member x ts ≡ false → is_member x (erase t ts) ≡ false
unfolding is_member erase
is_member-erase-false x t [] h = refl
is_member-erase-false x t (y ∷ ts) h = ground (arith, is_member-erase-false x t ts)

pub no_dup-erase : (t : ℕ) (ts : List ℕ) → no_dup ts ≡ true → no_dup (erase t ts) ≡ true
unfolding no_dup erase
no_dup-erase t [] h = refl
no_dup-erase t (y ∷ ts) h = ground (arith, no_dup-erase t ts, is_member-erase-false y t ts)
