-- ===== src/Jvmti/Laws.antt =====
-- A block with a scoped pointer of src/globals.h gives back what JVMTI handed out.
use jcoz.Base.{
  ℕ, suc, ◌≤◌, ◌≡◌, refl, sym, ap, subst, ◌∙◌, Bool, true, false, List, [], ◌∷◌, ◌==◌, All, Result,
  ok, halt, ◌>>=◌, arith,
}
use jcoz.Profiler.{is_member, erase}
use jcoz.Jvmti.{Jvmti, null_ptr, allocate, deallocate, ScopedPtr, get_ref, destroy, scoped, forget}

-- Pointers that are handed out are none of those that come later.
abbrev pub IsFresh : Jvmti → Type 0
IsFresh j = All (λ p. p ≤ j.fresh) j.given

-- Nothing more is handed out than before, and nothing was given back in error.
pub record Same (j k : Jvmti) : Type 0 where
  pub given : k.given ≡ j.given
  pub errors : k.errors ≡ j.errors
  pub later : j.fresh ≤ k.fresh

-- Where a block comes to its end.
abbrev pub Balanced {ℓ} : {A : Type ℓ} → Jvmti → Result (A × Jvmti) → Type 0
Balanced j (halt e) = Unit {0}
Balanced j (ok (a, k)) = Same j k

pub Same-refl : (j : Jvmti) → Same j j
Same-refl j = record { given = refl; errors = refl; later = omega arith }

pub Same-trans : (j k m : Jvmti) → Same j k → Same k m → Same j m
Same-trans j k m a b = record {
  given = b.given ∙ a.given;
  errors = b.errors ∙ a.errors;
  later = omega (arith, a.later, b.later);
}

older : (n m : ℕ) (ps : List ℕ) → n ≤ m → All (λ p. p ≤ n) ps → All (λ p. p ≤ m) ps
older n m [] h a = tt
older n m (p ∷ ps) h a = (omega (arith, a.0, h), older n m ps h a.1)

pub Same-IsFresh : (j k : Jvmti) → Same j k → IsFresh j → IsFresh k
Same-IsFresh j k s a =
    subst (All (λ p. p ≤ k.fresh)) (sym s.given) (older j.fresh k.fresh j.given s.later a)

erase_none : (n : ℕ) (ps : List ℕ) → All (λ p. p ≤ n) ps → erase (suc n) ps ≡ ps
unfolding erase
erase_none n [] a = refl
erase_none n (p ∷ ps) a = ground (arith, erase_none n ps a.1, a.0)

-- The pointer of the block is given back at its end.
given_back :
    (j k : Jvmti)
    → IsFresh j
    → k.given ≡ suc j.fresh ∷ j.given
    → deallocate (suc j.fresh) k ≡ record k { given = j.given }
unfolding deallocate is_member erase
given_back j k a e =
    let there : is_member (suc j.fresh) k.given ≡ true = rw e (ground arith) in
    let gone : erase (suc j.fresh) k.given ≡ j.given =
      rw e (ground (arith, erase_none j.fresh j.given a)) in
    rw (there, gone) refl

-- The block of a scoped pointer leaves what was handed out as it was, if what stands in it does.
ended :
    {A : Type 0} (j : Jvmti) (r : Result (A × Jvmti))
    → IsFresh j
    → Balanced (allocate j).1 r
    → Balanced j (r >>= (λ x. ok (x.0, destroy (record { ref = suc j.fresh }) x.1)))
unfolding allocate destroy
ended j (halt e) a h = tt
ended j (ok (x, k)) a h =
    let not_null : (suc j.fresh == 0) ≡ false = ground arith in
    let back = given_back j k a h.given in
    rw (not_null, back) (record { given = refl; errors = h.errors; later = omega (arith, h.later) })

left_null :
    {A : Type 0} (j : Jvmti) (r : Result (A × Jvmti))
    → Balanced j r
    → Balanced j (r >>= (λ x. ok (x.0, destroy (record { ref = 0 }) x.1)))
unfolding destroy
left_null j (halt e) h = tt
left_null j (ok (x, k)) h = h

pub scoped-Balanced :
    {A : Type 0} (succeeds : Bool) (block : Jvmti → Result (A × Jvmti)) (j : Jvmti)
    → IsFresh j
    → ((k : Jvmti) → IsFresh k → Balanced k (block k))
    → Balanced j (scoped succeeds block j)
unfolding scoped get_ref allocate
scoped-Balanced true block j a h =
    ended j (block (allocate j).1) a
      (h (allocate j).1 (omega arith, older j.fresh (suc j.fresh) j.given (omega arith) a))
scoped-Balanced false block j a h = left_null j (block j) (h j a)

followed :
    {A : Type 0} (j k : Jvmti) (r : Result (A × Jvmti)) → Same j k → Balanced k r → Balanced j r
followed j k (halt e) h s = tt
followed j k (ok (y, m)) h s = Same-trans j k m h s

-- One after another.
pub >>=-Balanced :
    {A B : Type 0} (j : Jvmti) (r : Result (A × Jvmti)) (next : A × Jvmti → Result (B × Jvmti))
    → IsFresh j
    → Balanced j r
    → ((x : A) (k : Jvmti) → IsFresh k → Balanced k (next (x, k)))
    → Balanced j (r >>= next)
>>=-Balanced j (halt e) next a h n = tt
>>=-Balanced j (ok (x, k)) next a h n = followed j k (next (x, k)) h (n x k (Same-IsFresh j k h a))

forget-destroy :
    {A : Type 0} (p : ScopedPtr) (r : Result (A × Jvmti))
    → forget (r >>= (λ x. ok (x.0, destroy p x.1))) ≡ forget r
forget-destroy p (halt e) = refl
forget-destroy p (ok (a, j)) = refl

-- What the block comes to is what its rest comes to.
pub forget-scoped :
    {A : Type 0} (succeeds : Bool) (block : Jvmti → Result (A × Jvmti)) (j : Jvmti) (v : Result A)
    → ((k : Jvmti) → forget (block k) ≡ v)
    → forget (scoped succeeds block j) ≡ v
unfolding scoped get_ref allocate
forget-scoped true block j v h = forget-destroy _ _ ∙ h _
forget-scoped false block j v h = forget-destroy null_ptr _ ∙ h j

pub forget-bind :
    {A B : Type 0} (r : Result (A × Jvmti)) (next : A × Jvmti → Result (B × Jvmti)) (v : Result A)
    (after : A → Result B)
    → forget r ≡ v
    → ((a : A) (j : Jvmti) → forget (next (a, j)) ≡ after a)
    → forget (r >>= next) ≡ (v >>= after)
forget-bind (halt e) next v after h n = ap (λ x. x >>= after) h
forget-bind (ok (a, j)) next v after h n = n a j ∙ ap (λ x. x >>= after) h
