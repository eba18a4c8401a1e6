-- ===== src/Jvmti.antt =====
-- The memory that JVMTI hands out, and class JvmtiScopedPtr of src/globals.h, which gives it back.
pub mod Laws
use jcoz.Base.{
  ℕ, suc, ◌+◌, Bool, true, false, List, [], ◌∷◌, ◌==◌, if◌then◌else◌, Result, ok, halt, ◌>>=◌,
  assertion_fails,
}
use jcoz.Profiler.{is_member, erase}

-- The pointers that were handed out and not given back, and the calls of Deallocate that failed. A
-- pointer is not 0.
pub record Jvmti : Type 0 where
  pub fresh : ℕ
  pub given : List ℕ
  pub errors : ℕ

unfoldable pub allocate : Jvmti → ℕ × Jvmti
allocate j =
    (suc j.fresh, record { fresh = suc j.fresh; given = suc j.fresh ∷ j.given; errors = j.errors })

-- A pointer that JVMTI did not hand out is an error, which the macro JVMTI_ERROR prints.
unfoldable pub deallocate : ℕ → Jvmti → Jvmti
deallocate p j =
    if is_member p j.given
    then record j { given = erase p j.given }
    else record j { errors = j.errors + 1 }

-- `ref_` is 0 where it is null.
pub record ScopedPtr : Type 0 where
  pub ref : ℕ

abbrev pub null_ptr : ScopedPtr
null_ptr = record { ref = 0 }

-- GetRef: the place to write a pointer to, which has to be empty.
unfoldable pub get_ref : ScopedPtr → Result ScopedPtr
get_ref s = if s.ref == 0 then ok s else halt assertion_fails

unfoldable pub abandon_because_of_error : ScopedPtr → ScopedPtr
abandon_because_of_error s = record { ref = 0 }

-- The destructor
unfoldable pub destroy : ScopedPtr → Jvmti → Jvmti
unfolding deallocate
destroy s j = if s.ref == 0 then j else deallocate s.ref j

-- What a JVMTI call writes, if it succeeds.
abbrev pub fill : Bool → ScopedPtr → Jvmti → ScopedPtr × Jvmti
fill true s j = let (p, k) = allocate j in (record { ref = p }, k)
fill false s j = (s, j)

-- The rest of a block in which a scoped pointer was declared and filled by a call that succeeds or
-- not: the destructor runs at its end, however it is left.
unfoldable pub scoped {ℓ} :
    {A : Type ℓ} → Bool → (Jvmti → Result (A × Jvmti)) → Jvmti → Result (A × Jvmti)
unfolding get_ref allocate destroy
scoped succeeds block j =
    get_ref null_ptr
    >>= (λ s. let (p, k) = fill succeeds s j in block k >>= (λ r. ok (r.0, destroy p r.1)))

-- What a block comes to, the memory aside.
abbrev pub forget {ℓ} : {A : Type ℓ} → Result (A × Jvmti) → Result A
forget (halt e) = halt e
forget (ok (a, j)) = ok a
