-- ===== src/BciHits/Signatures/Methods.antt =====
-- The methods in the maps of src/bci_hits.cc, in the order of their keys.
use jcoz.Base.{
  ℕ, ◌+◌, ◌≤◌, ◌<◌, ◌≡◌, refl, ap, ◌∙◌, true, false, inl, inr, Bool-cases, List, [], ◌∷◌,
  if◌then◌else◌, arith, ltb, ◌==◌, length, All,
}
use jcoz.Profiler.{is_member}
use jcoz.Jvmti.{allocate}
use jcoz.BciHits.OrderedMap.{Map, adjust}
use jcoz.BciHits.{add_hit}
use jcoz.BciHits.Laws.{Hit, add_hits}
use jcoz.BciHits.Signatures.{keep_sig, keep_sigs, no_signatures, is_among, methods_of}

unfoldable pub keys {ℓ} : {V : Type ℓ} → Map ℕ V → List ℕ
keys [] = []
keys ((k, v) ∷ m) = k ∷ keys m

unfoldable pub insert : ℕ → List ℕ → List ℕ
insert k [] = k ∷ []
insert k (j ∷ js) = if ltb k j then k ∷ j ∷ js else if ltb j k then j ∷ insert k js else j ∷ js

pub keys-adjust :
    {V : Type 0} (k : ℕ) (d : V) (f : V → V) (m : Map ℕ V)
    → keys (adjust ltb k d f m) ≡ insert k (keys m)
unfolding keys adjust insert
keys-adjust k d f [] = refl
keys-adjust k d f ((j, v) ∷ m) = ground (arith, keys-adjust k d f m)

abbrev pub IsSorted : List ℕ → Type 0
IsSorted [] = Unit
IsSorted (k ∷ ks) = All (λ j. k < j) ks × IsSorted ks

All-insert : (i k : ℕ) (ks : List ℕ) → i < k → All (λ j. i < j) ks → All (λ j. i < j) (insert k ks)
unfolding insert
All-insert i k [] h a = (h, tt)
All-insert i k (j ∷ js) h a = elim (Bool-cases (ltb k j)) [
  | inl before ↦ rw before (h, (a.0, a.1))
  | inr late ↦ elim (Bool-cases (ltb j k)) [
    | inl behind ↦ rw (late, behind) (a.0, All-insert i k js h a.1)
    | inr here ↦ rw (late, here) (a.0, a.1)
  ]
]

older : (i k : ℕ) (ks : List ℕ) → i < k → All (λ j. k < j) ks → All (λ j. i < j) ks
older i k [] h a = tt
older i k (j ∷ js) h a = (omega (arith, h, a.0), older i k js h a.1)

insert-IsSorted : (k : ℕ) (ks : List ℕ) → IsSorted ks → IsSorted (insert k ks)
unfolding insert
insert-IsSorted k [] s = (tt, tt)
insert-IsSorted k (j ∷ js) s = elim (Bool-cases (ltb k j)) [
  | inl before ↦
      let lt : k < j = ground (arith, before) in rw before ((lt, older k j js lt s.0), (s.0, s.1))
  | inr late ↦ elim (Bool-cases (ltb j k)) [
    | inl behind ↦
        let lt : j < k = ground (arith, behind) in
        rw (late, behind) (All-insert j k js lt s.0, insert-IsSorted k js s.1)
    | inr here ↦ rw (late, here) (s.0, s.1)
  ]
]

not_below : (k i : ℕ) (ks : List ℕ) → k ≤ i → All (λ j. i < j) ks → is_member k ks ≡ false
unfolding is_member
not_below k i [] h a = refl
not_below k i (j ∷ js) h a = ground (arith, not_below k i js h a.1, a.0)

length-insert :
    (k : ℕ) (ks : List ℕ)
    → IsSorted ks
    → length (insert k ks) ≡ (if is_member k ks then 0 else 1) + length ks
unfolding insert is_member
length-insert k [] s = refl
length-insert k (j ∷ js) s =
    ground (arith, length-insert k js s.1, λ (h : k ≤ j). not_below k j js h s.0)

is_member-insert :
    (m k : ℕ) (ks : List ℕ) → is_member m (insert k ks) ≡ (if k == m then true else is_member m ks)
unfolding insert is_member
is_member-insert m k [] = ground arith
is_member-insert m k (j ∷ js) = ground (arith, is_member-insert m k js)

-- The methods of the hits, in their order.
unfoldable pub method_keys : List Hit → List ℕ
method_keys [] = []
method_keys (h ∷ hs) = insert h.method_id (method_keys hs)

pub method_keys-IsSorted : (hs : List Hit) → IsSorted (method_keys hs)
unfolding method_keys
method_keys-IsSorted [] = tt
method_keys-IsSorted (h ∷ hs) =
    insert-IsSorted h.method_id (method_keys hs) (method_keys-IsSorted hs)

pub is_member-method_keys : (m : ℕ) (hs : List Hit) → is_member m (method_keys hs) ≡ is_among m hs
unfolding method_keys is_among is_member
is_member-method_keys m [] = refl
is_member-method_keys m (h ∷ hs) =
    is_member-insert m h.method_id (method_keys hs)
    ∙ ap (λ b. if h.method_id == m then true else b) (is_member-method_keys m hs)

pub length-method_keys : (hs : List Hit) → length (method_keys hs) ≡ methods_of hs
unfolding method_keys methods_of
length-method_keys [] = refl
length-method_keys (h ∷ hs) =
    length-insert h.method_id (method_keys hs) (method_keys-IsSorted hs)
    ∙ rw (is_member-method_keys h.method_id hs, length-method_keys hs) refl

pub keys-add_hits : (hs : List Hit) → keys (add_hits hs).freqs ≡ method_keys hs
unfolding add_hits add_hit keys method_keys
keys-add_hits [] = refl
keys-add_hits (h ∷ hs) =
    keys-adjust h.method_id [] _ (add_hits hs).freqs ∙ ap (insert h.method_id) (keys-add_hits hs)

pub keys-keep_sigs : (hs : List Hit) → keys (keep_sigs hs no_signatures).class_ptrs ≡ method_keys hs
unfolding keep_sigs keep_sig allocate keys method_keys
keys-keep_sigs [] = refl
keys-keep_sigs (h ∷ hs) =
    keys-adjust h.method_id 0 _ (keep_sigs hs no_signatures).class_ptrs
    ∙ ap (insert h.method_id) (keys-keep_sigs hs)
