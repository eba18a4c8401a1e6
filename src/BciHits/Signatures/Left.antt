-- ===== src/BciHits/Signatures/Left.antt =====
-- What create_dump of src/bci_hits.cc gives back of the signatures that add_hit keeps, and what is left.
use jcoz.Base.{
  ℕ, suc, ◌+◌, ◌≤◌, ◌<◌, ◌≡◌, refl, sym, ap, subst, ◌∙◌, true, false, List, [], ◌∷◌, if◌then◌else◌,
  arith, ltb, ◌==◌, length, All,
}
use jcoz.Profiler.{is_member, erase}
use jcoz.Jvmti.{Jvmti, allocate, deallocate}
use jcoz.BciHits.OrderedMap.{Map, adjust, lookup, value_or}
use jcoz.BciHits.{LineFreq}
use jcoz.BciHits.Laws.{Hit, add_hits}
use jcoz.BciHits.Signatures.{
  Signatures, keep_sig, keep_sigs, dump_deallocates, no_signatures, after_dump, methods_of,
}
use jcoz.BciHits.Signatures.Methods.{
  keys, IsSorted, length-method_keys, method_keys-IsSorted, keys-add_hits, keys-keep_sigs,
}

unfoldable times : ℕ → List ℕ → ℕ
times p [] = 0
times p (q ∷ qs) = (if q == p then 1 else 0) + times p qs

unfoldable values : Map ℕ ℕ → List ℕ
values [] = []
values ((k, v) ∷ m) = v ∷ values m

-- An adjustment brings no value but the new one.
times-adjust :
    (p k v : ℕ) (m : Map ℕ ℕ)
    → times p (values (adjust ltb k 0 (λ _. v) m)) ≤ times p (v ∷ values m)
unfolding times values adjust
times-adjust p k v [] = ground arith
times-adjust p k v ((j, w) ∷ m) = ground (arith, times-adjust p k v m)

times_member : (p : ℕ) (ps : List ℕ) → 1 ≤ times p ps → is_member p ps ≡ true
unfolding times is_member
times_member p [] h = ground arith
times_member p (q ∷ qs) h = ground (arith, times_member p qs)

absent : (p : ℕ) (ps : List ℕ) → times p ps ≡ 0 → erase p ps ≡ ps
unfolding times erase
absent p [] h = refl
absent p (q ∷ qs) h = ground (arith, absent p qs)

times-erase :
    (q p : ℕ) (ps : List ℕ)
    → times p ps ≡ 1
    → times q (erase p ps) + (if p == q then 1 else 0) ≡ times q ps
unfolding times erase
times-erase q p [] h = ground arith
times-erase q p (r ∷ ps) h = ground (arith, times-erase q p ps, absent p ps)

length-erase : (p : ℕ) (ps : List ℕ) → times p ps ≡ 1 → length (erase p ps) + 1 ≡ length ps
unfolding times erase
length-erase p [] h = ground arith
length-erase p (r ∷ ps) h = ground (arith, length-erase p ps, absent p ps)

-- The pointers that create_dump looks up.
unfoldable looked_up : Map ℕ ℕ → List ℕ → List ℕ
looked_up ptrs [] = []
looked_up ptrs (k ∷ ks) = value_or 0 (lookup ltb k ptrs) ∷ looked_up ptrs ks

unfoldable deallocate_all : List ℕ → Jvmti → Jvmti
deallocate_all [] j = j
deallocate_all (p ∷ ps) j = deallocate_all ps (deallocate p j)

dump_deallocates_lem :
    (ptrs : Map ℕ ℕ) (methods : Map ℕ LineFreq) (j : Jvmti)
    → dump_deallocates ptrs methods j ≡ deallocate_all (looked_up ptrs (keys methods)) j
unfolding dump_deallocates deallocate_all looked_up keys
dump_deallocates_lem ptrs [] j = refl
dump_deallocates_lem ptrs ((k, lines) ∷ methods) j = dump_deallocates_lem ptrs methods _

looked_up-∷ :
    (k v : ℕ) (m : Map ℕ ℕ) (ks : List ℕ)
    → All (λ j. k < j) ks
    → looked_up ((k, v) ∷ m) ks ≡ looked_up m ks
unfolding looked_up lookup
looked_up-∷ k v m [] a = refl
looked_up-∷ k v m (j ∷ js) a =
    let late : ltb j k ≡ false = ground (arith, a.0) in
    let behind : ltb k j ≡ true = ground (arith, a.0) in
    rw (late, behind) (ap (λ r. value_or 0 (lookup ltb j m) ∷ r) (looked_up-∷ k v m js a.1))

looked_up-keys : (m : Map ℕ ℕ) → IsSorted (keys m) → looked_up m (keys m) ≡ values m
unfolding looked_up lookup keys values
looked_up-keys [] s = refl
looked_up-keys ((k, v) ∷ m) s =
    let here : ltb k k ≡ false = ground arith in
    rw here (ap (λ r. v ∷ r) (looked_up-∷ k v m (keys m) s.0 ∙ looked_up-keys m s.1))

length-values : (m : Map ℕ ℕ) → length (values m) ≡ length (keys m)
unfolding values keys
length-values [] = refl
length-values ((k, v) ∷ m) = omega (arith, length-values m)

deallocate_given :
    (p : ℕ) (j : Jvmti)
    → is_member p j.given ≡ true
    → deallocate p j ≡ record j { given = erase p j.given }
unfolding deallocate
deallocate_given p j h = rw h refl

-- After some deallocations so many pointers fewer are handed out, without a further error.
abbrev LeavesLess : ℕ → Jvmti → Jvmti → Type 0
LeavesLess n j k = (length k.given + n ≡ length j.given) × (k.errors ≡ j.errors)

-- Pointers that were handed out, each one once, are given back without an error.
deallocate_all_lem :
    (ps : List ℕ) (j : Jvmti)
    → ((q : ℕ) → times q ps ≤ times q j.given)
    → ((q : ℕ) → times q j.given ≤ 1)
    → LeavesLess (length ps) j (deallocate_all ps j)
unfolding deallocate_all times
deallocate_all_lem [] j there once = (omega arith, refl)
deallocate_all_lem (p ∷ ps) j there once =
    let one : times p j.given ≡ 1 = ground (arith, there p, once p) in
    let given : is_member p j.given ≡ true = times_member p j.given (omega (arith, one)) in
    let left = record j { given = erase p j.given } in
    let rest =
      deallocate_all_lem ps left (λ q. ground (arith, there q, times-erase q p j.given one))
        (λ q. ground (arith, once q, times-erase q p j.given one)) in
    subst (λ k. LeavesLess (suc (length ps)) j (deallocate_all ps k))
      (sym (deallocate_given p j given)) (omega (arith, rest.0, length-erase p j.given one), rest.1)

-- The pointers that are kept were handed out, once each.
record Kept (s : Signatures) : Type 0 where
  there : (q : ℕ) → times q (values s.class_ptrs) ≤ times q s.jvmti.given
  once : (q : ℕ) → times q s.jvmti.given ≤ 1
  later : (q : ℕ) → s.jvmti.fresh < q → times q s.jvmti.given ≡ 0

keep_sig-Kept : (m : ℕ) (s : Signatures) → Kept s → Kept (keep_sig m s)
unfolding keep_sig allocate times
keep_sig-Kept m s k =
    let new : ℕ = suc s.jvmti.fresh in
    record {
      there = λ q. ground (arith, times-adjust q m new s.class_ptrs, k.there q);
      once = λ q. ground (arith, k.once q, k.later q);
      later = λ q h. ground (arith, h, k.later q);
    }

keep_sigs-Kept : (hs : List Hit) → Kept (keep_sigs hs no_signatures)
unfolding keep_sigs times values
keep_sigs-Kept [] = record {
  there = λ q. omega arith;
  once = λ q. omega arith;
  later = λ q h. refl;
}
keep_sigs-Kept (h ∷ hs) = keep_sig-Kept h.method_id _ (keep_sigs-Kept hs)

given-keep_sigs :
    (hs : List Hit)
    → (length (keep_sigs hs no_signatures).jvmti.given ≡ length hs)
      × ((keep_sigs hs no_signatures).jvmti.errors ≡ 0)
unfolding keep_sigs keep_sig allocate
given-keep_sigs [] = (refl, refl)
given-keep_sigs (h ∷ hs) = let ih = given-keep_sigs hs in (omega (arith, ih.0), ih.1)

-- Whatever experiments called add_hit, create_dump gives back one signature for each method that
-- they were about, without an error of JVMTI, and leaves those of all other experiments behind.
pub after_dump_leak :
    (hs : List Hit)
    → (length (after_dump hs).given + methods_of hs ≡ length hs) × ((after_dump hs).errors ≡ 0)
unfolding after_dump
after_dump_leak hs =
    let s = keep_sigs hs no_signatures in
    let sorted : IsSorted (keys s.class_ptrs) =
      subst IsSorted (sym (keys-keep_sigs hs)) (method_keys-IsSorted hs) in
    let found : looked_up s.class_ptrs (keys (add_hits hs).freqs) ≡ values s.class_ptrs =
      ap (looked_up s.class_ptrs) (keys-add_hits hs ∙ sym (keys-keep_sigs hs))
      ∙ looked_up-keys s.class_ptrs sorted in
    let count : length (values s.class_ptrs) ≡ methods_of hs =
      length-values s.class_ptrs ∙ ap length (keys-keep_sigs hs) ∙ length-method_keys hs in
    let k = keep_sigs-Kept hs in
    let back = deallocate_all_lem (values s.class_ptrs) s.jvmti k.there k.once in
    let all = given-keep_sigs hs in
    rw (dump_deallocates_lem s.class_ptrs (add_hits hs).freqs s.jvmti, found)
      (omega (arith, back.0, count, all.0), back.1 ∙ all.1)
