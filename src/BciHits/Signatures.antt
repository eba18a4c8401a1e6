-- ===== src/BciHits/Signatures.antt =====
-- The signatures that runExperiment asks JVMTI for and hands to add_hit, and create_dump, which gives
-- back one for each method, src/profiler.cc and src/bci_hits.cc.
pub mod Methods
pub mod Left
use jcoz.Base.{
  ℕ, suc, ◌+◌, ◌≤◌, ◌<◌, ◌≡◌, refl, sym, ap, subst, ◌∙◌, Bool, true, false, inl, inr, Bool-cases,
  List, [], ◌∷◌, if◌then◌else◌, arith, ltb, ◌==◌, length, All,
}
use jcoz.Profiler.{is_member, erase}
use jcoz.Jvmti.{Jvmti, allocate, deallocate}
use jcoz.BciHits.OrderedMap.{Map, adjust, lookup, value_or}
use jcoz.BciHits.{LineFreq, add_hit}
use jcoz.BciHits.Laws.{Hit, add_hits}

-- _declaring_classes as the source keeps it, a pointer for each method, and JVMTI's memory.
pub record Signatures : Type 0 where
  pub class_ptrs : Map ℕ ℕ
  pub jvmti : Jvmti

-- GetClassSignature of an experiment's method, and what add_hit does with the pointer.
unfoldable pub keep_sig : ℕ → Signatures → Signatures
unfolding allocate
keep_sig method_id s =
    let (sig, j) = allocate s.jvmti in
    record { class_ptrs = adjust ltb method_id 0 (λ _. sig) s.class_ptrs; jvmti = j }

unfoldable pub keep_sigs : List Hit → Signatures → Signatures
keep_sigs [] s = s
keep_sigs (h ∷ hs) s = keep_sig h.method_id (keep_sigs hs s)

-- The deallocations of create_dump, in the order of the methods of `_freqs`.
unfoldable pub dump_deallocates : Map ℕ ℕ → Map ℕ LineFreq → Jvmti → Jvmti
dump_deallocates ptrs [] j = j
dump_deallocates ptrs ((method_id, lines) ∷ methods) j =
    dump_deallocates ptrs methods (deallocate (value_or 0 (lookup ltb method_id ptrs)) j)

abbrev pub no_signatures : Signatures
no_signatures = record { class_ptrs = []; jvmti = record { fresh = 0; given = []; errors = 0 } }

-- JVMTI's memory after some calls of add_hit and the dump.
unfoldable pub after_dump : List Hit → Jvmti
unfolding keep_sigs dump_deallocates
after_dump hs =
    let s = keep_sigs hs no_signatures in dump_deallocates s.class_ptrs (add_hits hs).freqs s.jvmti

-- How many different methods the hits are about.
unfoldable pub is_among : ℕ → List Hit → Bool
is_among m [] = false
is_among m (h ∷ hs) = if h.method_id == m then true else is_among m hs

unfoldable pub methods_of : List Hit → ℕ
methods_of [] = 0
methods_of (h ∷ hs) = (if is_among h.method_id hs then 0 else 1) + methods_of hs
