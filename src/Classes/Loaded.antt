-- ===== src/Classes/Loaded.antt =====
-- The loop of run_profiler over the classes that are loaded already, src/entry.cc.
use jcoz.Base.{ℕ, ◌≡◌, ◌∙◌, sym, refl, ap, List, [], ◌∷◌, Option, none, some, All, Result, ok, halt}
use jcoz.Progress.{LineTables}
use jcoz.Classes.{Classes, Class, create_jmethod_ids, and_then, load_classes}
use jcoz.Classes.Lock.{IsKnown, create_jmethod_ids_lock}

pub and_then-ok :
    (r : Option (Result Classes)) (next : Classes → Option (Result Classes)) (q : Classes)
    → and_then r next ≡ some (ok q)
    → (c : Classes) × (r ≡ some (ok c)) × (next c ≡ some (ok q))
and_then-ok none next q h = absurd cc
and_then-ok (some (halt reason)) next q h = absurd cc
and_then-ok (some (ok c)) next q h = (c, refl, h)

pub some_ok : (c q : Classes) → some (ok c) ≡ some (ok q) → c ≡ q
some_ok c q h = cc

-- When all loaded classes have been prepared, each with methods or a signature that JVMTI gives,
-- the lock is as it was before the first.
pub load_classes_lock :
    (tables : LineTables) (self : ℕ) (c q : Classes) (classes : List Class)
    → All IsKnown classes
    → load_classes tables self c classes ≡ some (ok q)
    → q.class_prep_lock ≡ c.class_prep_lock
unfolding load_classes
load_classes_lock tables self c q [] known h =
    ap (λ (x : Classes). x.class_prep_lock) (sym (some_ok c q h))
load_classes_lock tables self c q (class ∷ classes) (known, others) h =
    let (d, first, rest) =
      and_then-ok (create_jmethod_ids tables self c class) (λ x. load_classes tables self x classes)
        q h in
    load_classes_lock tables self d q classes others rest
    ∙ create_jmethod_ids_lock tables self c d class known first
