-- ===== src/Examples/Classes.antt =====
-- Classes and their progress point.
use jcoz.Base.{
  ap, ℕ, ◌≡◌, refl, true, false, [], ◌∷◌, Option, some, none, arith, Result, ok, halt, exits,
  progress_point_not_set, ◌↔◌, ◌⊎◌, All, if◌then◌else◌, ◌==◌,
}
use jcoz.Base.Int.{ℤ, pos}
use jcoz.Text.{codes, strstr, drop_last, text_eq}
use jcoz.Profiler.{is_member}
use jcoz.Progress.{
  Progress, LineTables, set_breakpoint, clear_breakpoint, add_progress_point, clear_progress_point,
  find_point,
}
use jcoz.Progress.Laws.{
  FirstPoint, Misses, with_point, add_all, add_progress_point_lem, breakpoint_balanced,
}
use jcoz.Scope.{is_progress_class}
use jcoz.Classes.{
  load_classes, and_then, Classes, Class, create_jmethod_ids, create_ids_locked, prepare_methods,
}
use jcoz.Classes.Memory.{create_ids_in}
use jcoz.Classes.GivenBack.{create_ids_lem}
use jcoz.Jvmti.{Jvmti, forget}
use jcoz.Jvmti.Laws.{Balanced}
use jcoz.Classes.Brought.{SomeBrings, load_classes_scope}
use jcoz.Classes.Lock.{create_jmethod_ids_leak}

abbrev unset : Progress
unset = record {
  end_to_end = false;
  progress_point = record { method_id = 0; lineno = pos 12; location = pos 0 };
  calls = [];
}

-- Method 8 has line 12 at bytecode index 4.
abbrev pub tables : LineTables
tables m =
    if m == 8 then some (record { start_location = pos 4; line_number = pos 12 } ∷ []) else none

add_progress_point_lem_example :
    ((add_progress_point unset tables (7 ∷ 8 ∷ []) ≡ halt (exits progress_point_not_set))
      × All (Misses (pos 12) tables) (7 ∷ 8 ∷ []))
    ⊎ ((m : ℕ) × (location : ℤ) × (add_progress_point unset tables (7 ∷ 8 ∷ [])
          ≡ ok (with_point unset m location))
        × FirstPoint (pos 12) tables (7 ∷ 8 ∷ []) m location)
add_progress_point_lem_example = add_progress_point_lem unset tables (7 ∷ 8 ∷ []) (refl, refl)

abbrev state_of : Result Progress → Progress
state_of (ok p) = p
state_of (halt reason) = unset

abbrev point_set : Progress
point_set = state_of (add_progress_point unset tables (7 ∷ 8 ∷ []))

sets : add_progress_point unset tables (7 ∷ 8 ∷ []) ≡ ok point_set
unfolding add_progress_point find_point
sets = refl

once : add_all point_set tables ((8 ∷ []) ∷ []) ≡ ok point_set
unfolding add_progress_point find_point add_all
once = refl

breakpoint_balanced_example :
    (m : ℕ) × (location : ℤ) × ((clear_progress_point point_set).calls
      ≡ set_breakpoint m location ∷ clear_breakpoint m location ∷ [])
breakpoint_balanced_example =
    breakpoint_balanced unset point_set point_set tables (7 ∷ 8 ∷ []) ((8 ∷ []) ∷ []) (refl, refl)
      ((λ e. absurd (omega (arith, e))), ((λ e. absurd (omega (arith, e))), tt)) sets once

-- Two addresses in user space.
abbrev thread : ℕ
thread = 139637976729344

abbrev other_thread : ℕ
other_thread = 139637976727296

abbrev pub classes : Classes
classes = record {
  running = true;
  search_scopes = codes "app/" ∷ [];
  ignored_scopes = [];
  progress_class = codes "app/Main";
  in_scope_ids = [];
  progress = unset;
  class_prep_lock = 0;
}

abbrev pub main_class : Class
main_class = record { methods = some (7 ∷ 8 ∷ []); signature = some (codes "Lapp/Other;") }

abbrev unknown_class : Class
unknown_class = record { methods = none; signature = none }

abbrev classes_of : Option (Result Classes) → Classes
classes_of none = classes
classes_of (some (ok c)) = c
classes_of (some (halt reason)) = classes

abbrev pub prepared : Classes
prepared = classes_of (create_jmethod_ids tables 5 classes main_class)

prepares : create_jmethod_ids tables 5 classes main_class ≡ some (ok prepared)
unfolding create_jmethod_ids create_ids_locked prepare_methods is_progress_class strstr drop_last
    text_eq
prepares = refl

create_jmethod_ids_leak_example :
    (create_jmethod_ids tables thread classes unknown_class
      ≡ some (ok (record classes { class_prep_lock = 1792 })))
    × (create_jmethod_ids tables other_thread (record classes { class_prep_lock = 1792 }) main_class
        ≡ none)
create_jmethod_ids_leak_example =
    create_jmethod_ids_leak tables thread other_thread classes unknown_class main_class (refl, refl)
      ((λ e. absurd (omega (arith, e))), (omega arith, omega arith), (omega arith, omega arith))
      (refl, refl)

pub loads : load_classes tables 5 classes (main_class ∷ []) ≡ some (ok prepared)
unfolding load_classes
loads = ap (λ r. and_then r (λ q. load_classes tables 5 q [])) prepares

load_classes_scope_example :
    (is_member 8 prepared.in_scope_ids ≡ true)
    ↔ ((is_member 8 [] ≡ true) ⊎ SomeBrings [] (codes "app/" ∷ []) 8 (main_class ∷ []))
load_classes_scope_example =
    load_classes_scope tables 5 8 classes prepared (main_class ∷ []) refl loads

-- One pointer is handed out at first.
abbrev handed : Jvmti
handed = record { fresh = 5; given = 3 ∷ []; errors = 0 }

create_ids_lem_example :
    Balanced handed (create_ids_in tables classes main_class true handed)
    × (forget (create_ids_in tables classes main_class true handed)
        ≡ create_ids_locked tables classes main_class true)
create_ids_lem_example = create_ids_lem tables classes main_class true handed (omega arith, tt)
