-- ===== src/Progress.antt =====
-- addProgressPoint and clearProgressPoint of src/profiler.cc. What JVMTI answers is an argument, and
-- what is asked of it is kept in `calls`.
pub mod Laws
use jcoz.Base.{
  ℕ, Bool, true, false, not, ◌&&◌, ◌||◌, List, [], ◌∷◌, ◌++◌, Option, none, some, ◌==◌,
  if◌then◌else◌, Result, ok, halt, exits, progress_point_not_set,
}
use jcoz.Base.Int.{ℤ, eqb_ℤ}
use jcoz.Frame.{LineEntry}

-- struct ProgressPoint; a `method_id` of 0 is null.
pub record ProgressPoint : Type 0 where
  pub method_id : ℕ
  pub lineno : ℤ
  pub location : ℤ

pub data Call : Type 0 where
  set_breakpoint clear_breakpoint : ℕ → ℤ → Call

pub record Progress : Type 0 where
  pub end_to_end : Bool
  pub progress_point : ProgressPoint
  pub calls : List Call

-- GetLineNumberTable; `none` is an error.
abbrev pub LineTables : Type 0
LineTables = ℕ → Option (List LineEntry)

-- The inner loop: where the line starts.
unfoldable pub find_line : ℤ → List LineEntry → Option ℤ
find_line lineno [] = none
find_line lineno (e ∷ es) =
    if eqb_ℤ e.line_number lineno then some e.start_location else find_line lineno es

-- The outer loop: the first method with the line. A method without a table is passed over.
unfoldable pub find_point : ℤ → LineTables → List ℕ → Option (ℕ × ℤ)
unfolding find_line
find_point lineno tables [] = none
find_point lineno tables (m ∷ ms) =
    let rest = find_point lineno tables ms in
    elim (tables m) [
      | none ↦ rest
      | some entries ↦ elim (find_line lineno entries) [
        | none ↦ rest
        | some location ↦ some (m, location)
      ]
    ]

unfoldable pub add_progress_point : Progress → LineTables → List ℕ → Result Progress
add_progress_point p tables methods =
    if p.end_to_end || not (p.progress_point.method_id == 0)
    then ok p
    else elim (find_point p.progress_point.lineno tables methods) [
      | none ↦ halt (exits progress_point_not_set)
      | some (m, location) ↦ ok (record p {
        progress_point = record (p.progress_point) { method_id = m; location = location };
        calls = p.calls ++ set_breakpoint m location ∷ [];
      })
    ]

unfoldable pub clear_progress_point : Progress → Progress
clear_progress_point p =
    if not p.end_to_end && not (p.progress_point.method_id == 0)
    then record p {
      progress_point = record (p.progress_point) { method_id = 0 };
      calls = p.calls ++ clear_breakpoint p.progress_point.method_id p.progress_point.location ∷ [];
    }
    else p
