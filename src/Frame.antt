-- ===== src/Frame.antt =====
-- Call frames (src/stacktraces.h) and the line tables and code ranges of src/profiler.cc.
pub mod Lines
pub mod Order
use jcoz.Base.{ℕ, ◌+◌, Bool, true, false, ◌&&◌, List, [], ◌∷◌, ◌==◌, ltb, if◌then◌else◌}
use jcoz.Base.Int.{ℤ, pos, ltb_ℤ, leb_ℤ, eqb_ℤ}

-- JVMPI_CallFrame: `lineno` is a bytecode index, `method_id` a pointer.
pub record CallFrame : Type 0 where
  pub lineno : ℤ
  pub method_id : ℕ

-- operator< and operator== on frames
unfoldable pub lt_frame : CallFrame → CallFrame → Bool
lt_frame lhs rhs =
    if lhs.method_id == rhs.method_id
    then ltb_ℤ lhs.lineno rhs.lineno
    else ltb lhs.method_id rhs.method_id

unfoldable pub eq_frame : CallFrame → CallFrame → Bool
eq_frame lhs rhs = lhs.method_id == rhs.method_id && eqb_ℤ lhs.lineno rhs.lineno

-- jvmtiLineNumberEntry
pub record LineEntry : Type 0 where
  pub start_location : ℤ
  pub line_number : ℤ

abbrev pub max_bci : ℕ
max_bci = 65535

-- The first loop over the entries: the line of the entry before the first one past `bci`. With no
-- entry the line of the last experiment stays.
unfoldable pub choose_line : ℤ → ℤ → List LineEntry → ℤ
choose_line bci old [] = old
choose_line bci old (e ∷ []) = e.line_number
choose_line bci old (e ∷ f ∷ es) =
    if ltb_ℤ bci f.start_location then e.line_number else choose_line bci old (f ∷ es)

-- The second loop: the code ranges of a line, each with its end excluded. Start positions are indexes
-- into a method's code, of at most 65535 bytes, which their narrowing to jint leaves as they are.
unfoldable pub line_ranges : ℤ → List LineEntry → List (ℤ × ℤ)
line_ranges line [] = []
line_ranges line (e ∷ []) =
    if eqb_ℤ e.line_number line then (e.start_location, pos (max_bci + 1)) ∷ [] else []
line_ranges line (e ∷ f ∷ es) =
    if eqb_ℤ e.line_number line
    then (e.start_location, f.start_location) ∷ line_ranges line (f ∷ es)
    else line_ranges line (f ∷ es)

-- The loop of inExperiment.
unfoldable pub in_ranges : List (ℤ × ℤ) → ℤ → Bool
in_ranges [] bci = false
in_ranges ((first, second) ∷ ranges) bci =
    if leb_ℤ first bci && ltb_ℤ bci second then true else in_ranges ranges bci
