-- ===== src/Output.antt =====
-- The lines that runExperiment appends to the output file, src/profiler.cc: what operator<< makes of
-- their fields, and how a reader of the file finds them again.
pub mod Speedups
pub mod Reader
pub mod Laws
use mathlib.Core.Option
use jcoz.Base.{
  ℕ, zero, suc, ◌+◌, ◌*◌, ◌/◌, ◌%◌, ◌^◌, Bool, true, false, ◌&&◌, List, [], ◌∷◌, ◌++◌, Option, none,
  some, ◌==◌, leb, length, if◌then◌else◌, Result, ok, halt,
}
use jcoz.Base.Int.{ℤ}
use jcoz.Text.{Bytes, codes}
use jcoz.Text.Lines.{getlines, join}
use jcoz.Text.Numbers.{numeral, value, stoi, stol}
use jcoz.Text.Printing.{print_unsigned, print_long}
use jcoz.Experiment.Float.{F32, nearest}
use jcoz.Agent.{Report}

abbrev pub is_nil {ℓ} : {A : Type ℓ} → List A → Bool
is_nil [] = true
is_nil (x ∷ xs) = false

-- The last `k` decimal digits of a number, and the digits without the zeros at their end.
unfoldable pub padded : ℕ → ℕ → List ℕ
padded zero n = []
padded (suc k) n = padded k (n / 10) ++ n % 10 ∷ []

unfoldable pub strip : List ℕ → List ℕ
strip [] = []
strip (d ∷ ds) = let rest = strip ds in if (d == 0) && is_nil rest then [] else d ∷ rest

-- How many places the first digit other than 0 stands behind the point, up to 4.
unfoldable pub places : ℕ → ℕ → ℕ → ℕ
places zero mant scale = 0
places (suc fuel) mant scale =
    let rest = suc (places fuel (mant * 10) scale) in if leb scale mant then 0 else rest

abbrev pub with_point : ℕ → List ℕ → Bytes
with_point whole [] = print_unsigned whole
with_point whole (d ∷ ds) = print_unsigned whole ++ b'.' ∷ numeral (d ∷ ds)

-- operator<< for a float at the stream's precision of six digits, for 0 and the numbers from 10^-4 to
-- below 10, which it writes without an exponent.
unfoldable pub print_float : F32 → Bytes
unfolding padded strip places
print_float x =
    if x.mant == 0
    then codes "0"
    else let k = 5 + places 4 x.mant (2 ^ x.exp) in
      let scaled = nearest (x.mant * 10 ^ k) (2 ^ x.exp) in
      with_point (scaled / 10 ^ k) (strip (padded k (scaled % 10 ^ k)))

-- experiment_data << sig << ":" << lineno << "," << speedup << "," << …, without the line's end
unfoldable pub print_report : Report → Bytes
unfolding print_float
print_report r = join b',' (
    (r.class_fqn ++ b':' ∷ print_long r.lineno)
    ∷ print_float r.speedup
    ∷ print_long r.duration
    ∷ print_long r.effective_duration
    ∷ print_long r.points_hit
    ∷ [])

-- The lines, each appended with its end.
unfoldable pub append_reports : Bytes → List Report → Bytes
unfolding print_report
append_reports file [] = file
append_reports file (r ∷ rs) = append_reports (file ++ (print_report r ++ b'\n' ∷ [])) rs
