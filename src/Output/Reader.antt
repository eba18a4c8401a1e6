-- ===== src/Output/Reader.antt =====
-- A reader of the output file, and the experiments whose lines it should find, for src/profiler.cc.
use jcoz.Base.{ℕ, List, [], ◌∷◌, Option, none, some, Result, ok, halt, ◌>>=◌, invalid_argument}
use jcoz.Base.Int.{ℤ}
use jcoz.Text.{Bytes}
use jcoz.Text.Lines.{getlines}
use jcoz.Text.Numbers.{stoi, stol}
use jcoz.Experiment.{calculate_random_speedup}
use jcoz.Experiment.Draw.{twentieths}
use jcoz.Agent.{Report}
use jcoz.Output.Speedups.{read_speedup}

-- What a line says: the speedup is a number of twentieths.
pub record Row : Type 0 where
  pub class_fqn : Bytes
  pub lineno : ℤ
  pub speedup : ℕ
  pub duration : ℤ
  pub effective_duration : ℤ
  pub points_hit : ℤ

abbrev pub number_or : Option ℕ → Result ℕ
number_or none = halt invalid_argument
number_or (some n) = ok n

-- A reader of the file: lines, fields between commas, and the line number behind a colon.
abbrev pub read_place : List Bytes → Result (Bytes × ℤ)
read_place (class ∷ line ∷ []) = stoi line >>= (λ n. ok (class, n))
read_place _ = halt invalid_argument

abbrev pub read_fields : List Bytes → Result Row
read_fields (place ∷ speedup ∷ duration ∷ effective ∷ points ∷ []) = do
  where_is ← read_place (getlines b':' place)
  k ← number_or (read_speedup speedup)
  d ← stol duration
  e ← stol effective
  n ← stol points
  ok (record {
    class_fqn = where_is.0;
    lineno = where_is.1;
    speedup = k;
    duration = d;
    effective_duration = e;
    points_hit = n;
  })
read_fields _ = halt invalid_argument

abbrev pub read_report : Bytes → Result Row
read_report line = read_fields (getlines b',' line)

unfoldable pub read_reports : List Bytes → Result (List Row)
read_reports [] = ok []
read_reports (line ∷ lines) = read_report line >>= (λ r. read_reports lines >>= (λ rs. ok (r ∷ rs)))

-- A drawn experiment's line, and what should be read of it.
pub record Written : Type 0 where
  pub class_fqn : Bytes
  pub lineno : ℤ
  pub rand : ℕ
  pub duration : ℤ
  pub effective_duration : ℤ
  pub points_hit : ℤ

abbrev pub report_of : Written → Report
report_of w = record {
  class_fqn = w.class_fqn;
  lineno = w.lineno;
  speedup = calculate_random_speedup w.rand;
  duration = w.duration;
  effective_duration = w.effective_duration;
  points_hit = w.points_hit;
}

abbrev pub row_of : Written → Row
row_of w = record {
  class_fqn = w.class_fqn;
  lineno = w.lineno;
  speedup = twentieths w.rand;
  duration = w.duration;
  effective_duration = w.effective_duration;
  points_hit = w.points_hit;
}

abbrev pub read_lines_of : List Bytes → Result (List Row)
read_lines_of [] = halt invalid_argument
read_lines_of (header ∷ lines) = read_reports lines

-- The file behind its first line
unfoldable pub read_file : Bytes → Result (List Row)
unfolding read_reports
read_file file = read_lines_of (getlines b'\n' file)
