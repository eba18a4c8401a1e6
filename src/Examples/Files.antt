-- ===== src/Examples/Files.antt =====
-- A line of the output file.
use jcoz.Base.{◌++◌, [], ◌∷◌, ◌≡◌, refl, arith, ok}
use jcoz.Base.Int.{pos, negsuc}
use jcoz.Text.{codes}
use jcoz.Text.Printing.{print_long}
use jcoz.Text.Lines.{join}
use jcoz.Experiment.{calculate_random_speedup}
use jcoz.Experiment.Float.{div_f32}
use jcoz.Options.{column_names}
use jcoz.Output.{print_float, print_report, append_reports}
use jcoz.Output.Speedups.{lacks, lacks-All}
use jcoz.Output.Reader.{Written, report_of, row_of, read_file}
use jcoz.Output.Laws.{IsPlain, read_file-append_reports}

abbrev seven_twentieths : Written
seven_twentieths = record {
  class_fqn = codes "a.Main";
  lineno = pos 12;
  rand = 11;
  duration = pos 5000000;
  effective_duration = negsuc 2;
  points_hit = pos 40;
}

printed : print_report (report_of seven_twentieths) ≡ codes "a.Main:12,0.35,5000000,-3,40"
unfolding print_report print_float print_long calculate_random_speedup div_f32 join
printed = refl

seven_twentieths-IsPlain : IsPlain seven_twentieths
unfolding lacks
seven_twentieths-IsPlain = record {
  no_colon = lacks-All b':' (codes "a.Main") refl;
  no_comma = lacks-All b',' (codes "a.Main") refl;
  no_newline = lacks-All b'\n' (codes "a.Main") refl;
  line = (omega arith, omega arith);
  time = (omega arith, omega arith);
  effective = (omega arith, omega arith);
  points = (omega arith, omega arith);
}

read_file-append_reports_example :
    read_file (append_reports (column_names ++ b'\n' ∷ []) (report_of seven_twentieths ∷ []))
    ≡ ok (row_of seven_twentieths ∷ [])
read_file-append_reports_example =
    read_file-append_reports (seven_twentieths ∷ []) (seven_twentieths-IsPlain, tt)
