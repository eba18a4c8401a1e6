-- ===== src/Output/Laws.antt =====
-- The lines of the output file are read back as what was written.
use jcoz.Base.{
  ℕ, ◌≡◌, ◌≢◌, refl, sym, ap, ◌∙◌, inl, inr, List, [], ◌∷◌, ◌++◌, map, All, ok, append_assoc,
  append-nil, arith,
}
use jcoz.Base.Int.{IsLong}
use jcoz.Text.{Bytes}
use jcoz.Text.Lines.{getlines, join, getlines-append, getlines-join, getlines_nil, getlines_last}
use jcoz.Text.Printing.{
  print_long, IsInt, IsOther, stol-print_long, stoi-print_long, print_long-lacks, print_long_full,
}
use jcoz.Options.{column_names}
use jcoz.Agent.{Report}
use jcoz.Output.{print_report, append_reports}
use jcoz.Output.Speedups.{speedup_text, speedup_text-IsReadable, lacks, lacks-All}
use jcoz.Output.Reader.{
  read_place, read_fields, read_report, read_reports, Written, report_of, row_of, read_lines_of,
  read_file,
}

-- The class has none of the file's delimiters, and the numbers are those of their types.
pub record IsPlain (w : Written) : Type 0 where
  pub no_colon : All (λ b. b ≢ b':') w.class_fqn
  pub no_comma : All (λ b. b ≢ b',') w.class_fqn
  pub no_newline : All (λ b. b ≢ b'\n') w.class_fqn
  pub line : IsInt w.lineno
  pub time : IsLong w.duration
  pub effective : IsLong w.effective_duration
  pub points : IsLong w.points_hit

colon-IsOther : IsOther b':'
colon-IsOther = (inr (omega arith), λ e. absurd (omega (arith, e)))

comma-IsOther : IsOther b','
comma-IsOther = (inl (omega arith), λ e. absurd (omega (arith, e)))

newline-IsOther : IsOther b'\n'
newline-IsOther = (inl (omega arith), λ e. absurd (omega (arith, e)))

All-append :
    (c : ℕ) (s t : Bytes) → All (λ b. b ≢ c) s → All (λ b. b ≢ c) t → All (λ b. b ≢ c) (s ++ t)
All-append c [] t h k = k
All-append c (x ∷ s) t h k = (h.0, All-append c s t h.1 k)

abbrev place_of : Written → Bytes
place_of w = w.class_fqn ++ b':' ∷ print_long w.lineno

place_lacks :
    (c : ℕ) (w : Written)
    → IsOther c
    → b':' ≢ c
    → All (λ b. b ≢ c) w.class_fqn
    → All (λ b. b ≢ c) (place_of w)
place_lacks c w other k h = All-append c w.class_fqn _ h (k, print_long-lacks c w.lineno other)

read_place-place_of :
    (w : Written) → IsPlain w → read_place (getlines b':' (place_of w)) ≡ ok (w.class_fqn, w.lineno)
read_place-place_of w p =
    let colons = print_long-lacks b':' w.lineno colon-IsOther in
    let two =
      getlines-append b':' w.class_fqn (print_long w.lineno) p.no_colon
      ∙ ap (◌∷◌ w.class_fqn)
          (getlines_last b':' (print_long w.lineno) colons (print_long_full w.lineno)) in
    rw (two, stoi-print_long w.lineno p.line) refl

abbrev fields_of : Written → List Bytes
fields_of w =
    place_of w
    ∷ speedup_text w.rand
    ∷ print_long w.duration
    ∷ print_long w.effective_duration
    ∷ print_long w.points_hit
    ∷ []

fields_lack :
    (c : ℕ) (w : Written)
    → IsOther c
    → b':' ≢ c
    → All (λ b. b ≢ c) w.class_fqn
    → All (λ b. b ≢ c) (speedup_text w.rand)
    → All (All (λ b. b ≢ c)) (fields_of w)
fields_lack c w other k h s =
    let effective = print_long-lacks c w.effective_duration other in
    (
      place_lacks c w other k h,
      (
        s,
        (
          print_long-lacks c w.duration other,
          (effective, (print_long-lacks c w.points_hit other, tt)),
        ),
      ),
    )

read_fields-fields_of : (w : Written) → IsPlain w → read_fields (fields_of w) ≡ ok (row_of w)
read_fields-fields_of w p =
    rw
      (
        read_place-place_of w p,
        (speedup_text-IsReadable w.rand).number,
        stol-print_long w.duration p.time,
        stol-print_long w.effective_duration p.effective,
        stol-print_long w.points_hit p.points,
      )
      refl

read_report-print_report :
    (w : Written) → IsPlain w → read_report (print_report (report_of w)) ≡ ok (row_of w)
unfolding print_report
read_report-print_report w p =
    ap read_fields (
      getlines-join b',' (fields_of w)
        (fields_lack b',' w comma-IsOther (λ e. absurd (omega (arith, e))) p.no_comma
          (speedup_text-IsReadable w.rand).no_comma)
        (print_long_full w.points_hit))
    ∙ read_fields-fields_of w p

-- Texts with an end of line behind each.
abbrev ended : List Bytes → Bytes
ended [] = []
ended (t ∷ ts) = t ++ b'\n' ∷ ended ts

ended-append : (ts : List Bytes) (t : Bytes) → ended ts ++ (t ++ b'\n' ∷ []) ≡ ended (ts ++ t ∷ [])
ended-append [] t = refl
ended-append (x ∷ ts) t =
    append_assoc x (b'\n' ∷ ended ts) (t ++ b'\n' ∷ [])
    ∙ ap (λ r. x ++ b'\n' ∷ r) (ended-append ts t)

append_reports-ended :
    (ts : List Bytes) (rs : List Report)
    → append_reports (ended ts) rs ≡ ended (ts ++ map print_report rs)
unfolding append_reports
append_reports-ended ts [] = ap ended (sym (append-nil ts))
append_reports-ended ts (r ∷ rs) =
    ap (λ file. append_reports file rs) (ended-append ts (print_report r))
    ∙ append_reports-ended (ts ++ print_report r ∷ []) rs
    ∙ ap ended (append_assoc ts (print_report r ∷ []) (map print_report rs))

getlines-ended : (ts : List Bytes) → All (All (λ b. b ≢ b'\n')) ts → getlines b'\n' (ended ts) ≡ ts
getlines-ended [] h = getlines_nil b'\n'
getlines-ended (t ∷ ts) h =
    getlines-append b'\n' t (ended ts) h.0 ∙ ap (◌∷◌ t) (getlines-ended ts h.1)

join-All :
    (c d : ℕ) (ts : List Bytes) → d ≢ c → All (All (λ b. b ≢ c)) ts → All (λ b. b ≢ c) (join d ts)
unfolding join
join-All c d [] k h = tt
join-All c d (s ∷ []) k h = h.0
join-All c d (s ∷ t ∷ ts) k h = All-append c s _ h.0 (k, join-All c d (t ∷ ts) k h.1)

print_report_one_line :
    (w : Written) → IsPlain w → All (λ b. b ≢ b'\n') (print_report (report_of w))
unfolding print_report
print_report_one_line w p =
    join-All b'\n' b',' (fields_of w) (λ e. absurd (omega (arith, e)))
      (fields_lack b'\n' w newline-IsOther (λ e. absurd (omega (arith, e))) p.no_newline
        (speedup_text-IsReadable w.rand).no_newline)

print_reports_lines :
    (ws : List Written)
    → All IsPlain ws
    → All (All (λ b. b ≢ b'\n')) (map print_report (map report_of ws))
print_reports_lines [] p = tt
print_reports_lines (w ∷ ws) p = (print_report_one_line w p.0, print_reports_lines ws p.1)

read_reports-map :
    (ws : List Written)
    → All IsPlain ws
    → read_reports (map print_report (map report_of ws)) ≡ ok (map row_of ws)
unfolding read_reports
read_reports-map [] p = refl
read_reports-map (w ∷ ws) p = rw (read_report-print_report w p.0, read_reports-map ws p.1) refl

-- The output file, which starts with the column names and to which the lines of experiments are
-- appended, reads back line by line: the class, the line number, the drawn speedup as a number of
-- twentieths, the two durations and the points. No class has a colon, a comma or an end of line,
-- and the numbers are those of an int and of longs.
pub read_file-append_reports :
    (ws : List Written)
    → All IsPlain ws
    → read_file (append_reports (column_names ++ b'\n' ∷ []) (map report_of ws))
      ≡ ok (map row_of ws)
unfolding read_file lacks
read_file-append_reports ws p =
    ap read_lines_of (
      ap (getlines b'\n') (append_reports-ended (column_names ∷ []) (map report_of ws))
      ∙ getlines-ended (column_names ∷ map print_report (map report_of ws))
          (lacks-All b'\n' column_names refl, print_reports_lines ws p))
    ∙ read_reports-map ws p
