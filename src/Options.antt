-- ===== src/Options.antt =====
-- Profiler::ParseOptions of src/profiler.cc: the agent's option string into its settings.
-- Log messages are left out; the header line of the output file is kept in `csv`.
pub mod Printed
pub mod Laws
pub mod Whole
use jcoz.Base.{
  ℕ, zero, suc, ◌+◌, ◌*◌, Bool, true, false, not, ◌&&◌, ◌||◌, List, [], ◌∷◌, ◌++◌, Option, none,
  some, if◌then◌else◌, take, drop, Result, ok, halt, ◌>>=◌, exits, missing_options, unknown_option,
  missing_progress_point, missing_required,
}
use jcoz.Base.Int.{ℤ, pos, negsuc, eqb_ℤ, bits_of, to_long}
use jcoz.Text.{Bytes, codes, find_byte}
use jcoz.Text.Numbers.{stoi, stol}
use jcoz.Text.Lines.{getlines}
use jcoz.Args
use jcoz.Args.{ProfilerOption, Level, from_string, parse_logging_level, set_output_file}
use jcoz.Scope.{prepare_scope}

-- The static members that the options set. `level` is the logger's, `lineno` the progress point's.
pub record Settings : Type 0 where
  pub search_scopes : List Bytes
  pub ignored_scopes : List Bytes
  pub progress_class : Bytes
  pub lineno : ℤ
  pub end_to_end : Bool
  pub warmup_time : ℕ  -- unsigned long, in microseconds
  pub fix_exp : Bool
  pub level : Level
  pub output_file : Bytes
  pub is_output_file_set : Bool
  pub csv : List Bytes

-- The settings before ParseOptions, with its `new ProgressPoint()`.
abbrev pub initial : Settings
initial = record {
  search_scopes = [];
  ignored_scopes = [];
  progress_class = [];
  lineno = negsuc 0;
  end_to_end = false;
  warmup_time = 0;
  fix_exp = false;
  level = Level.info;
  output_file = [];
  is_output_file_set = false;
  csv = [];
}

-- option = substr(0, equal_index), value = substr(equal_index + 1): with no '=' both are the item.
unfoldable pub split_option : Bytes → Bytes × Bytes
split_option item = elim (find_byte b'=' item) [
  | some equal_index ↦ (take equal_index item, drop (suc equal_index) item)
  | none ↦ (item, item)
]

-- prepare_scope and push_back for each item of the stream
unfoldable pub add_scopes : List Bytes → List Bytes → List Bytes
add_scopes scopes [] = scopes
add_scopes scopes (item ∷ items) = add_scopes (scopes ++ prepare_scope item ∷ []) items

unfoldable pub set_progress_point : Settings → Bytes → Result Settings
set_progress_point c value = elim (find_byte b':' value) [
  | none ↦ halt (exits missing_progress_point)
  | some colon_index ↦
      stoi (drop (suc colon_index) value)
      >>= (λ n. ok (record c { progress_class = take colon_index value; lineno = n }))
]

-- n * 1000 in `long`
abbrev pub times_1000 : ℤ → ℤ
times_1000 (pos n) = pos (n * 1000)
times_1000 (negsuc n) = negsuc (n * 1000 + 999)

-- The `switch` of the loop.
unfoldable pub apply_option : Bytes → Settings → ProfilerOption → Bytes → Result Settings
apply_option stamp c ProfilerOption.unknown value = halt (exits unknown_option)
apply_option stamp c ProfilerOption.search_scopes value =
    ok (record c { search_scopes = add_scopes c.search_scopes (getlines b'|' value) })
apply_option stamp c ProfilerOption.ignored_scopes value =
    ok (record c { ignored_scopes = add_scopes c.ignored_scopes (getlines b'|' value) })
apply_option stamp c ProfilerOption.progress_point value = set_progress_point c value
apply_option stamp c ProfilerOption.logging_level value =
    parse_logging_level value >>= (λ l. ok (record c { level = l }))
apply_option stamp c ProfilerOption.output_file value =
    ok (record c { output_file = set_output_file stamp value; is_output_file_set = true })
apply_option stamp c ProfilerOption.end_to_end value = ok (record c { end_to_end = true })
apply_option stamp c ProfilerOption.warmup value =
    stol value >>= (λ n. ok (record c { warmup_time = bits_of (to_long (times_1000 n)) }))
apply_option stamp c ProfilerOption.fix_exp value = ok (record c { fix_exp = true })

unfoldable pub parse_option : Bytes → Settings → Bytes → Result Settings
unfolding apply_option
parse_option stamp c item =
    let (option, value) = split_option item in apply_option stamp c (from_string option) value

unfoldable pub parse_items : Bytes → Settings → List Bytes → Result Settings
parse_items stamp c [] = ok c
parse_items stamp c (item ∷ items) =
    parse_option stamp c item >>= (λ c'. parse_items stamp c' items)

abbrev pub column_names : Bytes
column_names = codes "selectedClassLineNo,speedup,duration,effectiveDuration,progressPointHits"

abbrev pub is_empty {ℓ} : {A : Type ℓ} → List A → Bool
is_empty [] = true
is_empty (_ ∷ _) = false

-- What follows the loop: the default file name, the header line, the check of what is required.
unfoldable pub finish : Settings → Result Settings
finish c =
    let named = if c.is_output_file_set then c.output_file else codes "jcoz-output.csv" in
    let done = record c { output_file = named; csv = c.csv ++ column_names ∷ [] } in
    if is_empty c.search_scopes
      || (not c.end_to_end && (is_empty c.progress_class || eqb_ℤ c.lineno (negsuc 0)))
    then halt (exits missing_required)
    else ok done

unfoldable pub parse_options : Bytes → Settings → Option Bytes → Result Settings
parse_options stamp c none = halt (exits missing_options)
parse_options stamp c (some options) =
    parse_items stamp (record c { lineno = negsuc 0; is_output_file_set = false })
      (getlines b'_' options)
    >>= finish
