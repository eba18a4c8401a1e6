-- ===== src/Options/Printed.antt =====
-- The option string as the README has a user write it, and what each setting means.
use jcoz.Base.{ℕ, ◌*◌, ◌<◌, ◌^◌, ◌≢◌, true, List, [], ◌∷◌, ◌++◌, map, All}
use jcoz.Base.Int.{pos}
use jcoz.Text.{Bytes, codes}
use jcoz.Text.Numbers.{numeral, value, Digits}
use jcoz.Text.Lines.{join, EndsFull}
use jcoz.Args.{Level, set_output_file}
use jcoz.Args.Laws.{Lacks, level_name}
use jcoz.Scope.{prepare_scope}
use jcoz.Options.{Settings}

-- Numbers are given by their decimal digits.
pub data Setting : Type 0 where
  pkg : Bytes → Setting
  search ignore : List Bytes → Setting
  progress_point : Bytes → List ℕ → Setting
  logging_level : Level → Setting
  output_file : Bytes → Setting
  end_to_end fix_exp : Setting
  warmup : List ℕ → Setting

abbrev pub print : Setting → Bytes
print (pkg scope) = codes "pkg=" ++ scope
print (search scopes) = codes "search=" ++ join b'|' scopes
print (ignore scopes) = codes "ignore=" ++ join b'|' scopes
print (progress_point class line) = codes "progress-point=" ++ (class ++ b':' ∷ numeral line)
print (logging_level l) = codes "logging-level=" ++ level_name l
print (output_file name) = codes "output-file=" ++ name
print end_to_end = codes "end-to-end"
print fix_exp = codes "fix-exp"
print (warmup ms) = codes "warmup=" ++ numeral ms

-- Milliseconds are stored as microseconds.
abbrev pub meaning : Bytes → Settings → Setting → Settings
meaning stamp c (pkg scope) = record c {
  search_scopes = c.search_scopes ++ map prepare_scope (scope ∷ []);
}
meaning stamp c (search scopes) = record c {
  search_scopes = c.search_scopes ++ map prepare_scope scopes;
}
meaning stamp c (ignore scopes) = record c {
  ignored_scopes = c.ignored_scopes ++ map prepare_scope scopes;
}
meaning stamp c (progress_point class line) = record c {
  progress_class = class;
  lineno = pos (value 0 line);
}
meaning stamp c (logging_level l) = record c { level = l }
meaning stamp c (output_file name) = record c {
  output_file = set_output_file stamp name;
  is_output_file_set = true;
}
meaning stamp c end_to_end = record c { end_to_end = true }
meaning stamp c fix_exp = record c { fix_exp = true }
meaning stamp c (warmup ms) = record c { warmup_time = value 0 ms * 1000 }

abbrev pub meanings : Bytes → Settings → List Setting → Settings
meanings stamp c [] = c
meanings stamp c (s ∷ ss) = meanings stamp (meaning stamp c s) ss

abbrev pub IsNumber : ℕ → List ℕ → Type 0
IsNumber bound ds = Digits ds × (ds ≢ []) × (value 0 ds < bound)

-- No value holds a delimiter of its own, and numbers are in range.
abbrev pub IsPlain : Setting → Type 0
IsPlain (pkg scope) = (scope ≢ []) × Lacks b'|' scope
IsPlain (search scopes) = All (Lacks b'|') scopes × EndsFull scopes
IsPlain (ignore scopes) = All (Lacks b'|') scopes × EndsFull scopes
IsPlain (progress_point class line) = Lacks b':' class × IsNumber (2 ^ 31) line
IsPlain (warmup ms) = IsNumber (2 ^ 53) ms
IsPlain _ = Unit
