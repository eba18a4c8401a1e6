-- ===== src/Examples/Texts.antt =====
-- Scopes, options and signatures.
use jcoz.Base.{
  ◌<◌, ◌≡◌, refl, Bool, true, false, ◌&&◌, ℕ, Option, none, List, [], ◌∷◌, ◌++◌, some, arith,
  Result, ◌∙◌, ok, halt, exits, unknown_option, ◌↔◌,
}
use jcoz.Text.{Bytes, codes, find_byte, text_eq, strstr, is_prefix}
use jcoz.Text.Lines.{join}
use jcoz.Text.Numbers.{value}
use jcoz.Scope.{is_in_allowed_scope, is_progress_class}
use jcoz.Scope.Laws.{HasOther, Covers, is_in_allowed_scope_iff, is_progress_class_iff}
use jcoz.Signature.{text_of, clean_signature}
use jcoz.Signature.Laws.{class_name, text_of-clean_signature}
use jcoz.Args.{ProfilerOption, from_string, usage}
use jcoz.Options.{Settings, initial, split_option, finish, parse_options}
use jcoz.Options.Printed.{Setting, meanings}
use jcoz.Options.Whole.{parse_options-print, parse_options_unknown, fresh}

abbrev app : Bytes
app = codes "app/"

app_other : HasOther app
app_other h = absurd (omega (arith, h.0))

is_in_allowed_scope_iff_example :
    (is_in_allowed_scope [] (app ∷ []) (codes "Lapp/Main;") ≡ true)
    ↔ (Covers (app ∷ []) (codes "app/Main;") × ¬ Covers [] (codes "app/Main;"))
is_in_allowed_scope_iff_example =
    is_in_allowed_scope_iff [] (app ∷ []) (codes "app/Main;") tt (app_other, tt)

is_progress_class_iff_example :
    (is_progress_class (codes "Main") (codes "Main;") ≡ true) ↔ (codes "Main" ≡ codes "Main")
is_progress_class_iff_example = is_progress_class_iff (codes "Main") (codes "Main") b';'

text_of-clean_signature_example :
    text_of (clean_signature (codes "La/B;" ++ 0 ∷ [])) ≡ class_name (codes "a/B")
text_of-clean_signature_example =
    text_of-clean_signature b'L' (codes "a/B") b';' [] (omega arith)
      (omega arith, (omega arith, (omega arith, tt))) (omega arith) (omega arith)

small : value 0 (2 ∷ 5 ∷ []) < 9007199254740992
unfolding value
small = omega arith

abbrev settings : List Setting
settings = Setting.pkg (codes "app") ∷ Setting.end_to_end ∷ []

parse_options-print_example :
    parse_options (codes "_1") initial (some (codes "pkg=app_end-to-end"))
    ≡ finish (meanings (codes "_1") (fresh initial) settings)
unfolding join
parse_options-print_example =
    parse_options-print (codes "_1") initial settings (((λ e. cc), omega arith), (tt, tt))
      (omega arith, (omega arith, tt))

unknown_fix : from_string (split_option (codes "fix")).0 ≡ ProfilerOption.unknown
unfolding split_option from_string find_byte text_eq
unknown_fix = refl

-- The README's name for the option.
parse_options_unknown_example :
    parse_options (codes "_1") initial (some (codes "pkg=app_fix_exp"))
    ≡ halt (exits unknown_option)
unfolding join
parse_options_unknown_example =
    parse_options_unknown (codes "_1") initial (Setting.pkg (codes "app") ∷ []) (codes "fix")
      (codes "exp" ∷ []) (((λ e. cc), omega arith), tt) (omega arith, tt)
      (omega arith, (omega arith, tt)) (λ e. cc) unknown_fix

abbrev accepted : Result Settings → Settings
accepted (ok c) = c
accepted (halt reason) = initial

abbrev pub final : Settings
final = accepted (finish (meanings (codes "_1") (fresh initial) settings))

accepts : finish (meanings (codes "_1") (fresh initial) settings) ≡ ok final
unfolding finish
accepts = refl

pub parsed : parse_options (codes "_1") initial (some (codes "pkg=app_end-to-end")) ≡ ok final
parsed = parse_options-print_example ∙ accepts

abbrev found : Option ℕ → Bool
found none = false
found (some i) = true

-- print_usage names every option.
abbrev all_found : List Bytes → Bool
all_found [] = true
all_found (o ∷ os) = found (strstr usage o) && all_found os

usage_names :
    all_found (
      codes "pkg"
      ∷ codes "search"
      ∷ codes "ignore"
      ∷ codes "progress-point"
      ∷ codes "end-to-end"
      ∷ codes "warmup"
      ∷ codes "fix-exp"
      ∷ codes "logging-level"
      ∷ codes "output-file"
      ∷ [])
    ≡ true
unfolding strstr is_prefix
usage_names = refl
