-- ===== src/Options/Laws.antt =====
-- ParseOptions reads back what a user writes, and refuses what it must.
use jcoz.Base.{
  ℕ, ◌*◌, ◌^◌, ◌≡◌, refl, ap, ◌∙◌, sym, inl, inr, List, [], ◌∷◌, ◌++◌, map, append-nil,
  append_assoc, arith, All, take-length-append, drop_next-append, ok, ◌>>=◌,
}
use jcoz.Base.Int.{pos, to_long_id}
use jcoz.Text.{Bytes, codes}
use jcoz.Text.Numbers.{numeral, value, stoi-numeral, stol-numeral}
use jcoz.Text.Lines.{getlines, join, EndsFull, getlines-join}
use jcoz.Args.{ProfilerOption, from_string}
use jcoz.Args.Laws.{
  Lacks, find_byte-append, find_byte-none, parse_logging_level_iff, from_string_complete,
  level_name,
}
use jcoz.Scope.{prepare_scope}
use jcoz.Options.{
  Settings, split_option, add_scopes, set_progress_point, apply_option, parse_option,
}
use jcoz.Options.Printed.{
  Setting, pkg, search, ignore, progress_point, logging_level, output_file, end_to_end, fix_exp,
  warmup, print, meaning, IsNumber, IsPlain,
}

add_scopes-map :
    (scopes items : List Bytes) → add_scopes scopes items ≡ scopes ++ map prepare_scope items
unfolding add_scopes
add_scopes-map scopes [] = sym (append-nil scopes)
add_scopes-map scopes (item ∷ items) =
    add_scopes-map (scopes ++ prepare_scope item ∷ []) items
    ∙ append_assoc scopes (prepare_scope item ∷ []) (map prepare_scope items)

add_scopes-getlines :
    (scopes items : List Bytes)
    → All (Lacks b'|') items
    → EndsFull items
    → add_scopes scopes (getlines b'|' (join b'|' items)) ≡ scopes ++ map prepare_scope items
add_scopes-getlines scopes items h k =
    ap (add_scopes scopes) (getlines-join b'|' items h k) ∙ add_scopes-map scopes items

set_progress_point_lem :
    (c : Settings) (class : Bytes) (line : List ℕ)
    → Lacks b':' class
    → IsNumber (2 ^ 31) line
    → set_progress_point c (class ++ b':' ∷ numeral line)
      ≡ ok (record c { progress_class = class; lineno = pos (value 0 line) })
unfolding set_progress_point
set_progress_point_lem c class line h (d, k, small) = rw (
  find_byte-append b':' class (numeral line) h,
  set_progress_point,
  take-length-append class (b':' ∷ numeral line),
  drop_next-append class b':' (numeral line),
  stoi-numeral line d k small,
)

apply_warmup :
    (stamp : Bytes) (c : Settings) (ms : List ℕ)
    → IsNumber (2 ^ 53) ms
    → apply_option stamp c ProfilerOption.warmup (numeral ms)
      ≡ ok (record c { warmup_time = value 0 ms * 1000 })
unfolding apply_option
apply_warmup stamp c ms (d, k, small) =
    rw (stol-numeral ms d k (omega arith), to_long_id (pos (value 0 ms * 1000)) (omega arith))
      (ground arith)

-- An item `<name>=<value>` is applied as its name says; one without '=' is its own value.
parse_option_eq :
    (stamp : Bytes) (c : Settings) (name value : Bytes) (o : ProfilerOption)
    → Lacks b'=' name
    → from_string name ≡ o
    → parse_option stamp c (name ++ b'=' ∷ value) ≡ apply_option stamp c o value
unfolding parse_option split_option
parse_option_eq stamp c name value o h e = rw (
  find_byte-append b'=' name value h,
  parse_option,
  split_option,
  take-length-append name (b'=' ∷ value),
  drop_next-append name b'=' value,
  e,
)

parse_option_bare :
    (stamp : Bytes) (c : Settings) (name : Bytes) (o : ProfilerOption)
    → Lacks b'=' name
    → from_string name ≡ o
    → parse_option stamp c name ≡ apply_option stamp c o name
unfolding parse_option split_option
parse_option_bare stamp c name o h e =
    rw (find_byte-none b'=' name h, parse_option, split_option, e)

-- One plain setting, as it is written, is read back as what it means.
pub parse_option-print :
    (stamp : Bytes) (c : Settings) (s : Setting)
    → IsPlain s
    → parse_option stamp c (print s) ≡ ok (meaning stamp c s)
unfolding apply_option join
parse_option-print stamp c (pkg scope) (k, h) =
    parse_option_eq stamp c (codes "pkg") scope ProfilerOption.search_scopes (omega arith)
      (from_string_complete _ _ (inl refl))
    ∙ ap (λ x. ok (record c { search_scopes = x }))
        (add_scopes-getlines c.search_scopes (scope ∷ []) (h, tt) k)
parse_option-print stamp c (search scopes) (h, k) =
    parse_option_eq stamp c (codes "search") (join b'|' scopes) ProfilerOption.search_scopes
      (omega arith) (from_string_complete _ _ (inr refl))
    ∙ ap (λ x. ok (record c { search_scopes = x })) (add_scopes-getlines c.search_scopes scopes h k)
parse_option-print stamp c (ignore scopes) (h, k) =
    parse_option_eq stamp c (codes "ignore") (join b'|' scopes) ProfilerOption.ignored_scopes
      (omega arith) (from_string_complete _ _ refl)
    ∙ ap (λ x. ok (record c { ignored_scopes = x }))
        (add_scopes-getlines c.ignored_scopes scopes h k)
parse_option-print stamp c (progress_point class line) (h, k) =
    parse_option_eq stamp c (codes "progress-point") (class ++ b':' ∷ numeral line)
      ProfilerOption.progress_point (omega arith) (from_string_complete _ _ refl)
    ∙ set_progress_point_lem c class line h k
parse_option-print stamp c (logging_level l) h =
    parse_option_eq stamp c (codes "logging-level") (level_name l) ProfilerOption.logging_level
      (omega arith) (from_string_complete _ _ refl)
    ∙ ap (λ x. x >>= (λ m. ok (record c { level = m })))
        ((parse_logging_level_iff (level_name l) l).1 refl)
parse_option-print stamp c (output_file name) h =
    parse_option_eq stamp c (codes "output-file") name ProfilerOption.output_file (omega arith)
      (from_string_complete _ _ refl)
parse_option-print stamp c end_to_end h =
    parse_option_bare stamp c (codes "end-to-end") ProfilerOption.end_to_end (omega arith)
      (from_string_complete _ _ refl)
parse_option-print stamp c fix_exp h =
    parse_option_bare stamp c (codes "fix-exp") ProfilerOption.fix_exp (omega arith)
      (from_string_complete _ _ refl)
parse_option-print stamp c (warmup ms) h =
    parse_option_eq stamp c (codes "warmup") (numeral ms) ProfilerOption.warmup (omega arith)
      (from_string_complete _ _ refl)
    ∙ apply_warmup stamp c ms h
