-- ===== src/Options/Whole.antt =====
-- The whole option string: what a plain one yields, and which ones end the process.
use jcoz.Base.{
  ◌≡◌, ◌≢◌, refl, ap, ◌∙◌, ◌↔◌, ◌⊎◌, inl, inr, true, false, List, [], ◌∷◌, ◌++◌, map, Option, none,
  some, arith, All, ok, halt, ◌>>=◌, >>=-eq-ok, exits, unknown_option, missing_required,
}
use jcoz.Base.Int.{negsuc}
use jcoz.Text.{Bytes}
use jcoz.Text.Lines.{getlines, join, EndsFull, getlines-join}
use jcoz.Args.{ProfilerOption, from_string}
use jcoz.Args.Laws.{Lacks}
use jcoz.Options.{
  Settings, split_option, apply_option, parse_option, parse_items, finish, parse_options,
}
use jcoz.Options.Printed.{Setting, pkg, print, meaning, meanings, IsPlain}
use jcoz.Options.Laws.{parse_option-print}

parse_items-print :
    (stamp : Bytes) (c : Settings) (ss : List Setting) (items : List Bytes)
    → All IsPlain ss
    → parse_items stamp c (map print ss ++ items) ≡ parse_items stamp (meanings stamp c ss) items
unfolding parse_items
parse_items-print stamp c [] items h = refl
parse_items-print stamp c (s ∷ ss) items (h, k) =
    ap (λ r. r >>= (λ c'. parse_items stamp c' (map print ss ++ items)))
      (parse_option-print stamp c s h)
    ∙ parse_items-print stamp (meaning stamp c s) ss items k

-- No setting's text has the delimiter of the options.
abbrev pub NoUnderscore : List Setting → Type 0
NoUnderscore = All (λ s. Lacks b'_' (print s))

Lacks-print :
    (ss : List Setting) (items : List Bytes)
    → NoUnderscore ss
    → All (Lacks b'_') items
    → All (Lacks b'_') (map print ss ++ items)
Lacks-print [] items h k = k
Lacks-print (s ∷ ss) items (h, h') k = (h, Lacks-print ss items h' k)

print_full : (s : Setting) → print s ≢ []
print_full (pkg scope) = λ e. cc
print_full _ = λ e. cc

EndsFull-print :
    (ss : List Setting) (items : List Bytes) → EndsFull items → EndsFull (map print ss ++ items)
EndsFull-print [] items k = k
EndsFull-print (s ∷ []) [] k = print_full s
EndsFull-print (s ∷ []) (i ∷ items) k = k
EndsFull-print (s ∷ t ∷ ss) items k = EndsFull-print (t ∷ ss) items k

-- The settings at the head of ParseOptions.
abbrev pub fresh : Settings → Settings
fresh c = record c { lineno = negsuc 0; is_output_file_set = false }

getlines-print :
    (ss : List Setting) (items : List Bytes)
    → NoUnderscore ss
    → All (Lacks b'_') items
    → EndsFull items
    → getlines b'_' (join b'_' (map print ss ++ items)) ≡ map print ss ++ items
getlines-print ss items h k f =
    getlines-join b'_' (map print ss ++ items) (Lacks-print ss items h k)
      (EndsFull-print ss items f)

-- Plain settings, none with an underscore in its text, written one after another with underscores
-- between them, are all read back in their order before the final check.
pub parse_options-print :
    (stamp : Bytes) (c : Settings) (ss : List Setting)
    → All IsPlain ss
    → NoUnderscore ss
    → parse_options stamp c (some (join b'_' (map print ss ++ [])))
      ≡ finish (meanings stamp (fresh c) ss)
unfolding parse_options parse_items
parse_options-print stamp c ss h k =
    ap (λ items. parse_items stamp (fresh c) items >>= finish) (getlines-print ss [] k tt tt)
    ∙ ap (λ r. r >>= finish) (parse_items-print stamp (fresh c) ss [] h)

-- An item with an unknown name ends the process, after any plain settings and whatever items come
-- next; no item has an underscore, and the last one is not empty.
pub parse_options_unknown :
    (stamp : Bytes) (c : Settings) (ss : List Setting) (item : Bytes) (items : List Bytes)
    → All IsPlain ss
    → NoUnderscore ss
    → All (Lacks b'_') (item ∷ items)
    → EndsFull (item ∷ items)
    → from_string (split_option item).0 ≡ ProfilerOption.unknown
    → parse_options stamp c (some (join b'_' (map print ss ++ item ∷ items)))
      ≡ halt (exits unknown_option)
unfolding parse_options parse_items parse_option
parse_options_unknown stamp c ss item items h k l f e =
    ap (λ xs. parse_items stamp (fresh c) xs >>= finish) (getlines-print ss (item ∷ items) k l f)
    ∙ ap (λ r. r >>= finish) (parse_items-print stamp (fresh c) ss (item ∷ items) h)
    ∙ ap
        (λ o.
          (apply_option stamp (meanings stamp (fresh c) ss) o (split_option item).1
            >>= (λ c'. parse_items stamp c' items))
          >>= finish)
        e

abbrev pub IsComplete : Settings → Type 0
IsComplete c =
    (c.search_scopes ≢ [])
    × ((c.end_to_end ≡ true) ⊎ ((c.progress_class ≢ []) × (c.lineno ≢ negsuc 0)))

finish-IsComplete : (c d : Settings) → finish c ≡ ok d → IsComplete d
unfolding finish
finish-IsComplete c d h = ground arith

finish_cases : (c : Settings) → IsComplete c ⊎ (finish c ≡ halt (exits missing_required))
unfolding finish
finish_cases c = ground arith

finish_complete : (c : Settings) → IsComplete c → finish c ≢ halt (exits missing_required)
unfolding finish
finish_complete c h e = ground arith

-- The final check ends the process for a missing option exactly when there is no search scope, or
-- no progress class or line though it is not end-to-end.
pub finish_iff : (c : Settings) → (finish c ≡ halt (exits missing_required)) ↔ (¬ IsComplete c)
finish_iff c =
    (λ e h. finish_complete c h e, λ h. elim (finish_cases c) [ inl k ↦ absurd (h k) | inr e ↦ e ])

-- Settings that ParseOptions accepts have a search scope and, unless end-to-end, a progress class
-- and a line other than -1.
pub parse_options-IsComplete :
    (stamp : Bytes) (c d : Settings) (options : Option Bytes)
    → parse_options stamp c options ≡ ok d
    → IsComplete d
unfolding parse_options
parse_options-IsComplete stamp c d none h = cc
parse_options-IsComplete stamp c d (some options) h =
    let (c', _, e) = >>=-eq-ok (parse_items stamp (fresh c) (getlines b'_' options)) finish h in
    finish-IsComplete c' d e
