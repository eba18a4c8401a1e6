-- ===== src/Args/Laws.antt =====
-- Which texts the parsers of src/args.h accept.
use jcoz.Base.{
  ℕ, ◌≡◌, ◌≢◌, refl, ap, ◌∙◌, ◌⊎◌, ◌↔◌, inl, inr, [], ◌∷◌, ◌++◌, none, some, Bool-cases, arith, All,
  length, take-length-append, ok,
}
use jcoz.Text.{Bytes, codes, text_eq, find_byte}
use jcoz.Text.Laws.{text_eq_sound}
use jcoz.Args.{
  ProfilerOption, Level, trace, debug, info, warn, err, critical, off, unknown, search_scopes,
  ignored_scopes, progress_point, end_to_end, warmup, fix_exp, logging_level, output_file,
  from_string, level_if, parse_logging_level, set_output_file,
}

abbrev pub level_name : Level → Bytes
level_name trace = codes "trace"
level_name debug = codes "debug"
level_name info = codes "info"
level_name warn = codes "warn"
level_name err = codes "error"
level_name critical = codes "critical"
level_name off = codes "off"

level_name_parsed : (l : Level) → parse_logging_level (level_name l) ≡ ok l
unfolding parse_logging_level text_eq
level_name_parsed trace = refl
level_name_parsed _ = refl

level_if_lem :
    (s : Bytes) (l m : Level) → level_if (text_eq s (level_name l)) l ≡ ok m → s ≡ level_name m
level_if_lem s l m h = elim (Bool-cases (text_eq s (level_name l))) [
  | inl e ↦ text_eq_sound s (level_name l) e ∙ ap level_name (ground arith)
  | inr e ↦ absurd (ground arith)
]

parse_logging_level_sound :
    (s : Bytes) (m : Level) → parse_logging_level s ≡ ok m → s ≡ level_name m
unfolding parse_logging_level
parse_logging_level_sound s m h = ground (
  arith,
  level_if_lem s trace m,
  level_if_lem s debug m,
  level_if_lem s info m,
  level_if_lem s warn m,
  level_if_lem s err m,
  level_if_lem s critical m,
  level_if_lem s off m,
)

-- A logging level is read from its name, and from no other text.
pub parse_logging_level_iff :
    (s : Bytes) (l : Level) → (parse_logging_level s ≡ ok l) ↔ (s ≡ level_name l)
parse_logging_level_iff s l =
    (parse_logging_level_sound s l, λ e. ap parse_logging_level e ∙ level_name_parsed l)

-- The spellings of an option.
abbrev pub Spells : ProfilerOption → Bytes → Type 0
Spells unknown s = ⊥
Spells search_scopes s = (s ≡ codes "pkg") ⊎ (s ≡ codes "search")
Spells ignored_scopes s = s ≡ codes "ignore"
Spells progress_point s = s ≡ codes "progress-point"
Spells end_to_end s = s ≡ codes "end-to-end"
Spells warmup s = s ≡ codes "warmup"
Spells fix_exp s = s ≡ codes "fix-exp"
Spells logging_level s = s ≡ codes "logging-level"
Spells output_file s = s ≡ codes "output-file"

from_string_sound : (o : ProfilerOption) (s : Bytes) → o ≢ unknown → from_string s ≡ o → Spells o s
unfolding from_string
from_string_sound unknown s k h = absurd (k refl)
from_string_sound _ s k h = ground (
  arith,
  text_eq_sound s (codes "pkg"),
  text_eq_sound s (codes "search"),
  text_eq_sound s (codes "ignore"),
  text_eq_sound s (codes "progress-point"),
  text_eq_sound s (codes "end-to-end"),
  text_eq_sound s (codes "warmup"),
  text_eq_sound s (codes "fix-exp"),
  text_eq_sound s (codes "logging-level"),
  text_eq_sound s (codes "output-file"),
)

pub from_string_complete : (o : ProfilerOption) (s : Bytes) → Spells o s → from_string s ≡ o
unfolding from_string text_eq
from_string_complete unknown s h = absurd h
from_string_complete search_scopes s (inl e) = ap from_string e
from_string_complete search_scopes s (inr e) = ap from_string e
from_string_complete ignored_scopes s e = ap from_string e
from_string_complete progress_point s e = ap from_string e
from_string_complete end_to_end s e = ap from_string e
from_string_complete warmup s e = ap from_string e
from_string_complete fix_exp s e = ap from_string e
from_string_complete logging_level s e = ap from_string e
from_string_complete output_file s e = ap from_string e

-- Each known option is read from its spellings, and from no other text.
pub from_string_iff :
    (o : ProfilerOption) (s : Bytes) → o ≢ unknown → (from_string s ≡ o) ↔ Spells o s
from_string_iff o s k = (from_string_sound o s k, from_string_complete o s)

-- The text has no byte `c`.
abbrev pub Lacks : ℕ → Bytes → Type 0
Lacks c = All (λ b. b ≢ c)

pub find_byte-append :
    (c : ℕ) (s rest : Bytes) → Lacks c s → find_byte c (s ++ c ∷ rest) ≡ some (length s)
unfolding find_byte
find_byte-append c [] rest h = ground arith
find_byte-append c (b ∷ s) rest h = ground (arith, find_byte-append c s rest h.1)

pub find_byte-none : (c : ℕ) (s : Bytes) → Lacks c s → find_byte c s ≡ none
unfolding find_byte
find_byte-none c [] h = refl
find_byte-none c (b ∷ s) h = ground (arith, find_byte-none c s h.1)

-- A given file name is kept up to its first dot, wherever that stands, with the time stamp and .csv
-- behind it; a text with no dot is kept whole before them.
pub set_output_file_lem :
    (stamp s rest : Bytes)
    → Lacks b'.' s
    → (set_output_file stamp (s ++ b'.' ∷ rest) ≡ s ++ (stamp ++ codes ".csv"))
      × (set_output_file stamp s ≡ s ++ (stamp ++ codes ".csv"))
unfolding set_output_file
set_output_file_lem stamp s rest h = (
  rw (find_byte-append b'.' s rest h, set_output_file, take-length-append s (b'.' ∷ rest)),
  rw (find_byte-none b'.' s h, set_output_file),
)
