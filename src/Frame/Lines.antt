-- ===== src/Frame/Lines.antt =====
-- A frame is in the experiment exactly when its bytecode index belongs to the chosen line.
use jcoz.Base.{
  ◌≡◌, ◌↔◌, inl, inr, refl, sym, ap, ◌∙◌, Bool, true, false, List, [], ◌∷◌, Option, none, some,
  if◌then◌else◌, Bool-cases, arith,
}
use jcoz.Base.Int.{ℤ, pos, leb_ℤ, eqb_ℤ, ◌≤ℤ◌, ◌<ℤ◌, eq_of_parts}
use jcoz.Frame.{LineEntry, max_bci, choose_line, line_ranges, in_ranges}

-- Start locations grow along the table.
abbrev pub IsSorted : List LineEntry → Type 0
IsSorted [] = Unit {0}
IsSorted (e ∷ []) = Unit {0}
IsSorted (e ∷ f ∷ es) = (e.start_location <ℤ f.start_location) × IsSorted (f ∷ es)

abbrev or_else : Option ℤ → ℤ → Option ℤ
or_else none line = some line
or_else (some other) line = some other

-- The line of the last entry that starts at or before a bytecode index.
pub line_at : ℤ → List LineEntry → Option ℤ
line_at bci [] = none
line_at bci (e ∷ es) =
    if leb_ℤ e.start_location bci then or_else (line_at bci es) e.line_number else line_at bci es

-- Nothing of a sorted table starts before its first entry.
line_at_before :
    (bci : ℤ) (e : LineEntry) (es : List LineEntry)
    → IsSorted (e ∷ es)
    → bci <ℤ e.start_location
    → line_at bci (e ∷ es) ≡ none
unfolding line_at
line_at_before bci e [] s h = ground arith
line_at_before bci e (f ∷ es) s h = ground (arith, line_at_before bci f es s.1)

choose_line_lem :
    (bci old : ℤ) (e : LineEntry) (es : List LineEntry)
    → IsSorted (e ∷ es)
    → e.start_location ≤ℤ bci
    → line_at bci (e ∷ es) ≡ some (choose_line bci old (e ∷ es))
unfolding line_at choose_line
choose_line_lem bci old e [] s h = ground arith
choose_line_lem bci old e (f ∷ es) s h =
    ground (arith, choose_line_lem bci old f es s.1, line_at_before bci f es s.1)

in_ranges_before :
    (bci line : ℤ) (e : LineEntry) (es : List LineEntry)
    → IsSorted (e ∷ es)
    → bci <ℤ e.start_location
    → in_ranges (line_ranges line (e ∷ es)) bci ≡ false
unfolding in_ranges line_ranges
in_ranges_before bci line e [] s h = ground arith
in_ranges_before bci line e (f ∷ es) s h = ground (arith, in_ranges_before bci line f es s.1)

abbrev is_line : Option ℤ → ℤ → Bool
is_line none line = false
is_line (some l) line = eqb_ℤ l line

line_at-cons_some :
    (bci : ℤ) (e : LineEntry) (es : List LineEntry) (l : ℤ)
    → line_at bci es ≡ some l
    → line_at bci (e ∷ es) ≡ some l
unfolding line_at
line_at-cons_some bci e es l h = ground arith

line_at-cons_none :
    (bci : ℤ) (e : LineEntry) (es : List LineEntry)
    → line_at bci es ≡ none
    → line_at bci (e ∷ es) ≡ (if leb_ℤ e.start_location bci then some e.line_number else none)
unfolding line_at
line_at-cons_none bci e es h = ground arith

-- At or past the second entry, the first one plays no part.
line_at_skip :
    (bci : ℤ) (e f : LineEntry) (es : List LineEntry)
    → IsSorted (f ∷ es)
    → f.start_location ≤ℤ bci
    → line_at bci (e ∷ f ∷ es) ≡ line_at bci (f ∷ es)
line_at_skip bci e f es s h =
    let found = choose_line_lem bci (pos 0) f es s h in
    line_at-cons_some bci e (f ∷ es) (choose_line bci (pos 0) (f ∷ es)) found ∙ sym found

in_ranges_skip :
    (bci line : ℤ) (e f : LineEntry) (es : List LineEntry)
    → f.start_location ≤ℤ bci
    → in_ranges (line_ranges line (e ∷ f ∷ es)) bci ≡ in_ranges (line_ranges line (f ∷ es)) bci
unfolding in_ranges line_ranges
in_ranges_skip bci line e f es h = elim (Bool-cases (eqb_ℤ e.line_number line)) [
  | inl t ↦ rw (t, line_ranges) (ground arith)
  | inr t ↦ rw (t, line_ranges)
]

-- Before the second entry, only the first one counts.
line_at_here :
    (bci : ℤ) (e f : LineEntry) (es : List LineEntry)
    → IsSorted (f ∷ es)
    → bci <ℤ f.start_location
    → line_at bci (e ∷ f ∷ es) ≡ (if leb_ℤ e.start_location bci then some e.line_number else none)
line_at_here bci e f es s h = line_at-cons_none bci e (f ∷ es) (line_at_before bci f es s h)

in_ranges_here :
    (bci line : ℤ) (e f : LineEntry) (es : List LineEntry)
    → IsSorted (f ∷ es)
    → bci <ℤ f.start_location
    → in_ranges (line_ranges line (e ∷ f ∷ es)) bci
      ≡ is_line (if leb_ℤ e.start_location bci then some e.line_number else none) line
unfolding in_ranges line_ranges
in_ranges_here bci line e f es s h = elim (Bool-cases (eqb_ℤ e.line_number line)) [
  | inl t ↦ rw (t, line_ranges, in_ranges, in_ranges_before bci line f es s h) (ground arith)
  | inr t ↦ rw (t, line_ranges, in_ranges_before bci line f es s h) (ground arith)
]

in_ranges-line_at :
    (bci line : ℤ) (es : List LineEntry)
    → IsSorted es
    → bci ≤ℤ pos max_bci
    → in_ranges (line_ranges line es) bci ≡ is_line (line_at bci es) line
unfolding in_ranges line_ranges line_at
in_ranges-line_at bci line [] s h = refl
in_ranges-line_at bci line (e ∷ []) s h = ground arith
in_ranges-line_at bci line (e ∷ f ∷ es) s h = elim (Bool-cases (leb_ℤ f.start_location bci)) [
  | inl t ↦
      in_ranges_skip bci line e f es (ground arith)
      ∙ in_ranges-line_at bci line (f ∷ es) s.1 h
      ∙ sym (ap (λ o. is_line o line) (line_at_skip bci e f es s.1 (ground arith)))
  | inr t ↦
      in_ranges_here bci line e f es s.1 (ground arith)
      ∙ sym (ap (λ o. is_line o line) (line_at_here bci e f es s.1 (ground arith)))
]

is_line_sound : (o : Option ℤ) (line : ℤ) → is_line o line ≡ true → o ≡ some line
is_line_sound none line h = cc
is_line_sound (some l) line h = ap some (eq_of_parts l line (ground arith))

is_line_complete : (o : Option ℤ) (line : ℤ) → o ≡ some line → is_line o line ≡ true
is_line_complete none line h = cc
is_line_complete (some l) line h = ground arith

-- In a line table that is sorted and starts at or before the sampled index, the chosen line is the
-- one that the table gives the index, and an index of at most 65535 is in the line's ranges exactly
-- when the table gives it the same line.
pub same_line :
    (bci old : ℤ) (e : LineEntry) (es : List LineEntry) (other : ℤ)
    → IsSorted (e ∷ es)
    → e.start_location ≤ℤ bci
    → other ≤ℤ pos max_bci
    → let line = choose_line bci old (e ∷ es) in
      (line_at bci (e ∷ es) ≡ some line)
      × ((in_ranges (line_ranges line (e ∷ es)) other ≡ true)
          ↔ (line_at other (e ∷ es) ≡ line_at bci (e ∷ es)))
same_line bci old e es other s h k =
    let line = choose_line bci old (e ∷ es) in
    let chosen = choose_line_lem bci old e es s h in
    let decides = in_ranges-line_at other line (e ∷ es) s k in
    (
      chosen,
      (
        λ t. is_line_sound (line_at other (e ∷ es)) line (sym decides ∙ t) ∙ sym chosen,
        λ t. decides ∙ is_line_complete (line_at other (e ∷ es)) line (t ∙ chosen),
      ),
    )
