-- ===== src/Progress/Laws.antt =====
-- Where the progress point is set, and that its breakpoint is set once and cleared.
use jcoz.Base.{
  ℕ, ◌≡◌, ◌≢◌, refl, sym, ap, subst, ◌∙◌, ◌⊎◌, inl, inr, false, List, [], ◌∷◌, ◌++◌, append_assoc,
  none, some, Option-cases, Bool-cases, arith, All, Result, ok, halt, ◌>>=◌, ok-injective,
  All-middle, exits, progress_point_not_set,
}
use jcoz.Base.Int.{ℤ, eqb_ℤ, eq_of_parts}
use jcoz.Frame.{LineEntry}
use jcoz.Progress.{
  Progress, set_breakpoint, clear_breakpoint, LineTables, find_line, find_point, add_progress_point,
  clear_progress_point,
}

-- The first entry of the line starts at the location.
abbrev pub StartsAt : ℤ → List LineEntry → ℤ → Type 0
StartsAt lineno entries location =
    (before : List LineEntry) × (e : LineEntry) × (after : List LineEntry) × (entries
      ≡ before ++ e ∷ after)
    × All (λ x. x.line_number ≢ lineno) before
    × (e.line_number ≡ lineno)
    × (e.start_location ≡ location)

-- The method has no entry for the line, or no table.
abbrev pub Misses : ℤ → LineTables → ℕ → Type 0
Misses lineno tables m =
    (tables m ≡ none)
    ⊎ ((entries : List LineEntry) × (tables m ≡ some entries)
        × All (λ x. x.line_number ≢ lineno) entries)

ne_line : (e : LineEntry) (lineno : ℤ) → eqb_ℤ e.line_number lineno ≡ false → e.line_number ≢ lineno
ne_line e lineno h k = ground arith

find_line-none :
    (lineno : ℤ) (entries : List LineEntry)
    → find_line lineno entries ≡ none
    → All (λ x. x.line_number ≢ lineno) entries
unfolding find_line
find_line-none lineno [] h = tt
find_line-none lineno (e ∷ es) h = elim (Bool-cases (eqb_ℤ e.line_number lineno)) [
  | inl t ↦ absurd (ground arith)
  | inr t ↦ (ne_line e lineno t, find_line-none lineno es (ground arith))
]

find_line-some :
    (lineno : ℤ) (entries : List LineEntry) (location : ℤ)
    → find_line lineno entries ≡ some location
    → StartsAt lineno entries location
unfolding find_line
find_line-some lineno [] location h = cc
find_line-some lineno (e ∷ es) location h = elim (Bool-cases (eqb_ℤ e.line_number lineno)) [
  | inl t ↦ ([], e, es, refl, tt, eq_of_parts e.line_number lineno (ground arith), ground arith)
  | inr t ↦
      let (before, f, after, split, others, line, start) =
        find_line-some lineno es location (ground arith) in
      (e ∷ before, f, after, ap (◌∷◌ e) split, (ne_line e lineno t, others), line, start)
]

-- The first method, of those before which none has the line, with the line's first location.
abbrev pub FirstPoint : ℤ → LineTables → List ℕ → ℕ → ℤ → Type 0
FirstPoint lineno tables methods m location =
    (before : List ℕ) × (after : List ℕ) × (entries : List LineEntry) × (methods
      ≡ before ++ m ∷ after)
    × All (Misses lineno tables) before
    × (tables m ≡ some entries)
    × StartsAt lineno entries location

-- The method is passed over, or the point is found in it.
method_cases :
    (lineno : ℤ) (tables : LineTables) (m : ℕ) (ms : List ℕ)
    → (Misses lineno tables m × (find_point lineno tables (m ∷ ms) ≡ find_point lineno tables ms))
      ⊎ ((entries : List LineEntry) × (location : ℤ) × (tables m ≡ some entries)
          × StartsAt lineno entries location
          × (find_point lineno tables (m ∷ ms) ≡ some (m, location)))
unfolding find_point
method_cases lineno tables m ms = elim (Option-cases (tables m)) [
  | inl e ↦ inl (inl e, rw (e, find_point))
  | inr (entries, e) ↦ elim (Option-cases (find_line lineno entries)) [
    | inl n ↦ inl (inr (entries, e, find_line-none lineno entries n), rw (e, find_point, n))
    | inr (location, s) ↦
        inr (entries, location, e, find_line-some lineno entries location s, rw (e, find_point, s))
  ]
]

find_point_cases :
    (lineno : ℤ) (tables : LineTables) (methods : List ℕ)
    → ((find_point lineno tables methods ≡ none) × All (Misses lineno tables) methods)
      ⊎ ((m : ℕ) × (location : ℤ) × (find_point lineno tables methods ≡ some (m, location))
          × FirstPoint lineno tables methods m location)
unfolding find_point
find_point_cases lineno tables [] = inl (refl, tt)
find_point_cases lineno tables (m ∷ ms) = elim (method_cases lineno tables m ms) [
  | inr (entries, location, e, starts, found) ↦
      inr (m, location, found, ([], ms, entries, refl, tt, e, starts))
  | inl (miss, same) ↦ elim (find_point_cases lineno tables ms) [
    | inl (n, all) ↦ inl (same ∙ n, (miss, all))
    | inr (k, location, found, (before, after, entries, split, misses, table, starts)) ↦ inr (
      k,
      location,
      same ∙ found,
      (m ∷ before, after, entries, ap (◌∷◌ m) split, (miss, misses), table, starts),
    )
  ]
]

abbrev pub IsUnset : Progress → Type 0
IsUnset p = (p.end_to_end ≡ false) × (p.progress_point.method_id ≡ 0)

-- The point set, and the breakpoint asked for.
abbrev pub with_point : Progress → ℕ → ℤ → Progress
with_point p m location = record p {
  progress_point = record (p.progress_point) { method_id = m; location = location };
  calls = p.calls ++ set_breakpoint m location ∷ [];
}

add_progress_point-none :
    (p : Progress) (tables : LineTables) (methods : List ℕ)
    → IsUnset p
    → find_point p.progress_point.lineno tables methods ≡ none
    → add_progress_point p tables methods ≡ halt (exits progress_point_not_set)
unfolding add_progress_point
add_progress_point-none p tables methods h e = ground arith

add_progress_point-some :
    (p : Progress) (tables : LineTables) (methods : List ℕ) (m : ℕ) (location : ℤ)
    → IsUnset p
    → find_point p.progress_point.lineno tables methods ≡ some (m, location)
    → add_progress_point p tables methods ≡ ok (with_point p m location)
unfolding add_progress_point
add_progress_point-some p tables methods m location h e = ground arith

-- With no progress point set yet, and not end-to-end, either the point goes to the line's first
-- entry in the first method that has one, with one breakpoint asked for there, or no method has an
-- entry for the line and the process ends.
pub add_progress_point_lem :
    (p : Progress) (tables : LineTables) (methods : List ℕ)
    → IsUnset p
    → let lineno = p.progress_point.lineno in
      ((add_progress_point p tables methods ≡ halt (exits progress_point_not_set))
        × All (Misses lineno tables) methods)
      ⊎ ((m : ℕ) × (location : ℤ) × (add_progress_point p tables methods
            ≡ ok (with_point p m location))
          × FirstPoint lineno tables methods m location)
add_progress_point_lem p tables methods h =
    elim (find_point_cases p.progress_point.lineno tables methods) [
      | inl (e, all) ↦ inl (add_progress_point-none p tables methods h e, all)
      | inr (m, location, e, point) ↦
          inr (m, location, add_progress_point-some p tables methods m location h e, point)
    ]

-- Classes that come after the point is set.
unfoldable pub add_all : Progress → LineTables → List (List ℕ) → Result Progress
add_all p tables [] = ok p
add_all p tables (methods ∷ classes) =
    add_progress_point p tables methods >>= (λ q. add_all q tables classes)

pub add_set :
    (p : Progress) (tables : LineTables) (methods : List ℕ)
    → p.progress_point.method_id ≢ 0
    → add_progress_point p tables methods ≡ ok p
unfolding add_progress_point
add_set p tables methods h = ground arith

add_all_set :
    (p : Progress) (tables : LineTables) (classes : List (List ℕ))
    → p.progress_point.method_id ≢ 0
    → add_all p tables classes ≡ ok p
unfolding add_all
add_all_set p tables [] h = refl
add_all_set p tables (methods ∷ classes) h =
    ap (λ r. r >>= (λ q. add_all q tables classes)) (add_set p tables methods h)
    ∙ add_all_set p tables classes h

clear_point :
    (p : Progress) (m : ℕ) (location : ℤ)
    → IsUnset p
    → m ≢ 0
    → (clear_progress_point (with_point p m location)).calls
      ≡ (p.calls ++ set_breakpoint m location ∷ []) ++ clear_breakpoint m location ∷ []
unfolding clear_progress_point
clear_point p m location h k = ground arith

-- However many classes are prepared after the one that sets the point, with methods that are not
-- null, its breakpoint is set once, and clearProgressPoint then clears that breakpoint and no
-- other.
pub breakpoint_balanced :
    (p q r : Progress) (tables : LineTables) (methods : List ℕ) (classes : List (List ℕ))
    → IsUnset p
    → All (λ m. m ≢ 0) methods
    → add_progress_point p tables methods ≡ ok q
    → add_all q tables classes ≡ ok r
    → (m : ℕ) × (location : ℤ) × ((clear_progress_point r).calls
        ≡ p.calls ++ set_breakpoint m location ∷ clear_breakpoint m location ∷ [])
breakpoint_balanced p q r tables methods classes h valid e f =
    elim (add_progress_point_lem p tables methods h) [
      | inl (no_point, _) ↦ absurd (cc (sym no_point ∙ e))
      | inr (m, location, found, (before, after, entries, split, misses, table, starts)) ↦
          let point : m ≢ 0 =
            All-middle (λ m. m ≢ 0) before m after (subst (All (λ m. m ≢ 0)) split valid) in
          let q_is : with_point p m location ≡ q = ok-injective _ q (sym found ∙ e) in
          let r_is : with_point p m location ≡ r = ok-injective _ r (
            sym (add_all_set (with_point p m location) tables classes point)
            ∙ subst (λ x. add_all x tables classes ≡ ok r) (sym q_is) f) in
          (
            m,
            location,
            ap (λ (x : Progress). (clear_progress_point x).calls) (sym r_is)
                ∙ clear_point p m location h point
                ∙ append_assoc p.calls (set_breakpoint m location ∷ [])
                    (clear_breakpoint m location ∷ []),
          )
    ]
