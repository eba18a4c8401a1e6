-- ===== src/Text/Lines.antt =====
-- std::getline with a delimiter, and the loop that reads a stream to its end.
use mathlib.Core.Option
use jcoz.Base.{
  ℕ, zero, suc, ◌≤◌, ◌<◌, ◌≡◌, ◌≢◌, refl, ap, ◌∙◌, List, [], ◌∷◌, ◌++◌, Option, none, some, ◌==◌,
  if◌then◌else◌, arith, All, length,
}
use jcoz.Text.{Bytes}

abbrev cons_first : ℕ → Bytes × Bytes → Bytes × Bytes
cons_first b (item, rest) = (b ∷ item, rest)

-- The bytes before the next delimiter, and those after it.
split_first : ℕ → Bytes → Bytes × Bytes
split_first d [] = ([], [])
split_first d (b ∷ s) = if b == d then ([], s) else cons_first b (split_first d s)

-- A stream with nothing left fails.
unfoldable pub getline : ℕ → Bytes → Option (Bytes × Bytes)
unfolding split_first
getline d [] = none
getline d (b ∷ s) = some (split_first d (b ∷ s))

-- while (std::getline(ss, item, d)) items.push_back(item);  `none`: out of fuel
unfoldable pub read_lines : ℕ → ℕ → Bytes → Option (List Bytes)
unfolding getline
read_lines zero d s = none
read_lines (suc fuel) d s = elim (getline d s) [
  | none ↦ some []
  | some (item, rest) ↦ Option.map (λ items. item ∷ items) (read_lines fuel d rest)
]

abbrev or_nil : Option (List Bytes) → List Bytes
or_nil none = []
or_nil (some items) = items

-- The loop with fuel for every byte.
unfoldable pub getlines : ℕ → Bytes → List Bytes
unfolding read_lines
getlines d s = or_nil (read_lines (suc (length s)) d s)

split_first-le : (d : ℕ) (s : Bytes) → length (split_first d s).1 ≤ length s
unfolding split_first
split_first-le d [] = omega arith
split_first-le d (b ∷ s) = ground (arith, split_first-le d s)

getline-lt : (d b : ℕ) (s : Bytes) → length (split_first d (b ∷ s)).1 < length (b ∷ s)
unfolding split_first
getline-lt d b s = ground (arith, split_first-le d s)

-- Fuel for every byte is enough: the loop ends at the end of the stream.
pub read_lines_total :
    (fuel d : ℕ) (s : Bytes)
    → length s < fuel
    → (items : List Bytes) × (read_lines fuel d s ≡ some items)
unfolding read_lines
read_lines_total zero d s h = absurd (omega arith)
read_lines_total (suc fuel) d [] h = ([], refl)
read_lines_total (suc fuel) d (b ∷ s) h =
    let (item, rest) = split_first d (b ∷ s) in
    let (items, e) = read_lines_total fuel d rest (omega (arith, getline-lt d b s)) in
    (item ∷ items, rw e)

-- Fuel beyond that changes nothing.
read_lines_fuel :
    (f g d : ℕ) (s : Bytes) → length s < f → length s < g → read_lines f d s ≡ read_lines g d s
unfolding read_lines
read_lines_fuel zero g d s h k = absurd (omega arith)
read_lines_fuel (suc f) zero d s h k = absurd (omega arith)
read_lines_fuel (suc f) (suc g) d [] h k = refl
read_lines_fuel (suc f) (suc g) d (b ∷ s) h k =
    ap (Option.map (λ items. (split_first d (b ∷ s)).0 ∷ items)) (
      read_lines_fuel f g d (split_first d (b ∷ s)).1 (omega (arith, getline-lt d b s))
        (omega (arith, getline-lt d b s)))

pub getlines_nil : (d : ℕ) → getlines d [] ≡ []
unfolding getlines
getlines_nil d = refl

or_nil-map :
    (item : Bytes) (fuel d : ℕ) (s : Bytes)
    → length s < fuel
    → or_nil (Option.map (λ items. item ∷ items) (read_lines fuel d s))
      ≡ item ∷ or_nil (read_lines fuel d s)
or_nil-map item fuel d s h = let (items, e) = read_lines_total fuel d s h in rw e

-- One round of the loop.
getlines_cons :
    (d b : ℕ) (s : Bytes)
    → getlines d (b ∷ s) ≡ (split_first d (b ∷ s)).0 ∷ getlines d (split_first d (b ∷ s)).1
unfolding getlines
getlines_cons d b s =
    let rest = (split_first d (b ∷ s)).1 in
    ap (λ r. or_nil (Option.map (λ items. (split_first d (b ∷ s)).0 ∷ items) r))
      (read_lines_fuel (suc (length s)) (suc (length rest)) d rest (omega (arith, getline-lt d b s))
        (omega arith))
    ∙ or_nil-map (split_first d (b ∷ s)).0 (suc (length rest)) d rest (omega arith)

-- The texts with a delimiter between them.
unfoldable pub join : ℕ → List Bytes → Bytes
join d [] = []
join d (s ∷ []) = s
join d (s ∷ t ∷ ts) = s ++ d ∷ join d (t ∷ ts)

-- The last text, if there is one, has a byte.
abbrev pub EndsFull : List Bytes → Type 0
EndsFull [] = Unit {0}
EndsFull (s ∷ []) = s ≢ []
EndsFull (s ∷ t ∷ ts) = EndsFull (t ∷ ts)

split_first-append :
    (d : ℕ) (s rest : Bytes) → All (λ b. b ≢ d) s → split_first d (s ++ d ∷ rest) ≡ (s, rest)
unfolding split_first
split_first-append d [] rest h = ground arith
split_first-append d (b ∷ s) rest h = ground (arith, split_first-append d s rest h.1)

split_first-All : (d : ℕ) (s : Bytes) → All (λ b. b ≢ d) s → split_first d s ≡ (s, [])
unfolding split_first
split_first-All d [] h = refl
split_first-All d (b ∷ s) h = ground (arith, split_first-All d s h.1)

pub getlines-append :
    (d : ℕ) (s rest : Bytes) → All (λ b. b ≢ d) s → getlines d (s ++ d ∷ rest) ≡ s ∷ getlines d rest
getlines-append d [] rest h = rw (getlines_cons d d rest, split_first-append d [] rest h)
getlines-append d (b ∷ s) rest h =
    rw (getlines_cons d b (s ++ d ∷ rest), split_first-append d (b ∷ s) rest h)

pub getlines_last : (d : ℕ) (s : Bytes) → All (λ b. b ≢ d) s → s ≢ [] → getlines d s ≡ s ∷ []
getlines_last d [] h k = absurd (k refl)
getlines_last d (b ∷ s) h k = rw (getlines_cons d b s, split_first-All d (b ∷ s) h, getlines_nil d)

-- Reading undoes joining, for texts without the delimiter of which the last is not empty.
pub getlines-join :
    (d : ℕ) (items : List Bytes)
    → All (All (λ b. b ≢ d)) items
    → EndsFull items
    → getlines d (join d items) ≡ items
unfolding join
getlines-join d [] h k = getlines_nil d
getlines-join d (s ∷ []) h k = getlines_last d s h.0 k
getlines-join d (s ∷ t ∷ ts) h k =
    getlines-append d s (join d (t ∷ ts)) h.0 ∙ ap (◌∷◌ s) (getlines-join d (t ∷ ts) h.1 k)
