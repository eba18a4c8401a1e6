-- ===== src/Output/Speedups.antt =====
-- The text of a drawn speedup in the output file, and the number that it is read as.
use jcoz.Base.{
  ℕ, ◌-◌, ◌*◌, ◌/◌, ◌%◌, ◌^◌, ◌≡◌, ◌≢◌, ◌<◌, refl, sym, ap, subst, Bool, true, false, ◌&&◌, not,
  List, [], ◌∷◌, ◌++◌, map, Option, none, some, ◌==◌, ==_iff, if◌then◌else◌, ltb, length, All,
  arith,
}
use jcoz.Text.{Bytes}
use jcoz.Text.Lines.{getlines}
use jcoz.Text.Numbers.{value}
use jcoz.Text.Printing.{print_unsigned}
use jcoz.Experiment.Float.{zero_f32, div_f32}
use jcoz.Experiment.{calculate_random_speedup}
use jcoz.Experiment.Draw.{holds_below, holds_below_sound, twentieths}
use jcoz.Output.{print_float}

-- The number of twentieths of n / 10 ^ k, if there is a whole one.
abbrev pub to_twentieths : ℕ → ℕ → Option ℕ
to_twentieths n k = if n * 20 % 10 ^ k == 0 then some (n * 20 / 10 ^ k) else none

abbrev pub digits_in : Bytes → List ℕ
digits_in = map (λ b. b - b'0')

abbrev pub read_parts : List Bytes → Option ℕ
read_parts (whole ∷ []) = to_twentieths (value 0 (digits_in whole)) 0
read_parts (whole ∷ part ∷ []) = to_twentieths (value 0 (digits_in (whole ++ part))) (length part)
read_parts _ = none

-- A decimal number as twentieths
unfoldable pub read_speedup : Bytes → Option ℕ
unfolding value
read_speedup text = read_parts (getlines b'.' text)

abbrev reads : Option ℕ → ℕ → Bool
reads none k = false
reads (some n) k = n == k

unfoldable pub lacks : ℕ → Bytes → Bool
lacks c [] = true
lacks c (b ∷ s) = not (b == c) && lacks c s

pub lacks-All : (c : ℕ) (s : Bytes) → lacks c s ≡ true → All (λ b. b ≢ c) s
unfolding lacks
lacks-All c [] h = tt
lacks-All c (b ∷ s) h = (ground (arith, h), lacks-All c s (ground (arith, h)))

speedup_table :
    holds_below 25 (λ r.
      let text = print_float (calculate_random_speedup r) in
      reads (read_speedup text) (twentieths r) && (lacks b',' text && lacks b'\n' text))
    ≡ true
unfolding holds_below calculate_random_speedup div_f32 print_float read_speedup lacks getlines
    print_unsigned
speedup_table = refl

calculate_random_speedup-mod :
    (rand : ℕ) → calculate_random_speedup rand ≡ calculate_random_speedup (rand % 25)
unfolding calculate_random_speedup
calculate_random_speedup-mod rand =
    let e : rand % 25 ≡ rand % 25 % 25 = omega arith in
    ap (λ v. if ltb v 5 then zero_f32 else div_f32 (v - 4) 20) e

abbrev pub speedup_text : ℕ → Bytes
speedup_text rand = print_float (calculate_random_speedup rand)

reads-eq : (o : Option ℕ) (k : ℕ) → reads o k ≡ true → o ≡ some k
reads-eq none k h = cc
reads-eq (some n) k h = ap some ((==_iff n k).0 h)

pub record IsReadable (text : Bytes) (k : ℕ) : Type 0 where
  pub number : read_speedup text ≡ some k
  pub no_comma : All (λ b. b ≢ b',') text
  pub no_newline : All (λ b. b ≢ b'\n') text

below-IsReadable : (r : ℕ) → r < 25 → IsReadable (speedup_text r) (twentieths r)
below-IsReadable r h =
    let both : (reads (read_speedup (speedup_text r)) (twentieths r)
          && (lacks b',' (speedup_text r) && lacks b'\n' (speedup_text r)))
        ≡ true =
      holds_below_sound 25 _ r speedup_table h in
    record {
      number = reads-eq _ (twentieths r) (ground (arith, both));
      no_comma = lacks-All b',' _ (ground (arith, both));
      no_newline = lacks-All b'\n' _ (ground (arith, both));
    }

pub speedup_text-IsReadable : (rand : ℕ) → IsReadable (speedup_text rand) (twentieths rand)
speedup_text-IsReadable rand =
    let e : twentieths (rand % 25) ≡ twentieths rand = omega arith in
    subst (IsReadable (speedup_text rand)) e (
      subst (λ x. IsReadable (print_float x) (twentieths (rand % 25)))
        (sym (calculate_random_speedup-mod rand)) (below-IsReadable (rand % 25) (omega arith)))
