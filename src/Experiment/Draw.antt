-- ===== src/Experiment/Draw.antt =====
-- The speedup that is drawn, and the delay that it stands for, in nanoseconds.
use jcoz.Base.{
  ℕ, zero, suc, ◌-◌, ◌*◌, ◌%◌, ◌≤◌, ◌<◌, ◌≡◌, ◌∙◌, ap, refl, Bool, true, ◌&&◌, ◌==◌, ==_iff, ltb,
  if◌then◌else◌, arith,
}
use jcoz.Base.Int.{pos, pos_part}
use jcoz.Experiment.Float.{zero_f32, div_f32, mul_f32, truncate}
use jcoz.Experiment.{calculate_random_speedup, delay_of, signal_freq}

-- The test holds of every number below the bound.
unfoldable pub holds_below : ℕ → (ℕ → Bool) → Bool
holds_below zero test = true
holds_below (suc n) test = holds_below n test && test n

pub holds_below_sound :
    (n : ℕ) (test : ℕ → Bool) (x : ℕ) → holds_below n test ≡ true → x < n → test x ≡ true
unfolding holds_below
holds_below_sound zero test x h lt = absurd (omega arith)
holds_below_sound (suc n) test x h lt = ground (arith, holds_below_sound n test x)

-- What the draw should stand for: no speedup for five of the 25 values, else a number of twentieths.
abbrev pub twentieths : ℕ → ℕ
twentieths rand = rand % 25 - 4

delay_table :
    holds_below 25 (λ r. pos_part (delay_of (calculate_random_speedup r)) == twentieths r * 50000)
    ≡ true
unfolding holds_below delay_of calculate_random_speedup truncate mul_f32 div_f32
delay_table = refl

delay_of-mod :
    (rand : ℕ)
    → delay_of (calculate_random_speedup rand) ≡ delay_of (calculate_random_speedup (rand % 25))
unfolding calculate_random_speedup
delay_of-mod rand =
    let e : rand % 25 ≡ rand % 25 % 25 = omega arith in
    ap (λ v. delay_of (if ltb v 5 then zero_f32 else div_f32 (v - 4) 20)) e

delay_parts : (r : ℕ) → r < 25 → delay_of (calculate_random_speedup r) ≡ pos (twentieths r * 50000)
unfolding delay_of
delay_parts r h =
    ap pos ((==_iff _ (twentieths r * 50000)).0 (holds_below_sound 25 _ r delay_table h))

-- The delay of a draw is a whole number of twentieths of a millisecond, exact in spite of the float
-- arithmetic: from 0 to the full signal interval.
pub delay_of-draw :
    (rand : ℕ)
    → (delay_of (calculate_random_speedup rand) ≡ pos (twentieths rand * 50000))
      × (twentieths rand * 50000 ≤ signal_freq)
delay_of-draw rand = (
  delay_of-mod rand
      ∙ delay_parts (rand % 25) (omega arith)
      ∙ ap (λ v. pos (v * 50000)) (omega arith),
  omega arith,
)

-- Two draws with the same delay, one of them with a residue of rand() modulo 25 of at least 5, have
-- the same residue.
pub delay_of_distinct :
    (r s : ℕ)
    → 5 ≤ r % 25
    → delay_of (calculate_random_speedup r) ≡ delay_of (calculate_random_speedup s)
    → r % 25 ≡ s % 25
delay_of_distinct r s h e = ground (arith, (delay_of-draw r).0, (delay_of-draw s).0)
