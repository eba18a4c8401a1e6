-- ===== src/Experiment/Length.antt =====
-- How the length of the experiments moves.
use jcoz.Base.{
  ℕ, min, max, ◌*◌, ◌/◌, ◌≤◌, ◌≡◌, refl, ap, ◌∙◌, ◌⊎◌, inl, inr, Bool, true, false, List, [], ◌∷◌,
  arith, All, if◌then◌else◌,
}
use jcoz.Base.Int.{ℤ, pos, ◌≤ℤ◌, ◌<ℤ◌, leb_ℤ}
use jcoz.Experiment.{update_experiment_length, min_exp_time, max_exp_time}

-- Five seconds, doubled up to four times.
abbrev pub IsLength : ℕ → Type 0
IsLength t = (t ≡ 5000) ⊎ (t ≡ 10000) ⊎ (t ≡ 20000) ⊎ (t ≡ 40000) ⊎ (t ≡ 80000)

update_experiment_length-IsLength :
    (fixed : Bool) (hits : ℤ) (t : ℕ)
    → IsLength t
    → IsLength (update_experiment_length fixed hits t)
unfolding update_experiment_length
update_experiment_length-IsLength fixed hits t h = ground arith

-- The length after a series of experiments, by their hits.
pub lengths : Bool → List ℤ → ℕ → ℕ
lengths fixed [] t = t
lengths fixed (hits ∷ rest) t = lengths fixed rest (update_experiment_length fixed hits t)

lengths-IsLength-from :
    (fixed : Bool) (series : List ℤ) (t : ℕ) → IsLength t → IsLength (lengths fixed series t)
unfolding lengths
lengths-IsLength-from fixed [] t h = h
lengths-IsLength-from fixed (hits ∷ rest) t h =
    lengths-IsLength-from fixed rest (update_experiment_length fixed hits t)
      (update_experiment_length-IsLength fixed hits t h)

-- Whatever the experiments hit, the length is five seconds doubled at most four times, so it stays
-- within its two bounds.
pub lengths-IsLength :
    (fixed : Bool) (series : List ℤ)
    → let t = lengths fixed series min_exp_time in
      IsLength t × (min_exp_time ≤ t) × (t ≤ max_exp_time)
lengths-IsLength fixed series =
    let h = lengths-IsLength-from fixed series min_exp_time (inl refl) in
    (h, ground arith, ground arith)

-- A fixed length never moves.
pub lengths_fixed : (series : List ℤ) (t : ℕ) → lengths true series t ≡ t
unfolding lengths update_experiment_length
lengths_fixed [] t = refl
lengths_fixed (hits ∷ rest) t = lengths_fixed rest t

-- One round: at most five hits double the length, at least twenty halve it, within the bounds; any
-- other number leaves it.
update_experiment_length_cases :
    (hits : ℤ) (t : ℕ)
    → IsLength t
    → (hits ≤ℤ pos 5 → update_experiment_length false hits t ≡ min max_exp_time (2 * t))
      × (pos 20 ≤ℤ hits → update_experiment_length false hits t ≡ max min_exp_time (t / 2))
      × (pos 5 <ℤ hits → hits <ℤ pos 20 → update_experiment_length false hits t ≡ t)
unfolding update_experiment_length
update_experiment_length_cases hits t h =
    (λ k. ground arith, λ k. ground arith, λ k l. ground arith)

-- For a length of five seconds doubled at most four times, unless it is fixed, at most five hits
-- double it, at least twenty halve it, within the bounds, and any other number leaves it.
pub update_experiment_length_lem :
    (hits : ℤ) (t : ℕ)
    → IsLength t
    → update_experiment_length false hits t ≡ (
        if leb_ℤ hits (pos 5)
        then min max_exp_time (2 * t)
        else if leb_ℤ (pos 20) hits
        then max min_exp_time (t / 2)
        else t)
unfolding update_experiment_length
update_experiment_length_lem hits t h = ground arith

-- An experiment with at most five hits.
abbrev pub IsPoor : ℤ → Type 0
IsPoor hits = hits ≤ℤ pos 5

lengths-max :
    (series : List ℤ) → All IsPoor series → lengths false series max_exp_time ≡ max_exp_time
unfolding lengths
lengths-max [] h = refl
lengths-max (hits ∷ rest) (h, k) = ap (lengths false rest) (poor_max hits h) ∙ lengths-max rest k
  where
    poor_max :
        (hits : ℤ) → IsPoor hits → update_experiment_length false hits max_exp_time ≡ max_exp_time
    poor_max hits h =
        (update_experiment_length_cases hits max_exp_time (inr (inr (inr (inr refl))))).0 h

-- Unless it is fixed, four experiments with at most five hits each bring any length of five seconds
-- doubled at most four times to the longest one, and more of them keep it there.
pub lengths_saturate :
    (a b c d : ℤ) (rest : List ℤ) (t : ℕ)
    → IsLength t
    → All IsPoor (a ∷ b ∷ c ∷ d ∷ rest)
    → lengths false (a ∷ b ∷ c ∷ d ∷ rest) t ≡ max_exp_time
unfolding lengths
lengths_saturate a b c d rest t h (ha, (hb, (hc, (hd, hr)))) =
    let u = update_experiment_length-IsLength false a t h in
    let v = update_experiment_length-IsLength false b (update_experiment_length false a t) u in
    let w = update_experiment_length-IsLength false c _ v in
    let top : update_experiment_length false d (
          update_experiment_length false c
            (update_experiment_length false b (update_experiment_length false a t)))
        ≡ max_exp_time =
      ground (
        arith,
        (update_experiment_length_cases a t h).0 ha,
        (update_experiment_length_cases b _ u).0 hb,
        (update_experiment_length_cases c _ v).0 hc,
        (update_experiment_length_cases d _ w).0 hd,
      ) in
    ap (lengths false rest) top ∙ lengths-max rest hr
