-- ===== src/Agent/Loops.antt =====
-- The two loops of the agent's thread that sleep: the one that waits for samples, in runAgentThread,
-- and the one of runExperiment, src/profiler.cc. What rand() and the clock give in each round, and the
-- state that the round finds, are arguments.
use jcoz.Base.{
  ℕ, zero, suc, ◌+◌, ◌-◌, ◌*◌, ◌%◌, ◌≤◌, ◌<◌, ◌≡◌, refl, ◌⊎◌, inl, inr, true, false, List, [], ◌∷◌,
  Option, none, some, if◌then◌else◌, ltb, length, All, Bool-cases, arith,
}
use jcoz.Experiment.{signal_freq}
use jcoz.Agent.{Agent, keeps_going}

abbrev pub total_needed_time : ℕ
total_needed_time = 30 * signal_freq

-- The time of one sleep.
abbrev pub curr_sleep : ℕ → ℕ
curr_sleep rand = 2 * signal_freq - rand % signal_freq

abbrev pub sleep_first : ℕ → Option (List ℕ) → Option (List ℕ)
sleep_first time none = none
sleep_first time (some times) = some (time ∷ times)

-- The times that are slept from a round on, or out of fuel.
unfoldable pub sampling_loop : ℕ → (ℕ → ℕ) → ℕ → ℕ → Option (List ℕ)
sampling_loop zero rand round total_accrued_time = none
sampling_loop (suc fuel) rand round total_accrued_time =
    let time = curr_sleep (rand round) in
    let rest = sampling_loop fuel rand (suc round) (total_accrued_time + time) in
    if ltb total_accrued_time total_needed_time then sleep_first time rest else some []

abbrev pub sum : List ℕ → ℕ
sum [] = 0
sum (x ∷ xs) = x + sum xs

-- A sleep is longer than SIGNAL_FREQ, and at most twice as long.
abbrev pub IsSleep : ℕ → Type 0
IsSleep time = (signal_freq < time) × (time ≤ 2 * signal_freq)

record Slept (fuel accrued : ℕ) (r : Option (List ℕ)) : Type 0 where
  pub times : List ℕ
  pub ends : r ≡ some times
  pub sleeps : All IsSleep times
  pub rounds : length times ≤ fuel
  pub needed : total_needed_time ≤ accrued + sum times
  pub bound : accrued + sum times < total_needed_time + 2 * signal_freq
  pub share : sum times ≤ 2 * signal_freq * length times

one_more :
    (fuel accrued time : ℕ) (r : Option (List ℕ))
    → IsSleep time
    → Slept fuel (accrued + time) r
    → Slept (suc fuel) accrued (sleep_first time r)
one_more fuel accrued time r h s = record {
  times = time ∷ s.times;
  ends = rw s.ends;
  sleeps = (h, s.sleeps);
  rounds = omega (arith, s.rounds);
  needed = omega (arith, s.needed);
  bound = omega (arith, s.bound);
  share = omega (arith, s.share);
}

curr_sleep-IsSleep : (rand : ℕ) → IsSleep (curr_sleep rand)
curr_sleep-IsSleep rand = (omega arith, omega arith)

more_needed : (accrued : ℕ) → ltb accrued total_needed_time ≡ true → accrued < total_needed_time
more_needed accrued h = ground arith

-- Where the time has been slept.
over :
    (fuel accrued : ℕ)
    → ltb accrued total_needed_time ≡ false
    → accrued < total_needed_time + 2 * signal_freq
    → Slept fuel accrued (some [])
over fuel accrued h small = record {
  times = [];
  ends = refl;
  sleeps = tt;
  rounds = omega arith;
  needed = ground arith;
  bound = omega arith;
  share = omega arith;
}

sampling_loop-Slept :
    (fuel : ℕ) (rand : ℕ → ℕ) (round accrued : ℕ)
    → total_needed_time ≤ accrued + fuel * (signal_freq + 1)
    → accrued < total_needed_time + 2 * signal_freq
    → Slept fuel accrued (sampling_loop (suc fuel) rand round accrued)
unfolding sampling_loop
sampling_loop-Slept zero rand round accrued enough small =
    elim (Bool-cases (ltb accrued total_needed_time)) [
      | inr done ↦ rw done (over 0 accrued done small)
      | inl more ↦ absurd (omega (arith, more_needed accrued more))
    ]
sampling_loop-Slept (suc fuel) rand round accrued enough small =
    elim (Bool-cases (ltb accrued total_needed_time)) [
      | inr done ↦ rw done (over (suc fuel) accrued done small)
      | inl more ↦
          let slept = curr_sleep-IsSleep (rand round) in
          let before = more_needed accrued more in
          rw more (
            one_more fuel accrued (curr_sleep (rand round)) _ slept (
              sampling_loop-Slept fuel rand (suc round) (accrued + curr_sleep (rand round))
                (omega (arith, slept.0)) (omega (arith, slept.1))))
    ]

-- The loop of runAgentThread, with a round of fuel for each SIGNAL_FREQ, and one for its last test.
abbrev pub sampling_times : (ℕ → ℕ) → Option (List ℕ)
sampling_times rand = sampling_loop 31 rand 0 0

-- Whatever rand() gives, the sampling loop ends after 15 to 30 sleeps, each longer than SIGNAL_FREQ
-- and at most twice that, and they add up to at least the needed 30 times SIGNAL_FREQ and less than
-- 32 times.
pub sampling_ends :
    (rand : ℕ → ℕ)
    → (times : List ℕ) × (sampling_times rand ≡ some times)
      × All IsSleep times
      × ((15 ≤ length times) × (length times ≤ 30))
      × ((total_needed_time ≤ sum times) × (sum times < total_needed_time + 2 * signal_freq))
sampling_ends rand =
    let s = sampling_loop-Slept 30 rand 0 0 (omega arith) (omega arith) in
    (
      s.times,
      s.ends,
      s.sleeps,
      (omega (arith, s.needed, s.share), s.rounds),
      (omega (arith, s.needed), omega (arith, s.bound)),
    )

-- The loop of runExperiment: the round at whose test it ends, or out of fuel.
unfoldable pub experiment_rounds : ℕ → (ℕ → Agent) → (ℕ → ℕ) → ℕ → ℕ → Option ℕ
experiment_rounds zero at now end_time round = none
experiment_rounds (suc fuel) at now end_time round =
    let rest = experiment_rounds fuel at now end_time (suc round) in
    if keeps_going (at round) (now round) end_time then rest else some round

-- A sleep of SIGNAL_FREQ between two readings of the clock.
abbrev pub Ticks : (ℕ → ℕ) → Type 0
Ticks now = (round : ℕ) → now round + signal_freq ≤ now (suc round)

-- Why the loop ends.
abbrev pub Over : (ℕ → Agent) → (ℕ → ℕ) → ℕ → ℕ → Type 0
Over at now end_time round = ((at round).running ≡ false) ⊎ (end_time ≤ now round)

ends_over :
    (a : Agent) (now end_time : ℕ)
    → keeps_going a now end_time ≡ false
    → (a.running ≡ false) ⊎ (end_time ≤ now)
unfolding keeps_going
ends_over a now end_time h = ground arith

still_time :
    (a : Agent) (now end_time : ℕ)
    → a.end_to_end ≡ false
    → keeps_going a now end_time ≡ true
    → now < end_time
unfolding keeps_going
still_time a now end_time whole h = ground arith

experiment_rounds-Over :
    (fuel : ℕ) (at : ℕ → Agent) (now : ℕ → ℕ) (end_time round : ℕ)
    → ((k : ℕ) → (at k).end_to_end ≡ false)
    → Ticks now
    → end_time ≤ now round + fuel * signal_freq
    → (last : ℕ) × (experiment_rounds (suc fuel) at now end_time round ≡ some last)
      × (last ≤ round + fuel)
      × Over at now end_time last
unfolding experiment_rounds
experiment_rounds-Over zero at now end_time round whole ticks enough =
    elim (Bool-cases (keeps_going (at round) (now round) end_time)) [
      | inr ends ↦
          rw ends (round, refl, omega arith, ends_over (at round) (now round) end_time ends)
      | inl going ↦
          absurd (omega (arith, still_time (at round) (now round) end_time (whole round) going))
    ]
experiment_rounds-Over (suc fuel) at now end_time round whole ticks enough =
    elim (Bool-cases (keeps_going (at round) (now round) end_time)) [
      | inr ends ↦
          rw ends (round, refl, omega arith, ends_over (at round) (now round) end_time ends)
      | inl going ↦
          let (last, e, bound, why) =
            experiment_rounds-Over fuel at now end_time (suc round) whole ticks
              (omega (arith, ticks round)) in
          rw going (last, e, omega (arith, bound), why)
    ]

-- Outside end-to-end mode, with a clock that advances by SIGNAL_FREQ between two tests, the loop of
-- an experiment ends within as many rounds as its length has milliseconds, and then the profiler is
-- stopped or the time is over.
pub experiment_ends :
    (at : ℕ → Agent) (now : ℕ → ℕ) (experiment_time : ℕ)
    → ((k : ℕ) → (at k).end_to_end ≡ false)
    → Ticks now
    → let end_time = now 0 + experiment_time * 1000000 in
      (last : ℕ) × (experiment_rounds (suc experiment_time) at now end_time 0 ≡ some last)
      × (last ≤ experiment_time)
      × Over at now end_time last
experiment_ends at now experiment_time whole ticks =
    let (last, e, bound, why) =
      experiment_rounds-Over experiment_time at now (now 0 + experiment_time * 1000000) 0 whole
        ticks (omega arith) in
    (last, e, omega (arith, bound), why)
