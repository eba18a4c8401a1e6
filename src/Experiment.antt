-- ===== src/Experiment.antt =====
-- The experiment of src/profiler.cc: its length, and the speedup that is drawn for it.
pub mod Float
pub mod Length
pub mod Draw
use jcoz.Base.{ℕ, ◌+◌, ◌-◌, ◌*◌, ◌/◌, ◌%◌, ◌^◌, Bool, ◌&&◌, Option, if◌then◌else◌, ltb, leb, List}
use jcoz.Base.Int.{ℤ, pos, leb_ℤ}
use Float.{F32, zero_f32, div_f32, mul_f32, truncate}

-- src/globals.h
abbrev pub min_exp_time : ℕ
min_exp_time = 5000

abbrev pub max_exp_time : ℕ
max_exp_time = 80000

abbrev pub hits_to_inc_exp_time : ℕ
hits_to_inc_exp_time = 5

abbrev pub hits_to_dec_exp_time : ℕ
hits_to_dec_exp_time = 20

abbrev pub exp_time_factor : ℕ
exp_time_factor = 2

-- SIGNAL_FREQ, in nanoseconds
abbrev pub signal_freq : ℕ
signal_freq = 1000000

-- An `unsigned long`.
abbrev pub u64 : ℕ → ℕ
u64 n = n % 2 ^ 64

-- struct Experiment. `location_ranges` is the array, with `num_ranges` its length.
pub record Experiment : Type 0 where
  pub points_hit : ℤ
  pub speedup : F32
  pub delay : ℤ
  pub duration : ℤ
  pub method_id : ℕ
  pub lineno : ℤ
  pub bci : ℤ
  pub location_ranges : List (ℤ × ℤ)

-- update_experiment_length, on the points hit by the experiment and the length so far
unfoldable pub update_experiment_length : Bool → ℤ → ℕ → ℕ
update_experiment_length fix_exp points_hit experiment_time =
    if fix_exp
    then experiment_time
    else if leb_ℤ points_hit (pos hits_to_inc_exp_time)
    then (if ltb max_exp_time (u64 (experiment_time * 2))
        then max_exp_time
        else u64 (experiment_time * exp_time_factor))
    else if ltb min_exp_time experiment_time && leb_ℤ (pos hits_to_dec_exp_time) points_hit
    then experiment_time / exp_time_factor
    else experiment_time

-- calculate_random_speedup, on the value of rand(), which is not negative
unfoldable pub calculate_random_speedup : ℕ → F32
calculate_random_speedup rand =
    let rand_val = rand % 25 in if ltb rand_val 5 then zero_f32 else div_f32 (rand_val - 4) 20

-- (long)(speedup * SIGNAL_FREQ): the delay in nanoseconds
unfoldable pub delay_of : F32 → ℤ
delay_of speedup = pos (truncate (mul_f32 speedup signal_freq))
