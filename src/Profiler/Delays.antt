-- ===== src/Profiler/Delays.antt =====
-- The bookkeeping of delays in Handle and removeUserThread.
use native.Mathlib.Decide.{dec_lt}
use jcoz.Base.{
  ℕ, max, ◌+◌, ◌-◌, ◌^◌, ◌≤◌, ◌<◌, ◌≡◌, refl, ap, ◌∙◌, inl, inr, Bool, true, false, Option, none,
  some, if◌then◌else◌, Option-cases, arith,
}
use jcoz.Base.Int.{ℤ, pos, negsuc, ltb_ℤ, to_long, to_long_id, ◌+ℤ◌, ◌-ℤ◌, ◌≤ℤ◌, ◌<ℤ◌}
use jcoz.Sleep.{Kernel, jcoz_sleep, nanos_per_second, IsPosix}
use jcoz.Sleep.Laws.{jcoz_sleep_ge}
use jcoz.Profiler.{UserThread, labs, add_long}
use jcoz.Profiler.Threads.{settle}
use jcoz.Frame.{CallFrame}
use jcoz.Experiment.{Experiment}
use jcoz.Profiler.Handler.{CallTrace, find_frame, in_experiment_frame, visited, charge, synchronize}

-- A third of the range of a `long`: three such delays add up without overflow.
abbrev pub third : ℕ
third = 2 ^ 61

pub add_long_pos : (a b : ℕ) → a + b < 2 ^ 63 → add_long (pos a) (pos b) ≡ pos (a + b)
unfolding add_long ◌+ℤ◌
add_long_pos a b h = to_long_id (pos a +ℤ pos b) (ground arith, ground arith) ∙ ground arith

to_long_diff : (g l : ℕ) → g < 2 ^ 63 → l < 2 ^ 63 → to_long (pos g -ℤ pos l) ≡ pos g -ℤ pos l
unfolding ◌-ℤ◌
to_long_diff g l h k = to_long_id (pos g -ℤ pos l) (ground arith, ground arith)

diff_behind : (g l : ℕ) → l < g → pos g -ℤ pos l ≡ pos (g - l)
unfolding ◌-ℤ◌
diff_behind g l h = ground arith

-- A thread that is not behind has a difference that is not positive, of the size of its lead.
diff_ahead :
    (g l : ℕ)
    → g ≤ l
    → (ltb_ℤ (pos 0) (pos g -ℤ pos l) ≡ false) × (labs (pos g -ℤ pos l) ≡ pos (l - g))
unfolding ◌-ℤ◌
diff_ahead g l h = (ground arith, ground arith)

raise : (g l : ℕ) → g ≤ l → l < third → add_long (pos g) (pos (l - g)) ≡ pos l
raise g l h k = add_long_pos g (l - g) (omega arith) ∙ ap pos (omega arith)

-- A thread that ends leaves the larger of the global delay and its own as the global delay, for
-- delays below 2^61.
pub settle-max : (g l : ℕ) → g < third → l < third → settle (pos g) (pos l) ≡ pos (max g l)
unfolding settle
settle-max g l hg hl = elim (dec_lt l g) [
  | yes behind ↦
      rw (to_long_diff g l (omega arith) (omega arith), diff_behind g l behind) (ground arith)
  | no ahead ↦
      let (test, size) = diff_ahead g l (omega arith) in
      rw (to_long_diff g l (omega arith) (omega arith), settle, test, size)
        (raise g l (omega arith) hl ∙ ap pos (omega arith))
]

pub synchronize_behind :
    (nanosleep : Kernel) (now g l s : ℕ) (u : UserThread)
    → l < g
    → g < third
    → u.local_delay ≡ pos l
    → jcoz_sleep nanosleep now (pos (g - l)) ≡ pos s
    → s < third
    → synchronize nanosleep now (pos g) u
      ≡ (pos g, record u { local_delay = pos (l + s); num_signals_received = 0 })
unfolding synchronize
synchronize_behind nanosleep now g l s u behind hg e slept short =
    rw (e, synchronize, to_long_diff g l (omega arith) (omega arith), diff_behind g l behind, slept)
      (rw (add_long_pos l s (omega arith)) (ground arith))

pub synchronize_ahead :
    (nanosleep : Kernel) (now g l : ℕ) (u : UserThread)
    → g ≤ l
    → l < third
    → u.local_delay ≡ pos l
    → synchronize nanosleep now (pos g) u
      ≡ (pos l, record u { local_delay = pos l; num_signals_received = 0 })
unfolding synchronize
synchronize_ahead nanosleep now g l u ahead hl e =
    let (test, size) = diff_ahead g l ahead in
    rw
      (e, synchronize, to_long_diff g l (omega arith) (omega arith), test, size, raise g l ahead hl)

-- Some visited frame of the trace lies in the experiment's code.
pub hits : Experiment → CallTrace → Bool
hits e trace = is_found (find_frame (in_experiment_frame e) (visited trace))
  where
    is_found : Option CallFrame → Bool
    is_found none = false
    is_found (some f) = true

pub charge_lem :
    (e : Experiment) (trace : CallTrace) (u : UserThread) (d l : ℕ)
    → e.delay ≡ pos d
    → u.local_delay ≡ pos l
    → l + d < third
    → charge e trace u ≡ record u { local_delay = pos (l + (if hits e trace then d else 0)) }
unfolding charge hits
charge_lem e trace u d l he hl small =
    elim (Option-cases (find_frame (in_experiment_frame e) (visited trace))) [
      | inl n ↦ rw (n, charge, hits) (ground arith)
      | inr (f, s) ↦ rw (s, charge, hits) (ap (λ x. record u { local_delay = x }) sum)
    ]
  where
    sum : add_long u.local_delay e.delay ≡ pos (l + d)
    sum = rw (hl, he) (add_long_pos l d (omega arith))

-- The measured sleeps of less than a second, on a kernel that keeps POSIX, are short of overflow.
abbrev pub IsBounded : Kernel → ℕ → Type 0
IsBounded nanosleep now =
    (n : ℕ) → n < nanos_per_second → jcoz_sleep nanosleep now (pos n) <ℤ pos third

slept_enough :
    (nanosleep : Kernel) (now n : ℕ)
    → IsPosix nanosleep
    → IsBounded nanosleep now
    → n < nanos_per_second
    → (s : ℕ) × (jcoz_sleep nanosleep now (pos n) ≡ pos s) × (n ≤ s) × (s < third)
slept_enough nanosleep now n posix bounded h =
    whole (jcoz_sleep nanosleep now (pos n)) (jcoz_sleep_ge nanosleep posix now n h) (bounded n h)
  where
    whole : (z : ℤ) → pos n ≤ℤ z → z <ℤ pos third → (s : ℕ) × (z ≡ pos s) × (n ≤ s) × (s < third)
    whole (pos s) a b = (s, refl, omega arith, omega arith)
    whole (negsuc s) a b = absurd (omega arith)

-- A synchronised thread: the global delay is the larger of the two, and the thread's own delay has
-- reached it.
pub record Synchronized (g l : ℕ) (u : UserThread) (r : ℤ × UserThread) : Type 0 where
  pub global_max : r.0 ≡ pos (max g l)
  pub caught_up : r.0 ≤ℤ r.1.local_delay
  pub counter_reset : r.1.num_signals_received ≡ 0
  pub points_kept : r.1.points_hit ≡ u.points_hit

-- Synchronising a thread with delay l, less than a second behind the global delay g, on a kernel
-- that keeps to POSIX and whose sleeps are bounded, for delays below 2^61: the global delay becomes
-- the larger of the two, the thread's own delay reaches it, its counter of signals is 0 and its
-- points are kept.
pub synchronize-Synchronized :
    (nanosleep : Kernel) (now g l : ℕ) (u : UserThread)
    → IsPosix nanosleep
    → IsBounded nanosleep now
    → g < third
    → l < third
    → g < l + nanos_per_second
    → u.local_delay ≡ pos l
    → Synchronized g l u (synchronize nanosleep now (pos g) u)
synchronize-Synchronized nanosleep now g l u posix bounded hg hl near e = elim (dec_lt l g) [
  | yes behind ↦
      let (s, slept, enough, short) =
        slept_enough nanosleep now (g - l) posix bounded (omega arith) in
      rw (synchronize_behind nanosleep now g l s u behind hg e slept short) (record {
        global_max = ap pos (omega arith);
        caught_up = omega arith;
        counter_reset = refl;
        points_kept = refl;
      })
  | no ahead ↦ rw (synchronize_ahead nanosleep now g l u (omega arith) hl e) (record {
    global_max = ap pos (omega arith);
    caught_up = omega arith;
    counter_reset = refl;
    points_kept = refl;
  })
]
