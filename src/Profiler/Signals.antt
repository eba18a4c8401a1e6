-- ===== src/Profiler/Signals.antt =====
-- What one SIGPROF does to a thread during an experiment, src/profiler.cc.
use jcoz.Base.{
  ℕ, max, ◌+◌, ◌%◌, ◌^◌, ◌≤◌, ◌<◌, ◌≡◌, ◌≢◌, refl, ap, ◌∙◌, true, false, if◌then◌else◌, arith, ok,
}
use jcoz.Base.Int.{ℤ, pos, ◌≤ℤ◌}
use jcoz.Sleep.{Kernel, nanos_per_second, IsPosix}
use jcoz.Profiler.{update, UserThread, live, Profiler, put, with_ut, add_points}
use jcoz.Profiler.Handler.{
  CallTrace, synchronize, pause, experiment_signal, is_unknown_error, handle,
}
use jcoz.Profiler.Delays.{
  third, hits, charge_lem, IsBounded, Synchronized, synchronize-Synchronized,
}

pub handle_inside :
    (nanosleep : Kernel) (now : ℕ) (p : Profiler) (t : ℕ) (trace : CallTrace)
    → p.prof_ready ≡ true
    → p.in_experiment ≡ true
    → is_unknown_error trace ≡ false
    → handle nanosleep now true p t trace ≡ experiment_signal nanosleep now p t trace
unfolding handle
handle_inside nanosleep now p t trace ready inside known = ground arith

pub pause_ten :
    (nanosleep : Kernel) (now : ℕ) (global : ℤ) (u : UserThread)
    → u.num_signals_received ≡ 10
    → pause nanosleep now global u ≡ synchronize nanosleep now global u
unfolding pause
pause_ten nanosleep now global u h = ground arith

pub pause_other :
    (nanosleep : Kernel) (now : ℕ) (global : ℤ) (u : UserThread)
    → u.num_signals_received ≢ 10
    → pause nanosleep now global u ≡ (global, u)
unfolding pause
pause_other nanosleep now global u h = ground arith

-- A thread's delay after the charge of one signal.
abbrev pub charged : Profiler → CallTrace → ℕ → ℕ → ℕ
charged p trace l d = l + (if hits p.current_experiment trace then d else 0)

pub charged_bounds :
    (p : Profiler) (trace : CallTrace) (l d : ℕ)
    → (l ≤ charged p trace l d) × (charged p trace l d ≤ l + d)
charged_bounds p trace l d = (ground arith, ground arith)

-- The state behind a signal of an experiment, from what `pause` gives.
abbrev pub settled : Profiler → ℕ → ℤ × UserThread → Profiler
settled p t r = record (put p t (live (record r.1 { points_hit = pos 0 }))) {
  global_delay = r.0;
  points_hit = add_points p.points_hit r.1.points_hit;
}

pub experiment_signal_lem :
    (nanosleep : Kernel) (now : ℕ) (p : Profiler) (t : ℕ) (trace : CallTrace) (u : UserThread)
    (d l : ℕ)
    → p.curr_ut t ≡ live u
    → p.current_experiment.delay ≡ pos d
    → u.local_delay ≡ pos l
    → l + d < third
    → experiment_signal nanosleep now p t trace
      ≡ ok (
          settled p t (
            pause nanosleep now p.global_delay (record u {
              local_delay = pos (charged p trace l d);
              num_signals_received = (u.num_signals_received + 1) % 2 ^ 32;
            })))
unfolding experiment_signal
experiment_signal_lem nanosleep now p t trace u d l cell hd hl small =
    rw (cell, experiment_signal, with_ut)
      (ap (λ v. ok (settled p t (pause nanosleep now p.global_delay v)))
        (charge_lem p.current_experiment trace
          (record u { num_signals_received = (u.num_signals_received + 1) % 2 ^ 32 }) d l hd hl
          small))

-- What holds after the tenth signal since the last synchronisation.
pub record Tenth (p q : Profiler) (t : ℕ) (u v : UserThread) (g l : ℕ) : Type 0 where
  pub cells : q.curr_ut ≡ update p.curr_ut t (live v)
  pub global_max : q.global_delay ≡ pos (max g l)
  pub caught_up : q.global_delay ≤ℤ v.local_delay
  pub counter_reset : v.num_signals_received ≡ 0
  pub points_moved : (q.points_hit ≡ add_points p.points_hit u.points_hit) × (v.points_hit ≡ pos 0)

put_cells :
    (p : Profiler) (t : ℕ) (u : UserThread)
    → (put p t (live u)).curr_ut ≡ update p.curr_ut t (live u)
unfolding put
put_cells p t u = refl

settled-Tenth :
    (p : Profiler) (t : ℕ) (u u' : UserThread) (g l : ℕ) (r : ℤ × UserThread)
    → Synchronized g l u' r
    → u'.points_hit ≡ u.points_hit
    → Tenth p (settled p t r) t u (record r.1 { points_hit = pos 0 }) g l
settled-Tenth p t u u' g l r s same = record {
  cells = put_cells p t (record r.1 { points_hit = pos 0 });
  global_max = s.global_max;
  caught_up = s.caught_up;
  counter_reset = s.counter_reset;
  points_moved = (ap (add_points p.points_hit) (s.points_kept ∙ same), refl);
}

-- At its tenth signal in an experiment a thread is charged the experiment's delay if a visited
-- frame is in the experiment's code; then the global delay becomes the larger of the global and the
-- thread's delay, the thread's delay has reached it, the counter of signals is 0, the thread's
-- points are added to the shared counter and are 0, and no other thread's object changes. The
-- kernel keeps to POSIX and its sleeps are bounded, the delays are below 2^61, and the thread is
-- less than a second behind.
pub handle-Tenth :
    (nanosleep : Kernel) (now : ℕ) (p : Profiler) (t : ℕ) (trace : CallTrace) (u : UserThread)
    (g d l : ℕ)
    → IsPosix nanosleep
    → IsBounded nanosleep now
    → (p.prof_ready ≡ true) × (p.in_experiment ≡ true) × (is_unknown_error trace ≡ false)
    → (p.curr_ut t ≡ live u) × (u.num_signals_received ≡ 9) × (u.local_delay ≡ pos l)
    → (p.current_experiment.delay ≡ pos d) × (p.global_delay ≡ pos g)
    → (g < third) × (l + d < third) × (g < l + nanos_per_second)
    → (q : Profiler) × (v : UserThread) × (handle nanosleep now true p t trace ≡ ok q)
      × Tenth p q t u v g (charged p trace l d)
handle-Tenth nanosleep now p t trace u g d l posix bounded (ready, inside, known) (cell, nine, hl)
      (hd, hg) (sg, sl, near) =
    let u' : UserThread = record u {
      local_delay = pos (charged p trace l d);
      num_signals_received = (u.num_signals_received + 1) % 2 ^ 32;
    } in
    let r = synchronize nanosleep now (pos g) u' in
    (
      settled p t r,
      record r.1 { points_hit = pos 0 },
      handle_inside nanosleep now p t trace ready inside known
          ∙ experiment_signal_lem nanosleep now p t trace u d l cell hd hl sl
          ∙ ap (λ x. ok (settled p t x)) (paused u' (omega arith)),
      settled-Tenth p t u u' g (charged p trace l d) r
          (synchronize-Synchronized nanosleep now g (charged p trace l d) u' posix bounded sg
            (omega (arith, charged_bounds p trace l d)) (omega (arith, charged_bounds p trace l d))
            refl)
          refl,
    )
  where
    paused :
        (w : UserThread)
        → w.num_signals_received ≡ 10
        → pause nanosleep now p.global_delay w ≡ synchronize nanosleep now (pos g) w
    paused w ten =
        pause_ten nanosleep now p.global_delay w ten ∙ ap (λ x. synchronize nanosleep now x w) hg

-- The state after a signal that is not the tenth.
abbrev pub after_count : Profiler → ℕ → CallTrace → UserThread → ℕ → ℕ → Profiler
after_count p t trace u d l =
    record (put p t (
      live (record u {
        local_delay = pos (charged p trace l d);
        num_signals_received = u.num_signals_received + 1;
        points_hit = pos 0;
      }))) { points_hit = add_points p.points_hit u.points_hit }

pub handle_counts :
    (nanosleep : Kernel) (now : ℕ) (p : Profiler) (t : ℕ) (trace : CallTrace) (u : UserThread)
    (d l : ℕ)
    → (p.prof_ready ≡ true) × (p.in_experiment ≡ true) × (is_unknown_error trace ≡ false)
    → (p.curr_ut t ≡ live u) × (u.local_delay ≡ pos l)
    → u.num_signals_received < 9
    → p.current_experiment.delay ≡ pos d
    → l + d < third
    → handle nanosleep now true p t trace ≡ ok (after_count p t trace u d l)
unfolding put
handle_counts nanosleep now p t trace u d l (ready, inside, known) (cell, hl) few hd sl =
    let v : UserThread = record u {
      local_delay = pos (charged p trace l d);
      num_signals_received = (u.num_signals_received + 1) % 2 ^ 32;
    } in
    handle_inside nanosleep now p t trace ready inside known
    ∙ experiment_signal_lem nanosleep now p t trace u d l cell hd hl sl
    ∙ ap (λ x. ok (settled p t x))
        (pause_other nanosleep now p.global_delay v (λ e. absurd (omega arith)))
    ∙ ap (λ n. ok (settled p t (p.global_delay, record v { num_signals_received = n })))
        (omega arith)

-- At any of the first nine signals in an experiment a thread is charged the experiment's delay if a
-- visited frame is in the experiment's code, counts the signal, and adds its points to the shared
-- counter; the global delay and the other threads' objects stay as they are. The thread's delays
-- add up to less than 2^61.
pub handle_between :
    (nanosleep : Kernel) (now : ℕ) (p : Profiler) (t : ℕ) (trace : CallTrace) (u : UserThread)
    (d l : ℕ)
    → (p.prof_ready ≡ true) × (p.in_experiment ≡ true) × (is_unknown_error trace ≡ false)
    → (p.curr_ut t ≡ live u) × (u.local_delay ≡ pos l)
    → u.num_signals_received < 9
    → p.current_experiment.delay ≡ pos d
    → l + d < third
    → (q : Profiler) × (handle nanosleep now true p t trace ≡ ok q)
      × (q.curr_ut
          ≡ update p.curr_ut t (
              live (record u {
                local_delay = pos (charged p trace l d);
                num_signals_received = u.num_signals_received + 1;
                points_hit = pos 0;
              })))
      × (q.global_delay ≡ p.global_delay)
      × (q.points_hit ≡ add_points p.points_hit u.points_hit)
handle_between nanosleep now p t trace u d l (ready, inside, known) (cell, hl) few hd sl =
    let v : UserThread = record u {
      local_delay = pos (charged p trace l d);
      num_signals_received = (u.num_signals_received + 1) % 2 ^ 32;
    } in
    (
      settled p t (p.global_delay, v),
      handle_inside nanosleep now p t trace ready inside known
          ∙ experiment_signal_lem nanosleep now p t trace u d l cell hd hl sl
          ∙ ap (λ x. ok (settled p t x))
              (pause_other nanosleep now p.global_delay v (λ e. absurd (omega arith))),
      put_cells p t (record v { points_hit = pos 0 })
          ∙ ap
              (λ n.
                update p.curr_ut t
                  (live (record v { points_hit = pos 0; num_signals_received = n })))
              (omega arith),
      refl,
      refl,
    )
