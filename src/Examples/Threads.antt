-- ===== src/Examples/Threads.antt =====
-- A signal, and what the agent's thread does with the frame, on concrete states.
use jcoz.Base.{ℕ, ◌+◌, ◌<◌, ◌≡◌, refl, true, false, arith, ok, is_ok, ◌≢◌, ap, Option, some, none}
use jcoz.Profiler.{Profiler, is_member}
use jcoz.Profiler.Handler.{handle, sample, find_frame, frame_in_scope, record_frame}
use jcoz.Profiler.Threads.{handle_breakpoint, remove_user_thread}
use jcoz.Profiler.Objects.{IsSafe}
use jcoz.Profiler.Points.{UserEvent, is_signalled}
use jcoz.Agent.{prepare}
use jcoz.Agent.System.{
  sampling, starting, System, Given, with_shared, Run, begin, more, agent_moves, user_moves,
  agent_step,
}
use jcoz.Agent.Safe.{most_signals, since_copy, Run-IsSafe}
use jcoz.Agent.Ranges.{Memory, no_memory, ranges_of_run, skipped, in_use, ranges_balance}
use jcoz.Profiler.LockOrder.{
  in_scope, frame_buffer, wants, absent, Thread, Locks, move, advance, interrupted, begins,
  interrupts, advances, Steps, here, next,
}
use jcoz.Profiler.LockOrder.Kept.{at_rest, IsQuiet}
use jcoz.Profiler.LockOrder.Holders.{SomeMoves}
use jcoz.Profiler.LockOrder.Progress.{no_deadlock, locks-Exclusion}
use jcoz.Examples.{exact, trace, with_thread, state_of, agent}
use jcoz.Examples.Agents.{given, later}
use jcoz.Examples.Runs.{sampled, line_table}

abbrev samples_first : System
samples_first = record { agent = record agent { shared = with_thread 0 }; phase = sampling }

abbrev sampled_once : Profiler
sampled_once = state_of (handle exact 0 true (with_thread 0) 1 trace)

abbrev then_copied : System
then_copied = later (record samples_first { agent = with_shared samples_first.agent sampled_once })

signalled_once : UserEvent (with_thread 0) 0 sampled_once
unfolding handle sample find_frame frame_in_scope is_member record_frame
signalled_once = is_signalled exact 0 1 true trace refl

copies : Run samples_first 0 then_copied
copies = more (more begin (user_moves signalled_once)) (agent_moves given)

one_signal : most_signals copies < 2147483648
unfolding most_signals since_copy copies signalled_once
one_signal = omega arith

holds_first : IsSafe (with_thread 0)
unfolding is_member
holds_first s m = ground arith

Run-IsSafe_example :
    let p = then_copied.agent.shared in
    (is_ok (handle exact 5 true p 1 trace) ≡ true)
    × (is_ok (handle_breakpoint p 1) ≡ true)
    × (is_ok (remove_user_thread p 1) ≡ true)
unfolding agent_step prepare handle sample find_frame frame_in_scope is_member record_frame
Run-IsSafe_example = Run-IsSafe exact 5 1 true trace copies holds_first refl refl one_signal refl

abbrev unlocked : Locks
unlocked = record {
  in_scope_lock = 0;
  frame_lock = 0;
  user_threads_lock = 0;
  threads = λ t. at_rest;
}

unlocked-IsQuiet : IsQuiet unlocked
unlocked-IsQuiet = record {
  scope_free = refl;
  frames_free = refl;
  users_free = refl;
  resting = λ t. refl;
}

valid_1 : ◌≢◌ {A = ℕ} 1 0
valid_1 e = absurd (omega (arith, e))

valid_9 : ◌≢◌ {A = ℕ} 9 0
valid_9 e = absurd (omega (arith, e))

no_agent : ◌≢◌ {A = ℕ} 1 9
no_agent e = absurd (omega (arith, e))

abbrev state_or : Locks → Option Locks → Locks
state_or l none = l
state_or l (some k) = k

-- Thread 1 adds a method, and its handler has a frame, while the agent's thread 9 copies the buffer.
abbrev interrupted_1 : Locks
interrupted_1 =
    interrupted (state_or unlocked (advance (move unlocked 1 (wants in_scope) absent) 1 true)) 1

abbrev found_1 : Locks
found_1 = state_or unlocked (advance interrupted_1 1 true)

abbrev both : Locks
both = state_or unlocked (advance (move found_1 9 (wants frame_buffer) absent) 9 true)

to_both : Steps 9 unlocked both
unfolding advance interrupted
to_both =
    next
      (next
        (next
          (next
            (next (next here (begins 1 in_scope valid_1 refl (λ e. absurd cc)))
              (advances 1 true refl))
            (interrupts 1 valid_1 no_agent refl))
          (advances 1 true refl))
        (begins 9 frame_buffer valid_9 refl (λ e. refl)))
      (advances 9 true refl)

busy_1 : both.threads 1 ≢ at_rest
unfolding advance interrupted
busy_1 e = absurd (cc (ap (λ (m : Thread). m.handler) e))

no_deadlock_example : SomeMoves both true 1
no_deadlock_example = no_deadlock true 1 unlocked-IsQuiet to_both busy_1

locks-Exclusion_example : ◌≡◌ {A = ℕ} 1 1
unfolding advance interrupted
locks-Exclusion_example = locks-Exclusion in_scope 1 1 unlocked-IsQuiet to_both refl refl

-- The agent's thread from its start to the end of an experiment whose class has no signature.
abbrev tables_given : Given
tables_given = record given { now = 0; line_table = line_table }

abbrev no_signature : Given
no_signature = record given { class_signature = λ c. none }

abbrev at_start : System
at_start = record {
  agent = record agent { shared = record sampled { prof_ready = false } };
  phase = starting;
}

abbrev first : System → System
first s = agent_step tables_given s

abbrev last : System → System
last s = agent_step no_signature s

first_step : {s t : System} → Run s 0 t → Run s 0 (first t)
first_step r = more r (agent_moves tables_given)

last_step : {s t : System} → Run s 0 t → Run s 0 (last t)
last_step r = more r (agent_moves no_signature)

whole_experiment : Run at_start 0 (last (last (last (first (first (first (first at_start)))))))
whole_experiment =
    last_step (last_step (last_step (first_step (first_step (first_step (first_step begin))))))

ranges_balance_example :
    (m : Memory) × (ranges_of_run whole_experiment no_memory ≡ ok m)
    × (m.made
        ≡ m.given_back
          + skipped whole_experiment
          + in_use (last (last (last (first (first (first (first at_start))))))).phase)
ranges_balance_example = ranges_balance whole_experiment refl
