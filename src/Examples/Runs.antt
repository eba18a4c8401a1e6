-- ===== src/Examples/Runs.antt =====
-- Experiments on concrete states. The thread still holds two points of an earlier experiment when the
-- next one starts: they are counted in the new one.
use mathlib.Core.List.{Memᴰ}
use jcoz.Base.{
  ℕ, ◌+◌, ◌<◌, ◌≡◌, refl, true, false, List, [], ◌∷◌, some, none, arith, if◌then◌else◌, ◌↔◌, ◌==◌,
  replicate, sym, ap, subst, ◌∙◌, Bool-cases, inl, inr,
}
use jcoz.Base.Int.{to_long, ◌+ℤ◌, pos}
use jcoz.Text.{codes}
use jcoz.Frame.{CallFrame, LineEntry, choose_line, line_ranges, in_ranges}
use jcoz.Frame.Lines.{line_at, same_line}
use jcoz.Profiler.{UserThread, Cell, live, Profiler, is_member}
use jcoz.Profiler.Handler.{
  in_experiment_frame, find_frame, charge, pause, experiment_signal, handle,
}
use jcoz.Profiler.Threads.{count_points, clear_points, handle_breakpoint}
use jcoz.Profiler.Points.{
  pending, no_dup, IsNatural, IsOwned, all_points, Events, begin, step, hits, counts, clears,
  all_counted, all_cleared, user, turns, is_signalled,
}
use jcoz.Profiler.Points.Conserved.{Events-all_points}
use jcoz.Agent.{
  begin_experiment, end_experiment, report, unique, sort_frames, prepare, prepare_from, aim,
}
use jcoz.Agent.Candidates.{IsRising, unique-sort_frames}
use jcoz.Agent.Sampled.{LineTable, IsShuffle, IsTabled, prepare-some, prepare-in_experiment}
use jcoz.Agent.Reports.{Accounts, report-Accounts}
use jcoz.Examples.{
  frame, trace, thread, idle, with_thread, running, state_of, agent, exact, only_first, unused,
  experiment,
}

IsNatural-first : (s : ℕ) → IsNatural (only_first (thread 0) s)
IsNatural-first s = elim (Bool-cases (s == 1)) [ inl e ↦ rw e refl | inr e ↦ rw e tt ]

pub with_thread-IsOwned : IsOwned (only_first (thread 0)) (1 ∷ [])
unfolding no_dup is_member
with_thread-IsOwned = record {
  distinct = refl;
  owned = λ s a. ground arith;
  natural = IsNatural-first;
}

abbrev pub after_hit : Profiler
after_hit = state_of (handle_breakpoint (running 0) 1)

abbrev pub object_of : Cell → UserThread
object_of (live u) = u
object_of _ = thread 0

abbrev after_count : Profiler
after_count = count_points after_hit 1 (object_of (after_hit.curr_ut 1))

abbrev after_signal : Profiler
after_signal = state_of (handle exact 0 true after_count 1 trace)

abbrev after_clear : Profiler
after_clear = clear_points after_signal 1 (object_of (after_signal.curr_ut 1))

-- A thread that has hit one more point ends, and a signal comes between the two lines of
-- removeUserThread that count its points and clear them.
interrupted_end : Events (running 0) 1 after_clear
unfolding handle_breakpoint handle experiment_signal count_points pause charge find_frame
    in_experiment_frame in_ranges
interrupted_end =
    step
      (step
        (step (step begin (user (hits 1 (thread 0) refl refl refl)))
          (user (counts 1 (object_of (after_hit.curr_ut 1)) refl refl)))
        (user (is_signalled exact 0 1 true trace refl)))
      (user (clears 1 (object_of (after_signal.curr_ut 1)) refl refl))

-- The thread's three points are counted twice.
counted_twice :
    (all_counted interrupted_end ≡ 3)
    × (all_cleared interrupted_end ≡ 0)
    × (after_clear.points_hit ≡ (running 0).points_hit + 6)
unfolding all_counted all_cleared interrupted_end handle_breakpoint handle experiment_signal
    count_points clear_points pause charge find_frame in_experiment_frame in_ranges to_long ◌+ℤ◌
counted_twice = (refl, refl, refl)

few_points : all_points (running 0) + 1 + all_counted interrupted_end < 9223372036854775808
unfolding pending all_counted interrupted_end handle_breakpoint to_long ◌+ℤ◌
few_points = omega arith

Events-all_points_example :
    all_points after_clear + all_cleared interrupted_end
    ≡ all_points (running 0) + 1 + all_counted interrupted_end
Events-all_points_example = Events-all_points with_thread-IsOwned interrupted_end few_points

abbrev later_hit : Profiler
later_hit = state_of (handle_breakpoint (begin_experiment 0 (with_thread 0)) 1)

one_hit : Events (begin_experiment 0 (with_thread 0)) 1 (end_experiment later_hit)
unfolding handle_breakpoint begin_experiment end_experiment
one_hit = step (step begin (user (hits 1 (thread 0) refl refl refl))) (turns false)

few_held : pending (only_first (thread 0)) (1 ∷ []) + 1 + all_counted one_hit < 9223372036854775808
unfolding pending all_counted one_hit
few_held = omega arith

report-Accounts_example :
    Accounts agent
      (report (some (codes "LMain;")) 0 9000 (record agent { shared = end_experiment later_hit }))
      (with_thread 0)
      1
      (all_counted one_hit)
      (all_cleared one_hit)
      (end_experiment later_hit)
report-Accounts_example =
    report-Accounts 0 0 9000 1 (codes "LMain;") (with_thread 0) (end_experiment later_hit) agent
      with_thread-IsOwned one_hit few_held refl

abbrev pub sampled : Profiler
sampled = record idle { static_call_frames = frame ∷ replicate 199 unused; call_index = 1 }

abbrev lines : List LineEntry
lines =
    record { start_location = pos 0; line_number = pos 12 }
    ∷ record { start_location = pos 5; line_number = pos 13 }
    ∷ []

abbrev pub line_table : LineTable
line_table m = if m == 7 then some lines else none

kept : IsShuffle (λ fs. fs)
kept fs f = (λ m. m, λ m. m)

prepare-some_example : (q : Profiler) × (prepare (λ fs. fs) line_table sampled ≡ (q, true))
prepare-some_example =
    prepare-some (λ fs. fs) line_table sampled frame lines kept (Memᴰ.head refl) refl

some-lines : (entries : List LineEntry) → some lines ≡ some entries → lines ≡ entries
some-lines entries h = cc

lines-IsTabled : IsTabled (pos 3) lines
lines-IsTabled = ((omega arith, tt), omega arith, omega arith)

tabled :
    (f : CallFrame) (entries : List LineEntry)
    → Memᴰ f (frame ∷ [])
    → line_table f.method_id ≡ some entries
    → IsTabled f.lineno entries
tabled f entries (Memᴰ.head e) h =
    let same = some-lines entries (ap (λ (x : CallFrame). line_table x.method_id) (sym e) ∙ h) in
    subst (λ (x : CallFrame). IsTabled x.lineno entries) (sym e)
      (subst (IsTabled (pos 3)) same lines-IsTabled)
tabled f entries (Memᴰ.tail m) h = elim m [ ]

-- The state that is prepared.
abbrev aimed : Profiler
aimed = record sampled { call_index = 0; current_experiment = aim experiment frame lines }

prepared : prepare (λ fs. fs) line_table sampled ≡ (aimed, true)
unfolding prepare prepare_from
prepared = refl

prepare-in_experiment_example :
    (f : CallFrame) × Memᴰ f (frame ∷ []) × (in_experiment_frame aimed.current_experiment f ≡ true)
prepare-in_experiment_example =
    prepare-in_experiment (λ fs. fs) line_table sampled aimed kept tabled prepared

unique-sort_frames_example :
    IsRising (unique (sort_frames (frame ∷ unused ∷ frame ∷ [])))
    × ((f : CallFrame)
        → Memᴰ f (unique (sort_frames (frame ∷ unused ∷ frame ∷ [])))
          ↔ Memᴰ f (frame ∷ unused ∷ frame ∷ []))
unique-sort_frames_example = unique-sort_frames (frame ∷ unused ∷ frame ∷ [])

same_line_example :
    (line_at (pos 3) lines ≡ some (pos 12))
    × ((in_ranges (line_ranges (pos 12) lines) (pos 4) ≡ true)
        ↔ (line_at (pos 4) lines ≡ line_at (pos 3) lines))
unfolding choose_line
same_line_example =
    same_line (pos 3) (pos 1) (record { start_location = pos 0; line_number = pos 12 })
      (record { start_location = pos 5; line_number = pos 13 } ∷ []) (pos 4) (omega arith, tt)
      (omega arith) (omega arith)
