-- ===== src/Agent/Reports.antt =====
-- What an experiment's line in the output file accounts for.
use jcoz.Base.{ℕ, ◌+◌, ◌^◌, ◌<◌, ◌≡◌, refl, ◌∙◌, true, [], ◌∷◌, ◌++◌, some, arith}
use jcoz.Base.Int.{pos, to_long, to_long_id, ◌-ℤ◌}
use jcoz.Text.{Bytes}
use jcoz.Profiler.{Profiler}
use jcoz.Profiler.Points.{pending, IsOwned, all_points, Events, all_counted, all_cleared}
use jcoz.Profiler.Points.Conserved.{Events-all_points}
use jcoz.Agent.{Agent, Report, begin_experiment, report}

-- What a report accounts for: its points, and those that the threads hold before and after.
pub record Accounts (a b : Agent) (before : Profiler) (hits counted cleared : ℕ) (after : Profiler)
    : Type 0 where
  pub written : Report
  pub appended : b.output ≡ a.output ++ written ∷ []
  pub points : ℕ
  pub reported : written.points_hit ≡ pos points
  pub accounted :
      points + pending after.curr_ut after.user_threads + cleared
      ≡ pending before.curr_ut before.user_threads + hits + counted
  pub effective : written.effective_duration ≡ to_long (written.duration -ℤ after.global_delay)
  pub points_restart : b.shared.points_hit ≡ 0
  pub delay_restart : b.shared.global_delay ≡ pos 0

all_points-begin :
    (rand : ℕ) (p : Profiler)
    → all_points (begin_experiment rand p) ≡ pending p.curr_ut p.user_threads
unfolding begin_experiment
all_points-begin rand p = omega arith

-- For a whole experiment, begun in any state of the threads' objects, over any events up to its
-- report for a class with a signature, while the agent is running: one line is appended, whose
-- points, with those that the threads' objects then hold and those that removeUserThread took from
-- objects, add up to the points that they held before the experiment, those hit during it, and
-- those that removeUserThread added to the counter; its effective duration is its duration less the
-- global delay, as a long; and both counters start again at 0. At the start the set has each thread
-- once and every thread with an object, and no count is negative; the points, with those that
-- removeUserThread adds, are below 2^63.
pub report-Accounts :
    (rand start exp_end k : ℕ) (sig : Bytes) (p q : Profiler) (a : Agent)
    → IsOwned p.curr_ut p.user_threads
    → (r : Events (begin_experiment rand p) k q)
    → pending p.curr_ut p.user_threads + k + all_counted r < 2 ^ 63
    → a.running ≡ true
    → Accounts a
        (report (some sig) start exp_end (record a { shared = q }))
        p
        k
        (all_counted r)
        (all_cleared r)
        q
unfolding report begin_experiment
report-Accounts rand start exp_end k sig p q a owned r small runs =
    let all : all_points q + all_cleared r ≡ pending p.curr_ut p.user_threads + k + all_counted r =
      Events-all_points owned r (omega arith) ∙ omega arith in
    rw runs (record {
      written = _;
      appended = refl;
      points = q.points_hit;
      reported = to_long_id (pos q.points_hit) (omega (arith, all));
      accounted = all;
      effective = refl;
      points_restart = refl;
      delay_restart = refl;
    })
