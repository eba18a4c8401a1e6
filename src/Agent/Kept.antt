-- ===== src/Agent/Kept.antt =====
-- The progress points over a whole run: what the report lines of the output file hold, and what is
-- counted or held beside them.
use jcoz.Base.{
  if-both, ℕ, ◌+◌, ◌^◌, ◌<◌, ◌≤◌, ◌≡◌, refl, ap, Bool, true, false, not, List, [], ◌∷◌, ◌++◌,
  Option, none, some, arith,
}
use jcoz.Base.Int.{pos, pos_part, to_long_id}
use jcoz.Text.{Bytes}
use jcoz.Profiler.{Profiler}
use jcoz.Profiler.Points.{IsOwned, all_points, counted_by, cleared_by}
use jcoz.Profiler.Points.Owned.{limit}
use jcoz.Profiler.Points.Conserved.{user_Moves}
use jcoz.Agent.{
  Agent, Report, begin_experiment, keeps_going, report, report_class, stop, leave_scope,
  clear_frames, end_experiment,
}
use jcoz.Agent.Gone.{start-Leaves}
use jcoz.Agent.Untouched.{Same, prepare-Same}
use jcoz.Agent.System.{
  Phase, starting, warming, looping, sampling, experimenting, closing, settling, done, System,
  Given, class_sig, with_shared, prepared, step_from, agent_step, Move, agent_moves, user_moves,
  stops, leaves, stop_worth, Run, begin, more,
}

-- The points of the lines that are written.
unfoldable pub reported : List Report → ℕ
reported [] = 0
reported (r ∷ rs) = pos_part r.points_hit + reported rs

reported-++ : (rs qs : List Report) → reported (rs ++ qs) ≡ reported rs + reported qs
unfolding reported
reported-++ [] qs = omega arith
reported-++ (r ∷ rs) qs = omega (arith, reported-++ rs qs)

-- The points that are written, counted or held are at most `n`.
record Keeps (a : Agent) (n : ℕ) : Type 0 where
  pub is_owned : IsOwned a.shared.curr_ut a.shared.user_threads
  pub bound : reported a.output + all_points a.shared ≤ n

Same-Keeps :
    (a : Agent) (q : Profiler) (n : ℕ) → Same a.shared q → Keeps a n → Keeps (with_shared a q) n
Same-Keeps a q n s k = record {
  is_owned = rw (s.cells, s.threads) k.is_owned;
  bound = rw (s.cells, s.threads) (omega (arith, k.bound, s.points));
}

prepared-Keeps :
    (i : Given) (a : Agent) (n : ℕ) (r : Profiler × Bool)
    → Same a.shared r.0
    → Keeps a n
    → Keeps (prepared i a r).agent n
unfolding begin_experiment
prepared-Keeps i a n (p, false) s k = Same-Keeps a p n s k
prepared-Keeps i a n (p, true) s k =
    Same-Keeps a (begin_experiment i.rand p) n
      (record { cells = s.cells; threads = s.threads; points = omega arith }) k

sampling-Keeps :
    (i : Given) (a : Agent) (n : ℕ) → Keeps a n → Keeps (step_from i a sampling).agent n
sampling-Keeps i a n k =
    prepared-Keeps i a n _ (prepare-Same i.random_shuffle i.line_table a.shared) k

-- The line that is appended, if any, holds what the experiment counted.
report_class-Keeps :
    (a : Agent) (sig : Option Bytes) (m n : ℕ)
    → a.shared.current_experiment.points_hit ≡ pos m
    → IsOwned a.shared.curr_ut a.shared.user_threads
    → m + reported a.output + all_points a.shared ≤ n
    → Keeps (report_class a sig) n
unfolding reported
report_class-Keeps a none m n e o h = record { is_owned = o; bound = omega (arith, h) }
report_class-Keeps a (some sig) m n e o h = record {
  is_owned = o;
  bound = omega (arith, h, reported-++ a.output _, ap pos_part e);
}

report-Keeps :
    (i : Given) (start : ℕ) (a : Agent) (n : ℕ)
    → n < limit
    → Keeps a n
    → Keeps (report (class_sig i a) start i.now a) n
unfolding report
report-Keeps i start a n small k =
    if-both (λ x. Keeps x n) (not a.running) a _ k
      (report_class-Keeps _ (class_sig i a) a.shared.points_hit n
        (to_long_id (pos a.shared.points_hit) (omega (arith, k.bound))) k.is_owned
        (omega (arith, k.bound)))

step_from-Keeps :
    (i : Given) (a : Agent) (phase : Phase) (n : ℕ)
    → n < limit
    → Keeps a n
    → Keeps (step_from i a phase).agent n
unfolding end_experiment clear_frames
step_from-Keeps i a starting n small k =
    let l = start-Leaves i.self a.shared k.is_owned in
    record { is_owned = l.is_owned; bound = omega (arith, k.bound, l.points) }
step_from-Keeps i a warming n small k = record { is_owned = k.is_owned; bound = k.bound }
step_from-Keeps i a looping n small k = k
step_from-Keeps i a sampling n small k = sampling-Keeps i a n k
step_from-Keeps i a (experimenting start end_time) n small k =
    if-both (λ (s : System). Keeps s.agent n) (keeps_going a i.now end_time) _ _ k k
step_from-Keeps i a (closing start) n small k = record { is_owned = k.is_owned; bound = k.bound }
step_from-Keeps i a (settling start) n small k =
    let r = report-Keeps i start a n small k in record { is_owned = r.is_owned; bound = r.bound }
step_from-Keeps i a done n small k = k

-- What Stop changes.
record Stops (a b : Agent) : Type 0 where
  pub cells : b.shared.curr_ut ≡ a.shared.curr_ut
  pub threads : b.shared.user_threads ≡ a.shared.user_threads
  pub output : b.output ≡ a.output
  pub points : b.shared.points_hit ≤ a.shared.points_hit + stop_worth a

stop-Stops : (a : Agent) → Stops a (stop a)
unfolding stop
stop-Stops a = record {
  cells = ground arith;
  threads = ground arith;
  output = ground arith;
  points = ground arith;
}

stop-Keeps : (a : Agent) (n : ℕ) → Keeps a n → Keeps (stop a) (n + stop_worth a)
stop-Keeps a n k =
    let s = stop-Stops a in
    record {
      is_owned = rw (s.cells, s.threads) k.is_owned;
      bound = rw (s.cells, s.threads, s.output) (omega (arith, k.bound, s.points));
    }

-- The points that removeUserThread adds to the shared counter, and those that it takes from objects.
abbrev pub counted_in : {s t : System} {k : ℕ} → Move s k t → ℕ
counted_in (user_moves e) = counted_by e
counted_in _ = 0

abbrev pub cleared_in : {s t : System} {k : ℕ} → Move s k t → ℕ
cleared_in (user_moves e) = cleared_by e
cleared_in _ = 0

unfoldable pub run_counted : {s t : System} {k : ℕ} → Run s k t → ℕ
run_counted begin = 0
run_counted (more r m) = run_counted r + counted_in m

unfoldable pub run_cleared : {s t : System} {k : ℕ} → Run s k t → ℕ
run_cleared begin = 0
run_cleared (more r m) = run_cleared r + cleared_in m

-- The same after some points were given up.
record KeepsLess (a : Agent) (given_up n : ℕ) : Type 0 where
  pub is_owned : IsOwned a.shared.curr_ut a.shared.user_threads
  pub bound : reported a.output + all_points a.shared + given_up ≤ n

no_less : (a : Agent) (n m : ℕ) → n ≤ m → Keeps a n → KeepsLess a 0 m
no_less a n m h k = record { is_owned = k.is_owned; bound = omega (arith, h, k.bound) }

Move-Keeps :
    {s t : System} {m : ℕ} (n : ℕ) (e : Move s m t)
    → n + (m + counted_in e) < limit
    → Keeps s.agent n
    → KeepsLess t.agent (cleared_in e) (n + (m + counted_in e))
unfolding agent_step leave_scope
Move-Keeps {s} n (agent_moves i) small k =
    no_less _ n _ (omega arith) (step_from-Keeps i s.agent s.phase n (omega arith) k)
Move-Keeps {s} n (user_moves {k = m} {q = q} e) small k =
    let c =
      user_Moves (all_points s.agent.shared) e (omega (arith, k.bound))
        (record { is_owned = k.is_owned; all = refl }) in
    record { is_owned = c.is_owned; bound = omega (arith, k.bound, c.all) }
Move-Keeps {s} n stops small k =
    no_less _ (n + stop_worth s.agent) _ (omega arith) (stop-Keeps s.agent n k)
Move-Keeps {s} n (leaves e) small k = record {
  is_owned = k.is_owned;
  bound = omega (arith, k.bound);
}

Run-Keeps :
    {s t : System} {m : ℕ} (n : ℕ) (r : Run s m t)
    → n + (m + run_counted r) < limit
    → Keeps s.agent n
    → KeepsLess t.agent (run_cleared r) (n + (m + run_counted r))
unfolding run_counted run_cleared
Run-Keeps n begin small k = no_less _ n _ (omega arith) k
Run-Keeps n (more {t = t} r e) small k =
    let before = Run-Keeps n r (omega arith) k in
    let after =
      Move-Keeps (reported t.agent.output + all_points t.agent.shared) e
        (omega (arith, before.bound))
        (record { is_owned = before.is_owned; bound = omega arith }) in
    record { is_owned = after.is_owned; bound = omega (arith, before.bound, after.bound) }

-- In any run of the agent's thread among the user threads' events and calls of Stop, from any phase
-- with an empty output: the points of all lines that are written, with the points that are counted
-- or held at the end and those that removeUserThread took from objects, are at most those counted
-- or held at the start, those hit during experiments, and those that removeUserThread added to the
-- counter, where Stop counts one in end-to-end mode while the profiler is running. At the start the
-- set has each thread once and every thread with an object, and no count is negative; the points,
-- with those that removeUserThread adds, are below 2^63.
pub reported-bound :
    {s t : System} {hits : ℕ}
    → IsOwned s.agent.shared.curr_ut s.agent.shared.user_threads
    → s.agent.output ≡ []
    → (r : Run s hits t) → all_points s.agent.shared + hits + run_counted r < 2 ^ 63
    → reported t.agent.output + all_points t.agent.shared + run_cleared r
      ≤ all_points s.agent.shared + hits + run_counted r
unfolding reported
reported-bound {s} owned empty r small =
    let k =
      Run-Keeps (all_points s.agent.shared) r (omega arith)
        (record { is_owned = owned; bound = omega (arith, ap reported empty) }) in
    omega (arith, k.bound)
