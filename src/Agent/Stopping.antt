-- ===== src/Agent/Stopping.antt =====
-- What becomes of the agent's thread once the profiler is stopped.
use jcoz.Base.{
  if-both, ℕ, suc, ◌-◌, ◌≤◌, ◌≡◌, refl, ◌∙◌, Bool, true, false, not, Option, none, some, arith,
}
use jcoz.Text.{Bytes}
use jcoz.Profiler.{Profiler}
use jcoz.Agent.{leave_scope, Agent, prepare, keeps_going, report, report_class, stop}
use jcoz.Agent.System.{
  Phase, starting, warming, looping, sampling, experimenting, closing, settling, done, System,
  Given, class_sig, prepared, step_from, agent_step, profile_done, Move, agent_moves, user_moves,
  stops, leaves, Run, begin, more,
}

-- How many steps are left at most, once the profiler does not run.
abbrev rank : Phase → ℕ
rank starting = 8
rank warming = 7
rank sampling = 6
rank (experimenting start end_time) = 5
rank (closing start) = 4
rank (settling start) = 3
rank looping = 1
rank done = 0

rank-prepared : (i : Given) (a : Agent) (r : Profiler × Bool) → rank (prepared i a r).phase ≤ 5
rank-prepared i a (p, true) = omega arith
rank-prepared i a (p, false) = omega arith

-- A step of the agent's thread, where the profiler does not run, is one of the last.
rank-step_from :
    (i : Given) (a : Agent) (phase : Phase)
    → a.running ≡ false
    → rank (step_from i a phase).phase ≤ rank phase - 1
unfolding keeps_going
rank-step_from i a starting h = omega arith
rank-step_from i a warming h = omega arith
rank-step_from i a looping h = rw h (omega arith)
rank-step_from i a sampling h = rank-prepared i a (prepare i.random_shuffle i.line_table a.shared)
rank-step_from i a (experimenting start end_time) h = rw h (omega arith)
rank-step_from i a (closing start) h = omega arith
rank-step_from i a (settling start) h = omega arith
rank-step_from i a done h = omega arith

report_class_running : (a : Agent) (sig : Option Bytes) → (report_class a sig).running ≡ a.running
report_class_running a none = refl
report_class_running a (some sig) = refl

report_running :
    (i : Given) (start : ℕ) (a : Agent) → (report (class_sig i a) start i.now a).running ≡ a.running
unfolding report
report_running i start a =
    if-both (λ (x : Agent). x.running ≡ a.running) (not a.running) _ _ refl
      (report_class_running _ (class_sig i a))

prepared_running :
    (i : Given) (a : Agent) (r : Profiler × Bool) → (prepared i a r).agent.running ≡ a.running
prepared_running i a (p, true) = refl
prepared_running i a (p, false) = refl

step_from_running :
    (i : Given) (a : Agent) (phase : Phase) → (step_from i a phase).agent.running ≡ a.running
step_from_running i a starting = refl
step_from_running i a warming = refl
step_from_running i a looping = refl
step_from_running i a sampling =
    prepared_running i a (prepare i.random_shuffle i.line_table a.shared)
step_from_running i a (experimenting start end_time) = ground arith
step_from_running i a (closing start) = refl
step_from_running i a (settling start) = report_running i start a
step_from_running i a done = refl

pub stop_running : (a : Agent) → (stop a).running ≡ false
unfolding stop
stop_running a = ground arith

Move-running :
    {s t : System} {k : ℕ} → Move s k t → s.agent.running ≡ false → t.agent.running ≡ false
unfolding agent_step leave_scope
Move-running {s} (agent_moves i) h = step_from_running i s.agent s.phase ∙ h
Move-running {s} (user_moves e) h = h
Move-running {s} stops h = stop_running s.agent
Move-running {s} (leaves e) h = e

-- The steps of the agent's thread in a run.
unfoldable pub agent_steps : {s t : System} {n : ℕ} → Run s n t → ℕ
agent_steps begin = 0
agent_steps (more r (agent_moves i)) = suc (agent_steps r)
agent_steps (more r (user_moves e)) = agent_steps r
agent_steps (more r stops) = agent_steps r
agent_steps (more r (leaves e)) = agent_steps r

rank_bound : (phase : Phase) → rank phase ≤ 8
rank_bound done = omega arith
rank_bound starting = omega arith
rank_bound warming = omega arith
rank_bound sampling = omega arith
rank_bound (experimenting start end_time) = omega arith
rank_bound (closing start) = omega arith
rank_bound (settling start) = omega arith
rank_bound looping = omega arith

run_rank :
    {s t : System} {n : ℕ} (r : Run s n t)
    → s.agent.running ≡ false
    → (rank t.phase ≤ 8 - agent_steps r) × (t.agent.running ≡ false)
unfolding agent_steps agent_step leave_scope
run_rank {s} begin h = (omega (arith, rank_bound s.phase), h)
run_rank (more {t = t} r (agent_moves i)) h =
    let (ranked, stopped) = run_rank r h in
    (
      omega (arith, ranked, rank-step_from i t.agent t.phase stopped),
      step_from_running i t.agent t.phase ∙ stopped,
    )
run_rank (more {t = t} r (user_moves e)) h = run_rank r h
run_rank (more {t = t} r stops) h =
    let (ranked, stopped) = run_rank r h in (ranked, stop_running t.agent)
run_rank (more {t = t} r (leaves e)) h = let (ranked, stopped) = run_rank r h in (ranked, e)

done_of_rank : (phase : Phase) → rank phase ≤ 0 → profile_done phase ≡ true
done_of_rank done h = refl
done_of_rank starting h = absurd (omega arith)
done_of_rank warming h = absurd (omega arith)
done_of_rank sampling h = absurd (omega arith)
done_of_rank (experimenting start end_time) h = absurd (omega arith)
done_of_rank (closing start) h = absurd (omega arith)
done_of_rank (settling start) h = absurd (omega arith)
done_of_rank looping h = absurd (omega arith)

-- After Stop, a run in which the agent's thread makes at least eight steps has reached profile_done,
-- from any phase and among any events of the user threads and further calls of Stop.
pub stop_done :
    {t : System} {n : ℕ} (s : System) (r : Run (record s { agent = stop s.agent }) n t)
    → 8 ≤ agent_steps r
    → profile_done t.phase ≡ true
stop_done {t} s r h = done_of_rank t.phase (omega (arith, (run_rank r (stop_running s.agent)).0))
