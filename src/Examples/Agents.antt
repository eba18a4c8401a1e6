-- ===== src/Examples/Agents.antt =====
-- A run of the agent's thread on concrete states: an experiment in which the user thread hits the
-- progress point once, its end, and its report.
use jcoz.Base.{◌+◌, ◌<◌, ◌≤◌, refl, some, none, arith}
use jcoz.Text.{codes}
use jcoz.Profiler.Threads.{handle_breakpoint}
use jcoz.Profiler.Points.{pending, UserEvent, hits, all_points}
use jcoz.Agent.System.{
  experimenting, System, Given, with_shared, agent_step, Run, begin, more, agent_moves, user_moves,
}
use jcoz.Agent.Kept.{reported, run_counted, run_cleared, reported-bound}
use jcoz.Agent.Phases.{Agrees, Run-Agrees}
use jcoz.Examples.{running, thread, agent}
use jcoz.Examples.Runs.{with_thread-IsOwned, after_hit}

-- The clock stands behind the experiment's end.
abbrev pub given : Given
given = record {
  self = 9;
  rand = 7;
  now = 6000000000;
  random_shuffle = λ fs. fs;
  line_table = λ m. none;
  declaring_class = λ m. some 70;
  class_signature = λ c. some (codes "LMain;");
}

abbrev experiments : System
experiments = record {
  agent = record agent { shared = running 0 };
  phase = experimenting 0 5000000000;
}

abbrev hit_once : System
hit_once = record experiments { agent = with_shared experiments.agent after_hit }

abbrev pub later : System → System
later s = agent_step given s

hits_once : UserEvent (running 0) 1 after_hit
unfolding handle_breakpoint
hits_once = hits 1 (thread 0) refl refl refl

one_step : (s : System) → Run s 0 (later s)
one_step s = more begin (agent_moves given)

experiment_run : Run experiments 1 (later (later (later hit_once)))
experiment_run =
    more (more (more (more begin (user_moves hits_once)) (agent_moves given)) (agent_moves given))
      (agent_moves given)

few : all_points (running 0) + 1 + run_counted experiment_run < 9223372036854775808
unfolding pending run_counted experiment_run hits_once
few = omega arith

reported-bound_example :
    let last = later (later (later hit_once)) in
    reported last.agent.output + all_points last.agent.shared + run_cleared experiment_run
    ≤ all_points (running 0) + 1 + run_counted experiment_run
reported-bound_example = reported-bound with_thread-IsOwned refl experiment_run few

Run-Agrees_example : let last = later (later (later hit_once)) in Agrees last.agent last.phase
Run-Agrees_example =
    Run-Agrees experiment_run (record { experiment = refl; ready = refl; ended = λ e. absurd cc })
