-- ===== src/Agent/Phases.antt =====
-- What the flags say of where the agent's thread stands.
use jcoz.Base.{
  if-both, ℕ, ◌≡◌, refl, ◌∙◌, Bool, true, false, not, Option, none, some, if◌then◌else◌, arith,
}
use jcoz.Text.{Bytes}
use jcoz.Profiler.{Profiler, put}
use jcoz.Agent.{
  leave_scope, Agent, begin_experiment, keeps_going, report, report_class, stop, clear_frames,
  end_experiment,
}
use jcoz.Agent.Untouched.{Flags, user-Flags, prepare-Flags}
use jcoz.Agent.System.{
  Phase, starting, warming, looping, sampling, experimenting, closing, settling, done, System,
  Given, class_sig, agent_start, prepared, step_from, agent_step, profile_done, Move, agent_moves,
  user_moves, stops, leaves, Run, begin, more,
}
use jcoz.Agent.Stopping.{stop_running}

abbrev pub in_experiment_phase : Phase → Bool
in_experiment_phase (experimenting start end_time) = true
in_experiment_phase (closing start) = true
in_experiment_phase _ = false

abbrev pub ready_phase : Phase → Bool
ready_phase starting = false
ready_phase warming = false
ready_phase _ = true

-- The flags that the user threads read are as the phase says, and the agent has not ended while it
-- is to run.
pub record Agrees (a : Agent) (phase : Phase) : Type 0 where
  pub experiment : a.shared.in_experiment ≡ in_experiment_phase phase
  pub ready : a.shared.prof_ready ≡ ready_phase phase
  pub ended : profile_done phase ≡ true → a.running ≡ false

prepared-Agrees :
    (i : Given) (a : Agent) (r : Profiler × Bool)
    → Flags a.shared r.0
    → Agrees a sampling
    → Agrees (prepared i a r).agent (prepared i a r).phase
unfolding begin_experiment
prepared-Agrees i a (p, true) f h = record {
  experiment = refl;
  ready = f.ready ∙ h.ready;
  ended = λ e. absurd cc;
}
prepared-Agrees i a (p, false) f h = record {
  experiment = f.experiment ∙ h.experiment;
  ready = f.ready ∙ h.ready;
  ended = λ e. absurd cc;
}

report_class-Flags : (a : Agent) (sig : Option Bytes) → Flags a.shared (report_class a sig).shared
report_class-Flags a none = record { experiment = refl; ready = refl }
report_class-Flags a (some sig) = record { experiment = refl; ready = refl }

report-Flags :
    (i : Given) (start : ℕ) (a : Agent)
    → Flags a.shared (report (class_sig i a) start i.now a).shared
unfolding report
report-Flags i start a =
    let f = report_class-Flags _ (class_sig i a) in
    if-both (λ (x : Agent). Flags a.shared x.shared) (not a.running) a _
      (record { experiment = refl; ready = refl })
      (record { experiment = f.experiment; ready = f.ready })

loop-Agrees :
    (b : Bool) (a : Agent)
    → a.running ≡ b
    → Agrees a looping
    → Agrees a (if b then sampling else done)
loop-Agrees true a e h = record {
  experiment = h.experiment;
  ready = h.ready;
  ended = λ e. absurd cc;
}
loop-Agrees false a e h = record { experiment = h.experiment; ready = h.ready; ended = λ _. e }

start-Flags : (self : ℕ) (p : Profiler) → Flags p (agent_start self p)
unfolding agent_start put
start-Flags self p = record { experiment = refl; ready = refl }

step_from-Agrees :
    (i : Given) (a : Agent) (phase : Phase)
    → Agrees a phase
    → Agrees (step_from i a phase).agent (step_from i a phase).phase
unfolding end_experiment clear_frames
step_from-Agrees i a starting h =
    let f = start-Flags i.self a.shared in
    record {
      experiment = f.experiment ∙ h.experiment;
      ready = f.ready ∙ h.ready;
      ended = λ e. absurd cc;
    }
step_from-Agrees i a warming h = record {
  experiment = h.experiment;
  ready = refl;
  ended = λ e. absurd cc;
}
step_from-Agrees i a looping h = loop-Agrees a.running a refl h
step_from-Agrees i a sampling h =
    prepared-Agrees i a _ (prepare-Flags i.random_shuffle i.line_table a.shared) h
step_from-Agrees i a (experimenting start end_time) h =
    if-both (λ (s : System). Agrees s.agent s.phase) (keeps_going a i.now end_time) _ _ h
      (record { experiment = h.experiment; ready = h.ready; ended = λ e. absurd cc })
step_from-Agrees i a (closing start) h = record {
  experiment = refl;
  ready = h.ready;
  ended = λ e. absurd cc;
}
step_from-Agrees i a (settling start) h =
    let f = report-Flags i start a in
    record {
      experiment = f.experiment ∙ h.experiment;
      ready = f.ready ∙ h.ready;
      ended = λ e. absurd cc;
    }
step_from-Agrees i a done h = h

stop-Flags : (a : Agent) → Flags a.shared (stop a).shared
unfolding stop
stop-Flags a = record { experiment = ground arith; ready = ground arith }

Move-Agrees : {s t : System} {k : ℕ} → Move s k t → Agrees s.agent s.phase → Agrees t.agent t.phase
unfolding agent_step leave_scope
Move-Agrees {s} (agent_moves i) h = step_from-Agrees i s.agent s.phase h
Move-Agrees {s} (user_moves e) h =
    let f = user-Flags e in
    record { experiment = f.experiment ∙ h.experiment; ready = f.ready ∙ h.ready; ended = h.ended }
Move-Agrees {s} stops h =
    let f = stop-Flags s.agent in
    record {
      experiment = f.experiment ∙ h.experiment;
      ready = f.ready ∙ h.ready;
      ended = λ e. stop_running s.agent;
    }
Move-Agrees {s} (leaves e) h = record { experiment = h.experiment; ready = h.ready; ended = λ d. e }

-- In any run of the agent's thread among the user threads' events and calls of Stop: in_experiment
-- is set exactly from the start of an experiment to its end, prof_ready exactly from the end of the
-- warm-up on, and the thread is done only when the profiler does not run. It holds at the start.
pub Run-Agrees :
    {s t : System} {n : ℕ} → Run s n t → Agrees s.agent s.phase → Agrees t.agent t.phase
Run-Agrees begin h = h
Run-Agrees (more r e) h = Move-Agrees e (Run-Agrees r h)
