-- ===== src/Agent/System.antt =====
-- The agent's thread as a state machine, one step for what it does between two of its waits, among
-- the events of the user threads: runAgentThread with runExperiment, and Stop, of src/profiler.cc.
use jcoz.Base.{◌≡◌, ℕ, ◌+◌, ◌*◌, Bool, true, false, List, Option, if◌then◌else◌}
use jcoz.Base.Int.{pos}
use jcoz.Text.{Bytes}
use jcoz.Frame.{CallFrame, LineEntry}
use jcoz.Profiler.{null, live, freed, Profiler, erase, put}
use jcoz.Profiler.Points.{UserEvent}
use jcoz.Agent.{
  Agent, prepare, begin_experiment, keeps_going, end_experiment, get_class_from_method_id_location,
  report, clear_frames, stop, leave_scope,
}

-- Where the agent's thread stands: at the test of its loop, in the sleeps of the sampling, in an
-- experiment with its start and its end, or in one of the two sleeps behind it.
pub data Phase : Type 0 where
  starting warming looping sampling done : Phase
  experimenting : ℕ → ℕ → Phase
  closing settling : ℕ → Phase

pub record System : Type 0 where
  pub agent : Agent
  pub phase : Phase

-- What a step of the agent's thread is given: its own id, rand(), the clock, the shuffle, the line
-- tables, the class that declares a method, and the signature of a class.
pub record Given : Type 0 where
  pub self : ℕ
  pub rand : ℕ
  pub now : ℕ
  pub random_shuffle : List CallFrame → List CallFrame
  pub line_table : ℕ → Option (List LineEntry)
  pub declaring_class : ℕ → Option ℕ
  pub class_signature : ℕ → Option Bytes

abbrev pub with_shared : Agent → Profiler → Agent
with_shared a p = record a { shared = p }

-- The head of runAgentThread: the thread is no user thread any more.
unfoldable pub agent_start : ℕ → Profiler → Profiler
unfolding put
agent_start self p = record (put p self null) {
  global_delay = pos 0;
  user_threads = elim (p.curr_ut self) [
    | null ↦ p.user_threads
    | live u ↦ erase self p.user_threads
    | freed ↦ p.user_threads
  ];
}

-- The experiment's length is in milliseconds, the clock in nanoseconds.
abbrev pub experiment_end : ℕ → Agent → ℕ
experiment_end now a = now + a.experiment_time * 1000000

-- What the sampled frames lead to.
abbrev pub prepared : Given → Agent → Profiler × Bool → System
prepared i a (p, true) = record {
  agent = with_shared a (begin_experiment i.rand p);
  phase = experimenting i.now (experiment_end i.now a);
}
prepared i a (p, false) = record { agent = with_shared a p; phase = looping }

-- The signature for the experiment's method
abbrev pub class_sig : Given → Agent → Option Bytes
class_sig i a =
    get_class_from_method_id_location i.declaring_class i.class_signature
      a.shared.current_experiment.method_id

-- One step, by the phase.
abbrev pub step_from : Given → Agent → Phase → System
step_from i a starting = record {
  agent = with_shared a (agent_start i.self a.shared);
  phase = warming;
}
step_from i a warming = record {
  agent = with_shared a (record a.shared { prof_ready = true });
  phase = looping;
}
step_from i a looping = record { agent = a; phase = if a.running then sampling else done }
step_from i a sampling = prepared i a (prepare i.random_shuffle i.line_table a.shared)
step_from i a (experimenting start end_time) =
    if keeps_going a i.now end_time
    then record { agent = a; phase = experimenting start end_time }
    else record { agent = a; phase = closing start }
step_from i a (closing start) = record {
  agent = with_shared a (end_experiment a.shared);
  phase = settling start;
}
step_from i a (settling start) =
    let b = report (class_sig i a) start i.now a in
    record { agent = with_shared b (clear_frames b.shared); phase = looping }
step_from i a done = record { agent = a; phase = done }

unfoldable pub agent_step : Given → System → System
agent_step i s = step_from i s.agent s.phase

-- profile_done, which Stop waits for
abbrev pub profile_done : Phase → Bool
profile_done done = true
profile_done _ = false

-- Any number of steps of the agent's thread, any events of the user threads, and Stop in two steps, as
-- the agent and the user threads go on while it waits for profile_done; with the number
-- of points that are hit; Stop counts one in end-to-end mode, if the profiler is running.
abbrev pub stop_worth : Agent → ℕ
stop_worth a = if a.running then (if a.end_to_end then 1 else 0) else 0

pub data Move (s : System) : ℕ → System → Type 0 where
  agent_moves : (i : Given) → Move s 0 (agent_step i s)
  user_moves :
      {k : ℕ} {q : Profiler}
      → UserEvent s.agent.shared k q
      → Move s k (record s { agent = with_shared s.agent q })
  stops : Move s (stop_worth s.agent) (record s { agent = stop s.agent })
  leaves : s.agent.running ≡ false → Move s 0 (record s { agent = leave_scope s.agent })

pub data Run (s : System) : ℕ → System → Type 0 where
  begin : Run s 0 s
  more : {n k : ℕ} {t u : System} → Run s n t → Move t k u → Run s (n + k) u
