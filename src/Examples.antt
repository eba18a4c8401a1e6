-- ===== src/Examples.antt =====
-- Concrete states on which the theorems are tried.
mod Signals
mod Runs
mod Texts
mod Classes
mod Numbers
mod Agents
mod Sessions
mod Threads
mod Files
use jcoz.Base.{
  ℕ, ◌+◌, ◌≤◌, ◌<◌, Bool, true, false, List, [], ◌∷◌, if◌then◌else◌, ltb, ◌==◌, replicate, Result,
  ok, halt, arith, ◌≡◌, refl,
}
use jcoz.Base.Int.{ℤ, pos, negsuc, ◌<ℤ◌}
use jcoz.Frame.{CallFrame}
use jcoz.Experiment.{Experiment}
use jcoz.Experiment.Float.{zero_f32}
use jcoz.Sleep.{Answer, slept, invalid, Kernel, sleep_loop, jcoz_sleep, IsPosix, nanos_per_second}
use jcoz.Profiler.{UserThread, not_begun, Cell, null, live, Profiler}
use jcoz.Profiler.Handler.{CallTrace}
use jcoz.Agent.{Agent}
use jcoz.BciHits.{no_hits}
use jcoz.Profiler.Delays.{IsBounded}

-- A kernel that sleeps exactly as long as it is asked to.
abbrev pub exact : Kernel
exact now (pos n) = if ltb n nanos_per_second then slept (now + n) else invalid now
exact now (negsuc n) = invalid now

pub exact-IsPosix : IsPosix exact
exact-IsPosix = record {
  sleeps =
      λ now n h. let below : ltb n nanos_per_second ≡ true = ground arith in rw below (omega arith);
  refuses = λ now n h.
      let above : ltb n nanos_per_second ≡ false = ground arith in rw above (omega arith);
}

pub exact-IsBounded : IsBounded exact 0
unfolding jcoz_sleep sleep_loop
exact-IsBounded n h = ground arith

abbrev pub frame : CallFrame
frame = record { lineno = pos 3; method_id = 7 }

abbrev pub trace : CallTrace
trace = record { num_frames = pos 1; frames = frame ∷ [] }

-- Bytecode indices 0 to 9 of method 7, with a delay of 500.
abbrev pub experiment : Experiment
experiment = record {
  points_hit = pos 0;
  speedup = zero_f32;
  delay = pos 500;
  duration = pos 0;
  method_id = 7;
  lineno = pos 1;
  bci = pos 3;
  location_ranges = (pos 0, pos 10) ∷ [];
}

abbrev pub thread : ℕ → UserThread
thread received = record {
  local_delay = pos 20;
  points_hit = pos 2;
  num_signals_received = received;
  java_thread = 11;
  removal = not_begun;
}

abbrev pub only_first : UserThread → ℕ → Cell
only_first u t = if t == 1 then live u else null

abbrev pub unused : CallFrame
unused = record { lineno = pos 0; method_id = 0 }

-- No user thread, and no experiment.
abbrev pub idle : Profiler
idle = record {
  in_scope_ids = 7 ∷ [];
  in_experiment = false;
  static_call_frames = replicate 200 unused;
  call_index = 0;
  current_experiment = experiment;
  user_threads = [];
  global_delay = pos 30;
  points_hit = 0;
  prof_ready = true;
  curr_ut = λ t. null;
}

-- One user thread, which has received some signals and holds two points.
abbrev pub with_thread : ℕ → Profiler
with_thread received = record idle { user_threads = 1 ∷ []; curr_ut = only_first (thread received) }

abbrev pub running : ℕ → Profiler
running received = record (with_thread received) { in_experiment = true }

abbrev pub state_of : Result Profiler → Profiler
state_of (ok p) = p
state_of (halt reason) = idle

abbrev pub agent : Agent
agent = record {
  shared = idle;
  running = true;
  end_to_end = false;
  fix_exp = false;
  experiment_time = 5000;
  bci_hits = no_hits;
  output = [];
}
