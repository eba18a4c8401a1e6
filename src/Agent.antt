-- ===== src/Agent.antt =====
-- The profiler's own thread: runAgentThread and runExperiment of src/profiler.cc, with Stop.
-- The random shuffle, the line tables and the clock are arguments. What the user threads do between
-- two of the agent's steps is a sequence of events on the shared state.
pub mod Candidates
pub mod Sampled
pub mod Reports
pub mod System
pub mod Stopping
pub mod Gone
pub mod Untouched
pub mod Kept
pub mod Room
pub mod Safe
pub mod Ranges
pub mod Loops
pub mod Phases
use jcoz.Base.{
  ℕ, ◌+◌, ◌^◌, Bool, true, false, ◌&&◌, ◌||◌, not, List, [], ◌∷◌, ◌++◌, Option, none, some, ◌==◌,
  ltb, leb, min, if◌then◌else◌, take, replicate,
}
use jcoz.Base.Int.{ℤ, pos, to_long, sub_ℕ, ◌-ℤ◌}
use jcoz.Text.{Bytes}
use jcoz.Signature.{clean_signature, text_of}
use jcoz.Frame.{CallFrame, lt_frame, eq_frame, LineEntry, choose_line, line_ranges}
use jcoz.Experiment.{Experiment, update_experiment_length, calculate_random_speedup, delay_of, u64}
use jcoz.Experiment.Float.{F32}
use jcoz.Profiler.{Profiler, num_static_call_frames}
use jcoz.BciHits.{BciHits, add_hit}

-- A line of the output file, before it is formatted.
pub record Report : Type 0 where
  pub class_fqn : Bytes
  pub lineno : ℤ
  pub speedup : F32
  pub duration : ℤ
  pub effective_duration : ℤ
  pub points_hit : ℤ

pub record Agent : Type 0 where
  pub shared : Profiler
  pub running : Bool
  pub end_to_end : Bool
  pub fix_exp : Bool
  pub experiment_time : ℕ  -- unsigned long
  pub bci_hits : BciHits
  pub output : List Report

-- std::sort and std::unique on frames, and what is kept of them
unfoldable pub insert_frame : CallFrame → List CallFrame → List CallFrame
insert_frame x [] = x ∷ []
insert_frame x (y ∷ ys) =
    let rest = insert_frame x ys in if lt_frame y x then y ∷ rest else x ∷ y ∷ ys

unfoldable pub sort_frames : List CallFrame → List CallFrame
unfolding insert_frame
sort_frames [] = []
sort_frames (x ∷ xs) = insert_frame x (sort_frames xs)

unfoldable pub unique_from : CallFrame → List CallFrame → List CallFrame
unique_from x [] = x ∷ []
unique_from x (y ∷ ys) =
    let same = unique_from x ys in
    let other = unique_from y ys in if eq_frame x y then same else x ∷ other

abbrev pub unique : List CallFrame → List CallFrame
unique [] = []
unique (x ∷ xs) = unique_from x xs

-- The frames that are copied: i < call_index && i < NUM_STATIC_CALL_FRAMES, for an int
abbrev pub copied : Profiler → List CallFrame
copied p =
    take (if leb (2 ^ 31) p.call_index then 0 else min p.call_index num_static_call_frames)
      p.static_call_frames

-- The first frame whose method has a line table.
unfoldable pub select :
    (ℕ → Option (List LineEntry)) → List CallFrame → Option (CallFrame × List LineEntry)
select line_table [] = none
select line_table (f ∷ fs) = elim (line_table f.method_id) [
  | some entries ↦ some (f, entries)
  | none ↦ select line_table fs
]

-- The experiment that a frame and its line table stand for.
unfoldable pub aim : Experiment → CallFrame → List LineEntry → Experiment
aim e frame entries =
    let line = choose_line frame.lineno e.lineno entries in
    record e {
      method_id = frame.method_id;
      bci = frame.lineno;
      lineno = line;
      location_ranges = line_ranges line entries;
    }

-- The state, and whether an experiment is run.
abbrev pub aim_at : Profiler → Option (CallFrame × List LineEntry) → Profiler × Bool
aim_at p none = (p, false)
aim_at p (some (frame, entries)) =
    (record p { current_experiment = aim p.current_experiment frame entries }, true)

-- What is done with the copied frames; call_index is reset if there are any.
unfoldable pub prepare_from :
    (List CallFrame → List CallFrame)
    → (ℕ → Option (List LineEntry))
    → Profiler
    → List CallFrame
    → Profiler × Bool
unfolding aim sort_frames select unique_from
prepare_from random_shuffle line_table p [] = (p, false)
prepare_from random_shuffle line_table p (f ∷ fs) =
    aim_at (record p { call_index = 0 })
      (select line_table (random_shuffle (unique (sort_frames (f ∷ fs)))))

-- One round of the loop up to the experiment; no experiment where nothing was sampled or no frame
-- has a line table.
unfoldable pub prepare :
    (List CallFrame → List CallFrame) → (ℕ → Option (List LineEntry)) → Profiler → Profiler × Bool
unfolding prepare_from
prepare random_shuffle line_table p = prepare_from random_shuffle line_table p (copied p)

-- The head of runExperiment, on the value of rand()
unfoldable pub begin_experiment : ℕ → Profiler → Profiler
begin_experiment rand p =
    let speedup = calculate_random_speedup rand in
    record p {
      in_experiment = true;
      points_hit = 0;
      current_experiment = record p.current_experiment {
        speedup = speedup;
        delay = delay_of speedup;
      };
    }

-- The condition of its loop
unfoldable pub keeps_going : Agent → ℕ → ℕ → Bool
keeps_going a now end_time =
    a.running && ((a.end_to_end && a.shared.points_hit == 0) || ltb now end_time)

-- in_experiment = false;
unfoldable pub end_experiment : Profiler → Profiler
end_experiment p = record p { in_experiment = false }

-- What follows it where the agent is still running, on the signature that JVMTI gives
abbrev pub report_class : Agent → Option Bytes → Agent
report_class a none = a
report_class a (some sig) =
    let e = a.shared.current_experiment in
    let class = text_of (clean_signature sig) in
    record a {
      experiment_time = update_experiment_length a.fix_exp e.points_hit a.experiment_time;
      bci_hits = add_hit class e.method_id e.lineno e.bci a.bci_hits;
      output =
          a.output
          ++ record {
            class_fqn = class;
            lineno = e.lineno;
            speedup = e.speedup;
            duration = e.duration;
            effective_duration = to_long (e.duration -ℤ e.delay);
            points_hit = e.points_hit;
          }
            ∷ [];
    }

-- getClassFromMethodIDLocation on what GetMethodDeclaringClass and GetClassSignature answer
unfoldable pub get_class_from_method_id_location :
    (ℕ → Option ℕ) → (ℕ → Option Bytes) → ℕ → Option Bytes
get_class_from_method_id_location declaring_class class_signature id = elim (declaring_class id) [
  | none ↦ none
  | some clazz ↦ class_signature clazz
]

unfoldable pub report : Option Bytes → ℕ → ℕ → Agent → Agent
report sig start exp_end a =
    let p = a.shared in
    let e = record p.current_experiment {
      delay = p.global_delay;
      points_hit = to_long (pos p.points_hit);
      duration = sub_ℕ exp_end start;
    } in
    if not a.running
    then a
    else report_class
        (record a {
          shared = record p { current_experiment = e; points_hit = 0; global_delay = pos 0 };
        })
        sig

-- The end of a round: the frames are cleared.
unfoldable pub clear_frames : Profiler → Profiler
clear_frames p = record p {
  static_call_frames = replicate num_static_call_frames (record { lineno = pos 0; method_id = 0 });
}

-- Stop up to its wait for profile_done
unfoldable pub stop : Agent → Agent
stop a =
    let p = a.shared in
    let counted = if a.end_to_end then u64 (p.points_hit + 1) else p.points_hit in
    if a.running
    then record a { shared = record p { points_hit = counted }; running = false }
    else a

-- clearInScopeMethods, which Stop calls behind its wait, or at once if the profiler was stopped before
unfoldable pub leave_scope : Agent → Agent
leave_scope a = record a { shared = record a.shared { in_scope_ids = [] } }
