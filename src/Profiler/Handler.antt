-- ===== src/Profiler/Handler.antt =====
-- Profiler::Handle of src/profiler.cc, the handler of SIGPROF.
-- in_scope_lock and frame_lock make the sampling one step. AsyncGetCallTrace's trace is an argument.
use jcoz.Base.{
  ℕ, ◌+◌, ◌%◌, ◌^◌, Bool, false, not, List, [], ◌∷◌, Option, none, some, ◌==◌, ltb, leb,
  if◌then◌else◌, set, take, Result, ok, halt, fault,
}
use jcoz.Base.Int.{ℤ, pos, to_long, pos_part, neg_part, ltb_ℤ, ◌-ℤ◌}
use jcoz.Frame.{CallFrame, in_ranges}
use jcoz.Experiment.{Experiment}
use jcoz.Sleep.{Kernel, jcoz_sleep}
use jcoz.Profiler.{
  UserThread, live, Profiler, num_static_call_frames, is_member, put, with_ut, add_points, labs,
  add_long, raised,
}

-- JVMPI_CallTrace, with the buffer of kMaxFramesToCapture frames
pub record CallTrace : Type 0 where
  pub num_frames : ℤ
  pub frames : List CallFrame

abbrev pub num_call_trace_errors : ℕ
num_call_trace_errors = 10

unfoldable pub frame_in_scope : Profiler → CallFrame → Bool
frame_in_scope p frame = is_member frame.method_id p.in_scope_ids

unfoldable pub in_experiment_frame : Experiment → CallFrame → Bool
in_experiment_frame e frame =
    if not (frame.method_id == e.method_id) then false else in_ranges e.location_ranges frame.lineno

-- The first of the frames that passes a test.
unfoldable pub find_frame : (CallFrame → Bool) → List CallFrame → Option CallFrame
find_frame test [] = none
find_frame test (f ∷ fs) = if test f then some f else find_frame test fs

-- call_index.fetch_add(1), and the write below NUM_STATIC_CALL_FRAMES. A negative index, from bit 31
-- on, passes the test and is out of bounds.
unfoldable pub record_frame : Profiler → CallFrame → Result Profiler
record_frame p frame =
    let index = p.call_index in
    let counted = record p { call_index = (index + 1) % 2 ^ 32 } in
    if leb (2 ^ 31) index
    then halt fault
    else if ltb index num_static_call_frames
    then ok (record counted { static_call_frames = set p.static_call_frames index frame })
    else ok counted

abbrev pub record_first : Profiler → Option CallFrame → Result Profiler
record_first p none = ok p
record_first p (some frame) = record_frame p frame

-- The frames that the loops visit.
abbrev pub visited : CallTrace → List CallFrame
visited trace = take (pos_part trace.num_frames) trace.frames

-- The branch outside an experiment.
unfoldable pub sample : Profiler → ℕ → CallTrace → Result Profiler
unfolding put with_ut
sample p t trace = with_ut p t (λ u.
    let q = put p t (live (record u { local_delay = pos 0 })) in
    record_first q (find_frame (frame_in_scope q) (visited trace)))

-- The first loop of the branch inside an experiment: a virtual speedup of the frame's line.
unfoldable pub charge : Experiment → CallTrace → UserThread → UserThread
unfolding add_long
charge e trace u = elim (find_frame (in_experiment_frame e) (visited trace)) [
  | none ↦ u
  | some frame ↦ record u { local_delay = add_long u.local_delay e.delay }
]

-- Every tenth signal: the thread sleeps off what it is behind, or raises global_delay.
unfoldable pub synchronize : Kernel → ℕ → ℤ → UserThread → ℤ × UserThread
unfolding add_long
synchronize nanosleep now global_delay u =
    let sleep_diff = to_long (global_delay -ℤ u.local_delay) in
    if ltb_ℤ (pos 0) sleep_diff
    then (
      global_delay,
      record u {
        local_delay = add_long u.local_delay (jcoz_sleep nanosleep now sleep_diff);
        num_signals_received = 0;
      },
    )
    else (add_long global_delay (labs sleep_diff), record u { num_signals_received = 0 })

unfoldable pub pause : Kernel → ℕ → ℤ → UserThread → ℤ × UserThread
pause nanosleep now global_delay u =
    if u.num_signals_received == 10
    then synchronize nanosleep now global_delay u
    else (global_delay, u)

-- The steps of the branch inside an experiment, on thread `t` whose object is `u` when the step is
-- taken. The branch takes no lock: other threads come between its steps.
unfoldable pub charge_signal : Profiler → ℕ → CallTrace → UserThread → Profiler
unfolding put charge
charge_signal p t trace u = put p t (
    live (
      charge p.current_experiment trace
        (record u { num_signals_received = (u.num_signals_received + 1) % 2 ^ 32 })))

-- `read` is the value that was read of global_delay before the sleep.
unfoldable pub pause_signal : Kernel → ℕ → Profiler → ℕ → ℤ → UserThread → Profiler
unfolding put pause
pause_signal nanosleep now p t read u = record (put p t (live (pause nanosleep now read u).1)) {
  global_delay =
      if u.num_signals_received == 10
      then raised p.global_delay read u.local_delay
      else p.global_delay;
}

-- points_hit += curr_ut->points_hit; curr_ut->points_hit = 0; — the handler is not interrupted on its
-- own thread, and the object is the thread's own.
unfoldable pub flush_points : Profiler → ℕ → UserThread → Profiler
unfolding put
flush_points p t u = record (put p t (live (record u { points_hit = pos 0 }))) {
  points_hit = add_points p.points_hit u.points_hit;
}

-- The branch inside an experiment where no other thread comes between its steps.
unfoldable pub experiment_signal : Kernel → ℕ → Profiler → ℕ → CallTrace → Result Profiler
unfolding put with_ut
experiment_signal nanosleep now p t trace = with_ut p t (λ u.
    let counted = record u { num_signals_received = (u.num_signals_received + 1) % 2 ^ 32 } in
    let (global, v) =
      pause nanosleep now p.global_delay (charge p.current_experiment trace counted) in
    ok (record (put p t (live (record v { points_hit = pos 0 }))) {
      global_delay = global;
      points_hit = add_points p.points_hit v.points_hit;
    }))

-- A trace whose error code is none of AsyncGetCallTrace's.
abbrev pub is_unknown_error : CallTrace → Bool
is_unknown_error trace = ltb num_call_trace_errors (neg_part trace.num_frames)

unfoldable pub handle : Kernel → ℕ → Bool → Profiler → ℕ → CallTrace → Result Profiler
handle nanosleep now has_env p t trace =
    if not p.prof_ready
    then ok p
    else if not has_env
    then ok p
    else if is_unknown_error trace
    then ok p
    else if not p.in_experiment
    then sample p t trace
    else experiment_signal nanosleep now p t trace
