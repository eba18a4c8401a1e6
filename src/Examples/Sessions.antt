-- ===== src/Examples/Sessions.antt =====
-- The agent's start, a session, and a signal on concrete states.
use jcoz.Base.{
  Halt, length, ◌+◌, some-injective, ℕ, ◌≤◌, ◌<◌, ◌≡◌, refl, ap, subst, ◌≢◌, ◌⊎◌, inl, true, false,
  [], ◌∷◌, some, none, arith, if◌then◌else◌, ◌==◌, All, ok, halt, fault, ◌>>=◌,
}
use jcoz.Text.{Bytes, codes, text_eq}
use jcoz.Options.{initial}
use jcoz.Startup.{
  Vm, Loaded, prepare_jvmti, is_lacking, register_jvmti, enable_events, agent_on_load, EventKind,
  add_capabilities, enable_event,
}
use jcoz.Startup.Loading.{IsLoaded, IsRefused, agent_on_load_lem, registration}
use jcoz.Examples.Runs.{object_of}
use jcoz.Profiler.{Profiler, is_member, insert}
use jcoz.Profiler.Threads.{
  Answer, gives, thread_in_main, add_user_thread, on_thread_start, handle_breakpoint,
}
use jcoz.Profiler.Handler.{experiment_signal, sample}
use jcoz.Callbacks.{Threads, with_profiler, thread_started, signalled, signal_user_threads}
use jcoz.Callbacks.Flushed.{signal_user_threads-flushed}
use jcoz.Profiler.Points.{UserEvent, hits, pending, no_dup, all_points}
use jcoz.Profiler.Points.Owned.{Counts}
use jcoz.Profiler.Points.Conserved.{user_Moves}
use jcoz.Callbacks.Servable.{Events, begin, step, starts, other, breaks}
use jcoz.Callbacks.Served.{signalled-served}
use jcoz.Classes.Armed.{left_from, HasMethods, IsArmed}
use jcoz.Agent.{stop}
use jcoz.Agent.System
use jcoz.Agent.System.{
  System, Given, Phase, experimenting, agent_step, profile_done, Run, more, agent_moves,
}
use jcoz.Agent.Stopping.{agent_steps}
use jcoz.Lifecycle.{
  Machine, Jni, default_action, handler, create_thread, run_profiler, loaded_machine,
  then_run_agent, on_vm_death,
}
use jcoz.Lifecycle.Session.{Session, begins, IsQuiet}
use jcoz.Lifecycle.Loaded.{IsStarted, run_profiler-IsStarted}
use jcoz.Lifecycle.Death.{on_vm_death_ends}
use jcoz.Examples.{state_of, exact, trace, idle, agent}
use jcoz.Examples.Texts.{parsed, final}
use jcoz.Examples.Classes.{tables, classes, main_class, prepared, loads}
use jcoz.Examples.Agents.{given, later}

abbrev vm : Vm
vm = record {
  get_env = true;
  needed = 12 ∷ 0 ∷ 1 ∷ [];
  potential = some (255 ∷ 255 ∷ 7 ∷ []);
  accepts = λ r. true;
  libjvm = some (λ name. some 4096);
}

abbrev loaded : Loaded
loaded = record {
  code = 0;
  prof = some final;
  asgct = some 4096;
  requests = add_capabilities ∷ registration;
}

loads_agent : agent_on_load vm (codes "_1") initial (some (codes "pkg=app_end-to-end")) ≡ ok loaded
unfolding agent_on_load prepare_jvmti is_lacking register_jvmti enable_events
loads_agent = ap (λ r. r >>= (λ settings. ok (record loaded { prof = some settings }))) parsed

agent_on_load_lem_example :
    IsLoaded vm (codes "_1") initial (some (codes "pkg=app_end-to-end")) loaded
    ⊎ IsRefused vm loaded
agent_on_load_lem_example =
    agent_on_load_lem vm (codes "_1") initial (some (codes "pkg=app_end-to-end")) loaded loads_agent

abbrev jni : Jni
jni = record { find_class = some 70; get_method_id = λ cls. some 71; new_object = λ cls m. 72 }

abbrev machine : Machine
machine = record { classes = classes; sigprof = default_action; requests = []; agent_threads = [] }

abbrev ready : Machine
ready = record {
  classes = prepared;
  sigprof = handler;
  requests = enable_event EventKind.class_prepare ∷ [];
  agent_threads = 72 ∷ [];
}

runs : run_profiler tables jni 5 (some (main_class ∷ [])) machine ≡ some (ok ready)
unfolding run_profiler create_thread
runs = ap (then_run_agent jni (record ready { classes = classes; agent_threads = [] })) loads

valid : HasMethods main_class
valid methods h =
    subst (All (λ m. m ≢ 0)) (some-injective (7 ∷ 8 ∷ []) methods h)
      ((λ e. absurd (omega (arith, e))), ((λ e. absurd (omega (arith, e))), tt))

session : Session tables machine ready
session = begins jni 5 (main_class ∷ []) (valid, tt) runs

-- The agent's thread stands in an experiment when Stop comes.
abbrev busy : System
busy = record { agent = agent; phase = experimenting 0 5000000000 }

abbrev stopped : System
stopped = record busy { agent = stop agent }

abbrev ended : System
ended = later (later (later (later (later (later (later (later stopped)))))))

four_more : {s t : System} → Run s 0 t → Run s 0 (later (later (later (later t))))
four_more r =
    more (more (more (more r (agent_moves given)) (agent_moves given)) (agent_moves given))
      (agent_moves given)

eight_steps : Run stopped 0 ended
eight_steps = four_more (four_more System.Run.begin)

enough : 8 ≤ agent_steps eight_steps
unfolding agent_steps four_more eight_steps
enough = omega arith

armed : IsArmed classes.progress
unfolding left_from
armed = inl (refl, refl)

on_vm_death_ends_example :
    (r : Machine) × (on_vm_death (profile_done ended.phase) ready ≡ some r) × IsQuiet r
on_vm_death_ends_example = on_vm_death_ends busy eight_steps session armed enough

abbrev empty : Threads
empty = record { profiler = idle; has_env = λ t. false }

abbrev joined : Threads
joined = record {
  profiler = add_user_thread idle 1 11 true;
  has_env = λ s. if s == 1 then true else false;
}

abbrev main_group : ℕ → Answer Bytes
main_group group = gives (codes "main")

joins : thread_started empty 1 11 (gives 3) main_group ≡ ok joined
unfolding thread_started on_thread_start thread_in_main text_eq
joins = refl

one_thread : Events empty joined
unfolding is_member
one_thread = step begin (starts 1 11 (gives 3) main_group refl joins)

first_member : is_member 1 joined.profiler.user_threads ≡ true
unfolding is_member add_user_thread insert
first_member = refl

is_ready : (joined.profiler.prof_ready ≡ true) × (joined.profiler.call_index < 2147483648)
unfolding add_user_thread
is_ready = (refl, omega arith)

signalled-served_example :
    (q : Profiler) × (signalled exact 0 (some (λ t. trace)) joined 1
      ≡ ok (record joined { profiler = q }))
    × ((if joined.profiler.in_experiment
          then experiment_signal exact 0 joined.profiler 1 trace
          else sample joined.profiler 1 trace)
        ≡ ok q)
    × (signalled exact 0 none joined 1 ≡ halt fault)
signalled-served_example =
    signalled-served exact 0 1 (λ t. trace) refl one_thread first_member is_ready refl

-- An experiment runs, and the thread has hit the progress point once.
abbrev in_progress : Threads
in_progress = record joined { profiler = record joined.profiler { in_experiment = true } }

abbrev after_point : Threads
after_point = record joined { profiler = state_of (handle_breakpoint in_progress.profiler 1) }

points : with_profiler in_progress (handle_breakpoint in_progress.profiler 1) ≡ ok after_point
unfolding handle_breakpoint add_user_thread
points = refl

point-Events : Events empty after_point
point-Events = step (step one_thread (other refl refl)) (breaks 1 points)

idle-Counts : Counts idle 0
unfolding pending no_dup
idle-Counts = record {
  is_owned = record { distinct = refl; owned = λ s a. absurd cc; natural = λ s. tt };
  all = refl;
}

hit_event : UserEvent in_progress.profiler 1 after_point.profiler
unfolding handle_breakpoint add_user_thread
hit_event = hits 1 (object_of (joined.profiler.curr_ut 1)) refl refl refl

point-Counts : Counts after_point.profiler 1
unfolding is_member hit_event
point-Counts =
    let c = user_Moves 0 (UserEvent.starts 1 11 true refl) (omega arith) idle-Counts in
    let m =
      user_Moves 0 hit_event (omega arith)
        (record { is_owned = c.is_owned; all = omega (arith, c.all) }) in
    record { is_owned = m.is_owned; all = omega (arith, m.all) }

little_room :
    after_point.profiler.call_index + length after_point.profiler.user_threads < 2147483648
unfolding handle_breakpoint add_user_thread insert is_member
little_room = omega arith

in_experiment :
    (after_point.profiler.prof_ready ≡ true) × (after_point.profiler.in_experiment ≡ true)
unfolding handle_breakpoint add_user_thread
in_experiment = (refl, refl)

signal_user_threads-flushed_example :
    (q : Threads) × (signal_user_threads exact (λ t. 0) (some (λ t. trace)) after_point ≡ ok q)
    × (q.profiler.user_threads ≡ after_point.profiler.user_threads)
    × (pending q.profiler.curr_ut q.profiler.user_threads ≡ 0)
    × (q.profiler.points_hit ≡ all_points after_point.profiler)
signal_user_threads-flushed_example =
    signal_user_threads-flushed exact (λ t. 0) (λ t. trace) refl point-Events little_room
      in_experiment (λ t. refl) point-Counts.is_owned (omega (arith, point-Counts.all))

run_profiler-IsStarted_example :
    let r =
      run_profiler tables jni 139637976729344
        (some (main_class ∷ []))
        (loaded_machine final loaded.requests) in
    ((reason : Halt) × (r ≡ some (halt reason)))
    ⊎ ((q : Machine) × (r ≡ some (ok q)) × IsStarted final jni (main_class ∷ []) q)
run_profiler-IsStarted_example =
    run_profiler-IsStarted vm (codes "_1") initial final (some (codes "pkg=app_end-to-end")) loaded
      tables jni 139637976729344 (main_class ∷ []) loads_agent refl (omega arith, omega arith)
      (inl (λ e. cc), tt)
