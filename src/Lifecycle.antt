-- ===== src/Lifecycle.antt =====
-- The profiler from the VM's start to its death: OnVMInit with run_profiler, create_thread and
-- updateEventsEnabledState, OnClassPrepare and OnVMDeath of src/entry.cc, with Start and Stop of
-- src/profiler.cc as far as they change what the callbacks see. What the JVM answers is an argument.
pub mod Session
pub mod Death
pub mod Loaded
pub mod Disposition
use jcoz.Base.{
  ℕ, Bool, true, false, not, ◌&&◌, List, [], ◌∷◌, ◌++◌, Option, none, some, if◌then◌else◌, Result,
  ok, halt, exits, fault, no_thread_class, no_thread_init, ◌>>=◌,
}
use jcoz.Base.Int.{pos}
use jcoz.Options.{Settings}
use jcoz.Startup.{Request, enable_event, disable_event, EventKind}
use jcoz.Progress.{LineTables, clear_progress_point}
use jcoz.Classes.{Classes, Class, create_jmethod_ids, load_classes}

-- What SIGPROF does.
pub data Action : Type 0 where
  default_action handler ignored : Action

pub record Machine : Type 0 where
  pub classes : Classes
  pub sigprof : Action
  pub requests : List Request
  pub agent_threads : List ℕ  -- the threads for which RunAgentThread was called

-- What the static members and Agent_OnLoad leave: the parsed settings, a new progress point, and what
-- JVMTI was asked.
abbrev pub loaded_machine : Settings → List Request → Machine
loaded_machine settings requests = record {
  classes = record {
    running = false;
    search_scopes = settings.search_scopes;
    ignored_scopes = settings.ignored_scopes;
    progress_class = settings.progress_class;
    in_scope_ids = [];
    progress = record {
      end_to_end = settings.end_to_end;
      progress_point = record { method_id = 0; lineno = settings.lineno; location = pos 0 };
      calls = [];
    };
    class_prep_lock = 0;
  };
  sigprof = default_action;
  requests = requests;
  agent_threads = [];
}

-- FindClass, GetMethodID and NewObject; a null pointer is `none`.
pub record Jni : Type 0 where
  pub find_class : Option ℕ
  pub get_method_id : ℕ → Option ℕ
  pub new_object : ℕ → ℕ → ℕ

unfoldable pub create_thread : Jni → Result ℕ
create_thread jni = elim jni.find_class [
  | none ↦ halt (exits no_thread_class)
  | some cls ↦ elim (jni.get_method_id cls) [
    | none ↦ halt (exits no_thread_init)
    | some method_id ↦ ok (jni.new_object cls method_id)
  ]
]

-- updateEventsEnabledState, whose result no caller reads
abbrev pub update_events_enabled_state : (EventKind → Request) → Machine → Machine
update_events_enabled_state mode m = record m {
  requests = m.requests ++ mode EventKind.class_prepare ∷ [];
}

-- Start
abbrev pub start : Machine → Machine
start m = record m { classes = record m.classes { running = true }; sigprof = handler }

-- RunAgentThread on a new thread, whatever it answers
abbrev pub run_agent : Jni → Machine → Classes → Result Machine
run_agent jni m c = create_thread jni >>= (λ agent_thread.
    ok (record m { classes = c; agent_threads = m.agent_threads ++ agent_thread ∷ [] }))

abbrev pub then_run_agent : Jni → Machine → Option (Result Classes) → Option (Result Machine)
then_run_agent jni m none = none
then_run_agent jni m (some (halt reason)) = some (halt reason)
then_run_agent jni m (some (ok c)) = some (run_agent jni m c)

-- run_profiler on thread `self`, which is all that OnVMInit calls; `none`: it waits for the lock. The
-- loaded classes are `none` after an error of GetLoadedClasses, and then their number has no value.
unfoldable pub run_profiler :
    LineTables → Jni → ℕ → Option (List Class) → Machine → Option (Result Machine)
unfolding create_thread
run_profiler tables jni self loaded m =
    let started = update_events_enabled_state enable_event (start m) in
    elim loaded [
      | none ↦ some (halt fault)
      | some loaded_classes ↦
          then_run_agent jni started (load_classes tables self started.classes loaded_classes)
    ]

abbrev pub with_classes : Machine → Option (Result Classes) → Option (Result Machine)
with_classes m none = none
with_classes m (some (halt reason)) = some (halt reason)
with_classes m (some (ok c)) = some (ok (record m { classes = c }))

-- OnClassPrepare
unfoldable pub on_class_prepare : LineTables → ℕ → Class → Machine → Option (Result Machine)
on_class_prepare tables self class m =
    with_classes m (create_jmethod_ids tables self m.classes class)

-- OnClassLoad is there so that the VM sends the events.
abbrev pub on_class_load : Machine → Machine
on_class_load m = m

-- Stop: it spins until profile_done, if the profiler is running. clearInScopeMethods, signal
abbrev pub clear_in_scope_methods : Classes → Classes
clear_in_scope_methods c = record c { in_scope_ids = [] }

unfoldable pub stop_profiler : Bool → Machine → Option Machine
stop_profiler profile_done m =
    if m.classes.running && not profile_done
    then none
    else some (record m {
      classes = clear_in_scope_methods (record m.classes { running = false });
      sigprof = ignored;
    })

abbrev pub disarm : Option Machine → Option Machine
disarm none = none
disarm (some m) =
    let disabled = update_events_enabled_state disable_event m in
    some (record disabled {
      classes = record disabled.classes {
        progress = clear_progress_point disabled.classes.progress;
      };
    })

-- OnVMDeath, by whether the agent's thread comes to its end
unfoldable pub on_vm_death : Bool → Machine → Option Machine
unfolding stop_profiler
on_vm_death profile_done m = disarm (stop_profiler profile_done m)
