-- ===== src/Startup.antt =====
-- Loading the agent: Agent_OnLoad with PrepareJvmti and RegisterJvmti of src/entry.cc, and
-- Accessors::GetJvmFunction of src/globals.h. What JVMTI and the dynamic linker answer is an
-- argument, and what JVMTI is asked to change is kept in `requests`.
pub mod Capabilities
pub mod Loading
use jcoz.Base.{
  ℕ, zero, suc, Bool, true, false, not, ◌&&◌, List, [], ◌∷◌, ◌++◌, Option, none, some, ◌==◌,
  if◌then◌else◌, Result, ok, ◌>>=◌,
}
use jcoz.Text.{Bytes, codes}
use jcoz.Options.{Settings, parse_options}

pub data EventKind : Type 0 where
  class_load breakpoint thread_end thread_start vm_death vm_init class_prepare : EventKind

pub data Request : Type 0 where
  add_capabilities set_event_callbacks : Request
  enable_event disable_event : EventKind → Request

-- The bytes of a jvmtiCapabilities with the six that the agent needs, and of the potential ones, with
-- `none` for an error; whether the other calls succeed; libjvm.so as its symbols.
pub record Vm : Type 0 where
  pub get_env : Bool
  pub needed : List ℕ
  pub potential : Option (List ℕ)
  pub accepts : Request → Bool
  pub libjvm : Option (Bytes → Option ℕ)

-- The loop over the bytes: one that should be there is 0.
unfoldable pub is_lacking : List ℕ → List ℕ → Bool
is_lacking [] has = false
is_lacking (s ∷ should_have) [] = false
is_lacking (s ∷ should_have) (h ∷ has) =
    let rest = is_lacking should_have has in if not (s == 0) && h == 0 then true else rest

-- Whether it succeeds, and what was asked. If there is no answer then nothing is asked for.
unfoldable pub prepare_jvmti : Vm → Bool × List Request
prepare_jvmti vm = elim vm.potential [
  | none ↦ (true, [])
  | some all_caps ↦
      if is_lacking vm.needed all_caps
      then (false, [])
      else (vm.accepts add_capabilities, add_capabilities ∷ [])
]

abbrev pub events : List EventKind
events = class_load ∷ breakpoint ∷ thread_end ∷ thread_start ∷ vm_death ∷ vm_init ∷ []

-- Its loop ends at the first error.
unfoldable pub enable_events : Vm → List EventKind → Bool × List Request
enable_events vm [] = (true, [])
enable_events vm (e ∷ es) =
    let (enabled, requests) = enable_events vm es in
    if vm.accepts (enable_event e)
    then (enabled, enable_event e ∷ requests)
    else (false, enable_event e ∷ [])

unfoldable pub register_jvmti : Vm → Bool × List Request
unfolding enable_events
register_jvmti vm =
    if vm.accepts set_event_callbacks
    then ((enable_events vm events).0, set_event_callbacks ∷ (enable_events vm events).1)
    else (false, set_event_callbacks ∷ [])

-- dlopen, and dlsym if there is a handle
abbrev pub get_jvm_function : Vm → Bytes → Option ℕ
get_jvm_function vm function_name = elim vm.libjvm [
  | none ↦ none
  | some dlsym ↦ dlsym function_name
]

-- What Agent_OnLoad leaves: its jint, the global `prof` with the settings, and `asgct_`.
pub record Loaded : Type 0 where
  pub code : ℕ
  pub prof : Option Settings
  pub asgct : Option ℕ
  pub requests : List Request

abbrev pub gives_up : ℕ → List Request → Result Loaded
gives_up code requests = ok (record { code = code; prof = none; asgct = none; requests = requests })

-- The last lines, once JVMTI is registered
abbrev pub load_profiler : Vm → Bytes → Settings → Option Bytes → List Request → Result Loaded
load_profiler vm stamp initial options requests =
    parse_options stamp initial options >>= (λ settings. ok (record {
      code = 0;
      prof = some settings;
      asgct = get_jvm_function vm (codes "AsyncGetCallTrace");
      requests = requests;
    }))

unfoldable pub agent_on_load : Vm → Bytes → Settings → Option Bytes → Result Loaded
unfolding prepare_jvmti register_jvmti
agent_on_load vm stamp initial options =
    let prepared = prepare_jvmti vm in
    let registered = register_jvmti vm in
    if not vm.get_env
    then gives_up 1 []
    else if not prepared.0
    then gives_up 0 prepared.1
    else if not registered.0
    then gives_up 1 (prepared.1 ++ registered.1)
    else load_profiler vm stamp initial options (prepared.1 ++ registered.1)
