-- ===== src/Startup/Loading.antt =====
-- How loading the agent ends, src/entry.cc.
use jcoz.Base.{
  ℕ, ◌≡◌, ◌↔◌, ◌⊎◌, inl, inr, refl, sym, ap, subst, ◌∙◌, true, List, [], ◌∷◌, ◌++◌, map, Option,
  none, some, Bool-cases, All, arith, ok, ok-injective, >>=-eq-ok,
}
use jcoz.Text.{Bytes, codes}
use jcoz.Options.{Settings, parse_options}
use jcoz.Startup.{
  EventKind, Request, add_capabilities, set_event_callbacks, enable_event, Vm, prepare_jvmti,
  events, enable_events, register_jvmti, get_jvm_function, Loaded, gives_up, load_profiler,
  agent_on_load,
}
use jcoz.Startup.Capabilities.{Grants, prepare_iff, prepare_requests}

abbrev pub registration : List Request
registration =
    set_event_callbacks
    ∷ enable_event EventKind.class_load
    ∷ enable_event EventKind.breakpoint
    ∷ enable_event EventKind.thread_end
    ∷ enable_event EventKind.thread_start
    ∷ enable_event EventKind.vm_death
    ∷ enable_event EventKind.vm_init
    ∷ []

pub record Serves (vm : Vm) : Type 0 where
  pub has_env : vm.get_env ≡ true
  pub grants : Grants vm
  pub registers : All (λ r. vm.accepts r ≡ true) registration

enable_iff :
    (vm : Vm) (es : List EventKind)
    → ((enable_events vm es).0 ≡ true) ↔ All (λ e. vm.accepts (enable_event e) ≡ true) es
unfolding enable_events
enable_iff vm [] = (λ h. tt, λ h. refl)
enable_iff vm (e ∷ es) =
    let (there, back) = enable_iff vm es in
    elim (Bool-cases (vm.accepts (enable_event e))) [
      | inl f ↦ rw f (λ h. (refl, there h), λ h. back h.1)
      | inr f ↦ rw f (λ h. absurd (cc h), λ h. absurd (cc h.0))
    ]

enable_requests :
    (vm : Vm) (es : List EventKind)
    → (enable_events vm es).0 ≡ true
    → (enable_events vm es).1 ≡ map enable_event es
unfolding enable_events
enable_requests vm [] h = refl
enable_requests vm (e ∷ es) h = elim (Bool-cases (vm.accepts (enable_event e))) [
  | inl f ↦
      rw f (ap (λ rs. enable_event e ∷ rs) (enable_requests vm es (rw (f, enable_events) at h)))
  | inr f ↦ absurd (cc (rw (f, enable_events) at h))
]

register_iff :
    (vm : Vm) → ((register_jvmti vm).0 ≡ true) ↔ All (λ r. vm.accepts r ≡ true) registration
unfolding register_jvmti
register_iff vm =
    let (there, back) = enable_iff vm events in
    elim (Bool-cases (vm.accepts set_event_callbacks)) [
      | inl f ↦ rw f (λ h. (refl, there h), λ h. back h.1)
      | inr f ↦ rw f (λ h. absurd (cc h), λ h. absurd (cc h.0))
    ]

register_requests : (vm : Vm) → (register_jvmti vm).0 ≡ true → (register_jvmti vm).1 ≡ registration
unfolding register_jvmti
register_requests vm h = elim (Bool-cases (vm.accepts set_event_callbacks)) [
  | inl f ↦ rw f (
      ap (λ rs. set_event_callbacks ∷ rs) (enable_requests vm events (rw (f, register_jvmti) at h)))
  | inr f ↦ absurd (cc (rw (f, register_jvmti) at h))
]

-- The two ways in which loading ends.
pub record IsLoaded (vm : Vm) (stamp : Bytes) (initial : Settings) (options : Option Bytes)
    (l : Loaded) : Type 0 where
  pub served : Serves vm
  pub settings : Settings
  pub parsed : parse_options stamp initial options ≡ ok settings
  pub prof : l.prof ≡ some settings
  pub code : l.code ≡ 0
  pub asgct : l.asgct ≡ get_jvm_function vm (codes "AsyncGetCallTrace")
  pub first : List Request
  pub requests : l.requests ≡ first ++ registration

pub record IsRefused (vm : Vm) (l : Loaded) : Type 0 where
  pub unserved : ¬ Serves vm
  pub prof : l.prof ≡ none
  pub asgct : l.asgct ≡ none
  pub quiet : l.code ≡ 0 → All (λ r. r ≡ add_capabilities) l.requests

refused :
    (vm : Vm) (code : ℕ) (requests : List Request) (l : Loaded)
    → ¬ Serves vm
    → (code ≡ 0 → All (λ r. r ≡ add_capabilities) requests)
    → gives_up code requests ≡ ok l
    → IsRefused vm l
refused vm code requests l unserved quiet h =
    subst (IsRefused vm) (ok-injective _ l h)
      (record { unserved = unserved; prof = refl; asgct = refl; quiet = quiet })

loaded :
    (vm : Vm) (stamp : Bytes) (initial : Settings) (options : Option Bytes)
    (first requests : List Request) (l : Loaded)
    → Serves vm
    → requests ≡ registration
    → load_profiler vm stamp initial options (first ++ requests) ≡ ok l
    → IsLoaded vm stamp initial options l
loaded vm stamp initial options first requests l served asked h =
    let (settings, parsed, e) = >>=-eq-ok (parse_options stamp initial options) _ h in
    subst (IsLoaded vm stamp initial options) (ok-injective _ l e) (record {
      served = served;
      settings = settings;
      parsed = parsed;
      prof = refl;
      code = refl;
      asgct = refl;
      first = first;
      requests = ap (λ rs. first ++ rs) asked;
    })

-- If Agent_OnLoad comes back, then either the VM serves all that the agent needs and the agent has
-- a profiler with the parsed settings, the address that the linker gives for AsyncGetCallTrace,
-- callbacks and all six events, and the code is 0; or the VM does not serve it, there is no
-- profiler, and with code 0 neither callbacks nor events were asked for. A VM serves it if it gives
-- its environment, names no potential capabilities or ones with no byte 0 where one is needed and
-- grants them, and accepts each request.
pub agent_on_load_lem :
    (vm : Vm) (stamp : Bytes) (initial : Settings) (options : Option Bytes) (l : Loaded)
    → agent_on_load vm stamp initial options ≡ ok l
    → IsLoaded vm stamp initial options l ⊎ IsRefused vm l
unfolding agent_on_load
agent_on_load_lem vm stamp initial options l h = elim (Bool-cases vm.get_env) [
  | inr no_env ↦ inr (
      refused vm 1 [] l (λ s. absurd (cc (sym no_env ∙ s.has_env))) (λ k. tt)
        (rw (no_env, agent_on_load) at h))
  | inl env ↦ elim (Bool-cases (prepare_jvmti vm).0) [
    | inr lacks ↦ inr (
        refused vm 0 (prepare_jvmti vm).1 l
          (λ s. absurd (cc (sym lacks ∙ (prepare_iff vm).1 s.grants))) (λ k. prepare_requests vm)
          (rw (env, agent_on_load, lacks) at h))
    | inl granted ↦ elim (Bool-cases (register_jvmti vm).0) [
      | inr fails ↦ inr (
          refused vm 1 ((prepare_jvmti vm).1 ++ (register_jvmti vm).1) l
            (λ s. absurd (cc (sym fails ∙ (register_iff vm).1 s.registers)))
            (λ k. absurd (omega (arith, k))) (rw (env, agent_on_load, granted, fails) at h))
      | inl registered ↦ inl (
          loaded vm stamp initial options (prepare_jvmti vm).1 (register_jvmti vm).1 l
            (record {
              has_env = env;
              grants = (prepare_iff vm).0 granted;
              registers = (register_iff vm).0 registered;
            })
            (register_requests vm registered) (rw (env, agent_on_load, granted, registered) at h))
    ]
  ]
]
