-- ===== src/Lifecycle/Loaded.antt =====
-- The start of the profiler on what the agent's options were parsed to, src/entry.cc.
use jcoz.Base.{
  ℕ, ◌≡◌, ◌≢◌, refl, sym, ap, subst, ◌∙◌, ◌↔◌, ◌⊎◌, inl, inr, true, List, [], ◌∷◌, ◌++◌, Option,
  none, some, All, some-injective, Result, ok, halt, Halt,
}
use jcoz.Text.{Bytes}
use jcoz.Options.{Settings}
use jcoz.Options.Whole.{IsComplete, parse_options-IsComplete}
use jcoz.Startup.{Request, EventKind, enable_event, Vm, Loaded, agent_on_load}
use jcoz.Startup.Loading.{agent_on_load_lem, registration}
use jcoz.Profiler.{is_member}
use jcoz.Progress.{LineTables}
use jcoz.Classes.{Classes, Class, narrow, create_ids_locked, and_then, load_classes}
use jcoz.Classes.Lock.{IsKnown, IsPthread, create_free, create_jmethod_ids_lock}
use jcoz.Classes.Brought.{SomeBrings, create-After}
use jcoz.Lifecycle.{
  handler, Machine, Jni, create_thread, update_events_enabled_state, start, then_run_agent,
  run_profiler, loaded_machine,
}
use jcoz.Lifecycle.Session.{IsReady, run_profiler-IsReady}

-- A running profiler with a free lock does not wait for it.
and_then-some :
    (r : Result Classes) (next : Classes → Option (Result Classes))
    → ((c : Classes) → r ≡ ok c → next c ≢ none)
    → and_then (some r) next ≢ none
and_then-some (halt reason) next h e = absurd cc
and_then-some (ok c) next h e = h c refl e

load-some :
    (tables : LineTables) (self : ℕ) (c : Classes) (classes : List Class)
    → (c.running ≡ true) × (c.class_prep_lock ≡ 0)
    → IsPthread self
    → All IsKnown classes
    → load_classes tables self c classes ≢ none
unfolding load_classes
load-some tables self c [] free own known e = absurd cc
load-some tables self c (class ∷ classes) (run, free) own (known, others) e =
    let first = create_free tables self c class run free own in
    let next : Classes → Option (Result Classes) = λ q. load_classes tables self q classes in
    and_then-some (create_ids_locked tables (record c { class_prep_lock = narrow self }) class true)
      next
      (λ d f.
        let step = first ∙ ap some f in
        load-some tables self d classes
          (
            (create-After tables self 0 c d class run step).0.running ∙ run,
            create_jmethod_ids_lock tables self c d class known step ∙ free,
          )
          own others)
      (ap (λ o. and_then o next) (sym first) ∙ e)

run_some :
    (jni : Jni) (m : Machine) (r : Option (Result Classes))
    → r ≢ none
    → then_run_agent jni m r ≢ none
run_some jni m none h e = h refl
run_some jni m (some (halt reason)) h e = absurd cc
run_some jni m (some (ok c)) h e = absurd cc

run_profiler-some :
    (tables : LineTables) (jni : Jni) (self : ℕ) (classes : List Class) (m : Machine)
    → m.classes.class_prep_lock ≡ 0
    → IsPthread self
    → All IsKnown classes
    → run_profiler tables jni self (some classes) m ≢ none
unfolding run_profiler
run_profiler-some tables jni self classes m free own known =
    run_some jni (update_events_enabled_state enable_event (start m)) _
      (load-some tables self (record m.classes { running = true }) classes (refl, free) own known)

-- A result that is there: the process ends, or a value.
result_cases {ℓ} :
    {A : Type ℓ} (o : Option (Result A))
    → o ≢ none
    → ((reason : Halt) × (o ≡ some (halt reason))) ⊎ ((a : A) × (o ≡ some (ok a)))
result_cases none h = absurd (h refl)
result_cases (some (halt reason)) h = inl (reason, refl)
result_cases (some (ok a)) h = inr (a, refl)

-- The profiler as the options ask for it.
pub record IsStarted (settings : Settings) (jni : Jni) (classes : List Class) (q : Machine)
    : Type 0 where
  pub complete : IsComplete settings
  pub sigprof : q.sigprof ≡ handler
  pub lock : q.classes.class_prep_lock ≡ 0
  pub scope :
      (x : ℕ)
      → (is_member x q.classes.in_scope_ids ≡ true)
        ↔ SomeBrings settings.ignored_scopes settings.search_scopes x classes
  pub thread : ℕ
  pub created : create_thread jni ≡ ok thread
  pub runs : q.agent_threads ≡ thread ∷ []
  pub first : List Request
  pub asked : q.requests ≡ first ++ registration ++ enable_event EventKind.class_prepare ∷ []

started :
    (settings : Settings) (classes : List Class) (jni : Jni) (first requests : List Request)
    (q : Machine)
    → IsComplete settings
    → requests ≡ first ++ registration
    → IsReady (loaded_machine settings requests) q jni classes
    → IsStarted settings jni classes q
unfolding is_member
started settings classes jni first requests q complete asked r = record {
  complete = complete;
  sigprof = r.sigprof;
  lock = r.lock;
  scope = λ x.
      (λ h. elim ((r.scope x).0 h) [ inl old ↦ absurd cc | inr b ↦ b ], λ b. (r.scope x).1 (inr b));
  thread = r.thread;
  created = r.created;
  runs = r.runs;
  first = first;
  asked = r.asks ∙ ap (λ rs. rs ++ enable_event EventKind.class_prepare ∷ []) asked;
}

-- From an Agent_OnLoad that left a profiler with some settings, run_profiler never waits for the
-- preparation lock: the process ends, or the settings are complete, SIGPROF goes to the handler,
-- the lock is free, exactly the methods of the loaded classes in the settings' scope are in scope,
-- the last that JVMTI was asked for are the callbacks, the six events and CLASS_PREPARE, and an
-- agent thread was asked for on the new Java thread. JVMTI gives each class's methods or signature;
-- the thread is a pthread_t from 2^32 to 2^63.
pub run_profiler-IsStarted :
    (vm : Vm) (stamp : Bytes) (initial settings : Settings) (options : Option Bytes) (l : Loaded)
    (tables : LineTables) (jni : Jni) (self : ℕ) (classes : List Class)
    → agent_on_load vm stamp initial options ≡ ok l
    → l.prof ≡ some settings
    → IsPthread self
    → All IsKnown classes
    → let r = run_profiler tables jni self (some classes) (loaded_machine settings l.requests) in
      ((reason : Halt) × (r ≡ some (halt reason)))
      ⊎ ((q : Machine) × (r ≡ some (ok q)) × IsStarted settings jni classes q)
run_profiler-IsStarted vm stamp initial settings options l tables jni self classes h prof own
      known =
    let m = loaded_machine settings l.requests in
    elim (agent_on_load_lem vm stamp initial options l h) [
      | inr refused ↦ absurd (cc (sym refused.prof ∙ prof))
      | inl loaded ↦
          let same = some-injective loaded.settings settings (sym loaded.prof ∙ prof) in
          let complete =
            subst IsComplete same
              (parse_options-IsComplete stamp initial loaded.settings options loaded.parsed) in
          elim (result_cases (run_profiler tables jni self (some classes) m)
            (run_profiler-some tables jni self classes m refl own known)) [
              | inl ends ↦ inl ends
              | inr (q, e) ↦ inr (
                q,
                e,
                started settings classes jni loaded.first l.requests q complete loaded.requests
                    (run_profiler-IsReady tables jni self classes m q known e),
              )
            ]
    ]
