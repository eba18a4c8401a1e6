-- ===== src/Lifecycle/Session.antt =====
-- What a session comes to: the start of the profiler, any classes that are prepared, the VM's death.
use jcoz.Base.{
  some-injective, ℕ, ◌≡◌, refl, sym, ap, subst, ◌∙◌, ◌↔◌, ◌⊎◌, inl, inr, Bool, true, false, not,
  ◌&&◌, List, [], ◌∷◌, ◌++◌, Option, none, some, Bool-cases, All, Result, ok, halt, ok-injective,
  >>=-eq-ok,
}
use jcoz.Profiler.{is_member}
use jcoz.Progress.{LineTables, clear_progress_point}
use jcoz.Startup.{EventKind, enable_event, disable_event}
use jcoz.Classes.{Classes, Class, create_jmethod_ids, load_classes}
use jcoz.Classes.Lock.{IsKnown}
use jcoz.Classes.Loaded.{load_classes_lock}
use jcoz.Classes.Brought.{SomeBrings, load_classes_scope}
use jcoz.Classes.Armed.{left, IsArmed, clear-left, HasMethods, create-IsArmed, load-IsArmed}
use jcoz.Lifecycle.{
  handler, ignored, Machine, Jni, create_thread, update_events_enabled_state, start, then_run_agent,
  run_agent, run_profiler, with_classes, on_class_prepare, stop_profiler, on_vm_death,
}

-- What run_profiler went through.
record Went (tables : LineTables) (jni : Jni) (self : ℕ) (classes : List Class) (m q : Machine)
    : Type 0 where
  pub loads :
      load_classes tables self (record m.classes { running = true }) classes ≡ some (ok q.classes)
  pub sigprof : q.sigprof ≡ handler
  pub thread : ℕ
  pub created : create_thread jni ≡ ok thread
  pub runs : q.agent_threads ≡ m.agent_threads ++ thread ∷ []
  pub asks : q.requests ≡ m.requests ++ enable_event EventKind.class_prepare ∷ []

went :
    (tables : LineTables) (jni : Jni) (self : ℕ) (classes : List Class) (m started q : Machine)
    (r : Option (Result Classes))
    → load_classes tables self (record m.classes { running = true }) classes ≡ r
    → (started.sigprof ≡ handler)
      × (started.agent_threads ≡ m.agent_threads)
      × (started.requests ≡ m.requests ++ enable_event EventKind.class_prepare ∷ [])
    → then_run_agent jni started r ≡ some (ok q)
    → Went tables jni self classes m q
went tables jni self classes m started q none e s h = absurd cc
went tables jni self classes m started q (some (halt reason)) e s h = absurd cc
went tables jni self classes m started q (some (ok c)) e (acts, threads, asked) h =
    let (thread, created, f) =
      >>=-eq-ok (create_thread jni) _ (some-injective (run_agent jni started c) (ok q) h) in
    let same = ok-injective _ q f in
    record {
      loads = e ∙ ap (λ (x : Machine). some (ok x.classes)) same;
      sigprof = ap (λ (x : Machine). x.sigprof) (sym same) ∙ acts;
      thread = thread;
      created = created;
      runs =
          ap (λ (x : Machine). x.agent_threads) (sym same) ∙ ap (λ ts. ts ++ thread ∷ []) threads;
      asks = ap (λ (x : Machine). x.requests) (sym same) ∙ asked;
    }

run_profiler-Went :
    (tables : LineTables) (jni : Jni) (self : ℕ) (classes : List Class) (m q : Machine)
    → run_profiler tables jni self (some classes) m ≡ some (ok q)
    → Went tables jni self classes m q
unfolding run_profiler
run_profiler-Went tables jni self classes m q h =
    went tables jni self classes m (update_events_enabled_state enable_event (start m)) q _ refl
      (refl, refl, refl) h

-- The machine that run_profiler leaves behind it.
pub record IsReady (m q : Machine) (jni : Jni) (classes : List Class) : Type 0 where
  pub sigprof : q.sigprof ≡ handler
  pub lock : q.classes.class_prep_lock ≡ m.classes.class_prep_lock
  pub scope :
      (x : ℕ)
      → (is_member x q.classes.in_scope_ids ≡ true) ↔ (
          (is_member x m.classes.in_scope_ids ≡ true)
          ⊎ SomeBrings m.classes.ignored_scopes m.classes.search_scopes x classes)
  pub thread : ℕ
  pub created : create_thread jni ≡ ok thread
  pub runs : q.agent_threads ≡ m.agent_threads ++ thread ∷ []
  pub asks : q.requests ≡ m.requests ++ enable_event EventKind.class_prepare ∷ []

-- When run_profiler comes back, over loaded classes each with methods or a signature that JVMTI
-- gives, SIGPROF goes to the handler, the preparation lock is as before, the methods in scope are
-- those before and those of the loaded classes in the allowed scope, CLASS_PREPARE was asked for,
-- and an agent thread on the new Java thread.
pub run_profiler-IsReady :
    (tables : LineTables) (jni : Jni) (self : ℕ) (classes : List Class) (m q : Machine)
    → All IsKnown classes
    → run_profiler tables jni self (some classes) m ≡ some (ok q)
    → IsReady m q jni classes
run_profiler-IsReady tables jni self classes m q known h =
    let w = run_profiler-Went tables jni self classes m q h in
    record {
      sigprof = w.sigprof;
      lock = load_classes_lock tables self _ q.classes classes known w.loads;
      scope = λ x. load_classes_scope tables self x _ q.classes classes refl w.loads;
      thread = w.thread;
      created = w.created;
      runs = w.runs;
      asks = w.asks;
    }

-- run_profiler, then any number of class preparations, on any threads. No method that JVMTI gives is
-- null.
pub data Session (tables : LineTables) (m : Machine) : Machine → Type 0 where
  begins :
      (jni : Jni) (self : ℕ) (classes : List Class) {q : Machine}
      → All HasMethods classes
      → run_profiler tables jni self (some classes) m ≡ some (ok q)
      → Session tables m q
  prepares :
      (self : ℕ) (class : Class) {q r : Machine}
      → Session tables m q
      → HasMethods class
      → on_class_prepare tables self class q ≡ some (ok r)
      → Session tables m r

with_classes-ok :
    (m q : Machine) (r : Option (Result Classes))
    → with_classes m r ≡ some (ok q)
    → r ≡ some (ok q.classes)
with_classes-ok m q none h = absurd cc
with_classes-ok m q (some (halt reason)) h = absurd cc
with_classes-ok m q (some (ok c)) h =
    ap (λ (x : Machine). some (ok x.classes)) (ok-injective _ q (some-injective _ (ok q) h))

Session-IsArmed :
    {tables : LineTables} {m q : Machine}
    → Session tables m q
    → IsArmed m.classes.progress
    → IsArmed q.classes.progress
unfolding on_class_prepare
Session-IsArmed {tables} {m} (begins jni self classes {q} valid h) armed =
    let w = run_profiler-Went tables jni self classes m q h in
    load-IsArmed tables self _ q.classes classes valid w.loads armed
Session-IsArmed {tables} {m} (prepares self class {q} {r} s valid h) armed =
    create-IsArmed tables self q.classes r.classes class valid (with_classes-ok q r _ h)
      (Session-IsArmed s armed)

-- Nothing is left of the profiler.
pub record IsQuiet (q : Machine) : Type 0 where
  pub breakpoints : left q.classes.progress.calls ≡ none
  pub scope : q.classes.in_scope_ids ≡ []
  pub sigprof : q.sigprof ≡ ignored
  pub inert :
      (tables : LineTables) (self : ℕ) (class : Class)
      → on_class_prepare tables self class q ≡ some (ok q)

not_running :
    (tables : LineTables) (self : ℕ) (c : Classes) (class : Class)
    → c.running ≡ false
    → create_jmethod_ids tables self c class ≡ some (ok c)
unfolding create_jmethod_ids
not_running tables self c class h = rw h

-- What OnVMDeath leaves, if it comes back.
dead : Machine → Machine
dead q = record q {
  classes = record q.classes {
    running = false;
    in_scope_ids = [];
    progress = clear_progress_point q.classes.progress;
  };
  sigprof = ignored;
  requests = q.requests ++ disable_event EventKind.class_prepare ∷ [];
}

death-dead :
    (profile_done : Bool) (q r : Machine) → on_vm_death profile_done q ≡ some r → dead q ≡ r
unfolding on_vm_death stop_profiler dead
death-dead profile_done q r h = elim (Bool-cases (q.classes.running && not profile_done)) [
  | inl waits ↦ absurd (cc (rw (waits, on_vm_death, stop_profiler) at h))
  | inr comes ↦ some-injective _ r (rw (comes, on_vm_death, stop_profiler) at h)
]

-- If OnVMDeath comes back after a session then no breakpoint is left, no method is in scope, SIGPROF
-- is ignored, and preparing a class changes nothing, where the breakpoints agreed with the progress
-- point before the session.
pub on_vm_death-IsQuiet :
    {tables : LineTables} {m q : Machine} (profile_done : Bool) (r : Machine)
    → Session tables m q
    → IsArmed m.classes.progress
    → on_vm_death profile_done q ≡ some r
    → IsQuiet r
unfolding dead on_class_prepare
on_vm_death-IsQuiet {tables} {m} {q} profile_done r s armed h =
    subst IsQuiet (death-dead profile_done q r h) (record {
      breakpoints = clear-left q.classes.progress (Session-IsArmed s armed);
      scope = refl;
      sigprof = refl;
      inert = λ others self class.
          ap (with_classes (dead q)) (not_running others self (dead q).classes class refl);
    })
