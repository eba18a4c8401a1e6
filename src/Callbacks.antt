-- ===== src/Callbacks.antt =====
-- The callbacks of the user threads with what src/globals.h and src/stacktraces.h keep for them: the
-- JNI environment of each thread, and the function AsyncGetCallTrace. OnThreadStart and OnThreadEnd of
-- src/entry.cc, and the head of Profiler::Handle of src/profiler.cc.
pub mod Servable
pub mod Served
pub mod Rounds
pub mod Flushed
use jcoz.Base.{
  List, [], ◌∷◌, ℕ, Bool, true, false, not, Option, none, some, ◌==◌, if◌then◌else◌, Result, ok,
  halt, fault, ◌>>=◌,
}
use jcoz.Text.{Bytes}
use jcoz.Sleep.{Kernel}
use jcoz.Profiler.{Profiler}
use jcoz.Profiler.Threads.{Answer, on_thread_start, remove_user_thread}
use jcoz.Profiler.Handler.{CallTrace, handle}

-- `env_` is null on a thread until it is set.
pub record Threads : Type 0 where
  pub profiler : Profiler
  pub has_env : ℕ → Bool

abbrev pub set_current_jni_env : (ℕ → Bool) → ℕ → ℕ → Bool
set_current_jni_env has_env t s = if s == t then true else has_env s

abbrev pub with_profiler : Threads → Result Profiler → Result Threads
with_profiler s r = r >>= (λ p. ok (record s { profiler = p }))

-- OnThreadStart on thread `t`
unfoldable pub thread_started : Threads → ℕ → ℕ → Answer ℕ → (ℕ → Answer Bytes) → Result Threads
thread_started s t thread info group_name =
    with_profiler (record s { has_env = set_current_jni_env s.has_env t })
      (on_thread_start s.profiler t thread info group_name)

-- OnThreadEnd
unfoldable pub thread_ended : Threads → ℕ → Result Threads
thread_ended s t = with_profiler s (remove_user_thread s.profiler t)

-- SIGPROF on thread `t`, with the function that asgct_ points to
unfoldable pub signalled : Kernel → ℕ → Option (ℕ → CallTrace) → Threads → ℕ → Result Threads
signalled nanosleep now asgct s t = elim asgct [
  | some function ↦ with_profiler s (handle nanosleep now (s.has_env t) s.profiler t (function t))
  | none ↦
      if not s.profiler.prof_ready then ok s else if not (s.has_env t) then ok s else halt fault
]

-- The loop of signal_user_threads, where each signal is handled before the next one is sent; `now t` is
-- the time at which thread `t` handles its own.
unfoldable pub signal_each :
    Kernel → (ℕ → ℕ) → Option (ℕ → CallTrace) → Threads → List ℕ → Result Threads
unfolding signalled
signal_each nanosleep now asgct s [] = ok s
signal_each nanosleep now asgct s (t ∷ ts) =
    signalled nanosleep (now t) asgct s t >>= (λ r. signal_each nanosleep now asgct r ts)

abbrev pub signal_user_threads :
    Kernel → (ℕ → ℕ) → Option (ℕ → CallTrace) → Threads → Result Threads
signal_user_threads nanosleep now asgct s =
    signal_each nanosleep now asgct s s.profiler.user_threads
