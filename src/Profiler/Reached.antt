-- ===== src/Profiler/Reached.antt =====
-- After any interleaving of the threads' events, SIGPROF finds the objects that it needs.
use jcoz.Base.{
  ℕ, ◌^◌, ◌<◌, ◌≡◌, refl, sym, ap, subst, ◌∙◌, inl, inr, Bool, true, false, [], Option, none, some,
  arith, ok, halt, fault, is_ok, is_ok-eq,
}
use jcoz.Base.Int.{pos}
use jcoz.Frame.{CallFrame}
use jcoz.Sleep.{Kernel}
use jcoz.Profiler.{UserThread, Cell, null, live, freed, Profiler, is_member, put, with_ut}
use jcoz.Profiler.Threads.{add_user_thread, remove_user_thread, handle_breakpoint}
use jcoz.Profiler.Handler.{CallTrace, record_frame, record_first, sample, experiment_signal, handle}
use jcoz.Profiler.Objects.{
  is_live, IsSafe, Step, thread_start, thread_end, signal, breakpoint, other, Reach, here, next,
  Kept-IsSafe, handle-Kept, handle_cases, handle_breakpoint-Kept, add_user_thread-IsSafe,
  remove_user_thread-IsSafe,
}

Step-IsSafe : {p q : Profiler} → Step p q → IsSafe p → IsSafe q
Step-IsSafe {p} (thread_start t thread b free) safe = add_user_thread-IsSafe p t thread b free safe
Step-IsSafe {p} {q} (thread_end t e) safe = remove_user_thread-IsSafe p q t e safe
Step-IsSafe {p} {q} (signal nanosleep now t env trace m e) safe =
    Kept-IsSafe p q (handle-Kept nanosleep now env p q t trace e) safe
Step-IsSafe {p} {q} (breakpoint t e) safe = Kept-IsSafe p q (handle_breakpoint-Kept p q t e) safe
Step-IsSafe {p} {q} (other e f) safe = λ s m.
    subst (λ c. is_live (c s) ≡ true) (sym f) (safe s (subst (λ ts. is_member s ts ≡ true) e m))

pub Reach-IsSafe : {p q : Profiler} → IsSafe p → Reach p q → IsSafe q
Reach-IsSafe safe here = safe
Reach-IsSafe safe (next r st) = Step-IsSafe st (Reach-IsSafe safe r)

record_first_ok :
    (p : Profiler) (o : Option CallFrame) → p.call_index < 2 ^ 31 → is_ok (record_first p o) ≡ true
unfolding record_frame
record_first_ok p none h = refl
record_first_ok p (some f) h = ground arith

sample_ok :
    (p : Profiler) (t : ℕ) (trace : CallTrace) (u : UserThread)
    → p.curr_ut t ≡ live u
    → p.call_index < 2 ^ 31
    → is_ok (sample p t trace) ≡ true
unfolding sample put
sample_ok p t trace u e h =
    rw (e, sample, with_ut)
      (record_first_ok (put p t (live (record u { local_delay = pos 0 }))) _ h)

experiment_signal_ok :
    (nanosleep : Kernel) (now : ℕ) (p : Profiler) (t : ℕ) (trace : CallTrace) (u : UserThread)
    → p.curr_ut t ≡ live u
    → is_ok (experiment_signal nanosleep now p t trace) ≡ true
unfolding experiment_signal
experiment_signal_ok nanosleep now p t trace u e = rw (e, experiment_signal, with_ut)

live_object : (c : Cell) → is_live c ≡ true → (u : UserThread) × (c ≡ live u)
live_object null h = cc
live_object (live u) h = (u, refl)
live_object freed h = cc

pub handle_ok :
    (nanosleep : Kernel) (now : ℕ) (env : Bool) (p : Profiler) (t : ℕ) (trace : CallTrace)
    → is_live (p.curr_ut t) ≡ true
    → p.call_index < 2 ^ 31
    → is_ok (handle nanosleep now env p t trace) ≡ true
handle_ok nanosleep now env p t trace alive h =
    let (u, cell) = live_object (p.curr_ut t) alive in
    elim (handle_cases nanosleep now env p t trace) [
      | inl e ↦ ap is_ok e
      | inr (inl e) ↦ ap is_ok e ∙ sample_ok p t trace u cell h
      | inr (inr e) ↦ ap is_ok e ∙ experiment_signal_ok nanosleep now p t trace u cell
    ]

-- Wherever the threads' events have led from a start with no user thread, a signal to a thread in
-- the set is handled without a fault, as long as the index of sampled frames is below 2^31.
pub handle_safe :
    {p q : Profiler} (nanosleep : Kernel) (now t : ℕ) (env : Bool) (trace : CallTrace)
    → p.user_threads ≡ []
    → Reach p q
    → is_member t q.user_threads ≡ true
    → q.call_index < 2 ^ 31
    → (r : Profiler) × (handle nanosleep now env q t trace ≡ ok r)
unfolding is_member
handle_safe {p} {q} nanosleep now t env trace none_yet r m h =
    is_ok-eq (handle nanosleep now env q t trace)
      (handle_ok nanosleep now env q t trace (Reach-IsSafe {p = p} start r t m) h)
  where
    start : IsSafe p
    start s k = absurd (ground arith)

-- A breakpoint reached by a thread that was added from outside the group main, or by one that was
-- removed with its object, is a fault, in an experiment or not.
pub handle_breakpoint_fault :
    (p q : Profiler) (t thread : ℕ)
    → is_live (p.curr_ut t) ≡ true
    → remove_user_thread p t ≡ ok q
    → (handle_breakpoint (add_user_thread p t thread false) t ≡ halt fault)
      × (handle_breakpoint q t ≡ halt fault)
unfolding handle_breakpoint add_user_thread remove_user_thread
handle_breakpoint_fault p q t thread a e = (ground arith, ground arith)
