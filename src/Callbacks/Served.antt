-- ===== src/Callbacks/Served.antt =====
-- A signal to a user thread is served, wherever the callbacks have led.
use jcoz.Base.{
  ℕ, ◌^◌, ◌<◌, ◌≡◌, sym, ap, ◌∙◌, true, false, [], none, some, if◌then◌else◌, arith, ok, halt,
  fault, is_ok-eq,
}
use jcoz.Sleep.{Kernel}
use jcoz.Profiler.{Profiler, is_member}
use jcoz.Profiler.Handler.{CallTrace, is_unknown_error, sample, experiment_signal, handle}
use jcoz.Profiler.Reached.{handle_ok}
use jcoz.Callbacks.{Threads, with_profiler, signalled}
use jcoz.Callbacks.Servable.{Events, Events-IsServable, start-IsServable}

served :
    (nanosleep : Kernel) (now t : ℕ) (p : Profiler) (trace : CallTrace)
    → p.prof_ready ≡ true
    → is_unknown_error trace ≡ false
    → handle nanosleep now true p t trace
      ≡ (if p.in_experiment then experiment_signal nanosleep now p t trace else sample p t trace)
unfolding handle
served nanosleep now t p trace ready known = ground arith

handled :
    (r : Threads) (t : ℕ) (nanosleep : Kernel) (now : ℕ) (trace : CallTrace)
    → r.has_env t ≡ true
    → handle nanosleep now (r.has_env t) r.profiler t trace
      ≡ handle nanosleep now true r.profiler t trace
handled r t nanosleep now trace e = ap (λ b. handle nanosleep now b r.profiler t trace) e

missing :
    (nanosleep : Kernel) (now t : ℕ) (r : Threads)
    → r.profiler.prof_ready ≡ true
    → r.has_env t ≡ true
    → signalled nanosleep now none r t ≡ halt fault
unfolding signalled
missing nanosleep now t r ready env = rw (ready, env)

-- After any thread starts, thread ends, signals and breakpoints from a start with no user thread, a
-- signal to a thread in the set, once the profiler is ready and with an index of sampled frames
-- below 2^31, is served: with a trace of a known error code it is neither dropped nor a fault and
-- does what the branch for the current phase does; with a null AsyncGetCallTrace it is a fault.
pub signalled-served :
    {s r : Threads} (nanosleep : Kernel) (now t : ℕ) (function : ℕ → CallTrace)
    → s.profiler.user_threads ≡ []
    → Events s r
    → is_member t r.profiler.user_threads ≡ true
    → (r.profiler.prof_ready ≡ true) × (r.profiler.call_index < 2 ^ 31)
    → is_unknown_error (function t) ≡ false
    → (q : Profiler) × (signalled nanosleep now (some function) r t
        ≡ ok (record r { profiler = q }))
      × ((if r.profiler.in_experiment
            then experiment_signal nanosleep now r.profiler t (function t)
            else sample r.profiler t (function t))
          ≡ ok q)
      × (signalled nanosleep now none r t ≡ halt fault)
unfolding signalled
signalled-served {s} {r} nanosleep now t function none_yet es m (ready, small) known =
    let h = Events-IsServable es (start-IsServable s none_yet) in
    let trace = function t in
    let (q, e) =
      is_ok-eq (handle nanosleep now true r.profiler t trace)
        (handle_ok nanosleep now true r.profiler t trace (h.safe t m) small) in
    (
      q,
      ap (with_profiler r) (handled r t nanosleep now trace (h.env t m) ∙ e),
      sym (served nanosleep now t r.profiler trace ready known) ∙ e,
      missing nanosleep now t r ready (h.env t m),
    )
