-- ===== src/Examples/Signals.antt =====
-- The signal handler on concrete states.
use native.Mathlib.Decide.{dec_lt}
use jcoz.Base.{
  ◌≤◌, ℕ, sym, subst, List, All, ◌*◌, ◌+◌, ◌<◌, ◌≡◌, refl, true, false, [], ◌∷◌, arith, ok,
}
use jcoz.Base.Int.{pos}
use jcoz.Profiler.{UserThread, live, Profiler, is_member, insert}
use jcoz.Profiler.Handler.{CallTrace, is_unknown_error}
use jcoz.Sleep.{jcoz_sleep, sleep_loop, nanos_per_second}
use jcoz.Profiler.Lead.{IsPrecise, Leads, IsLed, Led, handle_all-Led}
use jcoz.Profiler.Cycle.{handle_each, visits}
use jcoz.Profiler.Synchronisation.{Cycle, all_ten, handle_ten}
use jcoz.Profiler.Threads.{add_user_thread}
use jcoz.Profiler.Sampling.{Sampled, Signal, handle_all, samples, handle_all-Sampled}
use jcoz.Profiler.Objects.{Reach, here, next, thread_start}
use jcoz.Examples.{exact, exact-IsPosix, exact-IsBounded, trace, thread, idle, with_thread, running}

abbrev signal : Signal
signal = record { now = 0; thread = 1; trace = trace }

idle-Sampled : Sampled (with_thread 0) (7 ∷ []) []
idle-Sampled = record {
  ready = refl;
  outside = refl;
  scope = refl;
  holds = record { counted = refl; sized = refl; contents = refl };
}

handle_all-Sampled_example :
    (q : Profiler) × (handle_all exact (with_thread 0) (signal ∷ []) ≡ ok q)
    × Sampled q (7 ∷ []) (samples (7 ∷ []) (signal ∷ []))
handle_all-Sampled_example =
    handle_all-Sampled exact (with_thread 0) (7 ∷ []) [] (signal ∷ []) idle-Sampled
      (((thread 0, refl), refl), tt) (omega arith)

started : Reach idle (add_user_thread idle 1 11 true)
unfolding is_member
started = next here (thread_start 1 11 true refl)

first_member : is_member 1 (add_user_thread idle 1 11 true).user_threads ≡ true
unfolding is_member add_user_thread insert
first_member = refl

no_frame : (add_user_thread idle 1 11 true).call_index < 2147483648
unfolding add_user_thread
no_frame = omega arith

abbrev nine : List CallTrace
nine = trace ∷ trace ∷ trace ∷ trace ∷ trace ∷ trace ∷ trace ∷ trace ∷ trace ∷ []

nine-All_known : All (λ (x : CallTrace). is_unknown_error x ≡ false) nine
nine-All_known = (refl, (refl, (refl, (refl, (refl, (refl, (refl, (refl, (refl, tt)))))))))

handle_ten_example :
    (q : Profiler) × (handle_each exact 0 (running 0) 1 (all_ten nine trace) ≡ ok q)
    × Cycle
        (running 0)
        q
        1
        (thread 0)
        30
        (20 + visits (running 0).current_experiment (all_ten nine trace) * 500)
handle_ten_example =
    handle_ten exact 0 (running 0) 1 nine trace (thread 0) 30 500 20 exact-IsPosix exact-IsBounded
      (refl, refl) (nine-All_known, refl) (refl, refl) refl (refl, refl)
      (omega arith, omega arith, omega arith)

exact-slept : (now n : ℕ) → n < nanos_per_second → jcoz_sleep exact now (pos n) ≡ pos n
unfolding jcoz_sleep sleep_loop
exact-slept now n h = ground arith

exact-refused : (now n : ℕ) → nanos_per_second ≤ n → jcoz_sleep exact now (pos n) ≡ pos 0
unfolding jcoz_sleep sleep_loop
exact-refused now n h = ground arith

exact-IsPrecise : IsPrecise exact 0
exact-IsPrecise now n = elim (dec_lt n nanos_per_second) [
  | yes below ↦ (n, exact-slept now n below, omega arith)
  | no above ↦ (0, exact-refused now n (omega arith), omega arith)
]

only_thread : (t : ℕ) (u : UserThread) → (running 0).curr_ut t ≡ live u → u ≡ thread 0
only_thread t u e = ground (arith, e)

running-IsLed : IsLed 30 30 500 0 (running 0)
running-IsLed = record {
  ready = refl;
  inside = refl;
  delay = refl;
  global = refl;
  low = omega arith;
  each = λ t u e. subst (Leads 30 30 500 0) (sym (only_thread t u e)) (record {
    delay = 20;
    is_delay = refl;
    few = omega arith;
    lead = omega arith;
    low = omega arith;
  });
}

handle_all-Led_example :
    (q : Profiler) × (handle_all exact (running 0) (signal ∷ signal ∷ []) ≡ ok q)
    × Led (30 + 2 * 500) 30 500 0 q
handle_all-Led_example =
    handle_all-Led exact 30 30 500 0 (signal ∷ signal ∷ []) (running 0) exact-IsPrecise
      running-IsLed (((thread 0, refl), refl), (((thread 0, refl), refl), tt)) (omega arith)
