-- ===== src/Profiler/Synchronisation.antt =====
-- A thread's ten signals in an experiment, with the last one, at which it synchronises with the global
-- delay, Handle of src/profiler.cc.
use jcoz.Base.{
  ℕ, suc, max, ◌+◌, ◌*◌, ◌≤◌, ◌<◌, ◌≡◌, ◌≢◌, refl, ap, subst, ◌∙◌, true, false, List, [], ◌∷◌, ◌++◌,
  ok-injective, >>=-eq-ok, if◌then◌else◌, length, All, ==_refl, ==_iff, ◌==◌, Bool-cases, inl, inr,
  arith, ok, ◌>>=◌,
}
use jcoz.Base.Int.{pos, ◌≤ℤ◌}
use jcoz.Sleep.{Kernel, nanos_per_second, IsPosix}
use jcoz.Experiment.{Experiment}
use jcoz.Profiler.{update, UserThread, live, Profiler, add_points}
use jcoz.Profiler.Handler.{CallTrace, is_unknown_error, handle}
use jcoz.Profiler.Delays.{third, hits, IsBounded}
use jcoz.Profiler.Signals.{charged, Tenth, handle-Tenth}
use jcoz.Profiler.Cycle.{handle_each, visits, Counting, counts}

-- The signals that lead to the synchronisation, with the last one.
abbrev pub all_ten : List CallTrace → CallTrace → List CallTrace
all_ten traces last = traces ++ last ∷ []

handle_each-append :
    (nanosleep : Kernel) (now : ℕ) (traces : List CallTrace) (last : CallTrace) (p q : Profiler)
    (t : ℕ)
    → handle_each nanosleep now p t traces ≡ ok q
    → handle_each nanosleep now p t (all_ten traces last)
      ≡ (handle nanosleep now true q t last >>= ok)
unfolding handle_each
handle_each-append nanosleep now [] last p q t e =
    ap (λ (x : Profiler). handle nanosleep now true x t last >>= ok) (ok-injective p q e)
handle_each-append nanosleep now (trace ∷ traces) last p q t e =
    let (r, f, g) = >>=-eq-ok (handle nanosleep now true p t trace) _ e in
    ap (λ x. x >>= (λ y. handle_each nanosleep now y t (all_ten traces last))) f
    ∙ handle_each-append nanosleep now traces last r q t g

visits-append :
    (e : Experiment) (traces : List CallTrace) (last : CallTrace)
    → visits e (all_ten traces last) ≡ visits e traces + (if hits e last then 1 else 0)
visits-append e [] last = omega arith
visits-append e (trace ∷ traces) last = omega (arith, visits-append e traces last)

-- What ten signals come to.
pub record Cycle (p q : Profiler) (t : ℕ) (u : UserThread) (g l : ℕ) : Type 0 where
  pub after : UserThread
  pub cell : q.curr_ut t ≡ live after
  pub others : (s : ℕ) → s ≢ t → q.curr_ut s ≡ p.curr_ut s
  pub global_max : q.global_delay ≡ pos (max g l)
  pub caught_up : q.global_delay ≤ℤ after.local_delay
  pub counter_reset : after.num_signals_received ≡ 0
  pub points_moved : q.points_hit ≡ add_points p.points_hit u.points_hit
  pub points_reset : after.points_hit ≡ pos 0

Tenth-Cycle :
    (p q r : Profiler) (t n m g l : ℕ) (u v w : UserThread)
    → Counting p q t u v n m
    → Tenth q r t v w g l
    → Cycle p r t u g l
Tenth-Cycle p q r t n m g l u v w a b = record {
  after = w;
  cell = ap (λ c. c t) b.cells ∙ here;
  others = λ s other. ap (λ c. c s) b.cells ∙ elsewhere s other ∙ a.others s other;
  global_max = b.global_max;
  caught_up = b.caught_up;
  counter_reset = b.counter_reset;
  points_moved = b.points_moved.0 ∙ a.points;
  points_reset = b.points_moved.1;
}
  where
    here : update q.curr_ut t (live w) t ≡ live w
    here = rw (==_refl t) refl

    elsewhere : (s : ℕ) → s ≢ t → update q.curr_ut t (live w) s ≡ q.curr_ut s
    elsewhere s other = elim (Bool-cases (s == t)) [
      | inl same ↦ absurd (other ((==_iff s t).0 same))
      | inr apart ↦ rw apart refl
    ]

-- The last visit is charged by the tenth signal.
last_visit :
    (p q : Profiler) (traces : List CallTrace) (last : CallTrace) (l d : ℕ)
    → q.current_experiment ≡ p.current_experiment
    → charged q last (l + visits p.current_experiment traces * d) d
      ≡ l + visits p.current_experiment (all_ten traces last) * d
last_visit p q traces last l d e =
    rw (e, visits-append p.current_experiment traces last)
      (elim (Bool-cases (hits p.current_experiment last)) [
        | inl x ↦ rw x (grind arith)
        | inr x ↦ rw x (grind arith)
      ])

visits-le : (e : Experiment) (traces : List CallTrace) → visits e traces ≤ length traces
visits-le e [] = omega arith
visits-le e (trace ∷ traces) = ground (arith, visits-le e traces)

-- From one synchronisation to the next: signals to a thread in an experiment, up to its tenth,
-- succeed whatever their traces, if of known error codes. The thread is charged the experiment's
-- delay once for each trace that runs the experiment's code; the global delay becomes the larger of
-- the global delay and the thread's charged delay, and the thread's delay has reached it; its
-- points are in the shared counter; the other threads' objects stay. The kernel keeps to POSIX and
-- its sleeps are bounded, the delays are below 2^61, and the thread is less than a second behind.
pub handle_ten :
    (nanosleep : Kernel) (now : ℕ) (p : Profiler) (t : ℕ) (traces : List CallTrace)
    (last : CallTrace) (u : UserThread) (g d l : ℕ)
    → IsPosix nanosleep
    → IsBounded nanosleep now
    → (p.prof_ready ≡ true) × (p.in_experiment ≡ true)
    → All (λ trace. is_unknown_error trace ≡ false) traces × (is_unknown_error last ≡ false)
    → (p.curr_ut t ≡ live u) × (u.local_delay ≡ pos l)
    → u.num_signals_received + length traces ≡ 9
    → (p.current_experiment.delay ≡ pos d) × (p.global_delay ≡ pos g)
    → (g < third) × (l + suc (length traces) * d < third) × (g < l + nanos_per_second)
    → (q : Profiler) × (handle_each nanosleep now p t (all_ten traces last) ≡ ok q)
      × Cycle p q t u g (l + visits p.current_experiment (all_ten traces last) * d)
handle_ten nanosleep now p t traces last u g d l posix bounded (ready, inside) (known, last_known)
      (cell, hl) nine (hd, hg) (sg, sl, near) =
    let more : suc (length traces) * d ≡ d + length traces * d = grind arith in
    let (q, v, e, c) =
      counts nanosleep now traces p t u d l (ready, inside) known (cell, hl) (omega (arith, nine))
        hd (omega (arith, sl, more)) in
    let few : visits p.current_experiment traces * d ≤ length traces * d =
      grind (arith, visits-le p.current_experiment traces) in
    let (r, w, f, tenth) =
      handle-Tenth nanosleep now q t last v g d (l + visits p.current_experiment traces * d) posix
        bounded (c.ready ∙ ready, c.inside ∙ inside, last_known)
        (c.cell, omega (arith, c.received, nine), c.delay)
        (ap (λ (x : Experiment). x.delay) c.experiment ∙ hd, c.global ∙ hg)
        (sg, omega (arith, sl, more, few), omega (arith, near)) in
    (
      r,
      handle_each-append nanosleep now traces last p q t e ∙ ap (λ x. x >>= ok) f,
      subst (Cycle p r t u g) (last_visit p q traces last l d c.experiment)
          (Tenth-Cycle p q r t _ _ g _ u v w c tenth),
    )
