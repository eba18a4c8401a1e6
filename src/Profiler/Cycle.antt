-- ===== src/Profiler/Cycle.antt =====
-- Ten signals of one thread in an experiment: from one synchronisation with the global delay to the
-- next, Handle of src/profiler.cc.
use jcoz.Base.{
  ℕ, suc, ◌+◌, ◌*◌, ◌≤◌, ◌<◌, ◌≡◌, ◌≢◌, refl, ap, subst, ◌∙◌, true, false, List, [], ◌∷◌,
  if◌then◌else◌, length, All, ==_refl, ==_iff, ◌==◌, Bool-cases, inl, inr, arith, Result, ok, ◌>>=◌,
}
use jcoz.Base.Int.{ℤ, pos}
use jcoz.Sleep.{Kernel}
use jcoz.Experiment.{Experiment}
use jcoz.Profiler.{UserThread, live, Profiler, put, add_points}
use jcoz.Profiler.Handler.{CallTrace, is_unknown_error, handle}
use jcoz.Profiler.Delays.{third, hits}
use jcoz.Profiler.Signals.{charged, after_count, handle_counts}

-- Signals to thread `t`, one after another.
unfoldable pub handle_each : Kernel → ℕ → Profiler → ℕ → List CallTrace → Result Profiler
handle_each nanosleep now p t [] = ok p
handle_each nanosleep now p t (trace ∷ traces) =
    handle nanosleep now true p t trace >>= (λ q. handle_each nanosleep now q t traces)

-- How many of the traces run the experiment's code.
abbrev pub visits : Experiment → List CallTrace → ℕ
visits e [] = 0
visits e (trace ∷ traces) = (if hits e trace then 1 else 0) + visits e traces

-- What the signals before the tenth leave alone, and what they change of the thread's object.
pub record Counting (p q : Profiler) (t : ℕ) (u v : UserThread) (n l : ℕ) : Type 0 where
  pub ready : q.prof_ready ≡ p.prof_ready
  pub inside : q.in_experiment ≡ p.in_experiment
  pub experiment : q.current_experiment ≡ p.current_experiment
  pub global : q.global_delay ≡ p.global_delay
  pub cell : q.curr_ut t ≡ live v
  pub others : (s : ℕ) → s ≢ t → q.curr_ut s ≡ p.curr_ut s
  pub received : v.num_signals_received ≡ u.num_signals_received + n
  pub delay : v.local_delay ≡ pos l
  pub points : add_points q.points_hit v.points_hit ≡ add_points p.points_hit u.points_hit

add_points_zero : (n : ℕ) (z : ℤ) → add_points (add_points n z) (pos 0) ≡ add_points n z
add_points_zero n z = omega arith

after_count-Counting :
    (p : Profiler) (t : ℕ) (trace : CallTrace) (u : UserThread) (d l : ℕ)
    → Counting p
        (after_count p t trace u d l)
        t
        u
        (record u {
          local_delay = pos (charged p trace l d);
          num_signals_received = u.num_signals_received + 1;
          points_hit = pos 0;
        })
        1
        (charged p trace l d)
unfolding put
after_count-Counting p t trace u d l = record {
  ready = refl;
  inside = refl;
  experiment = refl;
  global = refl;
  cell = rw (==_refl t) refl;
  others = λ s other. elim (Bool-cases (s == t)) [
    | inl same ↦ absurd (other ((==_iff s t).0 same))
    | inr apart ↦ rw apart refl
  ];
  received = refl;
  delay = refl;
  points = add_points_zero p.points_hit u.points_hit;
}

Counting-trans :
    (p q r : Profiler) (t n l m k : ℕ) (u v w : UserThread)
    → Counting p q t u v n l
    → Counting q r t v w m k
    → Counting p r t u w (n + m) k
Counting-trans p q r t n l m k u v w a b = record {
  ready = b.ready ∙ a.ready;
  inside = b.inside ∙ a.inside;
  experiment = b.experiment ∙ a.experiment;
  global = b.global ∙ a.global;
  cell = b.cell;
  others = λ s other. b.others s other ∙ a.others s other;
  received = omega (arith, a.received, b.received);
  delay = b.delay;
  points = b.points ∙ a.points;
}

Counting-refl :
    (p : Profiler) (t l : ℕ) (u : UserThread)
    → p.curr_ut t ≡ live u
    → u.local_delay ≡ pos l
    → Counting p p t u u 0 l
Counting-refl p t l u cell delay = record {
  ready = refl;
  inside = refl;
  experiment = refl;
  global = refl;
  cell = cell;
  others = λ s other. refl;
  received = omega arith;
  delay = delay;
  points = refl;
}

one_visit :
    (p : Profiler) (trace : CallTrace) (l d n : ℕ)
    → charged p trace l d + n * d ≡ l + ((if hits p.current_experiment trace then 1 else 0) + n) * d
one_visit p trace l d n = elim (Bool-cases (hits p.current_experiment trace)) [
  | inl e ↦ rw e (grind arith)
  | inr e ↦ rw e (grind arith)
]

charged_room :
    (p : Profiler) (trace : CallTrace) (l d n : ℕ)
    → l + suc n * d < third
    → (l + d < third) × (charged p trace l d + n * d < third)
charged_room p trace l d n h =
    let more : suc n * d ≡ d + n * d = grind arith in
    (omega (arith, h, more), ground (arith, h, more))

pub counts :
    (nanosleep : Kernel) (now : ℕ) (traces : List CallTrace) (p : Profiler) (t : ℕ) (u : UserThread)
    (d l : ℕ)
    → (p.prof_ready ≡ true) × (p.in_experiment ≡ true)
    → All (λ trace. is_unknown_error trace ≡ false) traces
    → (p.curr_ut t ≡ live u) × (u.local_delay ≡ pos l)
    → u.num_signals_received + length traces ≤ 9
    → p.current_experiment.delay ≡ pos d
    → l + length traces * d < third
    → (q : Profiler) × (v : UserThread) × (handle_each nanosleep now p t traces ≡ ok q)
      × Counting p q t u v (length traces) (l + visits p.current_experiment traces * d)
unfolding handle_each
counts nanosleep now [] p t u d l flags known (cell, hl) few hd small =
    (p, u, refl, subst (Counting p p t u u 0) (omega arith) (Counting-refl p t l u cell hl))
counts nanosleep now (trace ∷ traces) p t u d l (ready, inside) known (cell, hl) few hd small =
    let (room, rest) = charged_room p trace l d (length traces) small in
    let q = after_count p t trace u d l in
    let c = after_count-Counting p t trace u d l in
    let (r, w, e, k) =
      counts nanosleep now traces q t _ d (charged p trace l d) (c.ready ∙ ready, c.inside ∙ inside)
        known.1 (c.cell, c.delay) (omega (arith, few))
        (ap (λ (e : Experiment). e.delay) c.experiment ∙ hd) rest in
    let same : visits q.current_experiment traces ≡ visits p.current_experiment traces =
      ap (λ x. visits x traces) c.experiment in
    (
      r,
      w,
      ap (λ x. x >>= (λ y. handle_each nanosleep now y t traces))
            (handle_counts nanosleep now p t trace u d l (ready, inside, known.0) (cell, hl)
              (omega (arith, few)) hd room)
          ∙ e,
      subst (Counting p r t u w (suc (length traces)))
          (ap (λ n. charged p trace l d + n * d) same
            ∙ one_visit p trace l d (visits p.current_experiment traces))
          (subst
            (λ n.
              Counting p r t u w n (charged p trace l d + visits q.current_experiment traces * d))
            (omega arith) (Counting-trans p q r t 1 _ (length traces) _ u _ w c k)),
    )
