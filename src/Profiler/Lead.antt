-- ===== src/Profiler/Lead.antt =====
-- How far the delay of a thread can be ahead of the global delay during an experiment, whatever the
-- order in which the threads get their signals, Handle of src/profiler.cc.
use native.Mathlib.Decide.{dec_lt}
use jcoz.Base.{
  ℕ, suc, ◌+◌, ◌*◌, ◌-◌, ◌%◌, ◌^◌, ◌≤◌, ◌<◌, ◌≡◌, ◌≢◌, refl, sym, ap, subst, ◌∙◌, ◌⊎◌, inl, inr,
  true, false, List, [], ◌∷◌, ◌==◌, ==_iff, Bool-cases, All, length, arith, ok, ◌>>=◌,
}
use jcoz.Base.Int.{ℤ, pos}
use jcoz.Sleep.{Kernel, jcoz_sleep}
use jcoz.Profiler.{UserThread, live, Profiler, put}
use jcoz.Profiler.Handler.{CallTrace, is_unknown_error, handle, synchronize, pause}
use jcoz.Profiler.Delays.{third, synchronize_behind, synchronize_ahead}
use jcoz.Profiler.Sampling.{Signal, handle_all, IsServed, IsServed-update}
use jcoz.Profiler.Signals.{
  charged, charged_bounds, settled, handle_inside, experiment_signal_lem, pause_ten, pause_other,
}

-- A sleep takes at most `over` longer than it is asked to.
abbrev pub IsPrecise : Kernel → ℕ → Type 0
IsPrecise nanosleep over =
    (now n : ℕ) → (s : ℕ) × (jcoz_sleep nanosleep now (pos n) ≡ pos s) × (s ≤ n + over)

-- A thread's delay with the global delay `g`: it is ahead by at most the charges since it last
-- synchronised, and by what it slept too long. No delay is above `bound`.
pub record Leads (bound g d over : ℕ) (u : UserThread) : Type 0 where
  pub delay : ℕ
  pub is_delay : u.local_delay ≡ pos delay
  pub few : u.num_signals_received ≤ 9
  pub lead : delay ≤ g + over + u.num_signals_received * d
  pub low : delay ≤ bound

pub record IsLed (bound g d over : ℕ) (p : Profiler) : Type 0 where
  pub ready : p.prof_ready ≡ true
  pub inside : p.in_experiment ≡ true
  pub delay : p.current_experiment.delay ≡ pos d
  pub global : p.global_delay ≡ pos g
  pub low : g ≤ bound
  pub each : (t : ℕ) (u : UserThread) → p.curr_ut t ≡ live u → Leads bound g d over u

-- What a signal's pause gives: the global delay, and the thread's object.
record Paused (bound g d over : ℕ) (r : ℤ × UserThread) : Type 0 where
  next : ℕ
  is_next : r.0 ≡ pos next
  later : g ≤ next
  next_low : next ≤ bound
  leads : Leads bound next d over r.1

module _ (nanosleep : Kernel) (now bound g d over : ℕ) (precise : IsPrecise nanosleep over) where
  synchronize-Paused :
      (u : UserThread) (l : ℕ)
      → u.local_delay ≡ pos l
      → g ≤ bound
      → l ≤ bound
      → bound + over < third
      → Paused (bound + over) g d over (synchronize nanosleep now (pos g) u)
  synchronize-Paused u l e hg hl small = elim (dec_lt l g) [
    | yes behind ↦
        let (s, slept, short) = precise now (g - l) in
        rw (synchronize_behind nanosleep now g l s u behind (omega arith) e slept (omega arith))
          (record {
            next = g;
            is_next = refl;
            later = omega arith;
            next_low = omega arith;
            leads = record {
              delay = l + s;
              is_delay = refl;
              few = omega arith;
              lead = omega arith;
              low = omega arith;
            };
          })
    | no ahead ↦ rw (synchronize_ahead nanosleep now g l u (omega arith) (omega arith) e) (record {
      next = l;
      is_next = refl;
      later = omega arith;
      next_low = omega arith;
      leads = record {
        delay = l;
        is_delay = refl;
        few = omega arith;
        lead = omega arith;
        low = omega arith;
      };
    })
  ]

  pause-Paused :
      (u : UserThread) (l : ℕ)
      → u.local_delay ≡ pos l
      → u.num_signals_received ≤ 10
      → l ≤ g + over + u.num_signals_received * d
      → g ≤ bound
      → l ≤ bound
      → bound + over < third
      → Paused (bound + over) g d over (pause nanosleep now (pos g) u)
  pause-Paused u l e ten lead hg hl small = elim (Bool-cases (u.num_signals_received == 10)) [
    | inl last ↦
        rw (pause_ten nanosleep now (pos g) u ((==_iff u.num_signals_received 10).0 last))
          (synchronize-Paused u l e hg hl small)
    | inr early ↦
        let other : u.num_signals_received ≢ 10 =
          λ x. cc (sym early ∙ (==_iff u.num_signals_received 10).1 x) in
        rw (pause_other nanosleep now (pos g) u other) (record {
          next = g;
          is_next = refl;
          later = omega arith;
          next_low = omega arith;
          leads = record {
            delay = l;
            is_delay = e;
            few = ground (arith, early);
            lead = lead;
            low = omega arith;
          };
        })
  ]

-- What holds after one signal, for the delays of one signal more.
pub record Led (bound g d over : ℕ) (q : Profiler) : Type 0 where
  pub next : ℕ
  pub later : g ≤ next
  pub led : IsLed bound next d over q

put_cases :
    (p : Profiler) (t s : ℕ) (w u : UserThread)
    → (put p t (live w)).curr_ut s ≡ live u
    → (u ≡ w) ⊎ (p.curr_ut s ≡ live u)
unfolding put
put_cases p t s w u e = ground (arith, e)

Leads-grow :
    (b c g h d over : ℕ) (u : UserThread) → b ≤ c → g ≤ h → Leads b g d over u → Leads c h d over u
Leads-grow b c g h d over u more later l = record {
  delay = l.delay;
  is_delay = l.is_delay;
  few = l.few;
  lead = omega (arith, l.lead);
  low = omega (arith, l.low);
}

settled-Led :
    (bound c g d over t : ℕ) (p : Profiler) (r : ℤ × UserThread)
    → bound ≤ c
    → IsLed bound g d over p
    → Paused c g d over r
    → Led c g d over (settled p t r)
unfolding put
settled-Led bound c g d over t p r more h x = record {
  next = x.next;
  later = x.later;
  led = record {
    ready = h.ready;
    inside = h.inside;
    delay = h.delay;
    global = x.is_next;
    low = x.next_low;
    each = λ s u e. elim (put_cases p t s (record r.1 { points_hit = pos 0 }) u e) [
      | inl same ↦ subst (Leads c x.next d over) (sym same) (record {
        delay = x.leads.delay;
        is_delay = x.leads.is_delay;
        few = x.leads.few;
        lead = x.leads.lead;
        low = x.leads.low;
      })
      | inr old ↦ Leads-grow bound c g x.next d over u more x.later (h.each s u old)
    ];
  };
}

one_more : (n d : ℕ) → (n + 1) * d ≡ n * d + d
one_more n d = grind arith

-- One signal in an experiment, to a thread that has its object.
signal-Led :
    (nanosleep : Kernel) (now bound g d over t : ℕ) (p : Profiler) (trace : CallTrace)
    (u : UserThread)
    → IsPrecise nanosleep over
    → IsLed bound g d over p
    → p.curr_ut t ≡ live u
    → is_unknown_error trace ≡ false
    → bound + d + over < third
    → (r : ℤ × UserThread) × (handle nanosleep now true p t trace ≡ ok (settled p t r))
      × Led (bound + d + over) g d over (settled p t r)
signal-Led nanosleep now bound g d over t p trace u precise h cell known small =
    let l = h.each t u cell in
    let (at_least, at_most) = charged_bounds p trace l.delay d in
    let v : UserThread = record u {
      local_delay = pos (charged p trace l.delay d);
      num_signals_received = (u.num_signals_received + 1) % 2 ^ 32;
    } in
    let counted : (u.num_signals_received + 1) % 2 ^ 32 ≡ u.num_signals_received + 1 =
      omega (arith, l.few) in
    let lead : charged p trace l.delay d ≤ g + over + (u.num_signals_received + 1) % 2 ^ 32 * d =
      rw (counted, one_more u.num_signals_received d) (omega (arith, l.lead, at_most)) in
    (
      pause nanosleep now (pos g) v,
      handle_inside nanosleep now p t trace h.ready h.inside known
          ∙ experiment_signal_lem nanosleep now p t trace u d l.delay cell h.delay l.is_delay
              (omega (arith, l.low, small))
          ∙ ap (λ x. ok (settled p t (pause nanosleep now x v))) h.global,
      settled-Led bound (bound + d + over) g d over t p (pause nanosleep now (pos g) v)
          (omega arith) h
          (pause-Paused nanosleep now (bound + d) g d over precise v (charged p trace l.delay d)
            refl (omega (arith, counted, l.few)) lead (omega (arith, h.low))
            (omega (arith, l.low, at_most)) small),
    )

-- The cells after the signal are those before with the thread's own, so each thread keeps its object.
still-IsServed :
    (p : Profiler) (t : ℕ) (r : ℤ × UserThread) (ss : List Signal)
    → All (IsServed p) ss
    → All (IsServed (settled p t r)) ss
unfolding put
still-IsServed p t r ss h =
    IsServed-update p (settled p t r) t (record r.1 { points_hit = pos 0 }) ss refl h

room : (bound d over n : ℕ) → bound + suc n * (d + over) ≡ bound + d + over + n * (d + over)
room bound d over n = grind arith

-- During an experiment, signals in any order to threads that have their objects, with traces of
-- known error codes, always succeed. The global delay does not fall, and after them the delay of
-- each thread is ahead of the global delay by at most the experiment's delay for each of its
-- signals since it last synchronised, which are at most nine, and the time by which a sleep is too
-- long. It holds at the start, and a sleep of any length is too long by at most that time; the
-- delays are below 2^61, with one more of the experiment and one more sleep for each signal.
pub handle_all-Led :
    (nanosleep : Kernel) (bound g d over : ℕ) (ss : List Signal) (p : Profiler)
    → IsPrecise nanosleep over
    → IsLed bound g d over p
    → All (IsServed p) ss
    → bound + length ss * (d + over) < third
    → (q : Profiler) × (handle_all nanosleep p ss ≡ ok q)
      × Led (bound + length ss * (d + over)) g d over q
unfolding handle_all
handle_all-Led nanosleep bound g d over [] p precise h served small = (
  p,
  refl,
  subst (λ b. Led b g d over p) (omega arith) (record { next = g; later = omega arith; led = h }),
)
handle_all-Led nanosleep bound g d over (s ∷ ss) p precise h ((alive, known), served) small =
    let (u, cell) = alive in
    let more = room bound d over (length ss) in
    let (r, e, first) =
      signal-Led nanosleep s.now bound g d over s.thread p s.trace u precise h cell known
        (omega (arith, small, more)) in
    let (q, f, led) =
      handle_all-Led nanosleep (bound + d + over) first.next d over ss (settled p s.thread r)
        precise first.led (still-IsServed p s.thread r ss served) (omega (arith, small, more)) in
    (
      q,
      ap (λ x. x >>= (λ y. handle_all nanosleep y ss)) e ∙ f,
      subst (λ b. Led b g d over q) (sym more)
          (record {
            next = led.next;
            later = omega (arith, first.later, led.later);
            led = led.led;
          }),
    )
