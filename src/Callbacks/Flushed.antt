-- ===== src/Callbacks/Flushed.antt =====
-- A round of signals in an experiment takes the points from all user threads, src/profiler.cc.
use mathlib.Core.List.{Memᴰ}
use jcoz.Base.{
  ℕ, ◌+◌, ◌^◌, ◌<◌, ◌≡◌, refl, sym, ap, subst, ◌∙◌, inl, inr, ◌⊎◌, Bool, true, false, List, [], ◌∷◌,
  some, length, ◌==◌, ==_iff, Bool-cases, arith, Result, ok, ok-injective, ◌>>=◌,
}
use jcoz.Base.Int.{pos, pos_part}
use jcoz.Sleep.{Kernel}
use jcoz.Profiler.{UserThread, Cell, live, Profiler, is_member, put, update}
use jcoz.Profiler.Handler.{CallTrace, is_unknown_error, experiment_signal, handle}
use jcoz.Profiler.Points.{points_of, pending, is_signalled, UserEvent, IsOwned, all_points}
use jcoz.Profiler.Points.Owned.{Counts, limit}
use jcoz.Profiler.Points.Conserved.{user_Moves}
use jcoz.Profiler.Points.Objects.{with_ut-live}
use jcoz.Agent.Untouched.{user-Flags}
use jcoz.Callbacks.{Threads, signal_each, signal_user_threads}
use jcoz.Callbacks.Servable.{Events, step, signals, Events-IsServable, start-IsServable}
use jcoz.Callbacks.Rounds.{one, Mem-is_member}

-- A thread without points stays so when an emptied object is put.
update_empty :
    (cells : ℕ → Cell) (t x : ℕ) (u : UserThread)
    → u.points_hit ≡ pos 0
    → (x ≡ t) ⊎ (points_of (cells x) ≡ 0)
    → points_of (update cells t (live u) x) ≡ 0
update_empty cells t x u none_held h = elim (Bool-cases (x == t)) [
  | inl here ↦ rw here (ap pos_part none_held)
  | inr away ↦ elim h [
    | inl same ↦ absurd (cc (sym away ∙ (==_iff x t).1 same))
    | inr empty ↦ rw away empty
  ]
]

emptied :
    (nanosleep : Kernel) (now t x : ℕ) (p q : Profiler) (trace : CallTrace)
    → experiment_signal nanosleep now p t trace ≡ ok q
    → (x ≡ t) ⊎ (points_of (p.curr_ut x) ≡ 0)
    → points_of (q.curr_ut x) ≡ 0
unfolding experiment_signal put
emptied nanosleep now t x p q trace h e =
    let (u, found, f) = with_ut-live p q t _ h in
    subst (λ (r : Profiler). points_of (r.curr_ut x) ≡ 0) (ok-injective _ q f)
      (update_empty p.curr_ut t x _ refl e)

inside :
    (nanosleep : Kernel) (now : ℕ) (env : Bool) (p : Profiler) (t : ℕ) (trace : CallTrace)
    → env ≡ true
    → (p.prof_ready ≡ true) × (p.in_experiment ≡ true)
    → is_unknown_error trace ≡ false
    → handle nanosleep now env p t trace ≡ experiment_signal nanosleep now p t trace
unfolding handle
inside nanosleep now env p t trace has (ready, running) known = ground arith

pending-zero :
    (cells : ℕ → Cell) (ts : List ℕ)
    → ((t : ℕ) → Memᴰ t ts → points_of (cells t) ≡ 0)
    → pending cells ts ≡ 0
unfolding pending
pending-zero cells [] h = refl
pending-zero cells (t ∷ ts) h =
    omega (arith, h t (Memᴰ.head refl), pending-zero cells ts (λ x m. h x (Memᴰ.tail m)))

-- The threads that get a signal, and those that held no point, hold none after it.
pub record Flushed (s r : Threads) (ts : List ℕ) (sent : Result Threads) : Type 0 where
  pub after : Threads
  pub comes : sent ≡ ok after
  pub threads : after.profiler.user_threads ≡ r.profiler.user_threads
  pub reached : Events s after
  pub empty :
      (x : ℕ)
      → Memᴰ x ts ⊎ (points_of (r.profiler.curr_ut x) ≡ 0)
      → points_of (after.profiler.curr_ut x) ≡ 0
  pub counts : (n : ℕ) → n < limit → Counts r.profiler n → Counts after.profiler n

tail_cases :
    (r : Threads) (q : Profiler) (t x : ℕ) (ts : List ℕ)
    → ((x ≡ t) ⊎ (points_of (r.profiler.curr_ut x) ≡ 0) → points_of (q.curr_ut x) ≡ 0)
    → Memᴰ x (t ∷ ts) ⊎ (points_of (r.profiler.curr_ut x) ≡ 0)
    → Memᴰ x ts ⊎ (points_of (q.curr_ut x) ≡ 0)
tail_cases r q t x ts h (inl (Memᴰ.head e)) = inr (h (inl e))
tail_cases r q t x ts h (inl (Memᴰ.tail m)) = inl m
tail_cases r q t x ts h (inr none_held) = inr (h (inr none_held))

each-Flushed :
    (nanosleep : Kernel) (now : ℕ → ℕ) (function : ℕ → CallTrace) (s r : Threads) (ts : List ℕ)
    → s.profiler.user_threads ≡ []
    → Events s r
    → ((t : ℕ) → Memᴰ t ts → is_member t r.profiler.user_threads ≡ true)
    → r.profiler.call_index + length ts < 2 ^ 31
    → (r.profiler.prof_ready ≡ true) × (r.profiler.in_experiment ≡ true)
    → ((t : ℕ) → is_unknown_error (function t) ≡ false)
    → Flushed s r ts (signal_each nanosleep now (some function) r ts)
unfolding signal_each
each-Flushed nanosleep now function s r [] none_yet es members small flags known = record {
  after = r;
  comes = refl;
  threads = refl;
  reached = es;
  empty = λ x h. elim h [ inl m ↦ elim m [ ] | inr none_held ↦ none_held ];
  counts = λ n b c. c;
}
each-Flushed nanosleep now function s r (t ∷ ts) none_yet es members small flags known =
    let h = Events-IsServable es (start-IsServable s none_yet) in
    let m = members t (Memᴰ.head refl) in
    let o = one nanosleep (now t) t function r h m (omega arith) in
    let next = record r { profiler = o.after } in
    let signal : UserEvent r.profiler 0 o.after =
      is_signalled nanosleep (now t) t (r.has_env t) (function t) o.handled in
    let f = user-Flags signal in
    let taken =
      sym (
        inside nanosleep (now t) (r.has_env t) r.profiler t (function t) (h.env t m) flags
          (known t))
      ∙ o.handled in
    let rest =
      each-Flushed nanosleep now function s next ts none_yet
        (step es (signals nanosleep (now t) t (some function) o.comes))
        (λ x i. subst (λ set. is_member x set ≡ true) (sym o.threads) (members x (Memᴰ.tail i)))
        (omega (arith, o.index)) (f.ready ∙ flags.0, f.experiment ∙ flags.1) known in
    record {
      after = rest.after;
      comes =
          ap (λ a. a >>= (λ q. signal_each nanosleep now (some function) q ts)) o.comes
          ∙ rest.comes;
      threads = rest.threads ∙ o.threads;
      reached = rest.reached;
      empty = λ x c. rest.empty x (
          tail_cases r o.after t x ts
            (emptied nanosleep (now t) t x r.profiler o.after (function t) taken) c);
      counts = λ n b c.
          let m = user_Moves n signal (omega arith) c in
          rest.counts n b (record { is_owned = m.is_owned; all = omega (arith, m.all) });
    }

-- A round of signals to all user threads during an experiment comes back, where each is handled
-- before the next is sent: the set stays, no thread of it holds a point, and the shared counter has
-- grown to all points that were counted or held. It is reached by callbacks from a start with no
-- user thread, the profiler is ready, the traces have known error codes, the index of sampled
-- frames has room below 2^31 for one frame a thread, no count is negative, and the points are below
-- 2^63.
pub signal_user_threads-flushed :
    {s r : Threads} (nanosleep : Kernel) (now : ℕ → ℕ) (function : ℕ → CallTrace)
    → s.profiler.user_threads ≡ []
    → Events s r
    → r.profiler.call_index + length r.profiler.user_threads < 2 ^ 31
    → (r.profiler.prof_ready ≡ true) × (r.profiler.in_experiment ≡ true)
    → ((t : ℕ) → is_unknown_error (function t) ≡ false)
    → IsOwned r.profiler.curr_ut r.profiler.user_threads
    → all_points r.profiler < 2 ^ 63
    → (q : Threads) × (signal_user_threads nanosleep now (some function) r ≡ ok q)
      × (q.profiler.user_threads ≡ r.profiler.user_threads)
      × (pending q.profiler.curr_ut q.profiler.user_threads ≡ 0)
      × (q.profiler.points_hit ≡ all_points r.profiler)
signal_user_threads-flushed {s} {r} nanosleep now function none_yet es small flags known owned few =
    let f =
      each-Flushed nanosleep now function s r r.profiler.user_threads none_yet es
        (λ t m. Mem-is_member t r.profiler.user_threads m) small flags known in
    let empty =
      ap (pending f.after.profiler.curr_ut) f.threads
      ∙ pending-zero f.after.profiler.curr_ut r.profiler.user_threads (λ t m. f.empty t (inl m)) in
    let c = f.counts (all_points r.profiler) few (record { is_owned = owned; all = refl }) in
    (f.after, f.comes, f.threads, empty, omega (arith, empty, c.all))
