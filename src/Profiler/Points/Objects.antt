-- ===== src/Profiler/Points/Objects.antt =====
-- A signal, a removal and a breakpoint each move or add points as they say.
use jcoz.Base.{
  Bool, true, false, Option, none, some, ℕ, ◌+◌, ◌^◌, ◌<◌, ◌%◌, ◌≡◌, refl, sym, ap, subst, ◌∙◌,
  if◌then◌else◌, arith, Result, ok, ok-injective,
}
use jcoz.Base.Int.{ℤ, pos, pos_part}
use jcoz.Sleep.{Kernel}
use jcoz.Frame.{CallFrame}
use jcoz.Experiment.{Experiment}
use jcoz.Profiler.{
  UserThread, counted, cleared, settled, Cell, null, live, freed, Profiler, with_ut, update, put,
  add_long,
}
use jcoz.Profiler.Threads.{
  count_points, clear_points, settle_delay, delete_thread, handle_breakpoint,
}
use jcoz.Profiler.Handler.{
  sample, record_first, record_frame, CallTrace, charge, synchronize, pause, experiment_signal,
  charge_signal, pause_signal, flush_points,
}
use jcoz.Profiler.Delays.{add_long_pos}
use jcoz.Profiler.Points.{worth, points_of, IsNatural, IsOwned, all_points}
use jcoz.Profiler.Points.Sums.{pending-update, update_self, no_dup-erase, pending-erase}
use jcoz.Profiler.Points.Owned.{
  update_all, owned-erase, IsOwned-update, Counts, limit, share, natural_object, taken,
}

pub with_ut-case :
    (p q : Profiler) (t : ℕ) (f : UserThread → Result Profiler) (c : Cell)
    → p.curr_ut t ≡ c
    → with_ut p t f ≡ ok q
    → (u : UserThread) × (p.curr_ut t ≡ live u) × (f u ≡ ok q)
unfolding with_ut
with_ut-case p q t f null e h = absurd (ground arith)
with_ut-case p q t f (live u) e h = (u, e, ground arith)
with_ut-case p q t f freed e h = absurd (ground arith)

-- The object that a use of curr_ut found.
pub with_ut-live :
    (p q : Profiler) (t : ℕ) (f : UserThread → Result Profiler)
    → with_ut p t f ≡ ok q
    → (u : UserThread) × (p.curr_ut t ≡ live u) × (f u ≡ ok q)
with_ut-live p q t f h = with_ut-case p q t f (p.curr_ut t) refl h

-- Another object for a thread: what the counter gains, the thread gives up or has hit.
pub Counts-live :
    (p q : Profiler) (t : ℕ) (u v : UserThread) (n k : ℕ)
    → p.curr_ut t ≡ live u
    → q.user_threads ≡ p.user_threads
    → q.curr_ut ≡ update p.curr_ut t (live v)
    → v.points_hit ≡ pos (pos_part v.points_hit)
    → q.points_hit + pos_part v.points_hit ≡ p.points_hit + pos_part u.points_hit + k
    → Counts p n
    → Counts q (n + k)
Counts-live p q t u v n k found threads cells natural gain c =
    let m = c.is_owned.owned t (rw found refl) in
    record {
      is_owned =
          rw (threads, cells) (IsOwned-update p.curr_ut t v p.user_threads m natural c.is_owned);
      all =
          rw (threads, cells)
            (omega (
              arith,
              gain,
              c.all,
              ap points_of found,
              pending-update p.curr_ut t (live v) p.user_threads c.is_owned.distinct m,
            ));
    }

pub charge_points :
    (e : Experiment) (trace : CallTrace) (u : UserThread)
    → (charge e trace u).points_hit ≡ u.points_hit
unfolding charge
charge_points e trace u = ground arith

pub pause_points :
    (nanosleep : Kernel) (now : ℕ) (g : ℤ) (u : UserThread)
    → (pause nanosleep now g u).1.points_hit ≡ u.points_hit
unfolding pause synchronize
pause_points nanosleep now g u = ground arith

pub signal_Counts :
    (nanosleep : Kernel) (now t : ℕ) (trace : CallTrace) (p q : Profiler) (n : ℕ)
    → experiment_signal nanosleep now p t trace ≡ ok q
    → n < limit
    → Counts p n
    → Counts q (n + 0)
unfolding experiment_signal put
signal_Counts nanosleep now t trace p q n h b c =
    let (u, found, e) = with_ut-live p q t _ h in
    let counted = record u { num_signals_received = (u.num_signals_received + 1) % 2 ^ 32 } in
    let charged = charge p.current_experiment trace counted in
    let v = (pause nanosleep now p.global_delay charged).1 in
    let held : v.points_hit ≡ pos (pos_part u.points_hit) =
      pause_points nanosleep now p.global_delay charged
      ∙ charge_points p.current_experiment trace counted
      ∙ natural_object p t u n found c in
    let gain =
      taken p.points_hit v.points_hit (pos_part u.points_hit) held
        (omega (arith, b, share p t u n found c)) in
    subst (λ x. Counts x (n + 0)) (ok-injective _ q e)
      (Counts-live p _ t u (record v { points_hit = pos 0 }) n 0 found refl refl refl
        (omega (arith, gain)) c)

pub count_all :
    (t : ℕ) (u : UserThread) (p : Profiler) (n : ℕ)
    → p.curr_ut t ≡ live u
    → n + pos_part u.points_hit < limit
    → Counts p n
    → Counts (count_points p t u) (n + pos_part u.points_hit)
unfolding count_points put
count_all t u p n found b c =
    let natural = natural_object p t u n found c in
    let gain =
      taken p.points_hit u.points_hit (pos_part u.points_hit) natural
        (omega (arith, b, share p t u n found c)) in
    Counts-live p _ t u (record u { removal = counted }) n (pos_part u.points_hit) found refl refl
      natural (omega (arith, gain)) c

-- A change of the object's delays.
pub same_points :
    (p q : Profiler) (t : ℕ) (u v : UserThread) (n : ℕ)
    → p.curr_ut t ≡ live u
    → q.user_threads ≡ p.user_threads
    → q.curr_ut ≡ update p.curr_ut t (live v)
    → q.points_hit ≡ p.points_hit
    → v.points_hit ≡ u.points_hit
    → Counts p n
    → Counts q (n + 0)
same_points p q t u v n found threads cells points held c =
    let natural = natural_object p t u n found c in
    Counts-live p q t u v n 0 found threads cells
      (held ∙ natural ∙ ap (λ k. pos (pos_part k)) (sym held))
      (omega (arith, points, ap pos_part held)) c

pub settle_all :
    (t : ℕ) (read : ℤ) (u : UserThread) (p : Profiler) (n : ℕ)
    → p.curr_ut t ≡ live u
    → Counts p n
    → Counts (settle_delay p t read u) (n + 0)
unfolding settle_delay put
settle_all t read u p n found c =
    same_points p _ t u (record u { removal = settled }) n found refl refl refl refl c

pub charge_all :
    (t : ℕ) (trace : CallTrace) (u : UserThread) (p : Profiler) (n : ℕ)
    → p.curr_ut t ≡ live u
    → Counts p n
    → Counts (charge_signal p t trace u) (n + 0)
unfolding charge_signal put
charge_all t trace u p n found c =
    let v = record u { num_signals_received = (u.num_signals_received + 1) % 2 ^ 32 } in
    same_points p _ t u (charge p.current_experiment trace v) n found refl refl refl
      (charge_points p.current_experiment trace v) c

pub pause_all :
    (nanosleep : Kernel) (now t : ℕ) (read : ℤ) (u : UserThread) (p : Profiler) (n : ℕ)
    → p.curr_ut t ≡ live u
    → Counts p n
    → Counts (pause_signal nanosleep now p t read u) (n + 0)
unfolding pause_signal put
pause_all nanosleep now t read u p n found c =
    same_points p _ t u (pause nanosleep now read u).1 n found refl refl refl
      (pause_points nanosleep now read u) c

pub flush_all :
    (t : ℕ) (u : UserThread) (p : Profiler) (n : ℕ)
    → p.curr_ut t ≡ live u
    → n < limit
    → Counts p n
    → Counts (flush_points p t u) (n + 0)
unfolding flush_points put
flush_all t u p n found b c =
    let gain =
      taken p.points_hit u.points_hit (pos_part u.points_hit) (natural_object p t u n found c)
        (omega (arith, b, share p t u n found c)) in
    Counts-live p _ t u (record u { points_hit = pos 0 }) n 0 found refl refl refl
      (omega (arith, gain)) c

-- The state after a step that gives up some points.
pub record Lowers (q : Profiler) (given_up n : ℕ) : Type 0 where
  pub is_owned : IsOwned q.curr_ut q.user_threads
  pub all : all_points q + given_up ≡ n

pub clear_all :
    (t : ℕ) (u : UserThread) (p : Profiler) (n : ℕ)
    → p.curr_ut t ≡ live u
    → Counts p n
    → Lowers (clear_points p t u) (pos_part u.points_hit) n
unfolding clear_points put
clear_all t u p n found c =
    let m = c.is_owned.owned t (rw found refl) in
    let v = record u { points_hit = pos 0; removal = cleared } in
    record {
      is_owned = IsOwned-update p.curr_ut t v p.user_threads m refl c.is_owned;
      all = omega (
        arith,
        c.all,
        ap points_of found,
        pending-update p.curr_ut t (live v) p.user_threads c.is_owned.distinct m,
      );
    }

pub delete_all :
    (t : ℕ) (u : UserThread) (p : Profiler) (n : ℕ)
    → p.curr_ut t ≡ live u
    → Counts p n
    → Lowers (delete_thread p t) (pos_part u.points_hit) n
unfolding delete_thread put
delete_all t u p n found c = record {
  is_owned = record {
    distinct = no_dup-erase t p.user_threads c.is_owned.distinct;
    owned = owned-erase p.curr_ut t freed p.user_threads refl c.is_owned.owned;
    natural = update_all IsNatural p.curr_ut t freed tt c.is_owned.natural;
  };
  all = omega (
    arith,
    c.all,
    ap points_of found,
    pending-erase (update p.curr_ut t freed) t p.user_threads
        (ap points_of (update_self p.curr_ut t freed)),
    pending-update p.curr_ut t freed p.user_threads c.is_owned.distinct
        (c.is_owned.owned t (rw found refl)),
  );
}

hit_worth :
    (b : Bool) (n : ℕ)
    → n + worth b < limit
    → add_long (pos n) (if b then pos 1 else pos 0) ≡ pos (n + worth b)
hit_worth true n h = add_long_pos n 1 h
hit_worth false n h = add_long_pos n 0 h

pub hit_Counts :
    (t : ℕ) (p q : Profiler) (n : ℕ)
    → handle_breakpoint p t ≡ ok q
    → n + worth p.in_experiment < limit
    → Counts p n
    → Counts q (n + worth p.in_experiment)
unfolding handle_breakpoint put
hit_Counts t p q n h b c =
    let (u, found, e) = with_ut-live p q t _ h in
    let one : add_long u.points_hit (if p.in_experiment then pos 1 else pos 0)
        ≡ pos (pos_part u.points_hit + worth p.in_experiment) =
      ap (λ k. add_long k (if p.in_experiment then pos 1 else pos 0))
        (natural_object p t u n found c)
      ∙ hit_worth p.in_experiment (pos_part u.points_hit) (omega (arith, share p t u n found c)) in
    subst (λ x. Counts x (n + worth p.in_experiment)) (ok-injective _ q e)
      (Counts-live p _ t u
        (record u { points_hit = add_long u.points_hit (if p.in_experiment then pos 1 else pos 0) })
        n (worth p.in_experiment) found refl refl (one ∙ ap (λ k. pos (pos_part k)) (sym one))
        (omega (arith, ap pos_part one)) c)

record_first_rest :
    (p q : Profiler) (o : Option CallFrame)
    → record_first p o ≡ ok q
    → (q.user_threads ≡ p.user_threads) × (q.curr_ut ≡ p.curr_ut) × (q.points_hit ≡ p.points_hit)
unfolding record_frame
record_first_rest p q none h = ground arith
record_first_rest p q (some f) h = ground arith

pub sample-Counts :
    (t : ℕ) (trace : CallTrace) (p q : Profiler) (n : ℕ)
    → sample p t trace ≡ ok q
    → Counts p n
    → Counts q (n + 0)
unfolding sample put
sample-Counts t trace p q n h c =
    let (u, found, e) = with_ut-live p q t _ h in
    let v = record u { local_delay = pos 0 } in
    let (threads, cells, points) = record_first_rest (put p t (live v)) q _ e in
    Counts-live p q t u v n 0 found threads cells (natural_object p t u n found c)
      (omega (arith, points)) c
