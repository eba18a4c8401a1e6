-- ===== src/Profiler/Points/Conserved.antt =====
-- The count of progress points over any events.
use jcoz.Base.{ℕ, ◌+◌, ◌^◌, ◌<◌, ◌≡◌, refl, sym, subst, ◌∙◌, inl, inr, arith, ok-injective}
use jcoz.Profiler.{Profiler}
use jcoz.Profiler.Objects.{handle_cases}
use jcoz.Profiler.Points.{
  IsOwned, all_points, UserEvent, Event, user, Events, starts, is_signalled, hits, turns, begin,
  step, counts, clears, settles, deletes, samples, charges, pauses, flushes, counted_by, cleared_by,
  counted_of, cleared_of, all_counted, all_cleared,
}
use jcoz.Profiler.Points.Owned.{Counts, start_Counts, limit}
use jcoz.Profiler.Points.Objects.{
  signal_Counts, sample-Counts, hit_Counts, Lowers, count_all, clear_all, settle_all, delete_all,
  charge_all, pause_all, flush_all,
}

-- What an event or a series of events does to the total.
pub record Moves (p q : Profiler) (n added given_up : ℕ) : Type 0 where
  pub is_owned : IsOwned q.curr_ut q.user_threads
  pub all : all_points q + given_up ≡ n + added

raises : (p q : Profiler) (n k : ℕ) → Counts q (n + k) → Moves p q n k 0
raises p q n k c = record { is_owned = c.is_owned; all = omega (arith, c.all) }

lowers : (p q : Profiler) (n k : ℕ) → Lowers q k n → Moves p q n 0 k
lowers p q n k l = record { is_owned = l.is_owned; all = omega (arith, l.all) }

pub user_Moves :
    {p q : Profiler} {k : ℕ} (n : ℕ) (e : UserEvent p k q)
    → n + (k + counted_by e) < limit
    → Counts p n
    → Moves p q n (k + counted_by e) (cleared_by e)
user_Moves {p} n (starts t thread b free) small c =
    let s = start_Counts p t thread n b free c in
    record { is_owned = s.is_owned; all = omega (arith, s.all) }
user_Moves {p} n (counts t u found place) small c =
    let q = count_all t u p n found (omega (arith, small)) c in
    record { is_owned = q.is_owned; all = omega (arith, q.all) }
user_Moves {p} n (clears t u found place) small c = lowers p _ n _ (clear_all t u p n found c)
user_Moves {p} n (settles t read u found place) small c =
    raises p _ n 0 (settle_all t read u p n found c)
user_Moves {p} n (deletes t u found place) small c = lowers p _ n _ (delete_all t u p n found c)
user_Moves {p} {q} n (is_signalled nanosleep now t env trace e) small c =
    elim (handle_cases nanosleep now env p t trace) [
      | inl f ↦
          subst (λ x. Moves p x n 0 0) (ok-injective p q (sym f ∙ e))
            (record { is_owned = c.is_owned; all = omega (arith, c.all) })
      | inr (inl f) ↦ raises p q n 0 (sample-Counts t trace p q n (sym f ∙ e) c)
      | inr (inr f) ↦
          raises p q n 0 (signal_Counts nanosleep now t trace p q n (sym f ∙ e) (omega arith) c)
    ]
user_Moves {p} {q} n (samples t trace e) small c = raises p q n 0 (sample-Counts t trace p q n e c)
user_Moves {p} n (charges t trace u found) small c =
    raises p _ n 0 (charge_all t trace u p n found c)
user_Moves {p} n (pauses nanosleep now t read u found) small c =
    raises p _ n 0 (pause_all nanosleep now t read u p n found c)
user_Moves {p} n (flushes t u found) small c =
    raises p _ n 0 (flush_all t u p n found (omega arith) c)
user_Moves {p} {q} n (hits t u found place e) small c =
    let h = hit_Counts t p q n e (omega arith) c in
    record { is_owned = h.is_owned; all = omega (arith, h.all) }

Event-Moves :
    {p q : Profiler} {k : ℕ} (n : ℕ) (e : Event p k q)
    → n + (k + counted_of e) < limit
    → Counts p n
    → Moves p q n (k + counted_of e) (cleared_of e)
Event-Moves n (user e) small c = user_Moves n e small c
Event-Moves {p} n (turns b) small c = record {
  is_owned = record {
    distinct = c.is_owned.distinct;
    owned = c.is_owned.owned;
    natural = c.is_owned.natural;
  };
  all = omega (arith, c.all);
}

Events-Moves :
    {p q : Profiler} {k : ℕ} (n : ℕ) (r : Events p k q)
    → n + (k + all_counted r) < limit
    → Counts p n
    → Moves p q n (k + all_counted r) (all_cleared r)
unfolding all_counted all_cleared
Events-Moves {p} n begin small c = record { is_owned = c.is_owned; all = omega (arith, c.all) }
Events-Moves {p} n (step {q = q} r e) small c =
    let before = Events-Moves n r (omega arith) c in
    let after =
      Event-Moves (all_points q) e (omega (arith, before.all))
        (record { is_owned = before.is_owned; all = refl }) in
    record { is_owned = after.is_owned; all = omega (arith, before.all, after.all) }

-- Whatever the user threads do in whatever order (start, reach the progress point, get a signal,
-- take the steps of removeUserThread, or a handler those of its branch inside an experiment), and
-- whenever the agent starts or stops counting: the shared counter and the points that the threads'
-- objects hold grow together by exactly the progress points hit during an experiment and the points
-- that removeUserThread adds to the counter, less those that it then takes from the objects. At the
-- start the set has each thread once and every thread with an object, and no count is negative; the
-- points, with those that removeUserThread adds, stay below 2^63.
pub Events-all_points :
    {p q : Profiler} {k : ℕ}
    → IsOwned p.curr_ut p.user_threads
    → (r : Events p k q) → all_points p + k + all_counted r < 2 ^ 63
    → all_points q + all_cleared r ≡ all_points p + k + all_counted r
Events-all_points {p} owned r small =
    let m = Events-Moves (all_points p) r (omega arith) (record { is_owned = owned; all = refl }) in
    omega (arith, m.all)
