-- ===== src/Agent/Room.antt =====
-- The buffer of sampled frames and the threads' objects over the events of the user threads: Handle,
-- HandleBreakpoint, addUserThread and removeUserThread of src/profiler.cc.
use jcoz.Base.{
  ap, ℕ, ◌+◌, ◌≤◌, ◌≡◌, refl, sym, subst, ◌∙◌, inl, inr, Bool, true, false, Option, none, some,
  arith, length, length-set, ok, ok-injective,
}
use jcoz.Frame.{CallFrame}
use jcoz.Sleep.{Kernel}
use jcoz.Profiler.{UserThread, live, update, Profiler, num_static_call_frames, put}
use jcoz.Profiler.Threads.{
  add_user_thread, count_points, clear_points, settle_delay, delete_thread, handle_breakpoint,
}
use jcoz.Profiler.Handler.{
  CallTrace, record_frame, record_first, sample, experiment_signal, charge_signal, pause_signal,
  flush_points, handle,
}
use jcoz.Profiler.Objects.{
  IsSafe, Kept-IsSafe, handle-Kept, handle_cases, handle_breakpoint-Kept, add_user_thread-IsSafe,
  delete_thread-IsSafe, sample-Kept, alive-update,
}
use jcoz.Profiler.Points.{
  UserEvent, starts, counts, clears, settles, deletes, samples, charges, pauses, flushes,
  is_signalled, hits,
}
use jcoz.Profiler.Points.Objects.{with_ut-live}

-- Whether an event is a signal that can take a place in the buffer.
abbrev pub signals_of : {p q : Profiler} {k : ℕ} → UserEvent p k q → ℕ
signals_of (is_signalled nanosleep now t env trace e) = 1
signals_of (samples t trace e) = 1
signals_of _ = 0

-- The buffer has its 200 places, and at most `n` of them were asked for since it was copied.
pub record HasRoom (p : Profiler) (n : ℕ) : Type 0 where
  pub places : length p.static_call_frames ≡ num_static_call_frames
  pub index : p.call_index ≤ n

pub record Holds (p : Profiler) (n : ℕ) : Type 0 where
  pub safe : IsSafe p
  pub room : HasRoom p n

-- The buffer keeps its places, and a signal asks for one place at most.
record Grows (p : Profiler) (k : ℕ) (q : Profiler) : Type 0 where
  places : length q.static_call_frames ≡ length p.static_call_frames
  index : q.call_index ≤ p.call_index + k

Grows-of_eq : (p q : Profiler) (k : ℕ) → p ≡ q → Grows p k q
Grows-of_eq p q k e = subst (Grows p k) e (record { places = refl; index = omega arith })

first-Grows : (p q : Profiler) (o : Option CallFrame) → record_first p o ≡ ok q → Grows p 1 q
unfolding record_frame
first-Grows p q none h = Grows-of_eq p q 1 (ok-injective p q h)
first-Grows p q (some f) h = record {
  places = ground (arith, length-set p.static_call_frames p.call_index f);
  index = ground arith;
}

sample-Grows : (p q : Profiler) (t : ℕ) (trace : CallTrace) → sample p t trace ≡ ok q → Grows p 1 q
unfolding sample put
sample-Grows p q t trace h =
    let (u, found, e) = with_ut-live p q t _ h in
    let g = first-Grows _ q _ e in record { places = g.places; index = g.index }

experiment-Grows :
    (nanosleep : Kernel) (now : ℕ) (p q : Profiler) (t : ℕ) (trace : CallTrace)
    → experiment_signal nanosleep now p t trace ≡ ok q
    → Grows p 1 q
unfolding experiment_signal put
experiment-Grows nanosleep now p q t trace h =
    let (u, found, e) = with_ut-live p q t _ h in
    subst (Grows p 1) (ok-injective _ q e) (record { places = refl; index = omega arith })

handle-Grows :
    (nanosleep : Kernel) (now t : ℕ) (env : Bool) (trace : CallTrace) (p q : Profiler)
    → handle nanosleep now env p t trace ≡ ok q
    → Grows p 1 q
handle-Grows nanosleep now t env trace p q h = elim (handle_cases nanosleep now env p t trace) [
  | inl f ↦ Grows-of_eq p q 1 (ok-injective p q (sym f ∙ h))
  | inr (inl f) ↦ sample-Grows p q t trace (sym f ∙ h)
  | inr (inr f) ↦ experiment-Grows nanosleep now p q t trace (sym f ∙ h)
]

add-Grows : (p : Profiler) (t thread : ℕ) (b : Bool) → Grows p 0 (add_user_thread p t thread b)
unfolding add_user_thread put
add-Grows p t thread true = record { places = refl; index = omega arith }
add-Grows p t thread false = record { places = refl; index = omega arith }

-- Another object for a thread, and what else is none of the buffer.
other-Holds :
    (p q : Profiler) (t n : ℕ) (u : UserThread)
    → q.user_threads ≡ p.user_threads
    → q.curr_ut ≡ update p.curr_ut t (live u)
    → q.static_call_frames ≡ p.static_call_frames
    → q.call_index ≡ p.call_index
    → Holds p n
    → Holds q (n + 0)
other-Holds p q t n u threads cells frames index h = record {
  safe = λ s m. rw cells (alive-update p.curr_ut t s u (h.safe s (rw (sym threads) m)));
  room = record {
    places = ap length frames ∙ h.room.places;
    index = omega (arith, index, h.room.index);
  };
}

hit-Grows : (p q : Profiler) (t : ℕ) → handle_breakpoint p t ≡ ok q → Grows p 0 q
unfolding handle_breakpoint put
hit-Grows p q t h =
    let (u, found, e) = with_ut-live p q t _ h in
    subst (Grows p 0) (ok-injective _ q e) (record { places = refl; index = omega arith })

held : (p q : Profiler) (n k : ℕ) → IsSafe q → Grows p k q → Holds p n → Holds q (n + k)
held p q n k safe g h = record {
  safe = safe;
  room = record { places = g.places ∙ h.room.places; index = omega (arith, g.index, h.room.index) };
}

pub user-Holds :
    {p q : Profiler} {k : ℕ} (n : ℕ) (e : UserEvent p k q) → Holds p n → Holds q (n + signals_of e)
unfolding count_points clear_points settle_delay delete_thread charge_signal pause_signal
    flush_points put
user-Holds {p} n (starts t thread b free) h =
    held p _ n 0 (add_user_thread-IsSafe p t thread b free h.safe) (add-Grows p t thread b) h
user-Holds {p} n (counts t u found place) h = other-Holds p _ t n _ refl refl refl refl h
user-Holds {p} n (clears t u found place) h = other-Holds p _ t n _ refl refl refl refl h
user-Holds {p} n (settles t read u found place) h = other-Holds p _ t n _ refl refl refl refl h
user-Holds {p} n (deletes t u found place) h =
    held p _ n 0 (delete_thread-IsSafe p t h.safe) (record { places = refl; index = omega arith }) h
user-Holds {p} {q} n (samples t trace e) h =
    held p q n 1 (Kept-IsSafe p q (sample-Kept p q t trace e) h.safe) (sample-Grows p q t trace e) h
user-Holds {p} n (charges t trace u found) h = other-Holds p _ t n _ refl refl refl refl h
user-Holds {p} n (pauses nanosleep now t read u found) h =
    other-Holds p _ t n _ refl refl refl refl h
user-Holds {p} n (flushes t u found) h = other-Holds p _ t n _ refl refl refl refl h
user-Holds {p} {q} n (is_signalled nanosleep now t env trace e) h =
    held p q n 1 (Kept-IsSafe p q (handle-Kept nanosleep now env p q t trace e) h.safe)
      (handle-Grows nanosleep now t env trace p q e) h
user-Holds {p} {q} n (hits t u found place e) h =
    held p q n 0 (Kept-IsSafe p q (handle_breakpoint-Kept p q t e) h.safe) (hit-Grows p q t e) h
