-- ===== src/Profiler/Points.antt =====
-- Where the progress points are: in the shared counter, or still in the
-- objects of the threads that have had no signal since.
pub mod Sums
pub mod Owned
pub mod Objects
pub mod Conserved
use jcoz.Base.{
  ℕ, ◌+◌, ◌^◌, ◌<◌, ◌≤◌, ◌%◌, ◌≡◌, refl, sym, ap, subst, ◌∙◌, ◌⊎◌, inl, inr, Bool, true, false,
  ◌&&◌, not, List, [], ◌∷◌, ◌==◌, if◌then◌else◌, Bool-cases, ==_iff, arith, Result, ok, halt, fault,
  ok-injective,
}
use jcoz.Base.Int.{ℤ, pos, pos_part, bits_of, ◌+ℤ◌, to_long, to_long_id}
use jcoz.Sleep.{Kernel}
use jcoz.Experiment.{Experiment}
use jcoz.Profiler.{
  UserThread, not_begun, counted, cleared, settled, Cell, null, live, freed, Profiler, with_ut,
  is_member, insert, erase, update, put, add_points, add_long,
}
use jcoz.Profiler.Threads.{
  add_user_thread, count_points, clear_points, settle_delay, delete_thread, handle_breakpoint,
}
use jcoz.Profiler.Handler.{CallTrace, sample, charge_signal, pause_signal, flush_points, handle}
use jcoz.Profiler.Objects.{is_live}
use jcoz.Profiler.Delays.{add_long_pos}

-- The points that an object holds.
abbrev pub points_of : Cell → ℕ
points_of (live u) = pos_part u.points_hit
points_of _ = 0

unfoldable pub pending : (ℕ → Cell) → List ℕ → ℕ
pending cells [] = 0
pending cells (t ∷ ts) = points_of (cells t) + pending cells ts

unfoldable pub no_dup : List ℕ → Bool
no_dup [] = true
no_dup (t ∷ ts) = not (is_member t ts) && no_dup ts

abbrev pub IsNatural : Cell → Type 0
IsNatural (live u) = u.points_hit ≡ pos (pos_part u.points_hit)
IsNatural _ = Unit {0}

-- The set has no thread twice, only its threads have an object, and no object a negative count.
pub record IsOwned (cells : ℕ → Cell) (ts : List ℕ) : Type 0 where
  pub distinct : no_dup ts ≡ true
  pub owned : (s : ℕ) → is_live (cells s) ≡ true → is_member s ts ≡ true
  pub natural : (s : ℕ) → IsNatural (cells s)

-- The points that were counted or are still held.
abbrev pub all_points : Profiler → ℕ
all_points p = p.points_hit + pending p.curr_ut p.user_threads

-- A hit counts if an experiment runs.
abbrev pub worth : Bool → ℕ
worth true = 1
worth false = 0

-- One event of a user thread, with the number of points that it hits. A thread that ends takes the
-- four steps of removeUserThread, with signals and other threads between any two of them, and
-- reaches no progress point any more. A signal is handled in one go, or its handler has passed the
-- tests at some earlier time and goes on now: with the branch outside an experiment, or with one of
-- the steps of the branch inside. `read` is any value: what was read of global_delay may be old by
-- the time the thread goes on.
pub data UserEvent (p : Profiler) : ℕ → Profiler → Type 0 where
  starts :
      (t thread : ℕ) (in_main : Bool)
      → is_member t p.user_threads ≡ false
      → UserEvent p 0 (add_user_thread p t thread in_main)
  counts :
      (t : ℕ) (u : UserThread)
      → p.curr_ut t ≡ live u
      → u.removal ≡ not_begun
      → UserEvent p 0 (count_points p t u)
  clears :
      (t : ℕ) (u : UserThread)
      → p.curr_ut t ≡ live u
      → u.removal ≡ counted
      → UserEvent p 0 (clear_points p t u)
  settles :
      (t : ℕ) (read : ℤ) (u : UserThread)
      → p.curr_ut t ≡ live u
      → u.removal ≡ cleared
      → UserEvent p 0 (settle_delay p t read u)
  deletes :
      (t : ℕ) (u : UserThread)
      → p.curr_ut t ≡ live u
      → u.removal ≡ settled
      → UserEvent p 0 (delete_thread p t)
  is_signalled :
      (nanosleep : Kernel) (now t : ℕ) (env : Bool) (trace : CallTrace) {q : Profiler}
      → handle nanosleep now env p t trace ≡ ok q
      → UserEvent p 0 q
  samples : (t : ℕ) (trace : CallTrace) {q : Profiler} → sample p t trace ≡ ok q → UserEvent p 0 q
  charges :
      (t : ℕ) (trace : CallTrace) (u : UserThread)
      → p.curr_ut t ≡ live u
      → UserEvent p 0 (charge_signal p t trace u)
  pauses :
      (nanosleep : Kernel) (now t : ℕ) (read : ℤ) (u : UserThread)
      → p.curr_ut t ≡ live u
      → UserEvent p 0 (pause_signal nanosleep now p t read u)
  flushes : (t : ℕ) (u : UserThread) → p.curr_ut t ≡ live u → UserEvent p 0 (flush_points p t u)
  hits :
      (t : ℕ) (u : UserThread) {q : Profiler}
      → p.curr_ut t ≡ live u
      → u.removal ≡ not_begun
      → handle_breakpoint p t ≡ ok q
      → UserEvent p (worth p.in_experiment) q

-- One of those, or in_experiment being set by the agent.
pub data Event (p : Profiler) : ℕ → Profiler → Type 0 where
  user : {k : ℕ} {q : Profiler} → UserEvent p k q → Event p k q
  turns : (b : Bool) → Event p 0 (record p { in_experiment = b })

pub data Events (p : Profiler) : ℕ → Profiler → Type 0 where
  begin : Events p 0 p
  step : {n k : ℕ} {q r : Profiler} → Events p n q → Event q k r → Events p (n + k) r

-- The points that removeUserThread adds to the shared counter in an event.
abbrev pub counted_by : {p q : Profiler} {k : ℕ} → UserEvent p k q → ℕ
counted_by (counts t u found place) = pos_part u.points_hit
counted_by _ = 0

-- The points that removeUserThread takes from an object in an event: those that it has counted, less
-- those that a signal has counted in the meantime.
abbrev pub cleared_by : {p q : Profiler} {k : ℕ} → UserEvent p k q → ℕ
cleared_by (clears t u found place) = pos_part u.points_hit
cleared_by (deletes t u found place) = pos_part u.points_hit
cleared_by _ = 0

abbrev pub counted_of : {p q : Profiler} {k : ℕ} → Event p k q → ℕ
counted_of (user e) = counted_by e
counted_of (turns b) = 0

abbrev pub cleared_of : {p q : Profiler} {k : ℕ} → Event p k q → ℕ
cleared_of (user e) = cleared_by e
cleared_of (turns b) = 0

unfoldable pub all_counted : {p q : Profiler} {k : ℕ} → Events p k q → ℕ
all_counted begin = 0
all_counted (step r e) = all_counted r + counted_of e

unfoldable pub all_cleared : {p q : Profiler} {k : ℕ} → Events p k q → ℕ
all_cleared begin = 0
all_cleared (step r e) = all_cleared r + cleared_of e
