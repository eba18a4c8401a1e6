-- ===== src/Agent/Untouched.antt =====
-- What the user threads' events, and the choice of an experiment, leave alone of the shared state.
use jcoz.Base.{
  ℕ, ◌≤◌, ◌≡◌, refl, sym, subst, ◌∙◌, inl, inr, Bool, true, false, Option, none, some, arith, List,
  [], ◌∷◌, ok, ok-injective,
}
use jcoz.Frame.{CallFrame, LineEntry}
use jcoz.Sleep.{Kernel}
use jcoz.Profiler.{Profiler, put}
use jcoz.Profiler.Threads.{
  add_user_thread, count_points, clear_points, settle_delay, delete_thread, handle_breakpoint,
}
use jcoz.Profiler.Handler.{
  CallTrace, record_frame, record_first, sample, experiment_signal, charge_signal, pause_signal,
  flush_points,
}
use jcoz.Profiler.Objects.{handle_cases}
use jcoz.Profiler.Points.{
  UserEvent, starts, counts, clears, settles, deletes, samples, charges, pauses, flushes,
  is_signalled, hits,
}
use jcoz.Profiler.Points.Objects.{with_ut-live}
use jcoz.Agent.{prepare, prepare_from, copied, aim_at, select, unique, sort_frames}

-- The two flags of `q` are those of `p`.
pub record Flags (p q : Profiler) : Type 0 where
  pub experiment : q.in_experiment ≡ p.in_experiment
  pub ready : q.prof_ready ≡ p.prof_ready

Flags-of_eq : (p q : Profiler) → p ≡ q → Flags p q
Flags-of_eq p q e = subst (Flags p) e (record { experiment = refl; ready = refl })

add-Flags : (p : Profiler) (t thread : ℕ) (b : Bool) → Flags p (add_user_thread p t thread b)
unfolding add_user_thread put
add-Flags p t thread true = record { experiment = refl; ready = refl }
add-Flags p t thread false = record { experiment = refl; ready = refl }

hit-Flags : (p q : Profiler) (t : ℕ) → handle_breakpoint p t ≡ ok q → Flags p q
unfolding handle_breakpoint put
hit-Flags p q t h =
    let (u, found, e) = with_ut-live p q t _ h in
    subst (Flags p) (ok-injective _ q e) (record { experiment = refl; ready = refl })

first-Flags : (p q : Profiler) (o : Option CallFrame) → record_first p o ≡ ok q → Flags p q
unfolding record_frame
first-Flags p q none h = Flags-of_eq p q (ok-injective p q h)
first-Flags p q (some f) h = record { experiment = ground arith; ready = ground arith }

sample-Flags : (p q : Profiler) (t : ℕ) (trace : CallTrace) → sample p t trace ≡ ok q → Flags p q
unfolding sample put
sample-Flags p q t trace h =
    let (u, found, e) = with_ut-live p q t _ h in
    let f = first-Flags _ q _ e in record { experiment = f.experiment; ready = f.ready }

experiment-Flags :
    (nanosleep : Kernel) (now : ℕ) (p q : Profiler) (t : ℕ) (trace : CallTrace)
    → experiment_signal nanosleep now p t trace ≡ ok q
    → Flags p q
unfolding experiment_signal put
experiment-Flags nanosleep now p q t trace h =
    let (u, found, e) = with_ut-live p q t _ h in
    subst (Flags p) (ok-injective _ q e) (record { experiment = refl; ready = refl })

pub user-Flags : {p q : Profiler} {k : ℕ} → UserEvent p k q → Flags p q
unfolding count_points clear_points settle_delay delete_thread charge_signal pause_signal
    flush_points put
user-Flags {p} (starts t thread b free) = add-Flags p t thread b
user-Flags (counts t u found place) = record { experiment = refl; ready = refl }
user-Flags (clears t u found place) = record { experiment = refl; ready = refl }
user-Flags (settles t read u found place) = record { experiment = refl; ready = refl }
user-Flags (deletes t u found place) = record { experiment = refl; ready = refl }
user-Flags {p} {q} (samples t trace e) = sample-Flags p q t trace e
user-Flags (charges t trace u found) = record { experiment = refl; ready = refl }
user-Flags (pauses nanosleep now t read u found) = record { experiment = refl; ready = refl }
user-Flags (flushes t u found) = record { experiment = refl; ready = refl }
user-Flags {p} {q} (is_signalled nanosleep now t env trace e) =
    elim (handle_cases nanosleep now env p t trace) [
      | inl f ↦ Flags-of_eq p q (ok-injective p q (sym f ∙ e))
      | inr (inl f) ↦ sample-Flags p q t trace (sym f ∙ e)
      | inr (inr f) ↦ experiment-Flags nanosleep now p q t trace (sym f ∙ e)
    ]
user-Flags {p} {q} (hits t u found place e) = hit-Flags p q t e

-- The objects, the set and the counter of `q` are those of `p`.
pub record Same (p q : Profiler) : Type 0 where
  pub cells : q.curr_ut ≡ p.curr_ut
  pub threads : q.user_threads ≡ p.user_threads
  pub points : q.points_hit ≤ p.points_hit

aim_at-both :
    (p : Profiler) (o : Option (CallFrame × List LineEntry))
    → let q = (aim_at (record p { call_index = 0 }) o).0 in Same p q × Flags p q
aim_at-both p none = (
  record { cells = refl; threads = refl; points = omega arith },
  record { experiment = refl; ready = refl },
)
aim_at-both p (some r) = (
  record { cells = refl; threads = refl; points = omega arith },
  record { experiment = refl; ready = refl },
)

prepare_from-both :
    (random_shuffle : List CallFrame → List CallFrame) (line_table : ℕ → Option (List LineEntry))
    (p : Profiler) (fs : List CallFrame)
    → let q = (prepare_from random_shuffle line_table p fs).0 in Same p q × Flags p q
unfolding prepare_from
prepare_from-both random_shuffle line_table p [] = (
  record { cells = refl; threads = refl; points = omega arith },
  record { experiment = refl; ready = refl },
)
prepare_from-both random_shuffle line_table p (f ∷ fs) =
    aim_at-both p (select line_table (random_shuffle (unique (sort_frames (f ∷ fs)))))

module _ (random_shuffle : List CallFrame → List CallFrame)
    (line_table : ℕ → Option (List LineEntry)) (p : Profiler) where
  pub prepare-Same : Same p (prepare random_shuffle line_table p).0
  unfolding prepare
  prepare-Same = (prepare_from-both random_shuffle line_table p (copied p)).0

  pub prepare-Flags : Flags p (prepare random_shuffle line_table p).0
  unfolding prepare
  prepare-Flags = (prepare_from-both random_shuffle line_table p (copied p)).1
