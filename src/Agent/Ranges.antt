-- ===== src/Agent/Ranges.antt =====
-- The array of code ranges of the experiment, current_experiment.location_ranges: made by
-- runAgentThread and deleted by runExperiment, src/profiler.cc. Handle reads it in an experiment, under
-- no lock, which is left out here.
use jcoz.Base.{
  if-both, ℕ, ◌+◌, ◌≡◌, refl, sym, ap, subst, ◌∙◌, Bool, true, false, not, Option, none, some,
  if◌then◌else◌, arith, Result, ok, halt, fault, ◌>>=◌,
}
use jcoz.Text.{Bytes}
use jcoz.Profiler.{Profiler}
use jcoz.Agent.{Agent, prepare, keeps_going}
use jcoz.Agent.System.{
  Phase, starting, warming, looping, sampling, experimenting, closing, settling, done, System,
  Given, class_sig, prepared, step_from, agent_step, Move, agent_moves, user_moves, stops, leaves,
  Run, begin, more,
}

-- What the pointer points to.
pub data Block : Type 0 where
  none_yet live deleted : Block

-- How many arrays were made with new[] and given back with delete[].
pub record Memory : Type 0 where
  pub block : Block
  pub made : ℕ
  pub given_back : ℕ

abbrev pub no_memory : Memory
no_memory = record { block = none_yet; made = 0; given_back = 0 }

unfoldable pub new_ranges : Memory → Memory
new_ranges m = record { block = live; made = m.made + 1; given_back = m.given_back }

-- delete[] of a null pointer does nothing, and of a deleted array is a fault.
abbrev pub delete_block : Memory → Block → Result Memory
delete_block m none_yet = ok m
delete_block m live = ok (record m { block = deleted; given_back = m.given_back + 1 })
delete_block m deleted = halt fault

unfoldable pub delete_ranges : Memory → Result Memory
delete_ranges m = delete_block m m.block

-- The end of runExperiment: the array is deleted if the profiler is stopped, or at the end; not where
-- the class has no signature.
unfoldable pub end_ranges : Bool → Option Bytes → Memory → Result Memory
unfolding delete_ranges
end_ranges running sig m =
    if not running then delete_ranges m else elim sig [ none ↦ ok m | some s ↦ delete_ranges m ]

abbrev pub ranges_of_step : Given → Agent → Phase → Memory → Result Memory
ranges_of_step i a sampling m =
    if (prepare i.random_shuffle i.line_table a.shared).1 then ok (new_ranges m) else ok m
ranges_of_step i a (settling start) m = end_ranges a.running (class_sig i a) m
ranges_of_step i a _ m = ok m

abbrev pub ranges_of_move : {s t : System} {k : ℕ} → Move s k t → Memory → Result Memory
ranges_of_move {s} (agent_moves i) m = ranges_of_step i s.agent s.phase m
ranges_of_move _ m = ok m

unfoldable pub ranges_of_run : {s t : System} {k : ℕ} → Run s k t → Memory → Result Memory
unfolding new_ranges end_ranges
ranges_of_run begin m = ok m
ranges_of_run (more r move) m = ranges_of_run r m >>= ranges_of_move move

-- The experiments that end without a signature while the profiler runs.
abbrev pub missing_sig : Option Bytes → ℕ
missing_sig none = 1
missing_sig (some sig) = 0

abbrev pub skipped_by : Given → Agent → Phase → ℕ
skipped_by i a (settling start) = if not a.running then 0 else missing_sig (class_sig i a)
skipped_by i a _ = 0

abbrev pub skipped_of : {s t : System} {k : ℕ} → Move s k t → ℕ
skipped_of {s} (agent_moves i) = skipped_by i s.agent s.phase
skipped_of _ = 0

unfoldable pub skipped : {s t : System} {k : ℕ} → Run s k t → ℕ
skipped begin = 0
skipped (more r e) = skipped r + skipped_of e

-- Whether an experiment has its array.
abbrev pub in_use : Phase → ℕ
in_use (experimenting start end_time) = 1
in_use (closing start) = 1
in_use (settling start) = 1
in_use _ = 0

abbrev IsLive : Phase → Block → Type 0
IsLive (experimenting start end_time) b = b ≡ live
IsLive (closing start) b = b ≡ live
IsLive (settling start) b = b ≡ live
IsLive _ b = Unit {0}

record Tracks (phase : Phase) (skips : ℕ) (m : Memory) : Type 0 where
  pub alive : IsLive phase m.block
  pub balance : m.made ≡ m.given_back + skips + in_use phase

-- A result that is a memory which tracks.
abbrev Tracked : Phase → ℕ → Result Memory → Type 0
Tracked phase skips r = (m : Memory) × (r ≡ ok m) × Tracks phase skips m

delete_live :
    (m : Memory)
    → m.block ≡ live
    → delete_ranges m ≡ ok (record m { block = deleted; given_back = m.given_back + 1 })
unfolding delete_ranges
delete_live m e = ap (delete_block m) e

end-Tracked :
    (i : Given) (a : Agent) (start n : ℕ) (m : Memory)
    → Tracks (settling start) n m
    → Tracked looping (n + skipped_by i a (settling start)) (end_ranges a.running (class_sig i a) m)
unfolding end_ranges
end-Tracked i a start n m t = by_running a.running (class_sig i a)
  where
    deletes : Tracked looping (n + 0) (delete_ranges m)
    deletes = (_, delete_live m t.alive, record { alive = tt; balance = omega (arith, t.balance) })

    by_running :
        (running : Bool) (sig : Option Bytes)
        → Tracked looping
            (n + (if not running then 0 else missing_sig sig))
            (end_ranges running sig m)
    by_running false sig = deletes
    by_running true (some s) = deletes
    by_running true none = (m, refl, record { alive = tt; balance = omega (arith, t.balance) })

prepared-Tracked :
    (i : Given) (a : Agent) (n : ℕ) (m : Memory) (r : Profiler × Bool)
    → Tracks sampling n m
    → Tracked (prepared i a r).phase (n + 0) (if r.1 then ok (new_ranges m) else ok m)
unfolding new_ranges
prepared-Tracked i a n m (p, true) t =
    (new_ranges m, refl, record { alive = refl; balance = omega (arith, t.balance) })
prepared-Tracked i a n m (p, false) t =
    (m, refl, record { alive = tt; balance = omega (arith, t.balance) })

step-Tracked :
    (i : Given) (a : Agent) (phase : Phase) (n : ℕ) (m : Memory)
    → Tracks phase n m
    → Tracked (step_from i a phase).phase (n + skipped_by i a phase) (ranges_of_step i a phase m)
step-Tracked i a starting n m t =
    (m, refl, record { alive = tt; balance = omega (arith, t.balance) })
step-Tracked i a warming n m t =
    (m, refl, record { alive = tt; balance = omega (arith, t.balance) })
step-Tracked i a looping n m t =
    if-both (λ phase. Tracked phase (n + 0) (ok m)) a.running sampling done
      (m, refl, record { alive = tt; balance = omega (arith, t.balance) })
      (m, refl, record { alive = tt; balance = omega (arith, t.balance) })
step-Tracked i a sampling n m t =
    prepared-Tracked i a n m (prepare i.random_shuffle i.line_table a.shared) t
step-Tracked i a (experimenting start end_time) n m t =
    if-both (λ (s : System). Tracked s.phase (n + 0) (ok m)) (keeps_going a i.now end_time) _ _
      (m, refl, record { alive = t.alive; balance = omega (arith, t.balance) })
      (m, refl, record { alive = t.alive; balance = omega (arith, t.balance) })
step-Tracked i a (closing start) n m t =
    (m, refl, record { alive = t.alive; balance = omega (arith, t.balance) })
step-Tracked i a (settling start) n m t = end-Tracked i a start n m t
step-Tracked i a done n m t = (m, refl, record { alive = tt; balance = omega (arith, t.balance) })

Move-Tracked :
    {s t : System} {k : ℕ} (n : ℕ) (m : Memory) (e : Move s k t)
    → Tracks s.phase n m
    → Tracked t.phase (n + skipped_of e) (ranges_of_move e m)
unfolding agent_step
Move-Tracked {s} n m (agent_moves i) h = step-Tracked i s.agent s.phase n m h
Move-Tracked {s} n m (user_moves e) h =
    (m, refl, record { alive = h.alive; balance = omega (arith, h.balance) })
Move-Tracked {s} n m stops h =
    (m, refl, record { alive = h.alive; balance = omega (arith, h.balance) })
Move-Tracked {s} n m (leaves e) h =
    (m, refl, record { alive = h.alive; balance = omega (arith, h.balance) })

run-Tracked :
    {s t : System} {k : ℕ} (r : Run s k t)
    → Tracks s.phase 0 no_memory
    → Tracked t.phase (skipped r) (ranges_of_run r no_memory)
unfolding ranges_of_run skipped
run-Tracked begin h = (no_memory, refl, h)
run-Tracked (more r e) h =
    let (m, f, tracks) = run-Tracked r h in
    let (q, g, now) = Move-Tracked (skipped r) m e tracks in
    (q, ap (λ x. x >>= ranges_of_move e) f ∙ g, now)

-- In any run of the agent's thread from its start, among the user threads' events and calls of
-- Stop: no array of code ranges is deleted twice, and the arrays that were made are those that were
-- deleted, the one of an experiment that is not over, and one for each experiment that ended
-- without a signature for its class while the profiler was running.
pub ranges_balance :
    {s t : System} {k : ℕ} (r : Run s k t)
    → s.phase ≡ starting
    → (m : Memory) × (ranges_of_run r no_memory ≡ ok m)
      × (m.made ≡ m.given_back + skipped r + in_use t.phase)
ranges_balance {s} r e =
    let (m, f, tracks) =
      run-Tracked r (
        subst (λ phase. Tracks phase 0 no_memory) (sym e)
          (record { alive = tt; balance = refl })) in
    (m, f, tracks.balance)
