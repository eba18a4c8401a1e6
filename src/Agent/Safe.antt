-- ===== src/Agent/Safe.antt =====
-- The user threads' objects, and the buffer of sampled frames, over a whole run of the agent's thread
-- among the user threads: what Handle, HandleBreakpoint and removeUserThread of src/profiler.cc need.
use jcoz.Base.{
  if-both, ℕ, zero, suc, ◌+◌, ◌^◌, ◌<◌, ◌≤◌, ◌≡◌, refl, sym, ap, ◌∙◌, Bool, true, false, not, List,
  [], ◌∷◌, Option, none, some, max, min, leb, take, arith, length, length-replicate, if◌then◌else◌,
  is_ok,
}
use jcoz.Base.Int.{pos}
use jcoz.Text.{Bytes}
use jcoz.Frame.{CallFrame, LineEntry}
use jcoz.Sleep.{Kernel}
use jcoz.Profiler.{
  Cell, null, live, freed, Profiler, num_static_call_frames, is_member, put, with_ut,
}
use jcoz.Profiler.Threads.{remove_user_thread, handle_breakpoint}
use jcoz.Profiler.Handler.{CallTrace, handle}
use jcoz.Profiler.Objects.{IsSafe, is_member-erase}
use jcoz.Profiler.Reached.{handle_ok}
use jcoz.Agent.{
  Agent, begin_experiment, keeps_going, report, report_class, stop, leave_scope, clear_frames,
  end_experiment, prepare, prepare_from, copied, aim_at, select, unique, sort_frames,
}
use jcoz.Agent.Room.{signals_of, HasRoom, Holds, user-Holds}
use jcoz.Agent.Untouched.{Same, prepare-Same}
use jcoz.Agent.System.{
  Phase, starting, warming, looping, sampling, experimenting, closing, settling, done, System,
  Given, class_sig, agent_start, prepared, step_from, agent_step, Move, agent_moves, user_moves,
  stops, leaves, Run, begin, more,
}

abbrev after_agent : Phase → ℕ → ℕ
after_agent sampling n = 0
after_agent _ n = n

-- The signals since the frames were last copied.
unfoldable pub since_copy : {s t : System} {n : ℕ} → Run s n t → ℕ
since_copy begin = 0
since_copy (more {t = t} r (agent_moves i)) = after_agent t.phase (since_copy r)
since_copy (more r (user_moves e)) = since_copy r + signals_of e
since_copy (more r stops) = since_copy r
since_copy (more r (leaves e)) = since_copy r

-- The most signals that came between two copies, in a run.
unfoldable pub most_signals : {s t : System} {n : ℕ} → Run s n t → ℕ
most_signals begin = 0
most_signals (more r m) = max (most_signals r) (since_copy (more r m))

-- The agent's own steps keep the set and the objects, and free the buffer when they copy it.
Holds-keeps :
    (p q : Profiler) (n m : ℕ)
    → q.user_threads ≡ p.user_threads
    → q.curr_ut ≡ p.curr_ut
    → HasRoom q m
    → Holds p n
    → Holds q m
Holds-keeps p q n m e f r h = record { safe = rw (e, f) h.safe; room = r }

start-IsSafe :
    (self : ℕ) (p : Profiler) (c : Cell)
    → p.curr_ut self ≡ c
    → IsSafe p
    → IsSafe (agent_start self p)
unfolding agent_start put
start-IsSafe self p null e safe s m = ground (arith, safe s)
start-IsSafe self p (live u) e safe s m =
    ground (arith, is_member-erase s self p.user_threads, safe s)
start-IsSafe self p freed e safe s m = ground (arith, safe s)

start-Holds : (self : ℕ) (p : Profiler) (n : ℕ) → Holds p n → Holds (agent_start self p) n
unfolding agent_start put
start-Holds self p n h = record {
  safe = start-IsSafe self p (p.curr_ut self) refl h.safe;
  room = record { places = h.room.places; index = h.room.index };
}

aim_at-HasRoom :
    (p : Profiler) (o : Option (CallFrame × List LineEntry))
    → length p.static_call_frames ≡ num_static_call_frames
    → HasRoom (aim_at (record p { call_index = 0 }) o).0 0
aim_at-HasRoom p none e = record { places = e; index = omega arith }
aim_at-HasRoom p (some r) e = record { places = e; index = omega arith }

empty_take :
    (fs : List CallFrame) (i : ℕ)
    → length fs ≡ num_static_call_frames
    → i < 2 ^ 31
    → take (if leb (2 ^ 31) i then 0 else min i num_static_call_frames) fs ≡ []
    → i ≤ 0
empty_take [] i places low h = absurd (omega (arith, places))
empty_take (f ∷ fs) zero places low h = omega arith
empty_take (f ∷ fs) (suc i) places low h =
    let more_than : (if leb (2 ^ 31) (suc i) then 0 else min (suc i) num_static_call_frames)
        ≡ suc (min i 199) =
      ground arith in
    absurd (cc (sym (ap (λ n. take n (f ∷ fs)) more_than) ∙ h))

-- Nothing is copied only where nothing was sampled.
none_copied : (p : Profiler) (n : ℕ) → n < 2 ^ 31 → HasRoom p n → copied p ≡ [] → p.call_index ≤ 0
none_copied p n small r e =
    empty_take p.static_call_frames p.call_index r.places (omega (arith, r.index)) e

prepare_from-HasRoom :
    (random_shuffle : List CallFrame → List CallFrame) (line_table : ℕ → Option (List LineEntry))
    (p : Profiler) (n : ℕ) (fs : List CallFrame)
    → n < 2 ^ 31
    → HasRoom p n
    → copied p ≡ fs
    → HasRoom (prepare_from random_shuffle line_table p fs).0 0
unfolding prepare_from
prepare_from-HasRoom random_shuffle line_table p n [] small r e = record {
  places = r.places;
  index = none_copied p n small r e;
}
prepare_from-HasRoom random_shuffle line_table p n (f ∷ fs) small r e =
    aim_at-HasRoom p (select line_table (random_shuffle (unique (sort_frames (f ∷ fs))))) r.places

prepare-HasRoom :
    (random_shuffle : List CallFrame → List CallFrame) (line_table : ℕ → Option (List LineEntry))
    (p : Profiler) (n : ℕ)
    → n < 2 ^ 31
    → HasRoom p n
    → HasRoom (prepare random_shuffle line_table p).0 0
unfolding prepare
prepare-HasRoom random_shuffle line_table p n small r =
    prepare_from-HasRoom random_shuffle line_table p n (copied p) small r refl

prepared-Holds :
    (i : Given) (a : Agent) (n : ℕ) (r : Profiler × Bool)
    → Holds a.shared n
    → Same a.shared r.0
    → HasRoom r.0 0
    → Holds (prepared i a r).agent.shared 0
unfolding begin_experiment
prepared-Holds i a n (p, false) h s r = Holds-keeps a.shared p n 0 s.threads s.cells r h
prepared-Holds i a n (p, true) h s r =
    Holds-keeps a.shared (begin_experiment i.rand p) n 0 s.threads s.cells
      (record { places = r.places; index = r.index }) h

report_class-Holds :
    (a : Agent) (sig : Option Bytes) (n : ℕ)
    → Holds a.shared n
    → Holds (report_class a sig).shared n
report_class-Holds a none n h = h
report_class-Holds a (some sig) n h = h

report-Holds :
    (i : Given) (start : ℕ) (a : Agent) (n : ℕ)
    → Holds a.shared n
    → Holds (report (class_sig i a) start i.now a).shared n
unfolding report
report-Holds i start a n h =
    if-both (λ (x : Agent). Holds x.shared n) (not a.running) a _ h
      (report_class-Holds _ (class_sig i a) n
        (record { safe = h.safe; room = record { places = h.room.places; index = h.room.index } }))

step_from-Holds :
    (i : Given) (a : Agent) (phase : Phase) (n : ℕ)
    → n < 2 ^ 31
    → Holds a.shared n
    → Holds (step_from i a phase).agent.shared (after_agent phase n)
unfolding end_experiment clear_frames
step_from-Holds i a starting n small h = start-Holds i.self a.shared n h
step_from-Holds i a warming n small h =
    Holds-keeps a.shared _ n n refl refl (record { places = h.room.places; index = h.room.index }) h
step_from-Holds i a looping n small h = h
step_from-Holds i a sampling n small h =
    prepared-Holds i a n _ h (prepare-Same i.random_shuffle i.line_table a.shared)
      (prepare-HasRoom i.random_shuffle i.line_table a.shared n small h.room)
step_from-Holds i a (experimenting start end_time) n small h =
    if-both (λ (s : System). Holds s.agent.shared n) (keeps_going a i.now end_time) _ _ h h
step_from-Holds i a (closing start) n small h =
    Holds-keeps a.shared _ n n refl refl (record { places = h.room.places; index = h.room.index }) h
step_from-Holds i a (settling start) n small h =
    let r = report-Holds i start a n h in
    Holds-keeps _ _ n n refl refl
      (record {
        places =
            length-replicate {A = CallFrame} num_static_call_frames
              (record { lineno = pos 0; method_id = 0 });
        index = r.room.index;
      })
      r
step_from-Holds i a done n small h = h

stop-Holds : (a : Agent) (n : ℕ) → Holds a.shared n → Holds (stop a).shared n
unfolding stop
stop-Holds a n h =
    Holds-keeps a.shared _ n n (ground arith) (ground arith)
      (record {
        places = ap length frames_kept ∙ h.room.places;
        index = omega (arith, index_kept, h.room.index);
      })
      h
  where
    frames_kept : (stop a).shared.static_call_frames ≡ a.shared.static_call_frames
    frames_kept = ground arith

    index_kept : (stop a).shared.call_index ≡ a.shared.call_index
    index_kept = ground arith

move-Holds :
    {s t u : System} {k j : ℕ} (r : Run s k t) (m : Move t j u)
    → since_copy r < 2 ^ 31
    → Holds t.agent.shared (since_copy r)
    → Holds u.agent.shared (since_copy (more r m))
unfolding since_copy agent_step leave_scope
move-Holds {t = t} r (agent_moves i) small h = step_from-Holds i t.agent t.phase _ small h
move-Holds r (user_moves e) small h = user-Holds (since_copy r) e h
move-Holds {t = t} r stops small h = stop-Holds t.agent (since_copy r) h
move-Holds {t = t} r (leaves e) small h =
    Holds-keeps t.agent.shared _ (since_copy r) (since_copy r) refl refl
      (record { places = h.room.places; index = h.room.index }) h

since_most : {s t : System} {k : ℕ} (r : Run s k t) → since_copy r ≤ most_signals r
unfolding since_copy most_signals
since_most begin = omega arith
since_most (more r m) = omega arith

run-Holds :
    {s t : System} {k : ℕ} (r : Run s k t)
    → most_signals r < 2 ^ 31
    → Holds s.agent.shared 0
    → Holds t.agent.shared (since_copy r)
unfolding since_copy most_signals agent_step
run-Holds begin small h = h
run-Holds (more {t = t} r m) small h =
    let before : most_signals r < 2 ^ 31 = omega (arith, small) in
    move-Holds r m (omega (arith, since_most r, before)) (run-Holds r before h)

-- In any run of the agent's thread among the user threads' events and calls of Stop, from any phase
-- with an empty buffer of 200 places and an object for every thread in the set: a signal, a
-- breakpoint and the end of any thread in the set are no fault. Between two copies of the buffer
-- there are fewer than 2^31 signals.
pub Run-IsSafe :
    {s t : System} {k : ℕ} (nanosleep : Kernel) (now u : ℕ) (env : Bool) (trace : CallTrace)
    (r : Run s k t)
    → IsSafe s.agent.shared
    → s.agent.shared.call_index ≡ 0
    → length s.agent.shared.static_call_frames ≡ num_static_call_frames
    → most_signals r < 2 ^ 31
    → is_member u t.agent.shared.user_threads ≡ true
    → (is_ok (handle nanosleep now env t.agent.shared u trace) ≡ true)
      × (is_ok (handle_breakpoint t.agent.shared u) ≡ true)
      × (is_ok (remove_user_thread t.agent.shared u) ≡ true)
unfolding handle_breakpoint remove_user_thread with_ut
Run-IsSafe {s} {t} nanosleep now u env trace r safe empty places small m =
    let h =
      run-Holds r small
        (record { safe = safe; room = record { places = places; index = omega (arith, empty) } }) in
    let alive = h.safe u m in
    (
      handle_ok nanosleep now env t.agent.shared u trace alive
          (omega (arith, since_most r, small, h.room.index)),
      ground (arith, alive),
      ground (arith, alive),
    )
