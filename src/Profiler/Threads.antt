-- ===== src/Profiler/Threads.antt =====
-- thread_in_main, addUserThread, removeUserThread and HandleBreakpoint of src/profiler.cc.
-- What JVMTI answers is an argument; the user_threads lock makes each change of the set one step.
use jcoz.Base.{
  ℕ, Bool, false, if◌then◌else◌, Result, ok, halt, ◌>>=◌, fault, exits, unhandled_jvmti_error,
}
use jcoz.Base.Int.{ℤ, pos}
use jcoz.Text.{Bytes, codes, text_eq}
use jcoz.Profiler.{
  UserThread, not_begun, counted, cleared, settled, null, live, freed, Profiler, insert, erase, put,
  with_ut, add_points, add_long, raised,
}

-- A JVMTI call that gives a value or fails.
pub data Answer (A : Type 0) : Type 0 where
  gives : A → Answer A
  wrong_phase : Answer A
  other_error : Answer A

-- The two queries, with the name of the thread's group.
unfoldable pub thread_in_main : Answer ℕ → (ℕ → Answer Bytes) → Result Bool
unfolding text_eq
thread_in_main (gives group) group_name = elim (group_name group) [
  | gives name ↦ ok (text_eq name (codes "main"))
  | wrong_phase ↦ ok false
  | other_error ↦ halt (exits unhandled_jvmti_error)
]
thread_in_main wrong_phase group_name = ok false
thread_in_main other_error group_name = halt (exits unhandled_jvmti_error)

-- addUserThread on thread `t`, once it is known whether the thread is in the group main
unfoldable pub add_user_thread : Profiler → ℕ → ℕ → Bool → Profiler
unfolding put
add_user_thread p t thread in_main =
    if in_main
    then record (put p t (
        live (record {
          local_delay = p.global_delay;
          points_hit = pos 0;
          num_signals_received = 0;
          java_thread = thread;
          removal = not_begun;
        }))) { user_threads = insert t p.user_threads }
    else put p t null

-- OnThreadStart: the JNI environment aside, addUserThread
unfoldable pub on_thread_start : Profiler → ℕ → ℕ → Answer ℕ → (ℕ → Answer Bytes) → Result Profiler
on_thread_start p t thread info group_name =
    thread_in_main info group_name >>= (λ in_main. ok (add_user_thread p t thread in_main))

-- sleep_time = global_delay - local_delay: a thread that is behind sleeps, and one that is ahead
-- raises global_delay. The new global_delay.
unfoldable pub settle : ℤ → ℤ → ℤ
unfolding add_long
settle global_delay local_delay = raised global_delay global_delay local_delay

-- The steps of removeUserThread on thread `t`, whose object is `u` when the step is taken: no lock
-- keeps a signal or another thread from coming between them.
-- points_hit += curr_ut->points_hit;
unfoldable pub count_points : Profiler → ℕ → UserThread → Profiler
unfolding put
count_points p t u = record (put p t (live (record u { removal = counted }))) {
  points_hit = add_points p.points_hit u.points_hit;
}

-- curr_ut->points_hit = 0;
unfoldable pub clear_points : Profiler → ℕ → UserThread → Profiler
unfolding put
clear_points p t u = put p t (live (record u { points_hit = pos 0; removal = cleared }))

-- sleep_time, from the value that was read of global_delay, with the sleep or the change of it
unfoldable pub settle_delay : Profiler → ℕ → ℤ → UserThread → Profiler
unfolding put
settle_delay p t read u = record (put p t (live (record u { removal = settled }))) {
  global_delay = raised p.global_delay read u.local_delay;
}

-- The thread leaves the set, and its object is deleted; curr_ut still points to it.
unfoldable pub delete_thread : Profiler → ℕ → Profiler
unfolding put
delete_thread p t = record (put p t freed) { user_threads = erase t p.user_threads }

-- removeUserThread where nothing comes between its steps.
unfoldable pub remove_user_thread : Profiler → ℕ → Result Profiler
unfolding count_points clear_points settle_delay delete_thread
remove_user_thread p t = elim (p.curr_ut t) [
  | null ↦ ok p
  | freed ↦ halt fault
  | live u ↦
      let without_points = record u { points_hit = pos 0; removal = cleared } in
      ok (
        delete_thread
          (settle_delay (clear_points (count_points p t u) t (record u { removal = counted })) t
            p.global_delay without_points)
          t)
]

-- HandleBreakpoint: curr_ut->points_hit += in_experiment;
unfoldable pub handle_breakpoint : Profiler → ℕ → Result Profiler
unfolding put with_ut add_long
handle_breakpoint p t = with_ut p t (λ u. ok (
    put p t (
      live (record u {
        points_hit = add_long u.points_hit (if p.in_experiment then pos 1 else pos 0);
      }))))
