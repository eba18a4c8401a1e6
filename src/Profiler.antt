-- ===== src/Profiler.antt =====
-- The state that the threads share: the static members of class Profiler in src/profiler.h, and the
-- thread-local curr_ut with the object behind it.
pub mod Frames
pub mod Threads
pub mod Handler
pub mod Errors
pub mod ScopeLock
pub mod LockOrder
pub mod Sampling
pub mod Delays
pub mod Signals
pub mod Cycle
pub mod Synchronisation
pub mod Lead
pub mod Objects
pub mod Reached
pub mod Points
use jcoz.Base.{
  ℕ, zero, suc, ◌+◌, ◌%◌, ◌^◌, ◌≡◌, Bool, true, false, ◌||◌, List, [], ◌∷◌, ◌++◌, Option, none,
  some, ◌==◌, if◌then◌else◌, ltb, leb, set, Result, ok, halt, fault,
}
use jcoz.Base.Int.{ℤ, pos, bits_of, to_long, pos_part, neg_part, ltb_ℤ, ◌+ℤ◌, ◌-ℤ◌}
use jcoz.Frame.{CallFrame}
use jcoz.Experiment.{Experiment}

-- How far removeUserThread has come on a thread: it has not begun, it has added the thread's points
-- to the shared counter, it has set them to 0, or it has dealt with the delay.
pub data Removal : Type 0 where
  not_begun counted cleared settled : Removal

-- struct UserThread. Its `thread` is the index under which the object is kept, and `removal` is the
-- thread's place in the code rather than a member.
pub record UserThread : Type 0 where
  pub local_delay : ℤ
  pub points_hit : ℤ
  pub num_signals_received : ℕ  -- unsigned int
  pub java_thread : ℕ
  pub removal : Removal

-- What a thread's curr_ut points to.
pub data Cell : Type 0 where
  null : Cell
  live : UserThread → Cell
  freed : Cell

-- `user_threads` holds the threads whose objects are in the set; a thread has one object at most.
pub record Profiler : Type 0 where
  pub in_scope_ids : List ℕ
  pub in_experiment : Bool
  pub static_call_frames : List CallFrame
  pub call_index : ℕ  -- the bits of an atomic<int>
  pub current_experiment : Experiment
  pub user_threads : List ℕ
  pub global_delay : ℤ
  pub points_hit : ℕ  -- atomic_ulong
  pub prof_ready : Bool
  pub curr_ut : ℕ → Cell

abbrev pub num_static_call_frames : ℕ
num_static_call_frames = 200

unfoldable pub is_member : ℕ → List ℕ → Bool
is_member x [] = false
is_member x (y ∷ ys) = if y == x then true else is_member x ys

-- insert and erase of an unordered_set, whose order nothing depends on
unfoldable pub insert : ℕ → List ℕ → List ℕ
unfolding is_member
insert x ys = if is_member x ys then ys else x ∷ ys

unfoldable pub erase : ℕ → List ℕ → List ℕ
erase x [] = []
erase x (y ∷ ys) = if y == x then erase x ys else y ∷ erase x ys

-- curr_ut = …; on thread `t`
abbrev pub update : (ℕ → Cell) → ℕ → Cell → ℕ → Cell
update cells t c s = if s == t then c else cells s

unfoldable pub put : Profiler → ℕ → Cell → Profiler
put p t c = record p { curr_ut = update p.curr_ut t c }

-- A use of *curr_ut on thread `t`.
unfoldable pub with_ut : Profiler → ℕ → (UserThread → Result Profiler) → Result Profiler
with_ut p t f = elim (p.curr_ut t) [ live u ↦ f u | null ↦ halt fault | freed ↦ halt fault ]

-- points_hit += n, for an atomic_ulong and a long
abbrev pub add_points : ℕ → ℤ → ℕ
add_points points n = (points + bits_of n) % 2 ^ 64

-- std::labs
abbrev pub labs : ℤ → ℤ
labs n = pos (pos_part n + neg_part n)

-- a += b for two longs. The atomic one wraps; the overflow of a plain one is undefined.
unfoldable pub add_long : ℤ → ℤ → ℤ
add_long a b = to_long (a +ℤ b)

-- global_delay, after a thread compared its own delay with the value that it read of it: a thread that
-- is behind leaves it to sleep, and one that is ahead raises what global_delay has come to be.
abbrev pub raised : ℤ → ℤ → ℤ → ℤ
raised global_delay read local_delay =
    let difference = to_long (read -ℤ local_delay) in
    if ltb_ℤ (pos 0) difference then global_delay else add_long global_delay (labs difference)
