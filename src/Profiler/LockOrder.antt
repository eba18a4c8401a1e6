-- ===== src/Profiler/LockOrder.antt =====
-- The three locks of class Profiler, src/profiler.cc, as the threads spin for them: in_scope_lock,
-- frame_lock and user_threads_lock, in addInScopeMethods, clearInScopeMethods, addUserThread,
-- removeUserThread, signal_user_threads and runAgentThread, and in Handle, which can interrupt a user
-- thread anywhere in them.
pub mod Mutex
pub mod Ordered
pub mod Sections
pub mod Handled
pub mod Kept
pub mod Holders
pub mod Progress
use jcoz.Base.{ℕ, ◌≡◌, ◌≢◌, Bool, true, false, Option, none, some, ◌==◌, if◌then◌else◌}

-- What the locks are for: the set of methods, the set of threads, and the buffer of frames.
pub data Section : Type 0 where
  in_scope user_threads frame_buffer : Section

-- Where a thread is outside of its handler.
pub data Place : Type 0 where
  outside : Place
  wants inside : Section → Place

-- Where its handler is, with has_lock.
pub data Handler : Type 0 where
  absent wants_scope : Handler
  scanning wants_frames recording leaving : Bool → Handler

pub record Thread : Type 0 where
  pub place : Place
  pub handler : Handler

pub record Locks : Type 0 where
  pub in_scope_lock : ℕ  -- a pthread_t, or 0
  pub frame_lock : ℕ
  pub user_threads_lock : ℕ
  pub threads : ℕ → Thread

abbrev pub moved : (ℕ → Thread) → ℕ → Thread → ℕ → Thread
moved threads t m s = if s == t then m else threads s

abbrev pub move : Locks → ℕ → Place → Handler → Locks
move l t p h = record l { threads = moved l.threads t (record { place = p; handler = h }) }

-- __sync_bool_compare_and_swap on a lock: `none` where it fails and the thread spins.
abbrev pub compare_and_swap : ℕ → Locks → Option Locks
compare_and_swap lock next = if lock == 0 then some next else none

-- The locking and the unlocking of a section by thread `t`
abbrev pub enter : Locks → ℕ → Section → Option Locks
enter l t in_scope =
    compare_and_swap l.in_scope_lock
      (record (move l t (inside in_scope) absent) { in_scope_lock = t })
enter l t user_threads =
    compare_and_swap l.user_threads_lock
      (record (move l t (inside user_threads) absent) { user_threads_lock = 1 })
enter l t frame_buffer =
    compare_and_swap l.frame_lock
      (record (move l t (inside frame_buffer) absent) { frame_lock = 1 })

abbrev pub exit : Locks → ℕ → Section → Locks
exit l t in_scope = record (move l t outside absent) { in_scope_lock = 0 }
exit l t user_threads = record (move l t outside absent) { user_threads_lock = 0 }
exit l t frame_buffer = record (move l t outside absent) { frame_lock = 0 }

-- The next step of a thread, if it has one and does not spin; `found` says whether a visited frame is
-- in scope.
abbrev pub advance_from : Locks → ℕ → Bool → Place → Handler → Option Locks
advance_from l t found outside absent = none
advance_from l t found (wants section) absent = enter l t section
advance_from l t found (inside section) absent = some (exit l t section)
advance_from l t found p wants_scope =
    compare_and_swap l.in_scope_lock (record (move l t p (scanning false)) { in_scope_lock = t })
advance_from l t found p (scanning has_lock) =
    some (move l t p (if found then wants_frames has_lock else leaving has_lock))
advance_from l t found p (wants_frames has_lock) =
    compare_and_swap l.frame_lock (record (move l t p (recording has_lock)) { frame_lock = 1 })
advance_from l t found p (recording has_lock) =
    some (record (move l t p (leaving has_lock)) { frame_lock = 0 })
advance_from l t found p (leaving has_lock) =
    some (record (move l t p absent) { in_scope_lock = if has_lock then l.in_scope_lock else 0 })

unfoldable pub advance : Locks → ℕ → Bool → Option Locks
advance l t found = advance_from l t found (l.threads t).place (l.threads t).handler

-- bool has_lock = in_scope_lock == pthread_self();
unfoldable pub interrupted : Locks → ℕ → Locks
interrupted l t =
    move l t (l.threads t).place (if l.in_scope_lock == t then scanning true else wants_scope)

-- One step of a thread `t`, whose pthread_t is not 0. Only the agent's thread copies and clears the
-- buffer, and it gets no signal: it is not in the set of user threads.
pub data Step (agent : ℕ) (l : Locks) : Locks → Type 0 where
  begins :
      (t : ℕ) (section : Section)
      → t ≢ 0
      → l.threads t ≡ record { place = outside; handler = absent }
      → (section ≡ frame_buffer → t ≡ agent)
      → Step agent l (move l t (wants section) absent)
  interrupts :
      (t : ℕ) → t ≢ 0 → t ≢ agent → (l.threads t).handler ≡ absent → Step agent l (interrupted l t)
  advances : (t : ℕ) (found : Bool) {k : Locks} → advance l t found ≡ some k → Step agent l k

pub data Steps (agent : ℕ) (l : Locks) : Locks → Type 0 where
  here : Steps agent l l
  next : {k m : Locks} → Steps agent l k → Step agent k m → Steps agent l m
