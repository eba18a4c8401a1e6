-- ===== src/Profiler/LockOrder/Progress.antt =====
-- The three locks of src/profiler.cc never leave the threads in a deadlock: a thread that spins waits
-- for one that can go on.
use jcoz.Base.{ℕ, ◌≡◌, ◌≢◌, refl, sym, ap, ◌∙◌, inl, inr, Bool, true, arith}
use jcoz.Profiler.LockOrder.{
  Section, in_scope, user_threads, frame_buffer, Place, outside, wants, inside, absent, Thread,
  Locks, Steps,
}
use jcoz.Profiler.LockOrder.Ordered.{is_inside, has_scope, has_frames, has_users, IsOrdered}
use jcoz.Profiler.LockOrder.Kept.{at_rest, IsQuiet, quiet-IsOrdered, Steps-IsOrdered}
use jcoz.Profiler.LockOrder.Holders.{
  holds, Moves, SomeMoves, swaps, lock_cases, handler_cases, direct, buffer_taken, buffer_held,
  scope_taken, in_handler,
}

module _ {agent : ℕ} (l : Locks) (found : Bool) (o : IsOrdered agent l) where
  -- The thread in the section of user_threads_lock goes on, or someone in its way does.
  inside_users :
      (t s : ℕ) (p : Place)
      → l.threads s ≡ record { place = p; handler = absent }
      → is_inside user_threads p ≡ true
      → holds (l.threads s) ≡ true
      → SomeMoves l found t
  inside_users t s (inside user_threads) e has held = (
    s,
    direct l found o s (inside user_threads) outside absent absent _ e refl refl (omega arith),
    inr held,
  )
  inside_users t s (inside in_scope) e has held = cc
  inside_users t s (inside frame_buffer) e has held = cc
  inside_users t s (wants section) e has held = cc
  inside_users t s outside e has held = cc

  users_taken : (t : ℕ) → l.user_threads_lock ≢ 0 → SomeMoves l found t
  users_taken t taken =
      let s = o.users_owner in
      let has = o.users.held taken in
      let held : holds (l.threads s) ≡ true = ground (arith, has) in
      elim (handler_cases (l.threads s).handler) [
        | inl gone ↦
            inside_users t s (l.threads s).place
              (ap (λ h. record { place = (l.threads s).place; handler = h }) gone) has held
        | inr busy ↦ in_handler l found o t s _ _ (inr held) busy refl
      ]

  -- A thread that waits for a section enters it, or someone in its way goes on.
  entering :
      (t : ℕ) (section : Section)
      → l.threads t ≡ record { place = wants section; handler = absent }
      → SomeMoves l found t
  entering t in_scope e = elim (lock_cases l.in_scope_lock) [
    | inl free ↦ (
      t,
      direct l found o t (wants in_scope) (inside in_scope) absent absent _ e
          (swaps l.in_scope_lock _ free) refl (omega arith),
      inl refl,
    )
    | inr taken ↦ scope_taken l found o t taken
  ]
  entering t user_threads e = elim (lock_cases l.user_threads_lock) [
    | inl free ↦ (
      t,
      direct l found o t (wants user_threads) (inside user_threads) absent absent _ e
          (swaps l.user_threads_lock _ free) refl (omega arith),
      inl refl,
    )
    | inr taken ↦ users_taken t taken
  ]
  entering t frame_buffer e = elim (lock_cases l.frame_lock) [
    | inl free ↦ (
      t,
      direct l found o t (wants frame_buffer) (inside frame_buffer) absent absent _ e
          (swaps l.frame_lock _ free) refl (omega arith),
      inl refl,
    )
    | inr taken ↦ (o.frame_owner, buffer_taken l found o taken, inr (buffer_held l found o taken))
  ]

  leaving_section :
      (t : ℕ) (section : Section)
      → l.threads t ≡ record { place = inside section; handler = absent }
      → Moves l found t
  leaving_section t in_scope e =
      direct l found o t (inside in_scope) outside absent absent _ e refl refl (omega arith)
  leaving_section t user_threads e =
      direct l found o t (inside user_threads) outside absent absent _ e refl refl (omega arith)
  leaving_section t frame_buffer e =
      direct l found o t (inside frame_buffer) outside absent absent _ e refl refl (omega arith)

  at_place :
      (t : ℕ) (p : Place)
      → l.threads t ≡ record { place = p; handler = absent }
      → l.threads t ≢ at_rest
      → SomeMoves l found t
  at_place t outside e busy = absurd (busy e)
  at_place t (wants section) e busy = entering t section e
  at_place t (inside section) e busy = (t, leaving_section t section e, inl refl)

  pub some_moves : (t : ℕ) → l.threads t ≢ at_rest → SomeMoves l found t
  some_moves t busy = elim (handler_cases (l.threads t).handler) [
    | inl gone ↦
        at_place t (l.threads t).place
          (ap (λ h. record { place = (l.threads t).place; handler = h }) gone) busy
    | inr active ↦ in_handler l found o t t _ _ (inl refl) active refl
  ]

abbrev pub has_lock : Section → Thread → Bool
has_lock in_scope = has_scope
has_lock user_threads = has_users
has_lock frame_buffer = has_frames

-- From free locks with no thread at them, over any steps of threads that wait for in_scope_lock,
-- frame_lock or user_threads_lock, hold them, and are interrupted by the handler: two threads that
-- have the same lock are the same thread. A pthread_t is not 0; the agent's thread gets no signal,
-- and outside of the handler only it is at the buffer.
pub locks-Exclusion :
    {agent : ℕ} {l k : Locks} (section : Section) (s t : ℕ)
    → IsQuiet l
    → Steps agent l k
    → has_lock section (k.threads s) ≡ true
    → has_lock section (k.threads t) ≡ true
    → s ≡ t
locks-Exclusion {agent} {l} in_scope s t quiet steps a b =
    let o = Steps-IsOrdered steps (quiet-IsOrdered agent l quiet) in
    sym (o.scope.fit s a).0 ∙ (o.scope.fit t b).0
locks-Exclusion {agent} {l} user_threads s t quiet steps a b =
    let o = Steps-IsOrdered steps (quiet-IsOrdered agent l quiet) in
    sym (o.users.fit s a).0 ∙ (o.users.fit t b).0
locks-Exclusion {agent} {l} frame_buffer s t quiet steps a b =
    let o = Steps-IsOrdered steps (quiet-IsOrdered agent l quiet) in
    sym (o.frames.fit s a).0 ∙ (o.frames.fit t b).0

-- From free locks with no thread at them, over any steps of threads that wait for in_scope_lock,
-- frame_lock or user_threads_lock, hold them, and are interrupted by the handler: there is no
-- deadlock. For a thread that is at a lock or in a handler, it or a thread that has a lock can go
-- on, and has fewer steps left then. A pthread_t is not 0; the agent's thread gets no signal, and
-- outside of the handler only it is at the buffer.
pub no_deadlock :
    {agent : ℕ} {l k : Locks} (found : Bool) (t : ℕ)
    → IsQuiet l
    → Steps agent l k
    → k.threads t ≢ at_rest
    → SomeMoves k found t
no_deadlock {agent} {l} {k} found t quiet steps busy =
    some_moves k found (Steps-IsOrdered steps (quiet-IsOrdered agent l quiet)) t busy
