-- ===== src/Profiler/LockOrder/Ordered.antt =====
-- What the three locks of src/profiler.cc say of where the threads are, over all their steps.
use jcoz.Base.{ℕ, ◌≡◌, ◌≢◌, sym, subst, inl, inr, Bool, true, false, if◌then◌else◌, arith}
use jcoz.Profiler.LockOrder.{
  Section, in_scope, user_threads, frame_buffer, Place, outside, wants, inside, Handler, absent,
  wants_scope, scanning, wants_frames, recording, leaving, Thread, Locks, moved, move,
}
use jcoz.Profiler.LockOrder.Mutex.{IsMutex, moved_cases, stays}

abbrev pub is_inside : Section → Place → Bool
is_inside in_scope (inside in_scope) = true
is_inside user_threads (inside user_threads) = true
is_inside frame_buffer (inside frame_buffer) = true
is_inside section place = false

-- Whether the handler has got in_scope_lock, or frame_lock.
abbrev pub past_scope : Handler → Bool
past_scope absent = false
past_scope wants_scope = false
past_scope _ = true

abbrev pub past_frames : Handler → Bool
past_frames (recording b) = true
past_frames _ = false

abbrev pub has_scope : Thread → Bool
has_scope m = if past_scope m.handler then true else is_inside in_scope m.place

abbrev pub has_frames : Thread → Bool
has_frames m = if past_frames m.handler then true else is_inside frame_buffer m.place

abbrev pub has_users : Thread → Bool
has_users m = is_inside user_threads m.place

-- Only the agent's thread is at the buffer outside of a handler.
abbrev pub FitsPlace : ℕ → ℕ → Place → Type 0
FitsPlace agent t outside = Unit {0}
FitsPlace agent t (wants frame_buffer) = (t ≡ agent) × (t ≢ 0)
FitsPlace agent t (inside frame_buffer) = (t ≡ agent) × (t ≢ 0)
FitsPlace agent t _ = t ≢ 0

-- A handler is not on the agent's thread, and has_lock says whether it interrupted the holder.
abbrev pub FitsHandler : ℕ → ℕ → Bool → Bool → Type 0
FitsHandler agent t has_lock holds = (has_lock ≡ holds) × (t ≢ agent) × (t ≢ 0)

abbrev pub Fits : ℕ → ℕ → Place → Handler → Type 0
Fits agent t p absent = FitsPlace agent t p
Fits agent t p wants_scope = FitsHandler agent t false (is_inside in_scope p) × FitsPlace agent t p
Fits agent t p (scanning b) = FitsHandler agent t b (is_inside in_scope p) × FitsPlace agent t p
Fits agent t p (wants_frames b) = FitsHandler agent t b (is_inside in_scope p) × FitsPlace agent t p
Fits agent t p (recording b) = FitsHandler agent t b (is_inside in_scope p) × FitsPlace agent t p
Fits agent t p (leaving b) = FitsHandler agent t b (is_inside in_scope p) × FitsPlace agent t p

-- in_scope_lock is the thread's own; the others are only taken.
pub record IsOrdered (agent : ℕ) (l : Locks) : Type 0 where
  pub frame_owner : ℕ
  pub users_owner : ℕ
  pub scope : IsMutex l.in_scope_lock l.in_scope_lock has_scope l.threads
  pub frames : IsMutex l.frame_lock frame_owner has_frames l.threads
  pub users : IsMutex l.user_threads_lock users_owner has_users l.threads
  pub fits : (t : ℕ) → Fits agent t (l.threads t).place (l.threads t).handler

FitsAt : ℕ → ℕ → Thread → Type 0
FitsAt agent t m = Fits agent t m.place m.handler

module _ {agent : ℕ} (l : Locks) (t : ℕ) (o : IsOrdered agent l) (p : Place) (h : Handler) where
  pub moved-Fits :
      Fits agent t p h
      → (s : ℕ)
      → let m = moved l.threads t (record { place = p; handler = h }) s in
        Fits agent s m.place m.handler
  unfolding FitsAt
  moved-Fits now s = elim (moved_cases l.threads t (record { place = p; handler = h }) s) [
    | inl (same, e) ↦ subst (FitsAt agent s) (sym e) (subst (λ x. Fits agent x p h) (sym same) now)
    | inr (other, e) ↦ subst (FitsAt agent s) (sym e) (o.fits s)
  ]

  -- A step of a thread that does not change what it has.
  pub same_scope :
      has_scope (record { place = p; handler = h }) ≡ has_scope (l.threads t)
      → IsMutex l.in_scope_lock l.in_scope_lock has_scope (move l t p h).threads
  same_scope e = stays t (record { place = p; handler = h }) o.scope e

  pub same_frames :
      has_frames (record { place = p; handler = h }) ≡ has_frames (l.threads t)
      → IsMutex l.frame_lock o.frame_owner has_frames (move l t p h).threads
  same_frames e = stays t (record { place = p; handler = h }) o.frames e

  pub same_users :
      is_inside user_threads p ≡ has_users (l.threads t)
      → IsMutex l.user_threads_lock o.users_owner has_users (move l t p h).threads
  same_users e = stays t (record { place = p; handler = h }) o.users e

pub one_not_zero : ◌≢◌ {A = ℕ} 1 0
one_not_zero e = absurd (omega (arith, e))

module _ {agent : ℕ} (l : Locks) (t : ℕ) (o : IsOrdered agent l) where
  pub fit_at :
      (p : Place) (h : Handler) → l.threads t ≡ record { place = p; handler = h } → Fits agent t p h
  unfolding FitsAt
  fit_at p h e = subst (FitsAt agent t) e (o.fits t)
