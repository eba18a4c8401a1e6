-- ===== src/Profiler/LockOrder/Holders.antt =====
-- The threads that stand in the way at the three locks of src/profiler.cc can go on, or wait for one
-- that can.
use jcoz.Base.{
  ℕ, ◌+◌, ◌<◌, ◌≡◌, ◌≢◌, refl, sym, ap, ◌∙◌, ◌⊎◌, inl, inr, Bool, true, false, ◌||◌, some, ◌==◌,
  ==_iff, Bool-cases, if◌then◌else◌, arith,
}
use jcoz.Profiler.LockOrder.{
  in_scope, user_threads, frame_buffer, Place, outside, wants, inside, Handler, absent, wants_scope,
  scanning, wants_frames, recording, leaving, Thread, Locks, move, compare_and_swap, advance_from,
  advance,
}
use jcoz.Profiler.LockOrder.Mutex.{moved_self}
use jcoz.Profiler.LockOrder.Ordered.{has_scope, has_frames, has_users, Fits, IsOrdered}

-- How many steps a thread has left at most.
abbrev handler_left : Handler → ℕ
handler_left absent = 0
handler_left wants_scope = 5
handler_left (scanning b) = 4
handler_left (wants_frames b) = 3
handler_left (recording b) = 2
handler_left (leaving b) = 1

abbrev place_left : Place → ℕ
place_left outside = 0
place_left (inside section) = 1
place_left (wants section) = 2

abbrev pub steps_left : Thread → ℕ
steps_left m = place_left m.place + handler_left m.handler

-- Whether a thread has one of the locks.
abbrev pub holds : Thread → Bool
holds m = has_scope m || has_frames m || has_users m

-- Thread `s` can go on, and has fewer steps left then.
pub record Moves (l : Locks) (found : Bool) (s : ℕ) : Type 0 where
  pub after : Locks
  pub comes : advance l s found ≡ some after
  pub fewer : steps_left (after.threads s) < steps_left (l.threads s)

-- The thread itself, or one with a lock, can go on.
abbrev pub SomeMoves : Locks → Bool → ℕ → Type 0
SomeMoves l found t = (s : ℕ) × Moves l found s × ((s ≡ t) ⊎ (holds (l.threads s) ≡ true))

pub swaps : (lock : ℕ) (l : Locks) → lock ≡ 0 → compare_and_swap lock l ≡ some l
swaps lock l e = rw ((==_iff lock 0).1 e) refl

pub lock_cases : (lock : ℕ) → (lock ≡ 0) ⊎ (lock ≢ 0)
lock_cases lock = elim (Bool-cases (lock == 0)) [
  | inl e ↦ inl ((==_iff lock 0).0 e)
  | inr e ↦ inr (λ z. cc (sym e ∙ (==_iff lock 0).1 z))
]

pub handler_cases : (h : Handler) → (h ≡ absent) ⊎ (h ≢ absent)
handler_cases absent = inl refl
handler_cases wants_scope = inr (λ e. absurd cc)
handler_cases (scanning b) = inr (λ e. absurd cc)
handler_cases (wants_frames b) = inr (λ e. absurd cc)
handler_cases (recording b) = inr (λ e. absurd cc)
handler_cases (leaving b) = inr (λ e. absurd cc)

module _ {agent : ℕ} (l : Locks) (found : Bool) (o : IsOrdered agent l) where
  pub direct :
      (t : ℕ) (p p' : Place) (h h' : Handler) (k : Locks)
      → l.threads t ≡ record { place = p; handler = h }
      → advance_from l t found p h ≡ some k
      → k.threads ≡ (move l t p' h').threads
      → place_left p' + handler_left h' < place_left p + handler_left h
      → Moves l found t
  unfolding advance
  direct t p p' h h' k e f g less = record {
    after = k;
    comes = ap (λ (m : Thread). advance_from l t found m.place m.handler) e ∙ f;
    fewer =
        let now =
          ap steps_left
            (ap (λ c. c t) g ∙ moved_self l.threads t (record { place = p'; handler = h' })) in
        omega (arith, less, now, ap steps_left e);
  }

  scans :
      (t : ℕ) (p : Place) (b : Bool)
      → l.threads t ≡ record { place = p; handler = scanning b }
      → Moves l found t
  scans t p b e =
      let after = λ (x : Bool). some (move l t p (if x then wants_frames b else leaving b)) in
      elim (Bool-cases found) [
        | inl hit ↦ direct t p p (scanning b) (wants_frames b) _ e (ap after hit) refl (omega arith)
        | inr miss ↦ direct t p p (scanning b) (leaving b) _ e (ap after miss) refl (omega arith)
      ]

  -- The thread in the buffer's section, or its handler, goes on.
  at_buffer :
      (t : ℕ) (p : Place) (h : Handler)
      → l.threads t ≡ record { place = p; handler = h }
      → has_frames (record { place = p; handler = h }) ≡ true
      → Fits agent t p h
      → Moves l found t
  at_buffer t p (recording b) e has fit =
      direct t p p (recording b) (leaving b) _ e refl refl (omega arith)
  at_buffer t (inside frame_buffer) absent e has fit =
      direct t (inside frame_buffer) outside absent absent _ e refl refl (omega arith)
  at_buffer t (inside frame_buffer) wants_scope e has fit = absurd (fit.0.1 fit.1.0)
  at_buffer t (inside frame_buffer) (scanning b) e has fit = absurd (fit.0.1 fit.1.0)
  at_buffer t (inside frame_buffer) (wants_frames b) e has fit = absurd (fit.0.1 fit.1.0)
  at_buffer t (inside frame_buffer) (leaving b) e has fit = absurd (fit.0.1 fit.1.0)
  at_buffer t outside h e has fit = cc
  at_buffer t (wants section) h e has fit = cc
  at_buffer t (inside in_scope) h e has fit = cc
  at_buffer t (inside user_threads) h e has fit = cc

  pub buffer_taken : l.frame_lock ≢ 0 → Moves l found o.frame_owner
  buffer_taken taken = at_buffer o.frame_owner _ _ refl (o.frames.held taken) (o.fits o.frame_owner)

  pub buffer_held : l.frame_lock ≢ 0 → holds (l.threads o.frame_owner) ≡ true
  buffer_held taken = ground (arith, o.frames.held taken)

  waits_for_buffer : (t : ℕ) → Moves l found t ⊎ (l.frame_lock ≢ 0) → SomeMoves l found t
  waits_for_buffer t (inl m) = (t, m, inl refl)
  waits_for_buffer t (inr taken) = (o.frame_owner, buffer_taken taken, inr (buffer_held taken))

  -- A handler behind in_scope_lock goes on, or the buffer is taken.
  behind_scope :
      (t : ℕ) (p : Place) (b : Bool)
      → l.threads t ≡ record { place = p; handler = wants_frames b }
      → Moves l found t ⊎ (l.frame_lock ≢ 0)
  behind_scope t p b e = elim (lock_cases l.frame_lock) [
    | inl free ↦ inl (
        direct t p p (wants_frames b) (recording b) _ e (swaps l.frame_lock _ free) refl
          (omega arith))
    | inr taken ↦ inr taken
  ]

  -- The thread with in_scope_lock goes on, or waits for the buffer.
  at_scope :
      (t : ℕ) (p : Place) (h : Handler)
      → l.threads t ≡ record { place = p; handler = h }
      → has_scope (record { place = p; handler = h }) ≡ true
      → Fits agent t p h
      → Moves l found t ⊎ (l.frame_lock ≢ 0)
  at_scope t p (scanning b) e has fit = inl (scans t p b e)
  at_scope t p (wants_frames b) e has fit = behind_scope t p b e
  at_scope t p (recording b) e has fit =
      inl (direct t p p (recording b) (leaving b) _ e refl refl (omega arith))
  at_scope t p (leaving b) e has fit =
      inl (direct t p p (leaving b) absent _ e refl refl (omega arith))
  at_scope t p wants_scope e has fit = absurd (cc (fit.0.0 ∙ has))
  at_scope t (inside in_scope) absent e has fit =
      inl (direct t (inside in_scope) outside absent absent _ e refl refl (omega arith))
  at_scope t (inside user_threads) absent e has fit = cc
  at_scope t (inside frame_buffer) absent e has fit = cc
  at_scope t (wants section) absent e has fit = cc
  at_scope t outside absent e has fit = cc

  -- Whoever stands in the way can go on.
  in_the_way :
      (t s : ℕ)
      → holds (l.threads s) ≡ true
      → Moves l found s ⊎ (l.frame_lock ≢ 0)
      → SomeMoves l found t
  in_the_way t s has (inl m) = (s, m, inr has)
  in_the_way t s has (inr taken) = (o.frame_owner, buffer_taken taken, inr (buffer_held taken))

  pub scope_taken : (t : ℕ) → l.in_scope_lock ≢ 0 → SomeMoves l found t
  scope_taken t taken =
      let s = l.in_scope_lock in
      let has = o.scope.held taken in
      in_the_way t s (ground (arith, has)) (at_scope s _ _ refl has (o.fits s))

  -- A thread in a handler goes on, or someone in its way does.
  pub in_handler :
      (t s : ℕ) (p : Place) (h : Handler)
      → (s ≡ t) ⊎ (holds (l.threads s) ≡ true)
      → h ≢ absent
      → l.threads s ≡ record { place = p; handler = h }
      → SomeMoves l found t
  in_handler t s p absent way busy e = absurd (busy refl)
  in_handler t s p wants_scope way busy e = elim (lock_cases l.in_scope_lock) [
    | inl free ↦ (
      s,
      direct s p p wants_scope (scanning false) _ e (swaps l.in_scope_lock _ free) refl
          (omega arith),
      way,
    )
    | inr taken ↦ scope_taken t taken
  ]
  in_handler t s p (scanning b) way busy e = (s, scans s p b e, way)
  in_handler t s p (wants_frames b) way busy e = elim (behind_scope s p b e) [
    | inl m ↦ (s, m, way)
    | inr taken ↦ (o.frame_owner, buffer_taken taken, inr (buffer_held taken))
  ]
  in_handler t s p (recording b) way busy e =
      (s, direct s p p (recording b) (leaving b) _ e refl refl (omega arith), way)
  in_handler t s p (leaving b) way busy e =
      (s, direct s p p (leaving b) absent _ e refl refl (omega arith), way)
