-- ===== src/Profiler/LockOrder/Kept.antt =====
-- The three locks and the places of the threads fit together after any steps, src/profiler.cc.
use jcoz.Base.{
  ℕ, ◌≡◌, ◌≢◌, refl, sym, ap, subst, ◌∙◌, inl, inr, Bool, true, false, some, ◌==◌, ==_iff,
  some-injective, Bool-cases, if◌then◌else◌, arith,
}
use jcoz.Profiler.LockOrder.{
  Section, in_scope, user_threads, frame_buffer, Place, outside, wants, inside, Handler, absent,
  wants_scope, scanning, wants_frames, recording, leaving, Thread, Locks, move, advance_from,
  advance, interrupted, Step, begins, interrupts, advances, Steps, here, next,
}
use jcoz.Profiler.LockOrder.Mutex.{IsMutex}
use jcoz.Profiler.LockOrder.Ordered.{
  is_inside, past_frames, has_scope, has_frames, has_users, FitsPlace, Fits, IsOrdered, moved-Fits,
  same_scope, same_frames, same_users, fit_at,
}
use jcoz.Profiler.LockOrder.Sections.{swapped, enter-IsOrdered, exit-IsOrdered}
use jcoz.Profiler.LockOrder.Handled.{
  scanned-IsOrdered, locks_scope-IsOrdered, locks_frames-IsOrdered, records-IsOrdered,
  leaves-IsOrdered,
}

advance_from-IsOrdered :
    {agent : ℕ} (l k : Locks) (t : ℕ) (found : Bool) (p : Place) (h : Handler)
    → IsOrdered agent l
    → l.threads t ≡ record { place = p; handler = h }
    → advance_from l t found p h ≡ some k
    → IsOrdered agent k
advance_from-IsOrdered l k t found outside absent o e f = cc
advance_from-IsOrdered l k t found (wants section) absent o e f =
    enter-IsOrdered l t o k section e f
advance_from-IsOrdered {agent} l k t found (inside section) absent o e f =
    subst (IsOrdered agent) (some-injective _ k f) (exit-IsOrdered l t o section e)
advance_from-IsOrdered {agent} l k t found p wants_scope o e f =
    let (free, same) = swapped l.in_scope_lock _ k f in
    subst (IsOrdered agent) same (locks_scope-IsOrdered l t o p e free)
advance_from-IsOrdered {agent} l k t found p (scanning b) o e f =
    subst (IsOrdered agent) (some-injective _ k f) (scanned-IsOrdered l t o p b found e)
advance_from-IsOrdered {agent} l k t found p (wants_frames b) o e f =
    let (free, same) = swapped l.frame_lock _ k f in
    subst (IsOrdered agent) same (locks_frames-IsOrdered l t o p b e free)
advance_from-IsOrdered {agent} l k t found p (recording b) o e f =
    subst (IsOrdered agent) (some-injective _ k f) (records-IsOrdered l t o p b e)
advance_from-IsOrdered {agent} l k t found p (leaving b) o e f =
    subst (IsOrdered agent) (some-injective _ k f) (leaves-IsOrdered l t o p b e)

begins-IsOrdered :
    {agent : ℕ} (l : Locks) (t : ℕ) (section : Section)
    → IsOrdered agent l
    → t ≢ 0
    → l.threads t ≡ record { place = outside; handler = absent }
    → (section ≡ frame_buffer → t ≡ agent)
    → IsOrdered agent (move l t (wants section) absent)
begins-IsOrdered {agent} l t section o valid e only = record {
  frame_owner = o.frame_owner;
  users_owner = o.users_owner;
  scope =
      same_scope l t o (wants section) absent (elsewhere in_scope section ∙ sym (ap has_scope e));
  frames =
      same_frames l t o (wants section) absent
        (elsewhere frame_buffer section ∙ sym (ap has_frames e));
  users =
      same_users l t o (wants section) absent
        (elsewhere user_threads section ∙ sym (ap has_users e));
  fits = moved-Fits l t o (wants section) absent (fit section only);
}
  where
    elsewhere : (other section : Section) → is_inside other (wants section) ≡ false
    elsewhere in_scope section = refl
    elsewhere user_threads section = refl
    elsewhere frame_buffer section = refl

    fit :
        (section : Section)
        → (section ≡ frame_buffer → t ≡ agent)
        → FitsPlace agent t (wants section)
    fit in_scope only = valid
    fit user_threads only = valid
    fit frame_buffer only = (only refl, valid)

-- The handler's first place, by the test for has_lock.
arrives :
    {agent : ℕ} (l : Locks) (t : ℕ) (p : Place) (h : Handler)
    → IsOrdered agent l
    → l.threads t ≡ record { place = p; handler = absent }
    → has_scope (record { place = p; handler = h }) ≡ has_scope (l.threads t)
    → past_frames h ≡ false
    → Fits agent t p h
    → IsOrdered agent (move l t p h)
arrives l t p h o e scope no_frames fit = record {
  frame_owner = o.frame_owner;
  users_owner = o.users_owner;
  scope = same_scope l t o p h scope;
  frames = same_frames l t o p h (ground (arith, ap has_frames e));
  users = same_users l t o p h (sym (ap has_users e));
  fits = moved-Fits l t o p h fit;
}

interrupted_as :
    (l : Locks) (t : ℕ) (p : Place) (own : Bool)
    → l.threads t ≡ record { place = p; handler = absent }
    → (l.in_scope_lock == t) ≡ own
    → interrupted l t ≡ move l t p (if own then scanning true else wants_scope)
unfolding interrupted
interrupted_as l t p own e f =
    ap
      (λ (m : Thread).
        move l t m.place (if l.in_scope_lock == t then scanning true else wants_scope))
      e
    ∙ ap (λ b. move l t p (if b then scanning true else wants_scope)) f

interrupts-IsOrdered :
    {agent : ℕ} (l : Locks) (t : ℕ) (p : Place)
    → IsOrdered agent l
    → t ≢ 0
    → t ≢ agent
    → l.threads t ≡ record { place = p; handler = absent }
    → IsOrdered agent (interrupted l t)
interrupts-IsOrdered {agent} l t p o valid other e = elim (Bool-cases (l.in_scope_lock == t)) [
  | inl own ↦
      let is_own : l.in_scope_lock ≡ t = (==_iff l.in_scope_lock t).0 own in
      let has =
        subst (λ x. has_scope (l.threads x) ≡ true) is_own
          (o.scope.held (λ z. valid (sym is_own ∙ z))) in
      subst (IsOrdered agent) (sym (interrupted_as l t p true e own)) (
        arrives l t p (scanning true) o e (sym has) refl
          ((sym has ∙ ap has_scope e, other, valid), fit_at l t o p absent e))
  | inr not_own ↦
      let out : is_inside in_scope p ≡ false = elim (Bool-cases (is_inside in_scope p)) [
        | inl there ↦ absurd (
            cc (
              sym not_own
              ∙ (==_iff l.in_scope_lock t).1 (o.scope.fit t (ap has_scope e ∙ there)).0))
        | inr away ↦ away
      ] in
      subst (IsOrdered agent) (sym (interrupted_as l t p false e not_own)) (
        arrives l t p wants_scope o e (sym (ap has_scope e)) refl
          ((sym out, other, valid), fit_at l t o p absent e))
]

Step-IsOrdered : {agent : ℕ} {l k : Locks} → Step agent l k → IsOrdered agent l → IsOrdered agent k
unfolding advance
Step-IsOrdered {l = l} (begins t section valid e only) o =
    begins-IsOrdered l t section o valid e only
Step-IsOrdered {l = l} (interrupts t valid other e) o =
    interrupts-IsOrdered l t (l.threads t).place o valid other
      (ap (λ h. record { place = (l.threads t).place; handler = h }) e)
Step-IsOrdered {l = l} {k = k} (advances t found e) o =
    advance_from-IsOrdered l k t found (l.threads t).place (l.threads t).handler o refl e

pub Steps-IsOrdered :
    {agent : ℕ} {l k : Locks} → Steps agent l k → IsOrdered agent l → IsOrdered agent k
Steps-IsOrdered here o = o
Steps-IsOrdered (next s e) o = Step-IsOrdered e (Steps-IsOrdered s o)

abbrev pub at_rest : Thread
at_rest = record { place = outside; handler = absent }

-- No thread is anywhere, and the locks are free.
pub record IsQuiet (l : Locks) : Type 0 where
  pub scope_free : l.in_scope_lock ≡ 0
  pub frames_free : l.frame_lock ≡ 0
  pub users_free : l.user_threads_lock ≡ 0
  pub resting : (t : ℕ) → l.threads t ≡ at_rest

free-IsMutex :
    (lock owner : ℕ) (has : Thread → Bool) (threads : ℕ → Thread)
    → lock ≡ 0
    → has at_rest ≡ false
    → ((t : ℕ) → threads t ≡ at_rest)
    → IsMutex lock owner has threads
free-IsMutex lock owner has threads free e rest = record {
  fit = λ t a. absurd (cc (sym e ∙ sym (ap has (rest t)) ∙ a));
  held = λ taken. absurd (taken free);
}

pub quiet-IsOrdered : (agent : ℕ) (l : Locks) → IsQuiet l → IsOrdered agent l
quiet-IsOrdered agent l q = record {
  frame_owner = 0;
  users_owner = 0;
  scope =
      free-IsMutex l.in_scope_lock l.in_scope_lock has_scope l.threads q.scope_free refl q.resting;
  frames = free-IsMutex l.frame_lock 0 has_frames l.threads q.frames_free refl q.resting;
  users = free-IsMutex l.user_threads_lock 0 has_users l.threads q.users_free refl q.resting;
  fits = λ t. subst (λ (m : Thread). Fits agent t m.place m.handler) (sym (q.resting t)) tt;
}
