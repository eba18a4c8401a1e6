-- ===== src/Profiler/LockOrder/Handled.antt =====
-- The handler's steps at the locks, Profiler::Handle of src/profiler.cc.
use jcoz.Base.{ℕ, ◌≡◌, ◌≢◌, refl, sym, ap, ◌∙◌, Bool, true, false, if◌then◌else◌, arith}
use jcoz.Profiler.LockOrder.{
  in_scope, user_threads, frame_buffer, Place, outside, wants, inside, Handler, absent, wants_scope,
  scanning, wants_frames, recording, leaving, Locks, move,
}
use jcoz.Profiler.LockOrder.Mutex.{IsMutex, takes, gives}
use jcoz.Profiler.LockOrder.Ordered.{
  is_inside, past_scope, past_frames, has_scope, has_frames, has_users, FitsPlace, Fits, IsOrdered,
  moved-Fits, same_scope, same_frames, same_users, one_not_zero, fit_at,
}

module _ {agent : ℕ} (l : Locks) (t : ℕ) (o : IsOrdered agent l) where
  -- Where a handler goes on without a lock, between two of its places behind in_scope_lock.
  goes_on :
      (p : Place) (h h' : Handler)
      → l.threads t ≡ record { place = p; handler = h }
      → past_scope h ≡ true
      → past_scope h' ≡ true
      → past_frames h ≡ false
      → past_frames h' ≡ false
      → Fits agent t p h'
      → IsOrdered agent (move l t p h')
  goes_on p h h' e from to no_frames no_frames' fit = record {
    frame_owner = o.frame_owner;
    users_owner = o.users_owner;
    scope = same_scope l t o p h' (ground (arith, ap has_scope e));
    frames = same_frames l t o p h' (ground (arith, ap has_frames e));
    users = same_users l t o p h' (sym (ap has_users e));
    fits = moved-Fits l t o p h' fit;
  }

  pub scanned-IsOrdered :
      (p : Place) (has_lock found : Bool)
      → l.threads t ≡ record { place = p; handler = scanning has_lock }
      → IsOrdered agent (move l t p (if found then wants_frames has_lock else leaving has_lock))
  scanned-IsOrdered p has_lock true e =
      goes_on p (scanning has_lock) (wants_frames has_lock) e refl refl refl refl
        (fit_at l t o p (scanning has_lock) e)
  scanned-IsOrdered p has_lock false e =
      goes_on p (scanning has_lock) (leaving has_lock) e refl refl refl refl
        (fit_at l t o p (scanning has_lock) e)

  pub locks_scope-IsOrdered :
      (p : Place)
      → l.threads t ≡ record { place = p; handler = wants_scope }
      → l.in_scope_lock ≡ 0
      → IsOrdered agent (record (move l t p (scanning false)) { in_scope_lock = t })
  locks_scope-IsOrdered p e free =
      let fit = fit_at l t o p wants_scope e in
      record {
        frame_owner = o.frame_owner;
        users_owner = o.users_owner;
        scope =
            takes t (record { place = p; handler = scanning false }) o.scope t free fit.0.2 refl;
        frames = same_frames l t o p (scanning false) (sym (ap has_frames e));
        users = same_users l t o p (scanning false) (sym (ap has_users e));
        fits = moved-Fits l t o p (scanning false) fit;
      }

  pub locks_frames-IsOrdered :
      (p : Place) (b : Bool)
      → l.threads t ≡ record { place = p; handler = wants_frames b }
      → l.frame_lock ≡ 0
      → IsOrdered agent (record (move l t p (recording b)) { frame_lock = 1 })
  locks_frames-IsOrdered p b e free = record {
    frame_owner = t;
    users_owner = o.users_owner;
    scope = same_scope l t o p (recording b) (sym (ap has_scope e));
    frames =
        takes t (record { place = p; handler = recording b }) o.frames 1 free one_not_zero refl;
    users = same_users l t o p (recording b) (sym (ap has_users e));
    fits = moved-Fits l t o p (recording b) (fit_at l t o p (wants_frames b) e);
  }

  -- No handler interrupts the agent's thread at the buffer.
  not_at_buffer : (p : Place) → t ≢ agent → FitsPlace agent t p → is_inside frame_buffer p ≡ false
  not_at_buffer outside other f = refl
  not_at_buffer (wants section) other f = refl
  not_at_buffer (inside in_scope) other f = refl
  not_at_buffer (inside user_threads) other f = refl
  not_at_buffer (inside frame_buffer) other f = absurd (other f.0)

  pub records-IsOrdered :
      (p : Place) (b : Bool)
      → l.threads t ≡ record { place = p; handler = recording b }
      → IsOrdered agent (record (move l t p (leaving b)) { frame_lock = 0 })
  records-IsOrdered p b e =
      let fit = fit_at l t o p (recording b) e in
      record {
        frame_owner = 0;
        users_owner = o.users_owner;
        scope = same_scope l t o p (leaving b) (sym (ap has_scope e));
        frames =
            gives t (record { place = p; handler = leaving b }) o.frames (ap has_frames e)
              (not_at_buffer p fit.0.1 fit.1);
        users = same_users l t o p (leaving b) (sym (ap has_users e));
        fits = moved-Fits l t o p (leaving b) fit;
      }

  left :
      (p : Place) (b : Bool) (lock : ℕ)
      → l.threads t ≡ record { place = p; handler = leaving b }
      → IsMutex lock lock has_scope (move l t p absent).threads
      → IsOrdered agent (record (move l t p absent) { in_scope_lock = lock })
  left p b lock e scope =
      let fit = fit_at l t o p (leaving b) e in
      record {
        frame_owner = o.frame_owner;
        users_owner = o.users_owner;
        scope = scope;
        frames = same_frames l t o p absent (sym (ap has_frames e));
        users = same_users l t o p absent (sym (ap has_users e));
        fits = moved-Fits l t o p absent fit.1;
      }

  pub leaves-IsOrdered :
      (p : Place) (b : Bool)
      → l.threads t ≡ record { place = p; handler = leaving b }
      → IsOrdered agent
          (record (move l t p absent) { in_scope_lock = if b then l.in_scope_lock else 0 })
  leaves-IsOrdered p true e =
      let fit = fit_at l t o p (leaving true) e in
      left p true l.in_scope_lock e (same_scope l t o p absent (sym fit.0.0 ∙ sym (ap has_scope e)))
  leaves-IsOrdered p false e =
      let fit = fit_at l t o p (leaving false) e in
      left p false 0 e
        (gives t (record { place = p; handler = absent }) o.scope (ap has_scope e) (sym fit.0.0))
