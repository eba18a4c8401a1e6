-- ===== src/Profiler/LockOrder/Sections.antt =====
-- The sections of the locks outside of a handler, src/profiler.cc.
use jcoz.Base.{
  ℕ, ◌≡◌, refl, sym, ap, subst, inl, inr, some, ◌==◌, ==_iff, some-injective, Bool-cases,
}
use jcoz.Profiler.LockOrder.{
  Section, in_scope, user_threads, frame_buffer, outside, wants, inside, absent, Thread, Locks,
  compare_and_swap, enter, exit,
}
use jcoz.Profiler.LockOrder.Mutex.{takes, gives}
use jcoz.Profiler.LockOrder.Ordered.{
  has_scope, has_frames, has_users, IsOrdered, moved-Fits, same_scope, same_frames, same_users,
  one_not_zero, fit_at,
}

pub swapped : (lock : ℕ) (l k : Locks) → compare_and_swap lock l ≡ some k → (lock ≡ 0) × (l ≡ k)
swapped lock l k e = elim (Bool-cases (lock == 0)) [
  | inl free ↦ ((==_iff lock 0).0 free, some-injective l k (rw free at e))
  | inr taken ↦ absurd (cc (rw taken at e))
]

module _ {agent : ℕ} (l : Locks) (t : ℕ) (o : IsOrdered agent l) where
  pub enter-IsOrdered :
      (k : Locks) (section : Section)
      → l.threads t ≡ record { place = wants section; handler = absent }
      → enter l t section ≡ some k
      → IsOrdered agent k
  enter-IsOrdered k in_scope e f =
      let (free, same) = swapped l.in_scope_lock _ k f in
      let fit = fit_at l t o (wants in_scope) absent e in
      let m : Thread = record { place = inside in_scope; handler = absent } in
      subst (IsOrdered agent) same (record {
        frame_owner = o.frame_owner;
        users_owner = o.users_owner;
        scope = takes t m o.scope t free fit refl;
        frames = same_frames l t o (inside in_scope) absent (sym (ap has_frames e));
        users = same_users l t o (inside in_scope) absent (sym (ap has_users e));
        fits = moved-Fits l t o (inside in_scope) absent fit;
      })
  enter-IsOrdered k user_threads e f =
      let (free, same) = swapped l.user_threads_lock _ k f in
      let fit = fit_at l t o (wants user_threads) absent e in
      let m : Thread = record { place = inside user_threads; handler = absent } in
      subst (IsOrdered agent) same (record {
        frame_owner = o.frame_owner;
        users_owner = t;
        scope = same_scope l t o (inside user_threads) absent (sym (ap has_scope e));
        frames = same_frames l t o (inside user_threads) absent (sym (ap has_frames e));
        users = takes t m o.users 1 free one_not_zero refl;
        fits = moved-Fits l t o (inside user_threads) absent fit;
      })
  enter-IsOrdered k frame_buffer e f =
      let (free, same) = swapped l.frame_lock _ k f in
      let fit = fit_at l t o (wants frame_buffer) absent e in
      let m : Thread = record { place = inside frame_buffer; handler = absent } in
      subst (IsOrdered agent) same (record {
        frame_owner = t;
        users_owner = o.users_owner;
        scope = same_scope l t o (inside frame_buffer) absent (sym (ap has_scope e));
        frames = takes t m o.frames 1 free one_not_zero refl;
        users = same_users l t o (inside frame_buffer) absent (sym (ap has_users e));
        fits = moved-Fits l t o (inside frame_buffer) absent fit;
      })

  pub exit-IsOrdered :
      (section : Section)
      → l.threads t ≡ record { place = inside section; handler = absent }
      → IsOrdered agent (exit l t section)
  exit-IsOrdered in_scope e = record {
    frame_owner = o.frame_owner;
    users_owner = o.users_owner;
    scope = gives t (record { place = outside; handler = absent }) o.scope (ap has_scope e) refl;
    frames = same_frames l t o outside absent (sym (ap has_frames e));
    users = same_users l t o outside absent (sym (ap has_users e));
    fits = moved-Fits l t o outside absent tt;
  }
  exit-IsOrdered user_threads e = record {
    frame_owner = o.frame_owner;
    users_owner = 0;
    scope = same_scope l t o outside absent (sym (ap has_scope e));
    frames = same_frames l t o outside absent (sym (ap has_frames e));
    users = gives t (record { place = outside; handler = absent }) o.users (ap has_users e) refl;
    fits = moved-Fits l t o outside absent tt;
  }
  exit-IsOrdered frame_buffer e = record {
    frame_owner = 0;
    users_owner = o.users_owner;
    scope = same_scope l t o outside absent (sym (ap has_scope e));
    frames = gives t (record { place = outside; handler = absent }) o.frames (ap has_frames e) refl;
    users = same_users l t o outside absent (sym (ap has_users e));
    fits = moved-Fits l t o outside absent tt;
  }
