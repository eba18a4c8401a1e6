-- ===== src/Profiler/LockOrder/Mutex.antt =====
-- A lock that is taken exactly while one thread is in its sections, over a change of one thread's
-- place, for the locks of src/profiler.cc.
use jcoz.Base.{
  ℕ, ◌≡◌, ◌≢◌, refl, sym, ap, ◌∙◌, ◌⊎◌, inl, inr, Bool, true, false, ◌==◌, ==_iff, ==_refl,
  Bool-cases,
}
use jcoz.Profiler.LockOrder.{Thread, moved}

-- `has` says which threads are in the sections of the lock; it is only the owner.
pub record IsMutex (lock owner : ℕ) (has : Thread → Bool) (threads : ℕ → Thread) : Type 0 where
  pub fit : (t : ℕ) → has (threads t) ≡ true → (owner ≡ t) × (lock ≢ 0)
  pub held : lock ≢ 0 → has (threads owner) ≡ true

module _ (threads : ℕ → Thread) (t : ℕ) (m : Thread) where
  pub moved_self : moved threads t m t ≡ m
  moved_self = rw (==_refl t)

  pub moved_cases :
      (s : ℕ)
      → ((s ≡ t) × (moved threads t m s ≡ m)) ⊎ ((s ≢ t) × (moved threads t m s ≡ threads s))
  moved_cases s = elim (Bool-cases (s == t)) [
    | inl e ↦ inl ((==_iff s t).0 e, rw e refl)
    | inr e ↦ inr (λ same. cc (sym e ∙ (==_iff s t).1 same), rw e refl)
  ]

module _ {lock owner : ℕ} {has : Thread → Bool} {threads : ℕ → Thread} (t : ℕ) (m : Thread)
    (h : IsMutex lock owner has threads) where
  -- The thread is where it was with regard to the lock.
  pub stays : has m ≡ has (threads t) → IsMutex lock owner has (moved threads t m)
  stays e = record {
    fit = λ s a. h.fit s (sym (same s) ∙ a);
    held = λ taken. same owner ∙ h.held taken;
  }
    where
      same : (s : ℕ) → has (moved threads t m s) ≡ has (threads s)
      same s = elim (moved_cases threads t m s) [
        | inl (f, g) ↦ ap has g ∙ e ∙ ap (λ x. has (threads x)) (sym f)
        | inr (f, g) ↦ ap has g
      ]

  -- The thread takes the free lock.
  pub takes :
      (next : ℕ) → lock ≡ 0 → next ≢ 0 → has m ≡ true → IsMutex next t has (moved threads t m)
  takes next free now e = record {
    fit = λ s a. elim (moved_cases threads t m s) [
      | inl (f, g) ↦ (sym f, now)
      | inr (f, g) ↦ absurd ((h.fit s (sym (ap has g) ∙ a)).1 free)
    ];
    held = λ taken. ap has (moved_self threads t m) ∙ e;
  }

  -- The thread that has the lock gives it back.
  pub gives : has (threads t) ≡ true → has m ≡ false → IsMutex 0 0 has (moved threads t m)
  gives e f = record {
    fit = λ s a. elim (moved_cases threads t m s) [
      | inl (x, g) ↦ absurd (cc (sym f ∙ sym (ap has g) ∙ a))
      | inr (x, g) ↦ absurd (x (sym (h.fit s (sym (ap has g) ∙ a)).0 ∙ (h.fit t e).0))
    ];
    held = λ taken. absurd (taken refl);
  }
