-- ===== src/Profiler/ScopeLock/Exclusion.antt =====
-- in_scope_lock keeps the threads apart, and its holder's own signals go through, src/profiler.cc.
use jcoz.Base.{
  ℕ, ◌≡◌, ◌≢◌, refl, sym, ap, subst, ◌∙◌, ◌⊎◌, inl, inr, Bool, true, false, some, ◌==◌, ==_iff,
  ==_refl, some-injective, Bool-cases,
}
use jcoz.Profiler.ScopeLock.{
  Place, outside, inside, Mode, runs, handles, Lock, moved, enter_handler, leave_handler, Step,
  locks, unlocks, enters, leaves, Steps, here, next,
}

-- A thread in one of the sections that the lock is for.
abbrev pub InSection : Mode → Type 0
InSection (runs outside) = ⊥
InSection _ = Unit {0}

-- The lock says which thread that is; the handler found it locked exactly within a section.
abbrev Fits : ℕ → ℕ → Mode → Type 0
Fits lock t (runs outside) = Unit {0}
Fits lock t (runs inside) = (lock ≡ t) × (t ≢ 0)
Fits lock t (handles outside b) = (lock ≡ t) × (t ≢ 0) × (b ≡ false)
Fits lock t (handles inside b) = (lock ≡ t) × (t ≢ 0) × (b ≡ true)

abbrev AllFit : Lock → Type 0
AllFit l = (t : ℕ) → Fits l.in_scope_lock t (l.modes t)

-- And a lock that is taken is the one of a thread in a section.
record IsApart (l : Lock) : Type 0 where
  fit : AllFit l
  holder : l.in_scope_lock ≢ 0 → InSection (l.modes l.in_scope_lock)

held : (lock t : ℕ) (m : Mode) → Fits lock t m → InSection m → (lock ≡ t) × (t ≢ 0)
held lock t (runs outside) f i = absurd i
held lock t (runs inside) f i = f
held lock t (handles outside b) f i = (f.0, f.1)
held lock t (handles inside b) f i = (f.0, f.1)

-- A thread outside fits any lock.
section_cases : (m : Mode) → (m ≡ runs outside) ⊎ InSection m
section_cases (runs outside) = inl refl
section_cases (runs inside) = inr tt
section_cases (handles place b) = inr tt

-- The others are outside while a thread has the lock, and when nobody has it.
others :
    (l : Lock) (t lock : ℕ) (m : Mode)
    → AllFit l
    → (l.in_scope_lock ≡ t) ⊎ (l.in_scope_lock ≡ 0)
    → Fits lock t m
    → (s : ℕ) → Fits lock s (moved l.modes t m s)
others l t lock m fit mine now s = elim (Bool-cases (s == t)) [
  | inl same ↦ rw same (subst (λ x. Fits lock x m) (sym ((==_iff s t).0 same)) now)
  | inr other ↦ elim (section_cases (l.modes s)) [
    | inl out ↦ rw (other, out) tt
    | inr sec ↦
        let (lock_is, valid) = held l.in_scope_lock s (l.modes s) (fit s) sec in
        elim mine [
          | inl own ↦ absurd (cc (sym other ∙ (==_iff s t).1 (sym lock_is ∙ own)))
          | inr free ↦ absurd (valid (sym lock_is ∙ free))
        ]
  ]
]

moved_self : (modes : ℕ → Mode) (t : ℕ) (m : Mode) → moved modes t m t ≡ m
moved_self modes t m = rw (==_refl t)

-- What enter_handler gives: the lock of the thread itself, or a free one.
enter_cases :
    (l t : ℕ) (has_lock : Bool) (lock : ℕ)
    → enter_handler l t ≡ some (has_lock, lock)
    → ((l ≡ t) × (has_lock ≡ true) × (lock ≡ t))
      ⊎ ((l ≢ t) × (l ≡ 0) × (has_lock ≡ false) × (lock ≡ t))
unfolding enter_handler
enter_cases l t has_lock lock h = elim (Bool-cases (l == t)) [
  | inl own ↦
      let e = some-injective (true, l) (has_lock, lock) (rw (own, enter_handler) at h) in
      let mine = (==_iff l t).0 own in
      inl (mine, sym (ap (λ r. r.0) e), sym (ap (λ r. r.1) e) ∙ mine)
  | inr other ↦ elim (Bool-cases (l == 0)) [
    | inl free ↦
        let e = some-injective (false, t) (has_lock, lock) (rw (other, enter_handler, free) at h) in
        inr (
          λ same. cc (sym other ∙ (==_iff l t).1 same),
          (==_iff l 0).0 free,
          sym (ap (λ r. r.0) e),
          sym (ap (λ r. r.1) e),
        )
    | inr taken ↦ absurd (cc (rw (other, enter_handler, taken) at h))
  ]
]

-- A step of thread `t` to the mode `m`, with the lock its own before or free.
moves :
    (l : Lock) (t lock : ℕ) (m : Mode)
    → IsApart l
    → (l.in_scope_lock ≡ t) ⊎ (l.in_scope_lock ≡ 0)
    → Fits lock t m
    → ((lock ≡ 0) ⊎ ((lock ≡ t) × InSection m))
    → IsApart (record { in_scope_lock = lock; modes = moved l.modes t m })
moves l t lock m h mine now next_holder = record {
  fit = others l t lock m h.fit mine now;
  holder = λ taken. elim next_holder [
    | inl free ↦ absurd (taken free)
    | inr (own, sec) ↦
        subst (λ x. InSection (moved l.modes t m x)) (sym own)
          (subst InSection (sym (moved_self l.modes t m)) sec)
  ];
}

fit_at : (l : Lock) (t : ℕ) (m : Mode) → IsApart l → l.modes t ≡ m → Fits l.in_scope_lock t m
fit_at l t m h e = subst (Fits l.in_scope_lock t) e (h.fit t)

-- A thread outside has no lock.
outside_free :
    (l : Lock) (t : ℕ) → t ≢ 0 → IsApart l → l.modes t ≡ runs outside → l.in_scope_lock ≢ t
outside_free l t valid h e same =
    subst InSection e (
      subst (λ x. InSection (l.modes x)) same
        (h.holder (λ zero_lock. valid (sym same ∙ zero_lock))))

enters-IsApart :
    (l : Lock) (t : ℕ) (place : Place) (has_lock : Bool) (lock : ℕ)
    → t ≢ 0
    → l.modes t ≡ runs place
    → enter_handler l.in_scope_lock t ≡ some (has_lock, lock)
    → IsApart l
    → IsApart (record { in_scope_lock = lock; modes = moved l.modes t (handles place has_lock) })
enters-IsApart l t inside has_lock lock valid e enter h =
    elim (enter_cases l.in_scope_lock t has_lock lock enter) [
      | inl (own, has, now) ↦
          moves l t lock (handles inside has_lock) h (inl own) (now, valid, has) (inr (now, tt))
      | inr (other, free, has, now) ↦ absurd (other (fit_at l t (runs inside) h e).0)
    ]
enters-IsApart l t outside has_lock lock valid e enter h =
    elim (enter_cases l.in_scope_lock t has_lock lock enter) [
      | inl (own, has, now) ↦ absurd (outside_free l t valid h e own)
      | inr (other, free, has, now) ↦
          moves l t lock (handles outside has_lock) h (inr free) (now, valid, has) (inr (now, tt))
    ]

leaves-IsApart :
    (l : Lock) (t : ℕ) (place : Place) (has_lock : Bool)
    → l.modes t ≡ handles place has_lock
    → IsApart l
    → IsApart (record {
      in_scope_lock = leave_handler l.in_scope_lock has_lock;
      modes = moved l.modes t (runs place);
    })
leaves-IsApart l t inside has_lock e h =
    let (own, valid, has) = fit_at l t (handles inside has_lock) h e in
    let stays = ap (leave_handler l.in_scope_lock) has ∙ own in
    moves l t _ (runs inside) h (inl own) (stays, valid) (inr (stays, tt))
leaves-IsApart l t outside has_lock e h =
    let (own, valid, has) = fit_at l t (handles outside has_lock) h e in
    moves l t _ (runs outside) h (inl own) tt (inl (ap (leave_handler l.in_scope_lock) has))

Step-IsApart : {l k : Lock} → Step l k → IsApart l → IsApart k
Step-IsApart {l} (locks t valid e free) h =
    moves l t t (runs inside) h (inr free) (refl, valid) (inr (refl, tt))
Step-IsApart {l} (unlocks t e) h =
    moves l t 0 (runs outside) h (inl (fit_at l t (runs inside) h e).0) tt (inl refl)
Step-IsApart {l} (enters t place has_lock lock valid e enter) h =
    enters-IsApart l t place has_lock lock valid e enter h
Step-IsApart {l} (leaves t place has_lock e) h = leaves-IsApart l t place has_lock e h

Steps-IsApart : {l k : Lock} → Steps l k → IsApart l → IsApart k
Steps-IsApart here h = h
Steps-IsApart (next s e) h = Step-IsApart e (Steps-IsApart s h)

start-IsApart : (l : Lock) → l.in_scope_lock ≡ 0 → ((t : ℕ) → l.modes t ≡ runs outside) → IsApart l
start-IsApart l free out = record {
  fit = λ t. subst (Fits l.in_scope_lock t) (sym (out t)) tt;
  holder = λ taken. absurd (taken free);
}

own_handler : (l t : ℕ) → l ≡ t → enter_handler l t ≡ some (true, l)
unfolding enter_handler
own_handler l t e = rw ((==_iff l t).1 e)

-- From a free in_scope_lock with no thread in its sections, over any steps of threads that lock,
-- unlock, are interrupted by the handler and leave it: two threads in sections are the same thread,
-- and a handler on it finds the lock its own and does not spin. A section is that of
-- addInScopeMethods or clearInScopeMethods, or the handler; a pthread_t is not 0.
pub in_scope_lock-Exclusion :
    {l k : Lock} (s t : ℕ)
    → l.in_scope_lock ≡ 0
    → ((r : ℕ) → l.modes r ≡ runs outside)
    → Steps l k
    → InSection (k.modes s)
    → InSection (k.modes t)
    → (s ≡ t) × (enter_handler k.in_scope_lock s ≡ some (true, s))
in_scope_lock-Exclusion {l} {k} s t free out steps first second =
    let h = Steps-IsApart steps (start-IsApart l free out) in
    let own = (held k.in_scope_lock s (k.modes s) (h.fit s) first).0 in
    let same = (held k.in_scope_lock t (k.modes t) (h.fit t) second).0 in
    (sym own ∙ same, own_handler k.in_scope_lock s own ∙ ap (λ x. some (true, x)) own)
