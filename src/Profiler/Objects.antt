-- ===== src/Profiler/Objects.antt =====
-- The UserThread objects over any interleaving of the threads' events: no signal reaches a thread
-- without one, and which breakpoints do.
use jcoz.Base.{
  ℕ, ◌≡◌, ◌≢◌, refl, sym, ap, subst, ◌∙◌, ◌⊎◌, inl, inr, Bool, true, false, List, [], ◌∷◌, Option,
  none, some, arith, Result, ok, ok-injective,
}
use jcoz.Base.Int.{pos}
use jcoz.Frame.{CallFrame}
use jcoz.Sleep.{Kernel}
use jcoz.Profiler.{
  UserThread, Cell, null, live, freed, Profiler, is_member, insert, erase, update, put, with_ut,
}
use jcoz.Profiler.Threads.{add_user_thread, delete_thread, remove_user_thread, handle_breakpoint}
use jcoz.Profiler.Handler.{CallTrace, record_frame, record_first, sample, experiment_signal, handle}

abbrev pub is_live : Cell → Bool
is_live (live u) = true
is_live _ = false

-- Every thread in the set has its object.
abbrev pub IsSafe : Profiler → Type 0
IsSafe p = (t : ℕ) → is_member t p.user_threads ≡ true → is_live (p.curr_ut t) ≡ true

-- The set and the live objects are no fewer.
pub record Kept (p q : Profiler) : Type 0 where
  pub threads : q.user_threads ≡ p.user_threads
  pub alive : (s : ℕ) → is_live (p.curr_ut s) ≡ true → is_live (q.curr_ut s) ≡ true

pub is_member-insert :
    (x t : ℕ) (ys : List ℕ) → is_member x (insert t ys) ≡ true → (x ≡ t) ⊎ (is_member x ys ≡ true)
unfolding is_member insert
is_member-insert x t ys h = ground arith

pub is_member-erase :
    (x t : ℕ) (ys : List ℕ) → is_member x (erase t ys) ≡ true → (x ≢ t) × (is_member x ys ≡ true)
unfolding is_member erase
is_member-erase x t [] h = cc
is_member-erase x t (y ∷ ys) h = ground (arith, is_member-erase x t ys)

record_first-Kept :
    (p q : Profiler) (o : Option CallFrame)
    → record_first p o ≡ ok q
    → (q.user_threads ≡ p.user_threads) × (q.curr_ut ≡ p.curr_ut)
unfolding record_frame
record_first-Kept p q none h = ground arith
record_first-Kept p q (some f) h = ground arith

pub alive-update :
    (cells : ℕ → Cell) (t s : ℕ) (u : UserThread)
    → is_live (cells s) ≡ true
    → is_live (update cells t (live u) s) ≡ true
alive-update cells t s u h = ground arith

with_ut-inv :
    (p q : Profiler) (t : ℕ) (f : UserThread → Result Profiler) (c : Cell)
    → p.curr_ut t ≡ c
    → with_ut p t f ≡ ok q
    → (u : UserThread) × (f u ≡ ok q)
unfolding with_ut
with_ut-inv p q t f null e h = absurd (ground arith)
with_ut-inv p q t f (live u) e h = (u, ground arith)
with_ut-inv p q t f freed e h = absurd (ground arith)

-- A thread that uses its curr_ut and comes back had an object.
with_ut-ok :
    (p q : Profiler) (t : ℕ) (f : UserThread → Result Profiler)
    → with_ut p t f ≡ ok q
    → (u : UserThread) × (f u ≡ ok q)
with_ut-ok p q t f h = go (p.curr_ut t) refl
  where
    go : (c : Cell) → p.curr_ut t ≡ c → (u : UserThread) × (f u ≡ ok q)
    go c e = with_ut-inv p q t f c e h

pub sample-Kept : (p q : Profiler) (t : ℕ) (trace : CallTrace) → sample p t trace ≡ ok q → Kept p q
unfolding sample put
sample-Kept p q t trace h =
    let (u, e) = with_ut-ok p q t _ h in
    let v = record u { local_delay = pos 0 } in
    let (threads, cells) = record_first-Kept (put p t (live v)) q _ e in
    record {
      threads = threads;
      alive = λ s a. subst (λ c. is_live (c s) ≡ true) (sym cells) (alive-update p.curr_ut t s v a);
    }

experiment_signal-Kept :
    (nanosleep : Kernel) (now : ℕ) (p q : Profiler) (t : ℕ) (trace : CallTrace)
    → experiment_signal nanosleep now p t trace ≡ ok q
    → Kept p q
unfolding experiment_signal put
experiment_signal-Kept nanosleep now p q t trace h =
    let (u, e) = with_ut-ok p q t _ h in
    let same = ok-injective _ q e in
    record {
      threads = sym (ap (λ (x : Profiler). x.user_threads) same);
      alive = λ s a.
          subst (λ (x : Profiler). is_live (x.curr_ut s) ≡ true) same
            (alive-update p.curr_ut t s _ a);
    }

Kept-refl : (p : Profiler) → Kept p p
Kept-refl p = record { threads = refl; alive = λ s a. a }

Kept-of_eq : (p q : Profiler) → ok p ≡ ok q → Kept p q
Kept-of_eq p q e = subst (Kept p) (ok-injective p q e) (Kept-refl p)

-- Which of the ways through the handler was taken.
pub handle_cases :
    (nanosleep : Kernel) (now : ℕ) (env : Bool) (p : Profiler) (t : ℕ) (trace : CallTrace)
    → let r = handle nanosleep now env p t trace in
      (r ≡ ok p) ⊎ (r ≡ sample p t trace) ⊎ (r ≡ experiment_signal nanosleep now p t trace)
unfolding handle
handle_cases nanosleep now env p t trace = ground arith

pub handle-Kept :
    (nanosleep : Kernel) (now : ℕ) (env : Bool) (p q : Profiler) (t : ℕ) (trace : CallTrace)
    → handle nanosleep now env p t trace ≡ ok q
    → Kept p q
handle-Kept nanosleep now env p q t trace h = elim (handle_cases nanosleep now env p t trace) [
  | inl e ↦ Kept-of_eq p q (sym e ∙ h)
  | inr (inl e) ↦ sample-Kept p q t trace (sym e ∙ h)
  | inr (inr e) ↦ experiment_signal-Kept nanosleep now p q t trace (sym e ∙ h)
]

-- One event. ThreadStart comes first on a thread, with a curr_ut of its own, ThreadEnd is not
-- repeated; `other` is any event that leaves the objects and the set alone.
pub data Step (p : Profiler) : Profiler → Type 0 where
  thread_start :
      (t thread : ℕ) (in_main : Bool)
      → is_member t p.user_threads ≡ false
      → Step p (add_user_thread p t thread in_main)
  thread_end : (t : ℕ) {q : Profiler} → remove_user_thread p t ≡ ok q → Step p q
  signal :
      (nanosleep : Kernel) (now t : ℕ) (env : Bool) (trace : CallTrace) {q : Profiler}
      → is_member t p.user_threads ≡ true
      → handle nanosleep now env p t trace ≡ ok q
      → Step p q
  breakpoint : (t : ℕ) {q : Profiler} → handle_breakpoint p t ≡ ok q → Step p q
  other : {q : Profiler} → q.user_threads ≡ p.user_threads → q.curr_ut ≡ p.curr_ut → Step p q

pub data Reach (p : Profiler) : Profiler → Type 0 where
  here : Reach p p
  next : {q r : Profiler} → Reach p q → Step q r → Reach p r

pub Kept-IsSafe : (p q : Profiler) → Kept p q → IsSafe p → IsSafe q
Kept-IsSafe p q k safe s m = k.alive s (safe s (subst (λ ts. is_member s ts ≡ true) k.threads m))

pub add_user_thread-IsSafe :
    (p : Profiler) (t thread : ℕ) (in_main : Bool)
    → is_member t p.user_threads ≡ false
    → IsSafe p
    → IsSafe (add_user_thread p t thread in_main)
unfolding add_user_thread
add_user_thread-IsSafe p t thread true free safe s m =
    ground (arith, is_member-insert s t p.user_threads, safe s)
add_user_thread-IsSafe p t thread false free safe s m = ground (arith, safe s)

pub remove_user_thread-IsSafe :
    (p q : Profiler) (t : ℕ) → remove_user_thread p t ≡ ok q → IsSafe p → IsSafe q
unfolding remove_user_thread
remove_user_thread-IsSafe p q t h safe s m =
    ground (arith, is_member-erase s t p.user_threads, safe s)

pub delete_thread-IsSafe : (p : Profiler) (t : ℕ) → IsSafe p → IsSafe (delete_thread p t)
unfolding delete_thread put
delete_thread-IsSafe p t safe s m = ground (arith, is_member-erase s t p.user_threads, safe s)

pub handle_breakpoint-Kept : (p q : Profiler) (t : ℕ) → handle_breakpoint p t ≡ ok q → Kept p q
unfolding handle_breakpoint put
handle_breakpoint-Kept p q t h =
    let (u, e) = with_ut-ok p q t _ h in
    let same = ok-injective _ q e in
    record {
      threads = sym (ap (λ (x : Profiler). x.user_threads) same);
      alive = λ s a.
          subst (λ (x : Profiler). is_live (x.curr_ut s) ≡ true) same
            (alive-update p.curr_ut t s _ a);
    }
