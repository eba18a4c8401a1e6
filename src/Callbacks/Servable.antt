-- ===== src/Callbacks/Servable.antt =====
-- Each user thread keeps its object and its JNI environment over the callbacks.
use jcoz.Base.{
  ℕ, ◌≡◌, refl, sym, subst, ◌⊎◌, inl, inr, Bool, true, false, [], Option, none, some, ==_iff, arith,
  Result, ok, ok-injective, >>=-eq-ok,
}
use jcoz.Text.{Bytes}
use jcoz.Sleep.{Kernel}
use jcoz.Profiler.{Profiler, is_member}
use jcoz.Profiler.Threads.{
  Answer, thread_in_main, add_user_thread, on_thread_start, remove_user_thread, delete_thread,
  handle_breakpoint,
}
use jcoz.Profiler.Handler.{CallTrace, handle}
use jcoz.Profiler.Objects.{
  is_live, IsSafe, Kept, delete_thread-IsSafe, Kept-IsSafe, handle-Kept, handle_breakpoint-Kept,
  is_member-insert, is_member-erase, add_user_thread-IsSafe, remove_user_thread-IsSafe,
}
use jcoz.Callbacks.{
  Threads, set_current_jni_env, with_profiler, thread_started, thread_ended, signalled,
}

-- One callback, a breakpoint, or what leaves the threads' objects and the set alone. ThreadStart
-- comes first on a thread. A callback or a handler whose steps others come between is a series of
-- `keeps`, with the step that deletes an object as `deletes`.
pub data Event (s : Threads) : Threads → Type 0 where
  starts :
      (t thread : ℕ) (info : Answer ℕ) (group_name : ℕ → Answer Bytes) {r : Threads}
      → is_member t s.profiler.user_threads ≡ false
      → thread_started s t thread info group_name ≡ ok r
      → Event s r
  ends : (t : ℕ) {r : Threads} → thread_ended s t ≡ ok r → Event s r
  signals :
      (nanosleep : Kernel) (now t : ℕ) (asgct : Option (ℕ → CallTrace)) {r : Threads}
      → signalled nanosleep now asgct s t ≡ ok r
      → Event s r
  breaks :
      (t : ℕ) {r : Threads} → with_profiler s (handle_breakpoint s.profiler t) ≡ ok r → Event s r
  other :
      {p : Profiler}
      → p.user_threads ≡ s.profiler.user_threads
      → p.curr_ut ≡ s.profiler.curr_ut
      → Event s (record s { profiler = p })
  keeps : {p : Profiler} → Kept s.profiler p → Event s (record s { profiler = p })
  deletes : (t : ℕ) → Event s (record s { profiler = delete_thread s.profiler t })

pub data Events (s : Threads) : Threads → Type 0 where
  begin : Events s s
  step : {q r : Threads} → Events s q → Event q r → Events s r

-- Each thread in the set has its object and its JNI environment.
pub record IsServable (s : Threads) : Type 0 where
  pub safe : IsSafe s.profiler
  pub env : (t : ℕ) → is_member t s.profiler.user_threads ≡ true → s.has_env t ≡ true

with_profiler-ok :
    (s r : Threads) (o : Result Profiler)
    → with_profiler s o ≡ ok r
    → (p : Profiler) × (o ≡ ok p) × (record s { profiler = p } ≡ r)
with_profiler-ok s r o h =
    let (p, e, f) = >>=-eq-ok o _ h in (p, e, ok-injective (record s { profiler = p }) r f)

-- What keeps the set, or drops from it.
fewer :
    (s r : Threads) (p : Profiler)
    → record s { profiler = p } ≡ r
    → IsSafe p
    → ((t : ℕ) → is_member t p.user_threads ≡ true → is_member t s.profiler.user_threads ≡ true)
    → IsServable s
    → IsServable r
fewer s r p same safe less h =
    subst IsServable same (record { safe = safe; env = λ t m. h.env t (less t m) })

removed_less :
    (p q : Profiler) (t s : ℕ)
    → remove_user_thread p t ≡ ok q
    → is_member s q.user_threads ≡ true
    → is_member s p.user_threads ≡ true
unfolding remove_user_thread
removed_less p q t s h m = ground (arith, is_member-erase s t p.user_threads)

added_less :
    (p : Profiler) (t thread s : ℕ) (in_main : Bool)
    → is_member s (add_user_thread p t thread in_main).user_threads ≡ true
    → (s ≡ t) ⊎ (is_member s p.user_threads ≡ true)
unfolding add_user_thread
added_less p t thread s true m = is_member-insert s t p.user_threads m
added_less p t thread s false m = inr m

now_set :
    (has_env : ℕ → Bool) (t s : ℕ)
    → (s ≡ t) ⊎ (has_env s ≡ true)
    → set_current_jni_env has_env t s ≡ true
now_set has_env t s h = ground (arith, (==_iff s t).1)

started-IsServable :
    (s r : Threads) (t thread : ℕ) (info : Answer ℕ) (group_name : ℕ → Answer Bytes)
    → is_member t s.profiler.user_threads ≡ false
    → thread_started s t thread info group_name ≡ ok r
    → IsServable s
    → IsServable r
unfolding thread_started on_thread_start
started-IsServable s r t thread info group_name free e h =
    let (p, f, same) =
      with_profiler-ok (record s { has_env = set_current_jni_env s.has_env t }) r
        (on_thread_start s.profiler t thread info group_name) e in
    let (b, _, g) = >>=-eq-ok (thread_in_main info group_name) _ f in
    let added : add_user_thread s.profiler t thread b ≡ p = ok-injective _ p g in
    subst IsServable same (
      subst
        (λ (x : Profiler).
          IsServable (record { profiler = x; has_env = set_current_jni_env s.has_env t }))
        added
        (record {
          safe = add_user_thread-IsSafe s.profiler t thread b free h.safe;
          env = λ x m. now_set s.has_env t x (elim (added_less s.profiler t thread x b m) [
            | inl here ↦ inl here
            | inr old ↦ inr (h.env x old)
          ]);
        }))

-- A signal changes the profiler by the handler, or nothing.
signalled_cases :
    (nanosleep : Kernel) (now t : ℕ) (asgct : Option (ℕ → CallTrace)) (s r : Threads)
    → signalled nanosleep now asgct s t ≡ ok r
    → (s ≡ r)
      ⊎ ((trace : CallTrace) × (with_profiler s
              (handle nanosleep now (s.has_env t) s.profiler t trace)
            ≡ ok r))
unfolding signalled
signalled_cases nanosleep now t (some function) s r h = inr (function t, h)
signalled_cases nanosleep now t none s r h = inl (ground arith)

kept_env :
    (p q : Profiler)
    → q.user_threads ≡ p.user_threads
    → (t : ℕ) → is_member t q.user_threads ≡ true
    → is_member t p.user_threads ≡ true
kept_env p q e t m = subst (λ ts. is_member t ts ≡ true) e m

Event-IsServable : {s r : Threads} → Event s r → IsServable s → IsServable r
unfolding thread_ended delete_thread
Event-IsServable {s} {r} (starts t thread info group_name free e) h =
    started-IsServable s r t thread info group_name free e h
Event-IsServable {s} {r} (ends t e) h =
    let (p, f, same) = with_profiler-ok s r (remove_user_thread s.profiler t) e in
    fewer s r p same (remove_user_thread-IsSafe s.profiler p t f h.safe)
      (λ x. removed_less s.profiler p t x f) h
Event-IsServable {s} {r} (signals nanosleep now t asgct e) h =
    elim (signalled_cases nanosleep now t asgct s r e) [
      | inl same ↦ subst IsServable same h
      | inr (trace, f) ↦
          let (p, g, same) =
            with_profiler-ok s r (handle nanosleep now (s.has_env t) s.profiler t trace) f in
          let k = handle-Kept nanosleep now (s.has_env t) s.profiler p t trace g in
          fewer s r p same (Kept-IsSafe s.profiler p k h.safe) (kept_env s.profiler p k.threads) h
    ]
Event-IsServable {s} {r} (breaks t e) h =
    let (p, f, same) = with_profiler-ok s r (handle_breakpoint s.profiler t) e in
    let k = handle_breakpoint-Kept s.profiler p t f in
    fewer s r p same (Kept-IsSafe s.profiler p k h.safe) (kept_env s.profiler p k.threads) h
Event-IsServable {s} (other {p} threads cells) h =
    fewer s _ p refl
      (λ t m.
        subst (λ c. is_live (c t) ≡ true) (sym cells)
          (h.safe t (kept_env s.profiler p threads t m)))
      (kept_env s.profiler p threads) h
Event-IsServable {s} (keeps {p} k) h =
    fewer s _ p refl (Kept-IsSafe s.profiler p k h.safe) (kept_env s.profiler p k.threads) h
Event-IsServable {s} (deletes t) h =
    fewer s _ (delete_thread s.profiler t) refl (delete_thread-IsSafe s.profiler t h.safe)
      (λ x m. (is_member-erase x t s.profiler.user_threads m).1) h

pub Events-IsServable : {s r : Threads} → Events s r → IsServable s → IsServable r
Events-IsServable begin h = h
Events-IsServable (step es e) h = Event-IsServable e (Events-IsServable es h)

pub start-IsServable : (s : Threads) → s.profiler.user_threads ≡ [] → IsServable s
unfolding is_member
start-IsServable s e = record {
  safe = λ t m. absurd (ground arith);
  env = λ t m. absurd (ground arith);
}
