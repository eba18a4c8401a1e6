-- ===== src/Callbacks/Rounds.antt =====
-- One signal of a round to all user threads, Handle and signal_user_threads of src/profiler.cc.
use mathlib.Core.List.{Memᴰ}
use jcoz.Base.{
  ℕ, ◌+◌, ◌^◌, ◌<◌, ◌≤◌, ◌≡◌, sym, ap, ◌∙◌, inl, inr, Bool, true, List, [], ◌∷◌, Option, none, some,
  ==_iff, arith, ok, ok-injective, is_ok-eq,
}
use jcoz.Sleep.{Kernel}
use jcoz.Frame.{CallFrame}
use jcoz.Profiler.{Profiler, is_member, put}
use jcoz.Profiler.Handler.{CallTrace, record_frame, record_first, sample, experiment_signal, handle}
use jcoz.Profiler.Objects.{handle_cases, handle-Kept}
use jcoz.Profiler.Points.Objects.{with_ut-live}
use jcoz.Profiler.Reached.{handle_ok}
use jcoz.Callbacks.{Threads, with_profiler, signalled}
use jcoz.Callbacks.Servable.{IsServable}

-- A signal takes one place in the buffer at most.
first_index :
    (p q : Profiler) (o : Option CallFrame)
    → record_first p o ≡ ok q
    → q.call_index ≤ p.call_index + 1
unfolding record_frame
first_index p q none h = omega (arith, ap (λ (x : Profiler). x.call_index) (ok-injective p q h))
first_index p q (some f) h = ground arith

sample_index :
    (p q : Profiler) (t : ℕ) (trace : CallTrace)
    → sample p t trace ≡ ok q
    → q.call_index ≤ p.call_index + 1
unfolding sample put
sample_index p q t trace h = let (u, found, e) = with_ut-live p q t _ h in first_index _ q _ e

experiment_index :
    (nanosleep : Kernel) (now : ℕ) (p q : Profiler) (t : ℕ) (trace : CallTrace)
    → experiment_signal nanosleep now p t trace ≡ ok q
    → q.call_index ≡ p.call_index
unfolding experiment_signal put
experiment_index nanosleep now p q t trace h =
    let (u, found, e) = with_ut-live p q t _ h in
    sym (ap (λ (x : Profiler). x.call_index) (ok-injective _ q e))

handle_index :
    (nanosleep : Kernel) (now : ℕ) (env : Bool) (p q : Profiler) (t : ℕ) (trace : CallTrace)
    → handle nanosleep now env p t trace ≡ ok q
    → q.call_index ≤ p.call_index + 1
handle_index nanosleep now env p q t trace h = elim (handle_cases nanosleep now env p t trace) [
  | inl e ↦ omega (arith, ap (λ (x : Profiler). x.call_index) (ok-injective p q (sym e ∙ h)))
  | inr (inl e) ↦ sample_index p q t trace (sym e ∙ h)
  | inr (inr e) ↦ omega (arith, experiment_index nanosleep now p q t trace (sym e ∙ h))
]

-- What one signal of a round comes to.
pub record One (nanosleep : Kernel) (now t : ℕ) (function : ℕ → CallTrace) (r : Threads)
    : Type 0 where
  pub after : Profiler
  pub handled : handle nanosleep now (r.has_env t) r.profiler t (function t) ≡ ok after
  pub comes : signalled nanosleep now (some function) r t ≡ ok (record r { profiler = after })
  pub threads : after.user_threads ≡ r.profiler.user_threads
  pub index : after.call_index ≤ r.profiler.call_index + 1

pub one :
    (nanosleep : Kernel) (now t : ℕ) (function : ℕ → CallTrace) (r : Threads)
    → IsServable r
    → is_member t r.profiler.user_threads ≡ true
    → r.profiler.call_index < 2 ^ 31
    → One nanosleep now t function r
unfolding signalled
one nanosleep now t function r h m small =
    let env = r.has_env t in
    let (q, e) =
      is_ok-eq (handle nanosleep now env r.profiler t (function t))
        (handle_ok nanosleep now env r.profiler t (function t) (h.safe t m) small) in
    let k = handle-Kept nanosleep now env r.profiler q t (function t) e in
    record {
      after = q;
      handled = e;
      comes = ap (with_profiler r) e;
      threads = k.threads;
      index = handle_index nanosleep now env r.profiler q t (function t) e;
    }

pub Mem-is_member : (t : ℕ) (ts : List ℕ) → Memᴰ t ts → is_member t ts ≡ true
unfolding is_member
Mem-is_member t [] m = elim m [ ]
Mem-is_member t (x ∷ ts) (Memᴰ.head e) = rw ((==_iff x t).1 (sym e))
Mem-is_member t (x ∷ ts) (Memᴰ.tail m) = ground (arith, Mem-is_member t ts m)
