-- ===== src/Profiler/Errors.antt =====
-- The error codes of AsyncGetCallTrace, enum CallTraceErrors of src/stacktraces.h, and the handler's
-- test for one that is none of them.
use jcoz.Base.{zero, suc, ℕ, ◌≤◌, ◌≡◌, ◌↔◌, ◌⊎◌, inl, inr, refl, ap, false, ltb, arith}
use jcoz.Base.Int.{ℤ, pos, negsuc, neg_part, ◌≤ℤ◌}
use jcoz.Profiler.Handler.{CallTrace, num_call_trace_errors, is_unknown_error}

pub data CallTraceErrors : Type 0 where
  native_stack_trace no_class_load gc_trace_error unknown_not_java : CallTraceErrors
  not_walkable_frame_not_java unknown_java not_walkable_frame_java unknown_state : CallTraceErrors
  ticks_thread_exit deopt_handler safepoint : CallTraceErrors

-- The enum's values; negsuc n is -(n + 1).
unfoldable pub value_of : CallTraceErrors → ℤ
value_of native_stack_trace = pos 0
value_of no_class_load = negsuc 0
value_of gc_trace_error = negsuc 1
value_of unknown_not_java = negsuc 2
value_of not_walkable_frame_not_java = negsuc 3
value_of unknown_java = negsuc 4
value_of not_walkable_frame_java = negsuc 5
value_of unknown_state = negsuc 6
value_of ticks_thread_exit = negsuc 7
value_of deopt_handler = negsuc 8
value_of safepoint = negsuc 9

value_of_bound : (e : CallTraceErrors) → neg_part (value_of e) ≤ 10
unfolding value_of
value_of_bound native_stack_trace = omega arith
value_of_bound no_class_load = omega arith
value_of_bound gc_trace_error = omega arith
value_of_bound unknown_not_java = omega arith
value_of_bound not_walkable_frame_not_java = omega arith
value_of_bound unknown_java = omega arith
value_of_bound not_walkable_frame_java = omega arith
value_of_bound unknown_state = omega arith
value_of_bound ticks_thread_exit = omega arith
value_of_bound deopt_handler = omega arith
value_of_bound safepoint = omega arith

-- The error with the code -(n + 1).
abbrev ErrorOf : ℕ → Type 0
ErrorOf n = (e : CallTraceErrors) × (negsuc n ≡ value_of e)

error_of : (n : ℕ) → n ≤ 9 → ErrorOf n
unfolding value_of
error_of zero h = (no_class_load, refl)
error_of (suc zero) h = (gc_trace_error, refl)
error_of (suc (suc zero)) h = (unknown_not_java, refl)
error_of (suc (suc (suc zero))) h = (not_walkable_frame_not_java, refl)
error_of (suc (suc (suc (suc zero)))) h = (unknown_java, refl)
error_of (suc (suc (suc (suc (suc zero))))) h = (not_walkable_frame_java, refl)
error_of (suc (suc (suc (suc (suc (suc zero)))))) h = (unknown_state, refl)
error_of (suc (suc (suc (suc (suc (suc (suc zero))))))) h = (ticks_thread_exit, refl)
error_of (suc (suc (suc (suc (suc (suc (suc (suc zero)))))))) h = (deopt_handler, refl)
error_of (suc (suc (suc (suc (suc (suc (suc (suc (suc zero))))))))) h = (safepoint, refl)
error_of (suc (suc (suc (suc (suc (suc (suc (suc (suc (suc n)))))))))) h = absurd (omega arith)

-- A trace passes the test exactly if it has frames or its number of frames is the code of an error.
pub is_unknown_error_iff :
    (trace : CallTrace)
    → (is_unknown_error trace ≡ false)
      ↔ ((pos 0 ≤ℤ trace.num_frames) ⊎ ((e : CallTraceErrors) × (trace.num_frames ≡ value_of e)))
is_unknown_error_iff trace = go trace.num_frames refl
  where
    go :
        (n : ℤ)
        → trace.num_frames ≡ n
        → (ltb num_call_trace_errors (neg_part n) ≡ false)
          ↔ ((pos 0 ≤ℤ n) ⊎ ((e : CallTraceErrors) × (n ≡ value_of e)))
    go (pos k) h = (λ e. inl (omega arith), λ c. ground arith)
    go (negsuc k) h = (
      λ e. inr (error_of k (ground arith)),
      λ c. elim c [
        | inl p ↦ absurd (omega (arith, p))
        | inr (e, same) ↦ ground (arith, value_of_bound e, ap neg_part same)
      ],
    )
