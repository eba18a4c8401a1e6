-- ===== src/Profiler/Frames.antt =====
-- The buffer of sampled frames, src/profiler.cc: what Handle records, in its order, up to its size.
use native.Mathlib.Decide.{dec_lt}
use jcoz.Base.{
  ℕ, zero, suc, min, ◌+◌, ◌%◌, ◌^◌, ◌≤◌, ◌<◌, ◌≡◌, refl, sym, ap, ◌∙◌, List, [], ◌∷◌, ◌++◌, arith,
  length, length-append, length-set, set, take, take-set, ok,
}
use jcoz.Frame.{CallFrame}
use jcoz.Profiler.{Profiler, num_static_call_frames}
use jcoz.Profiler.Handler.{record_frame}

-- The buffer holds exactly the frames `fs`, as far as it reaches.
pub record Holds (p : Profiler) (fs : List CallFrame) : Type 0 where
  pub counted : p.call_index ≡ length fs
  pub sized : length p.static_call_frames ≡ num_static_call_frames
  pub contents :
      take (min (length fs) num_static_call_frames) p.static_call_frames
      ≡ take num_static_call_frames fs

-- What recording a frame leaves alone.
pub record Keeps (p q : Profiler) : Type 0 where
  pub scope : q.in_scope_ids ≡ p.in_scope_ids
  pub ready : q.prof_ready ≡ p.prof_ready
  pub phase : q.in_experiment ≡ p.in_experiment
  pub cells : q.curr_ut ≡ p.curr_ut
  pub threads : q.user_threads ≡ p.user_threads

Keeps-refl :
    (p : Profiler) (i : ℕ) (fs : List CallFrame)
    → Keeps p (record p { call_index = i; static_call_frames = fs })
Keeps-refl p i fs = record {
  scope = refl;
  ready = refl;
  phase = refl;
  cells = refl;
  threads = refl;
}

module _ {ℓ} {A : Type ℓ} where
  take_long : (n : ℕ) (xs : List A) → length xs ≤ n → take n xs ≡ xs
  take_long zero [] h = refl
  take_long (suc n) [] h = refl
  take_long zero (x ∷ xs) h = absurd (omega arith)
  take_long (suc n) (x ∷ xs) h = ap (◌∷◌ x) (take_long n xs (omega arith))

  take-append_full : (n : ℕ) (xs ys : List A) → n ≤ length xs → take n (xs ++ ys) ≡ take n xs
  take-append_full zero xs ys h = refl
  take-append_full (suc n) [] ys h = absurd (omega arith)
  take-append_full (suc n) (x ∷ xs) ys h = ap (◌∷◌ x) (take-append_full n xs ys (omega arith))

module _ {ℓ} {A : Type ℓ} (n : ℕ) (xs fs : List A) (f : A) where
  length-snoc : length (fs ++ f ∷ []) ≡ suc (length fs)
  length-snoc = omega (arith, length-append {ℓ} fs (f ∷ []))

  -- A write behind the recorded frames records one more.
  buffer_free :
      length xs ≡ n
      → length fs < n
      → take (min (length fs) n) xs ≡ take n fs
      → take (min (length (fs ++ f ∷ [])) n) (set xs (length fs) f) ≡ take n (fs ++ f ∷ [])
  buffer_free sized free same =
      ap (λ k. take k (set xs (length fs) f)) {y = suc (length fs)} (omega (arith, length-snoc))
      ∙ take-set xs (length fs) f (omega arith)
      ∙ ap (λ ys. ys ++ f ∷ [])
          (ap (λ k. take k xs) {y = min (length fs) n} (omega arith)
            ∙ same
            ∙ take_long n fs (omega arith))
      ∙ sym (take_long n (fs ++ f ∷ []) (omega (arith, length-snoc)))

  -- A full buffer keeps what it has.
  buffer_full :
      n ≤ length fs
      → take (min (length fs) n) xs ≡ take n fs
      → take (min (length (fs ++ f ∷ [])) n) xs ≡ take n (fs ++ f ∷ [])
  buffer_full full same =
      ap (λ k. take k xs) {y = min (length fs) n} (omega (arith, length-snoc))
      ∙ same
      ∙ sym (take-append_full n fs (f ∷ []) full)

record_frame_below :
    (p : Profiler) (f : CallFrame)
    → p.call_index < num_static_call_frames
    → record_frame p f
      ≡ ok (record p {
        call_index = (p.call_index + 1) % 2 ^ 32;
        static_call_frames = set p.static_call_frames p.call_index f;
      })
unfolding record_frame
record_frame_below p f h = ground arith

record_frame_above :
    (p : Profiler) (f : CallFrame)
    → num_static_call_frames ≤ p.call_index
    → p.call_index < 2 ^ 31
    → record_frame p f ≡ ok (record p { call_index = (p.call_index + 1) % 2 ^ 32 })
unfolding record_frame
record_frame_above p f h k = ground arith

-- What a signal records goes behind what is there, or is dropped if the buffer is full.
pub record_frame-Holds :
    (p : Profiler) (fs : List CallFrame) (f : CallFrame)
    → Holds p fs
    → length fs < 2 ^ 31
    → (q : Profiler) × (record_frame p f ≡ ok q) × Holds q (fs ++ f ∷ []) × Keeps p q
record_frame-Holds p fs f h small = elim (dec_lt (length fs) num_static_call_frames) [
  | yes free ↦ (
    _,
    record_frame_below p f (omega (arith, h.counted)),
    record {
      counted = omega (arith, h.counted, length-snoc {0} num_static_call_frames [] fs f);
      sized = length-set p.static_call_frames p.call_index f ∙ h.sized;
      contents =
          ap
            (λ i.
              take (min (length (fs ++ f ∷ [])) num_static_call_frames)
                (set p.static_call_frames i f))
            h.counted
          ∙ buffer_free num_static_call_frames p.static_call_frames fs f h.sized free h.contents;
    },
    Keeps-refl p _ _,
  )
  | no full ↦ (
    _,
    record_frame_above p f (omega (arith, h.counted)) (omega (arith, h.counted)),
    record {
      counted = omega (arith, h.counted, length-snoc {0} num_static_call_frames [] fs f);
      sized = h.sized;
      contents =
          buffer_full num_static_call_frames p.static_call_frames fs f (omega arith) h.contents;
    },
    Keeps-refl p _ p.static_call_frames,
  )
]
