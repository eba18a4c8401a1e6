-- ===== src/Profiler/Sampling.antt =====
-- A series of signals outside an experiment: the buffer holds the first frame in scope of each trace.
use jcoz.Base.{
  ℕ, ◌+◌, ◌^◌, ◌≤◌, ◌<◌, ◌≡◌, refl, sym, ap, subst, ◌∙◌, inl, inr, Bool, true, false, List, [], ◌∷◌,
  ◌++◌, append-nil, append_assoc, Option, none, some, ◌==◌, Bool-cases, arith, All, length,
  length-append, Result, ok, ◌>>=◌,
}
use jcoz.Base.Int.{pos}
use jcoz.Frame.{CallFrame}
use jcoz.Sleep.{Kernel}
use jcoz.Profiler.{UserThread, Cell, live, Profiler, is_member, update, put, with_ut}
use jcoz.Profiler.Handler.{
  CallTrace, frame_in_scope, find_frame, record_first, visited, sample, is_unknown_error, handle,
}
use jcoz.Profiler.Frames.{Holds, record_frame-Holds}

-- The first frame in scope, if the trace has one.
abbrev pub in_scope : List ℕ → CallFrame → Bool
in_scope ids frame = is_member frame.method_id ids

abbrev to_list : Option CallFrame → List CallFrame
to_list none = []
to_list (some f) = f ∷ []

abbrev pub IsLive : Cell → Type 0
IsLive c = (u : UserThread) × (c ≡ live u)

-- The state between two such signals.
pub record Sampled (p : Profiler) (ids : List ℕ) (fs : List CallFrame) : Type 0 where
  pub ready : p.prof_ready ≡ true
  pub outside : p.in_experiment ≡ false
  pub scope : p.in_scope_ids ≡ ids
  pub holds : Holds p fs

record_first-Sampled :
    (p : Profiler) (ids : List ℕ) (fs : List CallFrame) (o : Option CallFrame)
    → Sampled p ids fs
    → length fs < 2 ^ 31
    → (q : Profiler) × (record_first p o ≡ ok q)
      × Sampled q ids (fs ++ to_list o)
      × (q.curr_ut ≡ p.curr_ut)
record_first-Sampled p ids fs none s small =
    (p, refl, subst (Sampled p ids) (sym (append-nil fs)) s, refl)
record_first-Sampled p ids fs (some f) s small =
    let (q, e, h, k) = record_frame-Holds p fs f s.holds small in
    (
      q,
      e,
      record {
        ready = k.ready ∙ s.ready;
        outside = k.phase ∙ s.outside;
        scope = k.scope ∙ s.scope;
        holds = h;
      },
      k.cells,
    )

pub first : List ℕ → CallTrace → Option CallFrame
unfolding find_frame
first ids trace = find_frame (in_scope ids) (visited trace)

handle_outside :
    (nanosleep : Kernel) (now : ℕ) (p : Profiler) (t : ℕ) (trace : CallTrace)
    → p.prof_ready ≡ true
    → p.in_experiment ≡ false
    → is_unknown_error trace ≡ false
    → handle nanosleep now true p t trace ≡ sample p t trace
unfolding handle
handle_outside nanosleep now p t trace ready outside known = ground arith

sample_live :
    (p : Profiler) (t : ℕ) (trace : CallTrace) (u : UserThread)
    → p.curr_ut t ≡ live u
    → sample p t trace
      ≡ record_first
          (put p t (live (record u { local_delay = pos 0 })))
          (first p.in_scope_ids trace)
unfolding sample first put frame_in_scope
sample_live p t trace u cell = rw (cell, sample, with_ut)

-- A signal that reaches a thread: the time, the thread and its trace.
pub record Signal : Type 0 where
  pub now : ℕ
  pub thread : ℕ
  pub trace : CallTrace

unfoldable pub handle_all : Kernel → Profiler → List Signal → Result Profiler
handle_all nanosleep p [] = ok p
handle_all nanosleep p (s ∷ ss) =
    handle nanosleep s.now true p s.thread s.trace >>= (λ q. handle_all nanosleep q ss)

-- The first frame in scope of each trace that has one.
abbrev pub samples : List ℕ → List Signal → List CallFrame
samples ids [] = []
samples ids (s ∷ ss) = to_list (first ids s.trace) ++ samples ids ss

abbrev pub IsServed : Profiler → Signal → Type 0
IsServed p s = IsLive (p.curr_ut s.thread) × (is_unknown_error s.trace ≡ false)

IsLive-update :
    (cells : ℕ → Cell) (t s : ℕ) (u : UserThread)
    → IsLive (cells s)
    → IsLive (update cells t (live u) s)
IsLive-update cells t s u (v, e) = elim (Bool-cases (s == t)) [
  | inl same ↦ (u, rw same)
  | inr other ↦ (v, rw other e)
]

pub IsServed-update :
    (p q : Profiler) (t : ℕ) (u : UserThread) (ss : List Signal)
    → q.curr_ut ≡ update p.curr_ut t (live u)
    → All (IsServed p) ss
    → All (IsServed q) ss
IsServed-update p q t u [] e h = tt
IsServed-update p q t u (s ∷ ss) e ((alive, known), rest) = (
  (
    subst (λ cells. IsLive (cells s.thread)) (sym e) (IsLive-update p.curr_ut t s.thread u alive),
    known,
  ),
  IsServed-update p q t u ss e rest,
)

length-to_list : (o : Option CallFrame) → length (to_list o) ≤ 1
length-to_list none = omega arith
length-to_list (some f) = omega arith

-- One signal, on a thread that has its object.
handle-Sampled :
    (nanosleep : Kernel) (p : Profiler) (ids : List ℕ) (fs : List CallFrame) (s : Signal)
    (u : UserThread)
    → Sampled p ids fs
    → p.curr_ut s.thread ≡ live u
    → is_unknown_error s.trace ≡ false
    → length fs < 2 ^ 31
    → (q : Profiler) × (handle nanosleep s.now true p s.thread s.trace ≡ ok q)
      × Sampled q ids (fs ++ to_list (first ids s.trace))
      × (q.curr_ut ≡ update p.curr_ut s.thread (live (record u { local_delay = pos 0 })))
unfolding put
handle-Sampled nanosleep p ids fs s u h cell known small =
    let marked = put p s.thread (live (record u { local_delay = pos 0 })) in
    let held : Holds marked fs = record {
      counted = h.holds.counted;
      sized = h.holds.sized;
      contents = h.holds.contents;
    } in
    let (q, e, k, cells) =
      record_first-Sampled marked ids fs (first ids s.trace)
        (record { ready = h.ready; outside = h.outside; scope = h.scope; holds = held }) small in
    (
      q,
      handle_outside nanosleep s.now p s.thread s.trace h.ready h.outside known
          ∙ sample_live p s.thread s.trace u cell
          ∙ ap (λ i. record_first marked (first i s.trace)) h.scope
          ∙ e,
      k,
      cells,
    )

-- Outside an experiment, signals to threads that have their objects, with traces of known error
-- codes, always succeed, and the buffer, which held the frames fs, ends up with fs followed by the
-- first frame in scope of each trace that has one, as far as its 200 places reach; fewer than 2^31
-- frames and signals are concerned.
pub handle_all-Sampled :
    (nanosleep : Kernel) (p : Profiler) (ids : List ℕ) (fs : List CallFrame) (ss : List Signal)
    → Sampled p ids fs
    → All (IsServed p) ss
    → length fs + length ss < 2 ^ 31
    → (q : Profiler) × (handle_all nanosleep p ss ≡ ok q) × Sampled q ids (fs ++ samples ids ss)
unfolding handle_all
handle_all-Sampled nanosleep p ids fs [] h served small =
    (p, refl, subst (Sampled p ids) (sym (append-nil fs)) h)
handle_all-Sampled nanosleep p ids fs (s ∷ ss) h (((u, cell), known), rest) small =
    let (q, e, k, cells) = handle-Sampled nanosleep p ids fs s u h cell known (omega arith) in
    let more = to_list (first ids s.trace) in
    let (r, e', k') =
      handle_all-Sampled nanosleep q ids (fs ++ more) ss k
        (IsServed-update p q s.thread _ ss cells rest)
        (omega (arith, length-append {0} fs more, length-to_list (first ids s.trace))) in
    (
      r,
      ap (λ x. x >>= (λ y. handle_all nanosleep y ss)) e ∙ e',
      subst (Sampled r ids) (append_assoc fs more (samples ids ss)) k',
    )
