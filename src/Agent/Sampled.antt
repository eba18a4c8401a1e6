-- ===== src/Agent/Sampled.antt =====
-- The frame that an experiment is about: a sampled one, which is itself in the experiment.
use mathlib.Core.List.{Memᴰ}
use jcoz.Base.{
  some-injective, ℕ, ◌≡◌, ◌↔◌, inl, inr, refl, sym, ap, subst, ◌∙◌, true, ==_iff, List, [], ◌∷◌,
  Option, none, some, Option-cases, arith,
}
use jcoz.Base.Int.{ℤ, pos, ◌≤ℤ◌}
use jcoz.Frame.{CallFrame, LineEntry, max_bci}
use jcoz.Frame.Lines.{IsSorted, same_line}
use jcoz.Experiment.{Experiment}
use jcoz.Profiler.{Profiler}
use jcoz.Profiler.Handler.{in_experiment_frame}
use jcoz.Agent.{unique, sort_frames, copied, select, aim, aim_at, prepare_from, prepare}
use jcoz.Agent.Candidates.{unique-sort_frames}

abbrev pub LineTable : Type 0
LineTable = ℕ → Option (List LineEntry)

-- What the experiment of `q` is about.
pub record Aims (line_table : LineTable) (p q : Profiler) (frame : CallFrame) : Type 0 where
  pub entries : List LineEntry
  pub table : line_table frame.method_id ≡ some entries
  pub experiment : q.current_experiment ≡ aim p.current_experiment frame entries
  pub restarts : q.call_index ≡ 0

select_here :
    (line_table : LineTable) (g : CallFrame) (fs : List CallFrame) (entries : List LineEntry)
    → line_table g.method_id ≡ some entries
    → select line_table (g ∷ fs) ≡ some (g, entries)
unfolding select
select_here line_table g fs entries e = rw (e, select)

select_later :
    (line_table : LineTable) (g : CallFrame) (fs : List CallFrame)
    → line_table g.method_id ≡ none
    → select line_table (g ∷ fs) ≡ select line_table fs
unfolding select
select_later line_table g fs e = rw (e, select)

select-Mem :
    (line_table : LineTable) (fs : List CallFrame) (f : CallFrame) (entries : List LineEntry)
    → select line_table fs ≡ some (f, entries)
    → Memᴰ f fs × (line_table f.method_id ≡ some entries)
unfolding select
select-Mem line_table [] f entries h = cc
select-Mem line_table (g ∷ fs) f entries h = elim (Option-cases (line_table g.method_id)) [
  | inl e ↦
      let (m, t) = select-Mem line_table fs f entries (sym (select_later line_table g fs e) ∙ h) in
      (Memᴰ.tail m, t)
  | inr (other, e) ↦
      let same =
        some-injective (g, other) (f, entries) (sym (select_here line_table g fs other e) ∙ h) in
      (
        Memᴰ.head (sym (ap (λ r. r.0) same)),
        subst (λ (r : CallFrame × List LineEntry). line_table r.0.method_id ≡ some r.1) same e,
      )
]

select-some :
    (line_table : LineTable) (fs : List CallFrame) (f : CallFrame) (entries : List LineEntry)
    → Memᴰ f fs
    → line_table f.method_id ≡ some entries
    → (r : CallFrame × List LineEntry) × (select line_table fs ≡ some r)
select-some line_table [] f entries m h = elim m [ ]
select-some line_table (g ∷ fs) f entries (Memᴰ.head e) h = (
  (g, entries),
  select_here line_table g fs entries (ap (λ (x : CallFrame). line_table x.method_id) (sym e) ∙ h),
)
select-some line_table (g ∷ fs) f entries (Memᴰ.tail m) h =
    elim (Option-cases (line_table g.method_id)) [
      | inl e ↦
          let (r, k) = select-some line_table fs f entries m h in
          (r, select_later line_table g fs e ∙ k)
      | inr (other, e) ↦ ((g, other), select_here line_table g fs other e)
    ]

-- The frames that the random shuffle gives are those that it was given.
abbrev pub IsShuffle : (List CallFrame → List CallFrame) → Type 0
IsShuffle random_shuffle =
    (xs : List CallFrame) (f : CallFrame) → Memᴰ f (random_shuffle xs) ↔ Memᴰ f xs

abbrev candidates : (List CallFrame → List CallFrame) → List CallFrame → List CallFrame
candidates random_shuffle fs = random_shuffle (unique (sort_frames fs))

candidates-Mem :
    (random_shuffle : List CallFrame → List CallFrame) (fs : List CallFrame) (f : CallFrame)
    → IsShuffle random_shuffle
    → Memᴰ f (candidates random_shuffle fs) ↔ Memᴰ f fs
candidates-Mem random_shuffle fs f shuffles =
    let (there, back) = shuffles (unique (sort_frames fs)) f in
    let (out, into) = (unique-sort_frames fs).1 f in (λ m. out (there m), λ m. back (into m))

aim_at-Aims :
    (line_table : LineTable) (p q : Profiler) (fs : List CallFrame)
    (o : Option (CallFrame × List LineEntry))
    → select line_table fs ≡ o
    → aim_at (record p { call_index = 0 }) o ≡ (q, true)
    → (f : CallFrame) × Memᴰ f fs × Aims line_table p q f
aim_at-Aims line_table p q fs none e h = absurd (ground (arith, ap (λ r. r.1) h))
aim_at-Aims line_table p q fs (some (f, entries)) e h =
    let (m, t) = select-Mem line_table fs f entries e in
    (
      f,
      m,
      record {
        entries = entries;
        table = t;
        experiment = sym (ap (λ (x : Profiler). x.current_experiment) (ap (λ r. r.0) h));
        restarts = sym (ap (λ (x : Profiler). x.call_index) (ap (λ r. r.0) h));
      },
    )

prepare_from-Aims :
    (random_shuffle : List CallFrame → List CallFrame) (line_table : LineTable) (p q : Profiler)
    (fs : List CallFrame)
    → IsShuffle random_shuffle
    → prepare_from random_shuffle line_table p fs ≡ (q, true)
    → (f : CallFrame) × Memᴰ f fs × Aims line_table p q f
unfolding prepare_from
prepare_from-Aims random_shuffle line_table p q [] shuffles h =
    absurd (ground (arith, ap (λ r. r.1) h))
prepare_from-Aims random_shuffle line_table p q (g ∷ gs) shuffles h =
    let (f, m, a) = aim_at-Aims line_table p q (candidates random_shuffle (g ∷ gs)) _ refl h in
    (f, (candidates-Mem random_shuffle (g ∷ gs) f shuffles).0 m, a)

prepare_from-some :
    (random_shuffle : List CallFrame → List CallFrame) (line_table : LineTable) (p : Profiler)
    (fs : List CallFrame) (f : CallFrame) (entries : List LineEntry)
    → IsShuffle random_shuffle
    → Memᴰ f fs
    → line_table f.method_id ≡ some entries
    → (q : Profiler) × (prepare_from random_shuffle line_table p fs ≡ (q, true))
unfolding prepare_from
prepare_from-some random_shuffle line_table p [] f entries shuffles m h = elim m [ ]
prepare_from-some random_shuffle line_table p (g ∷ gs) f entries shuffles m h =
    let fs = candidates random_shuffle (g ∷ gs) in
    let (r, e) =
      select-some line_table fs f entries ((candidates-Mem random_shuffle (g ∷ gs) f shuffles).1 m)
        h in
    (_, ap (aim_at (record p { call_index = 0 })) e)

-- If a copied frame has a line table then an experiment is prepared, for any shuffle that keeps the
-- members.
pub prepare-some :
    (random_shuffle : List CallFrame → List CallFrame) (line_table : LineTable) (p : Profiler)
    (f : CallFrame) (entries : List LineEntry)
    → IsShuffle random_shuffle
    → Memᴰ f (copied p)
    → line_table f.method_id ≡ some entries
    → (q : Profiler) × (prepare random_shuffle line_table p ≡ (q, true))
unfolding prepare
prepare-some random_shuffle line_table p f entries shuffles m h =
    prepare_from-some random_shuffle line_table p (copied p) f entries shuffles m h

prepare-Aims :
    (random_shuffle : List CallFrame → List CallFrame) (line_table : LineTable) (p q : Profiler)
    → IsShuffle random_shuffle
    → prepare random_shuffle line_table p ≡ (q, true)
    → (f : CallFrame) × Memᴰ f (copied p) × Aims line_table p q f
unfolding prepare
prepare-Aims random_shuffle line_table p q shuffles h =
    prepare_from-Aims random_shuffle line_table p q (copied p) shuffles h

-- The table gives the bytecode index a line.
abbrev pub IsTabled : ℤ → List LineEntry → Type 0
IsTabled bci [] = ⊥
IsTabled bci (e ∷ es) = IsSorted (e ∷ es) × (e.start_location ≤ℤ bci) × (bci ≤ℤ pos max_bci)

aim-in_experiment :
    (e : Experiment) (f : CallFrame) (entries : List LineEntry)
    → IsTabled f.lineno entries
    → in_experiment_frame (aim e f entries) f ≡ true
unfolding in_experiment_frame aim
aim-in_experiment e f [] h = absurd h
aim-in_experiment e f (x ∷ xs) (s, k, small) =
    rw ((==_iff f.method_id f.method_id).1 refl)
      ((same_line f.lineno e.lineno x xs f.lineno s k small).1.1 refl)

-- An experiment that is prepared is about a copied frame, and that frame is in the experiment's
-- code, for any shuffle that keeps the members and line tables that are sorted and cover the copied
-- indices.
pub prepare-in_experiment :
    (random_shuffle : List CallFrame → List CallFrame) (line_table : LineTable) (p q : Profiler)
    → IsShuffle random_shuffle
    → ((f : CallFrame) (entries : List LineEntry)
        → Memᴰ f (copied p)
        → line_table f.method_id ≡ some entries
        → IsTabled f.lineno entries)
    → prepare random_shuffle line_table p ≡ (q, true)
    → (f : CallFrame) × Memᴰ f (copied p) × (in_experiment_frame q.current_experiment f ≡ true)
prepare-in_experiment random_shuffle line_table p q shuffles tabled h =
    let (f, m, a) = prepare-Aims random_shuffle line_table p q shuffles h in
    (
      f,
      m,
      subst (λ x. in_experiment_frame x f ≡ true) (sym a.experiment)
          (aim-in_experiment p.current_experiment f a.entries (tabled f a.entries m a.table)),
    )
