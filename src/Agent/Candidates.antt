-- ===== src/Agent/Candidates.antt =====
-- The frames that the experiment is drawn from: each sampled frame once.
use mathlib.Core.List.{Memᴰ}
use jcoz.Base.{◌≡◌, ◌↔◌, inl, inr, sym, subst, ◌∙◌, true, false, List, [], ◌∷◌, Bool-cases, arith}
use jcoz.Frame.{CallFrame, lt_frame, eq_frame}
use jcoz.Frame.Order.{eq_frame_iff, lt_frame_irrefl, lt_frame_total}
use jcoz.Agent.{insert_frame, sort_frames, unique_from, unique}

-- No frame is after the next one.
abbrev Before : CallFrame → List CallFrame → Type 0
Before a [] = Unit {0}
Before a (y ∷ ys) = lt_frame y a ≡ false

abbrev IsSorted : List CallFrame → Type 0
IsSorted [] = Unit {0}
IsSorted (x ∷ xs) = Before x xs × IsSorted xs

-- Each frame is before the next one.
abbrev pub IsRising : List CallFrame → Type 0
IsRising [] = Unit {0}
IsRising (x ∷ []) = Unit {0}
IsRising (x ∷ y ∷ ys) = (lt_frame x y ≡ true) × IsRising (y ∷ ys)

Before-insert :
    (a x : CallFrame) (ys : List CallFrame)
    → lt_frame x a ≡ false
    → Before a ys
    → Before a (insert_frame x ys)
unfolding insert_frame
Before-insert a x [] h k = h
Before-insert a x (y ∷ ys) h k = elim (Bool-cases (lt_frame y x)) [
  | inl e ↦ rw e k
  | inr e ↦ rw e h
]

insert-IsSorted : (x : CallFrame) (ys : List CallFrame) → IsSorted ys → IsSorted (insert_frame x ys)
unfolding insert_frame
insert-IsSorted x [] s = (tt, tt)
insert-IsSorted x (y ∷ ys) s = elim (Bool-cases (lt_frame y x)) [
  | inl e ↦ rw e (Before-insert y x ys (lt_frame_irrefl y x e) s.0, insert-IsSorted x ys s.1)
  | inr e ↦ rw e (e, s)
]

sort-IsSorted : (xs : List CallFrame) → IsSorted (sort_frames xs)
unfolding sort_frames
sort-IsSorted [] = tt
sort-IsSorted (x ∷ xs) = insert-IsSorted x (sort_frames xs) (sort-IsSorted xs)

abbrev Rises : CallFrame → List CallFrame → Type 0
Rises a [] = Unit {0}
Rises a (y ∷ ys) = lt_frame a y ≡ true

Rises-unique_from :
    (a x : CallFrame) (ys : List CallFrame) → lt_frame a x ≡ true → Rises a (unique_from x ys)
unfolding unique_from
Rises-unique_from a x [] h = h
Rises-unique_from a x (y ∷ ys) h = elim (Bool-cases (eq_frame x y)) [
  | inl e ↦ rw e (Rises-unique_from a x ys h)
  | inr e ↦ rw e h
]

IsRising-cons : (a : CallFrame) (ys : List CallFrame) → Rises a ys → IsRising ys → IsRising (a ∷ ys)
IsRising-cons a [] h k = tt
IsRising-cons a (y ∷ ys) h k = (h, k)

lt_of_other : (x y : CallFrame) → eq_frame x y ≡ false → lt_frame y x ≡ false → lt_frame x y ≡ true
lt_of_other x y e h = elim (lt_frame_total x y) [
  | inl t ↦ t
  | inr (inl t) ↦ absurd (ground (arith, (eq_frame_iff x y).1 t))
  | inr (inr t) ↦ absurd (ground arith)
]

unique_from-IsRising :
    (x : CallFrame) (ys : List CallFrame) → Before x ys → IsSorted ys → IsRising (unique_from x ys)
unfolding unique_from
unique_from-IsRising x [] h s = tt
unique_from-IsRising x (y ∷ ys) h s = elim (Bool-cases (eq_frame x y)) [
  | inl e ↦
      rw e (
        unique_from-IsRising x ys (subst (λ a. Before a ys) (sym ((eq_frame_iff x y).0 e)) s.0) s.1)
  | inr e ↦ rw e (
      IsRising-cons x (unique_from y ys) (Rises-unique_from x y ys (lt_of_other x y e h))
        (unique_from-IsRising y ys s.0 s.1))
]

unique-IsRising : (xs : List CallFrame) → IsSorted xs → IsRising (unique xs)
unique-IsRising [] s = tt
unique-IsRising (x ∷ xs) s = unique_from-IsRising x xs s.0 s.1

cons-Mem :
    (f y : CallFrame) (xs ys : List CallFrame)
    → (Memᴰ f xs → Memᴰ f ys)
    → Memᴰ f (y ∷ xs)
    → Memᴰ f (y ∷ ys)
cons-Mem f y xs ys h (Memᴰ.head e) = Memᴰ.head e
cons-Mem f y xs ys h (Memᴰ.tail m) = Memᴰ.tail (h m)

swap-Mem : (f x y : CallFrame) (ys : List CallFrame) → Memᴰ f (x ∷ y ∷ ys) → Memᴰ f (y ∷ x ∷ ys)
swap-Mem f x y ys (Memᴰ.head e) = Memᴰ.tail (Memᴰ.head e)
swap-Mem f x y ys (Memᴰ.tail (Memᴰ.head e)) = Memᴰ.head e
swap-Mem f x y ys (Memᴰ.tail (Memᴰ.tail m)) = Memᴰ.tail (Memᴰ.tail m)

-- The two that are equal stand for one another.
drop-Mem : (f x y : CallFrame) (ys : List CallFrame) → x ≡ y → Memᴰ f (x ∷ y ∷ ys) → Memᴰ f (x ∷ ys)
drop-Mem f x y ys same (Memᴰ.head e) = Memᴰ.head e
drop-Mem f x y ys same (Memᴰ.tail (Memᴰ.head e)) = Memᴰ.head (e ∙ sym same)
drop-Mem f x y ys same (Memᴰ.tail (Memᴰ.tail m)) = Memᴰ.tail m

insert-Mem : (f x : CallFrame) (ys : List CallFrame) → Memᴰ f (insert_frame x ys) ↔ Memᴰ f (x ∷ ys)
unfolding insert_frame
insert-Mem f x [] = (λ m. m, λ m. m)
insert-Mem f x (y ∷ ys) = elim (Bool-cases (lt_frame y x)) [
  | inl e ↦
      let (there, back) = insert-Mem f x ys in
      rw e (
        λ m. swap-Mem f y x ys (cons-Mem f y (insert_frame x ys) (x ∷ ys) there m),
        λ m. cons-Mem f y (x ∷ ys) (insert_frame x ys) back (swap-Mem f x y ys m),
      )
  | inr e ↦ rw e (λ m. m, λ m. m)
]

sort-Mem : (f : CallFrame) (xs : List CallFrame) → Memᴰ f (sort_frames xs) ↔ Memᴰ f xs
unfolding sort_frames
sort-Mem f [] = (λ m. m, λ m. m)
sort-Mem f (x ∷ xs) =
    let (there, back) = sort-Mem f xs in
    let (out, into) = insert-Mem f x (sort_frames xs) in
    (
      λ m. cons-Mem f x (sort_frames xs) xs there (out m),
      λ m. into (cons-Mem f x xs (sort_frames xs) back m),
    )

unique_from-Mem :
    (f x : CallFrame) (ys : List CallFrame) → Memᴰ f (unique_from x ys) ↔ Memᴰ f (x ∷ ys)
unfolding unique_from
unique_from-Mem f x [] = (λ m. m, λ m. m)
unique_from-Mem f x (y ∷ ys) = elim (Bool-cases (eq_frame x y)) [
  | inl e ↦
      let (there, back) = unique_from-Mem f x ys in
      rw e (
        λ m. swap-Mem f y x ys (Memᴰ.tail (there m)),
        λ m. back (drop-Mem f x y ys ((eq_frame_iff x y).0 e) m),
      )
  | inr e ↦
      let (there, back) = unique_from-Mem f y ys in
      rw e (
        λ m. cons-Mem f x (unique_from y ys) (y ∷ ys) there m,
        λ m. cons-Mem f x (y ∷ ys) (unique_from y ys) back m,
      )
]

unique-Mem : (f : CallFrame) (xs : List CallFrame) → Memᴰ f (unique xs) ↔ Memᴰ f xs
unique-Mem f [] = (λ m. m, λ m. m)
unique-Mem f (x ∷ xs) = unique_from-Mem f x xs

-- After std::sort and std::unique the frames are in strictly rising order, and they are the frames
-- that were sampled.
pub unique-sort_frames :
    (xs : List CallFrame)
    → IsRising (unique (sort_frames xs))
      × ((f : CallFrame) → Memᴰ f (unique (sort_frames xs)) ↔ Memᴰ f xs)
unique-sort_frames xs = (
  unique-IsRising (sort_frames xs) (sort-IsSorted xs),
  λ f. (
    λ m. (sort-Mem f xs).0 ((unique-Mem f (sort_frames xs)).0 m),
    λ m. (unique-Mem f (sort_frames xs)).1 ((sort-Mem f xs).1 m),
  ),
)
