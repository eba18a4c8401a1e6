-- ===== src/Atomic.antt =====
-- The two atomic operations on an intptr_t of src/globals.h, in their x86-64 build: lock cmpxchgq and
-- lock xaddq on one cell. A cell and the operands are 64-bit patterns.
use jcoz.Base.{
  ℕ, ◌+◌, ◌%◌, ◌^◌, ◌<◌, ◌≡◌, ◌≢◌, refl, true, false, List, [], ◌∷◌, ◌==◌, ==_refl, if◌then◌else◌,
  ap, ◌∙◌, arith, All,
}

-- What the operation returns, and the cell behind it.
unfoldable pub no_barrier_compare_and_swap : ℕ → ℕ → ℕ → ℕ × ℕ
no_barrier_compare_and_swap cell old_value new_value =
    (cell, if cell == old_value then new_value else cell)

-- xadd leaves the previous value in temp.
unfoldable pub no_barrier_atomic_increment : ℕ → ℕ → ℕ × ℕ
no_barrier_atomic_increment cell increment =
    let temp = cell in ((temp + increment) % 2 ^ 64, (cell + increment) % 2 ^ 64)

-- Any number of compare-and-swaps from one value, by whatever threads, in the order in which the
-- processor takes them: those that returned the old value.
unfoldable pub winners : ℕ → ℕ → List ℕ → ℕ
unfolding no_barrier_compare_and_swap
winners cell old_value [] = 0
winners cell old_value (new_value ∷ rest) =
    let (prev, next) = no_barrier_compare_and_swap cell old_value new_value in
    let later = winners next old_value rest in if prev == old_value then later + 1 else later

no_winner :
    (cell old_value : ℕ) (values : List ℕ) → cell ≢ old_value → winners cell old_value values ≡ 0
unfolding winners
no_winner cell old_value [] h = refl
no_winner cell old_value (v ∷ values) h =
    let other : (cell == old_value) ≡ false = ground (arith, h) in
    rw other (no_winner cell old_value values h)

-- Of threads that try to swap the cell from the value that it holds to other values, the first one
-- succeeds and no other.
pub one_winner :
    (old_value v : ℕ) (values : List ℕ)
    → All (λ x. x ≢ old_value) (v ∷ values)
    → winners old_value old_value (v ∷ values) ≡ 1
unfolding winners
one_winner old_value v values h =
    let same : (old_value == old_value) ≡ true = ==_refl old_value in
    rw (same, no_winner v old_value values h.0) (omega arith)

-- The cell after increments, and the values that they return.
unfoldable pub increments : ℕ → List ℕ → List ℕ × ℕ
unfolding no_barrier_atomic_increment
increments cell [] = ([], cell)
increments cell (n ∷ ns) =
    let (value, next) = no_barrier_atomic_increment cell n in
    let (values, last) = increments next ns in (value ∷ values, last)

abbrev pub sums : ℕ → List ℕ → List ℕ
sums from [] = []
sums from (n ∷ ns) = (from + n) % 2 ^ 64 ∷ sums (from + n) ns

abbrev pub total : ℕ → List ℕ → ℕ
total from [] = from
total from (n ∷ ns) = total (from + n) ns

sums-mod : (a b : ℕ) (ns : List ℕ) → a % 2 ^ 64 ≡ b % 2 ^ 64 → sums a ns ≡ sums b ns
sums-mod a b [] h = refl
sums-mod a b (n ∷ ns) h =
    let head : (a + n) % 2 ^ 64 ≡ (b + n) % 2 ^ 64 = omega (arith, h) in
    ap (λ x. x ∷ sums (a + n) ns) head
    ∙ ap (◌∷◌ ((b + n) % 2 ^ 64)) (sums-mod (a + n) (b + n) ns head)

total-mod :
    (a b : ℕ) (ns : List ℕ) → a % 2 ^ 64 ≡ b % 2 ^ 64 → total a ns % 2 ^ 64 ≡ total b ns % 2 ^ 64
total-mod a b [] h = h
total-mod a b (n ∷ ns) h = total-mod (a + n) (b + n) ns (omega (arith, h))

-- Increments return the sums up to their own, and leave the whole sum, as 64-bit words: none is lost.
pub increments-sums :
    (cell : ℕ) (ns : List ℕ)
    → cell < 2 ^ 64
    → ((increments cell ns).0 ≡ sums cell ns) × ((increments cell ns).1 ≡ total cell ns % 2 ^ 64)
unfolding increments
increments-sums cell [] h = (refl, omega (arith, h))
increments-sums cell (n ∷ ns) h =
    let next = (cell + n) % 2 ^ 64 in
    let (values, last) = increments-sums next ns (omega arith) in
    (
      ap (◌∷◌ next) (values ∙ sums-mod next (cell + n) ns (omega arith)),
      last ∙ total-mod next (cell + n) ns (omega arith),
    )
