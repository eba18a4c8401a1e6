-- ===== src/Text/Printing.antt =====
-- operator<< of a stream for whole numbers, and what std::stoi and std::stol read back of it.
use jcoz.Base.{
  ℕ, zero, suc, ◌+◌, ◌*◌, ◌/◌, ◌%◌, ◌^◌, ◌≤◌, ◌<◌, ◌≡◌, ◌≢◌, ◌⊎◌, refl, ap, ◌∙◌, List, [], ◌∷◌,
  ◌++◌, ltb, if◌then◌else◌, All, ok, arith, inl, inr, Bool-cases,
}
use jcoz.Base.Int.{ℤ, pos, negsuc, pos_part, neg_part, IsLong}
use jcoz.Text.{Bytes}
use jcoz.Text.Numbers.{
  numeral, value, Digits, stol, stoi, stol-numeral, stoi-numeral, stol-minus, stoi-minus,
}

-- The decimal digits of a number, with fuel for each.
unfoldable pub digits : ℕ → ℕ → List ℕ
digits zero n = []
digits (suc fuel) n =
    let rest = digits fuel (n / 10) in if ltb n 10 then n ∷ [] else rest ++ n % 10 ∷ []

abbrev pub digits_of : ℕ → List ℕ
digits_of n = digits (suc n) n

unfoldable pub print_unsigned : ℕ → Bytes
unfolding digits
print_unsigned n = numeral (digits_of n)

-- operator<< for an int or a long
unfoldable pub print_long : ℤ → Bytes
unfolding print_unsigned
print_long (pos n) = print_unsigned n
print_long (negsuc n) = b'-' ∷ print_unsigned (suc n)

pub value-append :
    (acc : ℕ) (ds : List ℕ) (d : ℕ) → value acc (ds ++ d ∷ []) ≡ value acc ds * 10 + d
unfolding value
value-append acc [] d = refl
value-append acc (x ∷ ds) d = value-append (acc * 10 + x) ds d

Digits-append : (ds : List ℕ) (d : ℕ) → Digits ds → d < 10 → Digits (ds ++ d ∷ [])
Digits-append [] d h k = (k, tt)
Digits-append (x ∷ ds) d h k = (h.0, Digits-append ds d h.1 k)

append_full : (ds : List ℕ) (d : ℕ) → ds ++ d ∷ [] ≢ []
append_full [] d e = absurd cc
append_full (x ∷ ds) d e = absurd cc

-- Fuel for the number itself is enough.
pub record IsNumeral (n : ℕ) (ds : List ℕ) : Type 0 where
  pub each : Digits ds
  pub full : ds ≢ []
  pub sum : value 0 ds ≡ n

digits-IsNumeral : (fuel n : ℕ) → n < fuel → IsNumeral n (digits fuel n)
unfolding digits value
digits-IsNumeral zero n h = absurd (omega arith)
digits-IsNumeral (suc fuel) n h = elim (Bool-cases (ltb n 10)) [
  | inl one ↦
      rw one (record { each = (ground arith, tt); full = λ e. absurd cc; sum = omega arith })
  | inr more ↦
      let big : 10 ≤ n = ground arith in
      let i = digits-IsNumeral fuel (n / 10) (omega arith) in
      rw more (record {
        each = Digits-append (digits fuel (n / 10)) (n % 10) i.each (omega arith);
        full = append_full _ _;
        sum = value-append 0 (digits fuel (n / 10)) (n % 10) ∙ omega (arith, i.sum);
      })
]

pub digits_of-IsNumeral : (n : ℕ) → IsNumeral n (digits_of n)
digits_of-IsNumeral n = digits-IsNumeral (suc n) n (omega arith)

-- What is written is read back, as far as an int or a long reaches.
pub stol-print_long : (z : ℤ) → IsLong z → stol (print_long z) ≡ ok z
unfolding print_long print_unsigned
stol-print_long (pos n) h =
    let i = digits_of-IsNumeral n in
    stol-numeral (digits_of n) i.each i.full (omega (arith, i.sum)) ∙ ap (λ x. ok (pos x)) i.sum
stol-print_long (negsuc n) h =
    let i = digits_of-IsNumeral (suc n) in
    stol-minus (digits_of (suc n)) n i.each i.full i.sum (omega arith)

abbrev pub IsInt : ℤ → Type 0
IsInt z = (pos_part z < 2 ^ 31) × (neg_part z ≤ 2 ^ 31)

pub stoi-print_long : (z : ℤ) → IsInt z → stoi (print_long z) ≡ ok z
unfolding print_long print_unsigned
stoi-print_long (pos n) h =
    let i = digits_of-IsNumeral n in
    stoi-numeral (digits_of n) i.each i.full (omega (arith, i.sum)) ∙ ap (λ x. ok (pos x)) i.sum
stoi-print_long (negsuc n) h =
    let i = digits_of-IsNumeral (suc n) in
    stoi-minus (digits_of (suc n)) n i.each i.full i.sum (omega arith)

-- A byte that is no digit and no sign does not stand in a number.
abbrev pub IsOther : ℕ → Type 0
IsOther c = ((c < b'0') ⊎ (b'9' < c)) × (b'-' ≢ c)

pub numeral-lacks : (c : ℕ) (ds : List ℕ) → IsOther c → Digits ds → All (λ b. b ≢ c) (numeral ds)
numeral-lacks c [] other h = tt
numeral-lacks c (d ∷ ds) other h =
    (λ e. absurd (ground (arith, e, other.0, h.0)), numeral-lacks c ds other h.1)

pub print_long-lacks : (c : ℕ) (z : ℤ) → IsOther c → All (λ b. b ≢ c) (print_long z)
unfolding print_long print_unsigned
print_long-lacks c (pos n) other = numeral-lacks c (digits_of n) other (digits_of-IsNumeral n).each
print_long-lacks c (negsuc n) other =
    (other.1, numeral-lacks c (digits_of (suc n)) other (digits_of-IsNumeral (suc n)).each)

numeral_full : (ds : List ℕ) → ds ≢ [] → numeral ds ≢ []
numeral_full [] h e = h refl
numeral_full (d ∷ ds) h e = absurd cc

pub print_long_full : (z : ℤ) → print_long z ≢ []
unfolding print_long print_unsigned
print_long_full (pos n) e = numeral_full (digits_of n) (digits_of-IsNumeral n).full e
print_long_full (negsuc n) e = absurd cc
