-- ===== src/Text/Numbers.antt =====
-- std::stoi and std::stol: white space, a sign, decimal digits; whatever follows is ignored.
use jcoz.Base.{
  ℕ, zero, suc, ◌+◌, ◌-◌, ◌*◌, ◌<◌, ◌≤◌, ◌^◌, ◌≡◌, ◌≢◌, refl, Bool, true, false, ◌>>=◌, ◌&&◌, ◌||◌,
  List, [], ◌∷◌, map, ◌==◌, ltb, leb, if◌then◌else◌, arith, All, Result, ok, halt, invalid_argument,
  out_of_range,
}
use jcoz.Base.Int.{ℤ, pos, negsuc, pos_part, neg_part}
use jcoz.Text.{Bytes}

-- isspace: ' ', '\t', '\n', '\v', '\f', '\r'
abbrev is_space : ℕ → Bool
is_space c = c == b' ' || leb 9 c && leb c 13

abbrev is_digit : ℕ → Bool
is_digit c = leb b'0' c && leb c b'9'

skip_spaces : Bytes → Bytes
skip_spaces [] = []
skip_spaces (c ∷ s) = if is_space c then skip_spaces s else c ∷ s

-- The value of the digits that stand next, read on to `acc`.
read_digits : ℕ → Bytes → ℕ
read_digits acc [] = acc
read_digits acc (c ∷ s) = elim (is_digit c) [
  | true ↦ read_digits (acc * 10 + (c - b'0')) s
  | false ↦ acc
]

-- At least one digit.
unsigned_of : Bytes → Result ℕ
unfolding read_digits
unsigned_of [] = halt invalid_argument
unsigned_of (c ∷ s) = if is_digit c then ok (read_digits 0 (c ∷ s)) else halt invalid_argument

abbrev negate : ℕ → ℤ
negate zero = pos 0
negate (suc n) = negsuc n

signed_of : Bytes → Result ℤ
unfolding unsigned_of
signed_of [] = halt invalid_argument
signed_of (c ∷ s) =
    if c == b'-'
    then unsigned_of s >>= (λ n. ok (negate n))
    else if c == b'+'
    then unsigned_of s >>= (λ n. ok (pos n))
    else unsigned_of (c ∷ s) >>= (λ n. ok (pos n))

-- The integer, if it fits `w + 1` bits.
within : ℕ → ℤ → Result ℤ
within w n =
    if ltb (pos_part n) (2 ^ w) && leb (neg_part n) (2 ^ w) then ok n else halt out_of_range

unfoldable pub stoi : Bytes → Result ℤ
unfolding skip_spaces signed_of within
stoi s = signed_of (skip_spaces s) >>= within 31

unfoldable pub stol : Bytes → Result ℤ
unfolding skip_spaces signed_of within
stol s = signed_of (skip_spaces s) >>= within 63

-- A numeral: the text of decimal digits, and its value.
abbrev pub numeral : List ℕ → Bytes
numeral = map (λ d. d + b'0')

unfoldable pub value : ℕ → List ℕ → ℕ
value acc [] = acc
value acc (d ∷ ds) = value (acc * 10 + d) ds

abbrev pub Digits : List ℕ → Type 0
Digits = All (λ d. d < 10)

read_digits-numeral :
    (acc : ℕ) (ds : List ℕ) → Digits ds → read_digits acc (numeral ds) ≡ value acc ds
unfolding read_digits value
read_digits-numeral acc [] h = refl
read_digits-numeral acc (d ∷ ds) h = ground (arith, read_digits-numeral (acc * 10 + d) ds h.1)

signed_of-numeral :
    (ds : List ℕ)
    → Digits ds
    → ds ≢ []
    → signed_of (skip_spaces (numeral ds)) ≡ ok (pos (value 0 ds))
unfolding skip_spaces signed_of
signed_of-numeral [] h k = absurd (k refl)
signed_of-numeral (d ∷ ds) h k = ground (arith, read_digits-numeral 0 (d ∷ ds) h)

-- Printed digits are read back.
pub stoi-numeral :
    (ds : List ℕ)
    → Digits ds
    → ds ≢ []
    → value 0 ds < 2 ^ 31
    → stoi (numeral ds) ≡ ok (pos (value 0 ds))
unfolding stoi
stoi-numeral ds h k small = ground (arith, signed_of-numeral ds h k)

pub stol-numeral :
    (ds : List ℕ)
    → Digits ds
    → ds ≢ []
    → value 0 ds < 2 ^ 63
    → stol (numeral ds) ≡ ok (pos (value 0 ds))
unfolding stol
stol-numeral ds h k small = ground (arith, signed_of-numeral ds h k)

-- So is a minus sign before them, for a number other than 0.
signed_of-minus :
    (ds : List ℕ) (n : ℕ)
    → Digits ds
    → ds ≢ []
    → value 0 ds ≡ suc n
    → signed_of (skip_spaces (b'-' ∷ numeral ds)) ≡ ok (negsuc n)
unfolding skip_spaces signed_of unsigned_of
signed_of-minus [] n h k e = absurd (k refl)
signed_of-minus (d ∷ ds) n h k e = ground (arith, read_digits-numeral 0 (d ∷ ds) h, e)

pub stol-minus :
    (ds : List ℕ) (n : ℕ)
    → Digits ds
    → ds ≢ []
    → value 0 ds ≡ suc n
    → suc n ≤ 2 ^ 63
    → stol (b'-' ∷ numeral ds) ≡ ok (negsuc n)
unfolding stol
stol-minus ds n h k e small = ground (arith, signed_of-minus ds n h k e)

pub stoi-minus :
    (ds : List ℕ) (n : ℕ)
    → Digits ds
    → ds ≢ []
    → value 0 ds ≡ suc n
    → suc n ≤ 2 ^ 31
    → stoi (b'-' ∷ numeral ds) ≡ ok (negsuc n)
unfolding stoi
stoi-minus ds n h k e small = ground (arith, signed_of-minus ds n h k e)
