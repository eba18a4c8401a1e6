-- ===== src/Text.antt =====
-- The parts of std::string and <cstring> that the agent's code uses, over lists of bytes.
pub mod Laws
pub mod Numbers
pub mod Lines
pub mod Printing
use Prim.Native.Char.{code}
use Prim.Native.String.{String}
use jcoz.Base.{
  ℕ, suc, Bool, true, false, ◌&&◌, List, [], ◌∷◌, Option, none, some, ◌==◌, if◌then◌else◌,
}

-- A text as its bytes.
abbrev pub Bytes : Type 0
Bytes = List ℕ

abbrev pub codes : String → Bytes
codes String.[] = []
codes (String.◌∷◌ c s) = code c ∷ codes s

-- std::string::operator== and compare(s) == 0
unfoldable pub text_eq : Bytes → Bytes → Bool
text_eq [] [] = true
text_eq [] (c ∷ s) = false
text_eq (b ∷ r) [] = false
text_eq (b ∷ r) (c ∷ s) = (b == c) && text_eq r s

abbrev pub next : Option ℕ → Option ℕ
next none = none
next (some i) = some (suc i)

-- s.find(c); `none` is npos
unfoldable pub find_byte : ℕ → Bytes → Option ℕ
find_byte c [] = none
find_byte c (b ∷ s) = if b == c then some 0 else next (find_byte c s)

unfoldable pub is_prefix : Bytes → Bytes → Bool
is_prefix [] s = true
is_prefix (b ∷ p) [] = false
is_prefix (b ∷ p) (c ∷ s) = (b == c) && is_prefix p s

-- strstr(s, p): the first position at which `p` occurs in `s`; `none` is a null pointer
unfoldable pub strstr : Bytes → Bytes → Option ℕ
unfolding is_prefix
strstr [] p = if is_prefix p [] then some 0 else none
strstr (c ∷ s) p = if is_prefix p (c ∷ s) then some 0 else next (strstr s p)

-- std::replace(s.begin(), s.end(), from, to)
unfoldable pub replace : ℕ → ℕ → Bytes → Bytes
replace from to [] = []
replace from to (b ∷ s) = (if b == from then to else b) ∷ replace from to s

-- s.replace(s.length() - 1, 1, ""): the text without its last byte
unfoldable pub drop_last : Bytes → Bytes
drop_last [] = []
drop_last (b ∷ []) = []
drop_last (b ∷ c ∷ s) = b ∷ drop_last (c ∷ s)
