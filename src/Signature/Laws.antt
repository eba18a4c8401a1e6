-- ===== src/Signature/Laws.antt =====
-- cleanSignature yields the class's name: no leading byte, no last one, dots for slashes, and
-- nothing from the first '$' on.
use jcoz.Base.{
  ℕ, zero, suc, ◌<◌, ◌≡◌, ◌≢◌, refl, ap, ◌∙◌, [], ◌∷◌, ◌++◌, ◌==◌, if◌then◌else◌, arith, All,
  length, set, get_or,
}
use jcoz.Text.{Bytes}
use jcoz.Signature.{strlen, text_of, shift_left, rewrite_name, clean_signature}

abbrev pub NonZero : Bytes → Type 0
NonZero = All (λ b. b ≢ 0)

strlen_lem :
    (s : Bytes) (last : ℕ) (rest : Bytes)
    → NonZero s
    → last ≢ 0
    → strlen (s ++ last ∷ 0 ∷ rest) ≡ suc (length s)
unfolding strlen
strlen_lem [] last rest h k = ground arith
strlen_lem (b ∷ s) last rest h k = ground (arith, strlen_lem s last rest h.1 k)

-- Both loops leave the bytes before their index alone.
shift_left-cons : (n i b : ℕ) (s : Bytes) → shift_left n (suc i) (b ∷ s) ≡ b ∷ shift_left n i s
unfolding shift_left
shift_left-cons zero i b s = refl
shift_left-cons (suc n) i b s = shift_left-cons n (suc i) b (set s i (get_or s (suc i) 0))

rewrite_name-cons :
    (n i b : ℕ) (s : Bytes) → rewrite_name n (suc i) (b ∷ s) ≡ b ∷ rewrite_name n i s
unfolding rewrite_name
rewrite_name-cons zero i b s = refl
rewrite_name-cons (suc n) i b s =
    ground (arith, rewrite_name-cons n (suc i) b s, rewrite_name-cons n (suc i) b (set s i b'.'))

-- Shifting copies each byte over the one before it; the last byte stays behind.
shift_left_lem :
    (c : ℕ) (s : Bytes) (last : ℕ) (rest : Bytes)
    → shift_left (suc (length s)) 0 (c ∷ (s ++ last ∷ rest)) ≡ s ++ last ∷ last ∷ rest
unfolding shift_left
shift_left_lem c [] last rest = refl
shift_left_lem c (b ∷ s) last rest =
    shift_left-cons (suc (length s)) 0 b (b ∷ (s ++ last ∷ rest))
    ∙ ap (◌∷◌ b) (shift_left_lem b s last rest)

set-append : (s : Bytes) (c v : ℕ) (rest : Bytes) → set (s ++ c ∷ rest) (length s) v ≡ s ++ v ∷ rest
set-append [] c v rest = refl
set-append (b ∷ s) c v rest = ap (◌∷◌ b) (set-append s c v rest)

-- The class's name: dots for slashes, up to the first '$'.
pub class_name : Bytes → Bytes
class_name [] = []
class_name (b ∷ s) =
    if b == b'/' then b'.' ∷ class_name s else if b == b'$' then [] else b ∷ class_name s

rewrite_name_lem :
    (s rest : Bytes)
    → NonZero s
    → text_of (rewrite_name (length s) 0 (s ++ 0 ∷ rest)) ≡ class_name s
unfolding rewrite_name text_of class_name
rewrite_name_lem [] rest h = refl
rewrite_name_lem (b ∷ s) rest h = ground (
  arith,
  rewrite_name-cons (length s) 0 b (s ++ 0 ∷ rest),
  rewrite_name-cons (length s) 0 b'.' (s ++ 0 ∷ rest),
  rewrite_name_lem s rest h.1,
)

clean_signature_long :
    (sig : Bytes) (n : ℕ)
    → strlen sig ≡ suc (suc (suc n))
    → clean_signature sig ≡ rewrite_name (suc n) 0 (set (shift_left (suc (suc n)) 0 sig) (suc n) 0)
unfolding clean_signature
clean_signature_long sig n e = ground arith

-- A signature of at least three bytes, with no zero among them and a zero behind them, is cleaned
-- up to the class's name: no first byte, no last one, dots for slashes, and nothing from the first
-- dollar sign on.
pub text_of-clean_signature :
    (c : ℕ) (s : Bytes) (last : ℕ) (rest : Bytes)
    → c ≢ 0
    → NonZero s
    → last ≢ 0
    → 0 < length s
    → text_of (clean_signature (c ∷ (s ++ last ∷ 0 ∷ rest))) ≡ class_name s
text_of-clean_signature c [] last rest hc hs hl long = absurd (omega arith)
text_of-clean_signature c (b ∷ s) last rest hc hs hl long =
    ap text_of (
      clean_signature_long (c ∷ b ∷ (s ++ last ∷ 0 ∷ rest)) (length s)
        (strlen_lem (c ∷ b ∷ s) last rest (hc, hs) hl))
    ∙ ap (λ x. text_of (rewrite_name (suc (length s)) 0 (set x (suc (length s)) 0)))
        (shift_left_lem c (b ∷ s) last (0 ∷ rest))
    ∙ ap (λ x. text_of (rewrite_name (suc (length s)) 0 x))
        (set-append (b ∷ s) last 0 (last ∷ 0 ∷ rest))
    ∙ rewrite_name_lem (b ∷ s) (last ∷ 0 ∷ rest) hs

-- Shorter ones are left alone.
pub clean_signature_short : (sig : Bytes) → strlen sig < 3 → clean_signature sig ≡ sig
unfolding clean_signature
clean_signature_short sig h = ground arith
