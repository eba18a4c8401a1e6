-- ===== src/Signature.antt =====
-- Profiler::cleanSignature of src/profiler.cc: a class signature cleaned up in its own buffer.
-- The buffer is a list of bytes with a zero at its end; its indices stay in bounds.
pub mod Laws
use jcoz.Base.{ℕ, zero, suc, ◌+◌, ◌-◌, List, [], ◌∷◌, ◌==◌, ltb, if◌then◌else◌, set, get_or}
use jcoz.Text.{Bytes}

-- strlen, and the text that a buffer holds
unfoldable pub strlen : Bytes → ℕ
strlen [] = 0
strlen (b ∷ s) = if b == 0 then 0 else suc (strlen s)

unfoldable pub text_of : Bytes → Bytes
text_of [] = []
text_of (b ∷ s) = if b == 0 then [] else b ∷ text_of s

-- for (i = …; i < i + n; i++) sig[i] = sig[i + 1];
unfoldable pub shift_left : ℕ → ℕ → Bytes → Bytes
shift_left zero i sig = sig
shift_left (suc n) i sig = shift_left n (suc i) (set sig i (get_or sig (suc i) 0))

-- The second loop: dots for slashes, up to the first '$'.
unfoldable pub rewrite_name : ℕ → ℕ → Bytes → Bytes
rewrite_name zero i sig = sig
rewrite_name (suc n) i sig =
    let slash = rewrite_name n (suc i) (set sig i b'.') in
    let rest = rewrite_name n (suc i) sig in
    if get_or sig i 0 == b'/' then slash else if get_or sig i 0 == b'$' then set sig i 0 else rest

unfoldable pub clean_signature : Bytes → Bytes
unfolding strlen shift_left rewrite_name
clean_signature sig =
    let sig_len = strlen sig in
    if ltb sig_len 3
    then sig
    else rewrite_name (sig_len - 2) 0 (set (shift_left (sig_len - 1) 0 sig) (sig_len - 2) 0)
