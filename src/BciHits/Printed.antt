-- ===== src/BciHits/Printed.antt =====
-- The text of create_dump of src/bci_hits.cc, which its caller logs.
use jcoz.Base.{
  ℕ, ◌≡◌, refl, sym, ap, subst, ◌∙◌, Bool, true, false, List, [], ◌∷◌, ◌++◌, Option, none, some,
  ltb, ◌==◌, if◌then◌else◌, All, arith, Result, ok, halt, fault, ◌>>=◌, is_ok, inl, inr, Bool-cases,
}
use jcoz.Text.{Bytes, codes}
use jcoz.Text.Printing.{print_unsigned, print_long}
use jcoz.Profiler.{is_member}
use jcoz.BciHits.OrderedMap.{Map, lookup}
use jcoz.BciHits.{
  HitFreq, LineFreq, BciHits, DumpLine, title, for_class, line_hits, dump_lines, dump_methods,
  create_dump,
}
use jcoz.BciHits.Laws.{Hit, add_hits}
use jcoz.BciHits.Counts.{last_class, lookup-add_hits}
use jcoz.BciHits.Signatures.{is_among}
use jcoz.BciHits.Signatures.Methods.{keys, is_member-method_keys, keys-add_hits}

-- ss << fmt::format("({}, {}); ", bci_it->first, bci_it->second)
unfoldable pub print_hits : HitFreq → Bytes
unfolding print_long
print_hits [] = []
print_hits ((bci, n) ∷ bcis) =
    b'(' ∷ print_long bci ++ codes ", " ++ print_unsigned n ++ codes "); " ++ print_hits bcis

-- A char pointer that is null is no string for fmt::format.
unfoldable pub print_line : DumpLine → Result Bytes
unfolding print_hits
print_line title = ok (codes "Bytecode index hits:")
print_line (for_class none) = halt fault
print_line (for_class (some class_fqn)) = ok (b'\t' ∷ codes "For class " ++ class_fqn ++ b':' ∷ [])
print_line (line_hits line_number bcis) =
    ok (b'\t' ∷ b'\t' ∷ print_long line_number ++ codes ": " ++ print_hits bcis)

unfoldable pub print_lines : List DumpLine → Result (List Bytes)
unfolding print_line
print_lines [] = ok []
print_lines (l ∷ ls) = print_line l >>= (λ text. print_lines ls >>= (λ rest. ok (text ∷ rest)))

-- The vector that create_dump returns.
unfoldable pub dump_text : BciHits → Result (List Bytes)
unfolding print_lines
dump_text h = print_lines (create_dump h)

abbrev is_found : Option Bytes → Bool
is_found none = false
is_found (some c) = true

abbrev IsPrintable : DumpLine → Type 0
IsPrintable l = is_ok (print_line l) ≡ true

and_rest :
    (r : Result (List Bytes)) (b : Bytes)
    → is_ok r ≡ true
    → is_ok (r >>= (λ rest. ok (b ∷ rest))) ≡ true
and_rest (ok rest) b h = refl
and_rest (halt e) b h = cc

both :
    (r : Result Bytes) (s : Result (List Bytes))
    → is_ok r ≡ true
    → is_ok s ≡ true
    → is_ok (r >>= (λ text. s >>= (λ rest. ok (text ∷ rest)))) ≡ true
both (ok text) s h k = and_rest s text k
both (halt e) s h k = cc

print_lines-All : (ls : List DumpLine) → All IsPrintable ls → is_ok (print_lines ls) ≡ true
unfolding print_lines
print_lines-All [] a = refl
print_lines-All (l ∷ ls) a = both (print_line l) (print_lines ls) a.0 (print_lines-All ls a.1)

after_lines :
    (lines : LineFreq) (ls : List DumpLine)
    → All IsPrintable ls
    → All IsPrintable (dump_lines lines ++ ls)
unfolding dump_lines print_line
after_lines [] ls a = a
after_lines ((line_number, bcis) ∷ lines) ls a = (refl, after_lines lines ls a)

found_prints : (c : Option Bytes) → is_found c ≡ true → IsPrintable (for_class c)
unfolding print_line
found_prints none h = cc
found_prints (some c) h = refl

dump_methods-All :
    (classes : Map ℕ Bytes) (methods : Map ℕ LineFreq)
    → All (λ k. is_found (lookup ltb k classes) ≡ true) (keys methods)
    → All IsPrintable (dump_methods classes methods)
unfolding dump_methods keys
dump_methods-All classes [] a = tt
dump_methods-All classes ((k, lines) ∷ methods) a = (
  found_prints (lookup ltb k classes) a.0,
  after_lines lines (dump_methods classes methods) (dump_methods-All classes methods a.1),
)

All-members : (P : ℕ → Type 0) (ks : List ℕ) → ((k : ℕ) → is_member k ks ≡ true → P k) → All P ks
unfolding is_member
All-members P [] h = tt
All-members P (k ∷ ks) h = (h k (ground arith), All-members P ks (λ j m. h j (ground (arith, m))))

last_class-is_found :
    (m : ℕ) (hs : List Hit) → is_among m hs ≡ true → is_found (last_class hs m) ≡ true
unfolding is_among last_class
last_class-is_found m [] h = cc
last_class-is_found m (x ∷ hs) h = elim (Bool-cases (x.method_id == m)) [
  | inl same ↦ rw same refl
  | inr other ↦
      rw other
        (last_class-is_found m hs (subst (λ b. (if b then true else is_among m hs) ≡ true) other h))
]

-- After any calls of add_hit each method of the dump has a class, and so the dump is written.
pub dump_text-add_hits : (hs : List Hit) → is_ok (dump_text (add_hits hs)) ≡ true
unfolding dump_text create_dump
dump_text-add_hits hs =
    let h = add_hits hs in
    let found =
      All-members (λ k. is_found (lookup ltb k h.declaring_classes) ≡ true) (keys h.freqs)
        (λ k m.
          ap is_found (lookup-add_hits hs k)
          ∙ last_class-is_found k hs
              (sym (is_member-method_keys k hs) ∙ ap (is_member k) (sym (keys-add_hits hs)) ∙ m)) in
    print_lines-All (title ∷ dump_methods h.declaring_classes h.freqs)
      (refl, dump_methods-All h.declaring_classes h.freqs found)
