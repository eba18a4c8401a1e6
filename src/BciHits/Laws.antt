-- ===== src/BciHits/Laws.antt =====
-- The dump accounts for every hit.
use jcoz.Base.{ℕ, ◌+◌, ◌<◌, ◌≡◌, refl, ◌∙◌, List, [], ◌∷◌, ◌++◌, arith, ltb, length}
use jcoz.Base.Int.{ℤ, ltb_ℤ}
use jcoz.Text.{Bytes}
use jcoz.BciHits.OrderedMap.{Map, adjust, total, total-adjust}
use jcoz.BciHits.{
  HitFreq, LineFreq, BciHits, no_hits, increment, add_hit, DumpLine, title, for_class, line_hits,
  dump_lines, dump_methods, create_dump,
}

-- A call of add_hit.
pub record Hit : Type 0 where
  pub class_fqn : Bytes
  pub method_id : ℕ
  pub line_number : ℤ
  pub bci : ℤ

-- The calls of add_hit, the last one first.
unfoldable pub add_hits : List Hit → BciHits
add_hits [] = no_hits
add_hits (h ∷ hs) = add_hit h.class_fqn h.method_id h.line_number h.bci (add_hits hs)

-- The numbers a dump prints, added up.
unfoldable pub counted : List DumpLine → ℕ
counted [] = 0
counted (title ∷ ls) = counted ls
counted (for_class c ∷ ls) = counted ls
counted (line_hits l bcis ∷ ls) = total ltb_ℤ (λ n. n) bcis + counted ls

counted-++ : (ls bs : List DumpLine) → counted (ls ++ bs) ≡ counted ls + counted bs
unfolding counted
counted-++ [] bs = omega arith
counted-++ (title ∷ ls) bs = counted-++ ls bs
counted-++ (for_class c ∷ ls) bs = counted-++ ls bs
counted-++ (line_hits l bcis ∷ ls) bs = omega (arith, counted-++ ls bs)

abbrev in_line : HitFreq → ℕ
in_line = total ltb_ℤ (λ n. n)

abbrev in_method : LineFreq → ℕ
in_method = total ltb_ℤ in_line

counted-dump_lines : (m : LineFreq) → counted (dump_lines m) ≡ in_method m
unfolding counted dump_lines total
counted-dump_lines [] = refl
counted-dump_lines ((l, bcis) ∷ m) = omega (arith, counted-dump_lines m)

counted-dump_methods :
    (classes : Map ℕ Bytes) (m : Map ℕ LineFreq)
    → counted (dump_methods classes m) ≡ total ltb in_method m
unfolding counted dump_methods total
counted-dump_methods classes [] = refl
counted-dump_methods classes ((k, lines) ∷ m) = omega (
  arith,
  counted-++ (dump_lines lines) (dump_methods classes m),
  counted-dump_lines lines,
  counted-dump_methods classes m,
)

counted-create_dump : (h : BciHits) → counted (create_dump h) ≡ total ltb in_method h.freqs
unfolding counted create_dump
counted-create_dump h = counted-dump_methods h.declaring_classes h.freqs

increment_lem : (n : ℕ) → n < 4294967295 → increment n ≡ n + 1
increment_lem n h = omega arith

in_line-add :
    (bci : ℤ) (m : HitFreq)
    → in_line m < 4294967295
    → in_line (adjust ltb_ℤ bci 0 increment m) ≡ in_line m + 1
unfolding total
in_line-add bci m h = total-adjust ltb_ℤ (λ n. n) 4294967295 bci 0 increment m refl increment_lem h

in_method-add :
    (line bci : ℤ) (m : LineFreq)
    → in_method m < 4294967295
    → in_method (adjust ltb_ℤ line [] (adjust ltb_ℤ bci 0 increment) m) ≡ in_method m + 1
unfolding total
in_method-add line bci m h =
    total-adjust ltb_ℤ in_line 4294967295 line [] (adjust ltb_ℤ bci 0 increment) m refl
      (in_line-add bci) h

hits_of-add_hits :
    (hs : List Hit) → length hs < 4294967296 → total ltb in_method (add_hits hs).freqs ≡ length hs
unfolding add_hits add_hit total
hits_of-add_hits [] b = refl
hits_of-add_hits (h ∷ hs) b =
    let ih : total ltb in_method (add_hits hs).freqs ≡ length hs =
      hits_of-add_hits hs (omega arith) in
    let step =
      total-adjust ltb in_method 4294967295 h.method_id []
        (adjust ltb_ℤ h.line_number [] (adjust ltb_ℤ h.bci 0 increment)) (add_hits hs).freqs refl
        (in_method-add h.line_number h.bci) (omega (arith, ih)) in
    omega (arith, step, ih)

-- The numbers of the dump made after fewer than 2^32 calls of add_hit add up to the number of the
-- calls.
pub counted-add_hits :
    (hs : List Hit) → length hs < 4294967296 → counted (create_dump (add_hits hs)) ≡ length hs
counted-add_hits hs b = counted-create_dump (add_hits hs) ∙ hits_of-add_hits hs b
