-- ===== src/BciHits/Counts.antt =====
-- The maps as a multiset of hits: what add_hit promises, whatever the maps look like.
use jcoz.Base.{
  ℕ, ◌+◌, ◌≤◌, ◌<◌, ◌≡◌, refl, ap, ◌∙◌, Bool, true, false, ◌&&◌, not, List, [], ◌∷◌, Option, none,
  some, if◌then◌else◌, arith, ltb, ◌==◌, length,
}
use jcoz.Base.Int.{ℤ, ltb_ℤ, eqb_ℤ, eq_of_parts}
use jcoz.Text.{Bytes}
use jcoz.BciHits.OrderedMap.{
  Map, adjust, lookup, IsOrder, value_or, value-adjust_same, lookup-adjust,
}
use jcoz.BciHits.{BciHits, increment, add_hit}
use jcoz.BciHits.Laws.{Hit, add_hits}

ltb-IsOrder : IsOrder ltb
ltb-IsOrder = record {
  asym = λ a b h. ground arith;
  trans = λ a b c h k. ground arith;
  equal = λ a b h k. ground arith;
}

ltb_ℤ-IsOrder : IsOrder ltb_ℤ
ltb_ℤ-IsOrder = record {
  asym = λ a b h. ground arith;
  trans = λ a b c h k. ground arith;
  equal = λ a b h k. eq_of_parts a b (ground arith);
}

-- _freqs[method_id][line_number][bci], where a key that is missing stands for 0
abbrev pub count_of : BciHits → ℕ → ℤ → ℤ → ℕ
count_of h m l b =
    value_or 0 (lookup ltb_ℤ b (value_or [] (lookup ltb_ℤ l (value_or [] (lookup ltb m h.freqs)))))

abbrev same_place : Hit → ℕ → ℤ → ℤ → Bool
same_place h m l b = h.method_id == m && eqb_ℤ h.line_number l && eqb_ℤ h.bci b

-- How many of the hits are at a place.
unfoldable pub occurrences : List Hit → ℕ → ℤ → ℤ → ℕ
occurrences [] m l b = 0
occurrences (h ∷ hs) m l b = (if same_place h m l b then 1 else 0) + occurrences hs m l b

-- The class that the last of the hits in a method names.
unfoldable pub last_class : List Hit → ℕ → Option Bytes
last_class [] m = none
last_class (h ∷ hs) m =
    let earlier = last_class hs m in if h.method_id == m then some h.class_fqn else earlier

occurrences_le : (hs : List Hit) (m : ℕ) (l b : ℤ) → occurrences hs m l b ≤ length hs
unfolding occurrences
occurrences_le [] m l b = omega arith
occurrences_le (h ∷ hs) m l b = ground (arith, occurrences_le hs m l b)

same_nat : (j k : ℕ) → not (ltb j k) && not (ltb k j) ≡ (k == j)
same_nat j k = ground arith

same_int : (j k : ℤ) → not (ltb_ℤ j k) && not (ltb_ℤ k j) ≡ eqb_ℤ k j
same_int j k = ground arith

abbrev nat_value {ℓ} : {V : Type ℓ} → V → ℕ → Map ℕ V → V
nat_value d k m = value_or d (lookup ltb k m)

abbrev int_value {ℓ} : {V : Type ℓ} → V → ℤ → Map ℤ V → V
int_value d k m = value_or d (lookup ltb_ℤ k m)

nat_value-adjust {ℓ} :
    {V : Type ℓ} (j k : ℕ) (d : V) (f : V → V) (m : Map ℕ V)
    → nat_value d j (adjust ltb k d f m) ≡ (if k == j then f (nat_value d j m) else nat_value d j m)
nat_value-adjust j k d f m =
    value-adjust_same ltb ltb-IsOrder j k d f m
    ∙ ap (λ t. if t then f (nat_value d j m) else nat_value d j m) (same_nat j k)

int_value-adjust {ℓ} :
    {V : Type ℓ} (j k : ℤ) (d : V) (f : V → V) (m : Map ℤ V)
    → int_value d j (adjust ltb_ℤ k d f m)
      ≡ (if eqb_ℤ k j then f (int_value d j m) else int_value d j m)
int_value-adjust j k d f m =
    value-adjust_same ltb_ℤ ltb_ℤ-IsOrder j k d f m
    ∙ ap (λ t. if t then f (int_value d j m) else int_value d j m) (same_int j k)

if_ap {ℓ κ} :
    {A : Type ℓ} {B : Type κ} (g : A → B) (t : Bool) (x y : A)
    → g (if t then x else y) ≡ (if t then g x else g y)
if_ap g true x y = refl
if_ap g false x y = refl

if_three {ℓ} :
    {A : Type ℓ} (s t u : Bool) (x y : A)
    → (if s then (if t then (if u then x else y) else y) else y) ≡ (if s && t && u then x else y)
if_three true true u x y = refl
if_three true false u x y = refl
if_three false t u x y = refl

-- One more hit, at its place and nowhere else.
count_of-add_hit :
    (h : Hit) (s : BciHits) (m : ℕ) (l b : ℤ)
    → count_of (add_hit h.class_fqn h.method_id h.line_number h.bci s) m l b
      ≡ (if same_place h m l b then increment (count_of s m l b) else count_of s m l b)
unfolding add_hit
count_of-add_hit h s m l b =
    let lines = nat_value [] m s.freqs in
    let bcis = int_value [] l lines in
    let hit = adjust ltb_ℤ h.bci 0 increment in
    ap (λ x. int_value 0 b (int_value [] l x))
      (nat_value-adjust m h.method_id [] (adjust ltb_ℤ h.line_number [] hit) s.freqs)
    ∙ if_ap (λ x. int_value 0 b (int_value [] l x)) (h.method_id == m)
        (adjust ltb_ℤ h.line_number [] hit lines) lines
    ∙ ap (λ x. if h.method_id == m then x else int_value 0 b bcis)
        (ap (int_value 0 b) (int_value-adjust l h.line_number [] hit lines)
          ∙ if_ap (int_value 0 b) (eqb_ℤ h.line_number l) (hit bcis) bcis
          ∙ ap (λ x. if eqb_ℤ h.line_number l then x else int_value 0 b bcis)
              (int_value-adjust b h.bci 0 increment bcis))
    ∙ if_three (h.method_id == m) (eqb_ℤ h.line_number l) (eqb_ℤ h.bci b)
        (increment (int_value 0 b bcis)) (int_value 0 b bcis)

count_of-add_hits :
    (hs : List Hit) (m : ℕ) (l b : ℤ)
    → length hs < 4294967296
    → count_of (add_hits hs) m l b ≡ occurrences hs m l b
unfolding add_hits occurrences lookup
count_of-add_hits [] m l b small = refl
count_of-add_hits (h ∷ hs) m l b small =
    count_of-add_hit h (add_hits hs) m l b
    ∙ ap (λ n. if same_place h m l b then increment n else n)
        (count_of-add_hits hs m l b (omega arith))
    ∙ ground (arith, occurrences_le hs m l b)

pub lookup-add_hits :
    (hs : List Hit) (m : ℕ) → lookup ltb m (add_hits hs).declaring_classes ≡ last_class hs m
unfolding add_hits add_hit last_class lookup
lookup-add_hits [] m = refl
lookup-add_hits (h ∷ hs) m =
    lookup-adjust ltb ltb-IsOrder m h.method_id [] (λ c. h.class_fqn)
      (add_hits hs).declaring_classes
    ∙ ground (arith, lookup-add_hits hs m)

-- The maps stand for the multiset of the hits and, for each method, for its last class.
pub record Stands (h : BciHits) (hs : List Hit) : Type 0 where
  pub counts : (m : ℕ) (l b : ℤ) → count_of h m l b ≡ occurrences hs m l b
  pub classes : (m : ℕ) → lookup ltb m h.declaring_classes ≡ last_class hs m

-- After fewer than 2^32 calls of add_hit the ordered maps stand for the multiset of the hits: the
-- number at each method, line and bytecode index is how often it was hit, and the class of each
-- method is the one of its last hit.
pub add_hits-Stands : (hs : List Hit) → length hs < 4294967296 → Stands (add_hits hs) hs
add_hits-Stands hs small = record {
  counts = λ m l b. count_of-add_hits hs m l b small;
  classes = lookup-add_hits hs;
}
