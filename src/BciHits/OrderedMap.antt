-- ===== src/BciHits/OrderedMap.antt =====
-- std::map as the list of its entries, in the order of their keys.
use jcoz.Base.{
  not, ◌&&◌, ℕ, ◌+◌, ◌<◌, ◌≡◌, Bool, List, [], ◌∷◌, Option, none, some, if◌then◌else◌, arith, refl,
  sym, ap, ◌∙◌, inl, inr, true, false, Bool-cases,
}

abbrev pub Map {ℓ κ} : Type ℓ → Type κ → Type (ℓ ⊔ κ)
Map K V = List (K × V)

module _ {ℓ κ} {K : Type ℓ} {V : Type κ} (lt : K → K → Bool) where
  -- m[k] = f(m[k]), where m[k] makes an entry with the value `d` if there is none
  unfoldable pub adjust : K → V → (V → V) → Map K V → Map K V
  adjust k d f [] = (k, f d) ∷ []
  adjust k d f ((j, v) ∷ m) =
      if lt k j
      then (k, f d) ∷ (j, v) ∷ m
      else if lt j k
      then (j, v) ∷ adjust k d f m
      else (j, f v) ∷ m

  -- m.find(k)
  unfoldable pub lookup : K → Map K V → Option V
  lookup k [] = none
  lookup k ((j, v) ∷ m) =
      let rest = lookup k m in if lt k j then none else if lt j k then rest else some v

  -- The sum of a measure over the values.
  unfoldable pub total : (V → ℕ) → Map K V → ℕ
  total w [] = 0
  total w ((j, v) ∷ m) = w v + total w m

  -- An adjustment that adds one to the measure of every value below a bound, adds one to the sum.
  pub total-adjust :
      (w : V → ℕ) (bound : ℕ) (k : K) (d : V) (f : V → V) (m : Map K V)
      → w d ≡ 0
      → ((v : V) → w v < bound → w (f v) ≡ w v + 1)
      → total w m < bound
      → total w (adjust k d f m) ≡ total w m + 1
  unfolding total adjust
  total-adjust w bound k d f [] z g h = omega (arith, g d)
  total-adjust w bound k d f ((j, v) ∷ m) z g h =
      ground (
        arith,
        g d (omega arith),
        g v (omega arith),
        total-adjust w bound k d f m z g (omega arith),
      )

-- What std::map asks of its order, with keys told apart by it.
pub record IsOrder {ℓ} {K : Type ℓ} (lt : K → K → Bool) : Type ℓ where
  pub asym : (a b : K) → lt a b ≡ true → lt b a ≡ false
  pub trans : (a b c : K) → lt a b ≡ true → lt b c ≡ true → lt a c ≡ true
  pub equal : (a b : K) → lt a b ≡ false → lt b a ≡ false → a ≡ b

abbrev pub value_or {ℓ} : {V : Type ℓ} → V → Option V → V
value_or d none = d
value_or d (some v) = v

module _ {ℓ} {K : Type ℓ} (lt : K → K → Bool) (order : IsOrder lt) where
  -- Keys that the order does not tell apart stand alike to any third one.
  same_left : (a b c : K) → lt a b ≡ false → lt b a ≡ false → lt a c ≡ lt b c
  same_left a b c h k = ap (λ x. lt x c) (order.equal a b h k)

  same_right : (a b c : K) → lt a b ≡ false → lt b a ≡ false → lt c a ≡ lt c b
  same_right a b c h k = ap (λ x. lt c x) (order.equal a b h k)

module _ {ℓ κ} {K : Type ℓ} {V : Type κ} (lt : K → K → Bool) (order : IsOrder lt) where
  -- Only the adjusted key has a new value.
  pub lookup-adjust :
      (j k : K) (d : V) (f : V → V) (m : Map K V)
      → lookup lt j (adjust lt k d f m) ≡ (
          if lt j k
          then lookup lt j m
          else if lt k j
          then lookup lt j m
          else some (f (value_or d (lookup lt k m))))
  unfolding lookup adjust
  lookup-adjust j k d f [] = ground arith
  lookup-adjust j k d f ((i, v) ∷ m) = elim (Bool-cases (lt k i)) [
    | inl before ↦ rw before (ground (arith, order.trans j k i, order.asym k i before))
    | inr late ↦ elim (Bool-cases (lt i k)) [
      | inl behind ↦
          rw (late, behind)
            (ground (
              arith,
              lookup-adjust j k d f m,
              order.trans j i k,
              order.asym i k behind,
              order.asym j i,
              same_left lt order j i k,
              same_right lt order j i k,
            ))
      | inr here ↦
          rw (late, here)
            (ground
              (arith, same_right lt order k i j late here, same_left lt order k i j late here))
    ]
  ]

  -- The value of a key, where `d` stands for none.
  abbrev pub value : V → K → Map K V → V
  value d k m = value_or d (lookup lt k m)

  value_if :
      (a b : Bool) (d : V) (o p : Option V)
      → value_or d (if a then o else if b then o else p)
        ≡ (if a then value_or d o else if b then value_or d o else value_or d p)
  value_if true b d o p = refl
  value_if false true d o p = refl
  value_if false false d o p = refl

  pub value-adjust :
      (j k : K) (d : V) (f : V → V) (m : Map K V)
      → value d j (adjust lt k d f m)
        ≡ (if lt j k then value d j m else if lt k j then value d j m else f (value d k m))
  value-adjust j k d f m =
      ap (value_or d) (lookup-adjust j k d f m)
      ∙ value_if (lt j k) (lt k j) d (lookup lt j m) (some (f (value_or d (lookup lt k m))))

  -- The same on whether the keys are one.
  pub value-adjust_same :
      (j k : K) (d : V) (f : V → V) (m : Map K V)
      → value d j (adjust lt k d f m)
        ≡ (if not (lt j k) && not (lt k j) then f (value d j m) else value d j m)
  value-adjust_same j k d f m = value-adjust j k d f m ∙ elim (Bool-cases (lt j k)) [
    | inl e ↦ rw e
    | inr e ↦ elim (Bool-cases (lt k j)) [
      | inl g ↦ rw (e, g)
      | inr g ↦ rw (e, g) (ap (λ x. f (value d x m)) (sym (order.equal j k e g)))
    ]
  ]
