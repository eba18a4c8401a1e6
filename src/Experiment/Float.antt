-- ===== src/Experiment/Float.antt =====
-- The binary32 arithmetic that the speedup goes through: values that are not negative and are
-- below 2^24, rounded to the nearest, ties to even. The quotients and products of the program are
-- 0 or at least 2^-5, so they are normal numbers.
use jcoz.Base.{
  ℕ, zero, suc, ◌+◌, ◌-◌, ◌*◌, ◌/◌, ◌%◌, ◌^◌, ◌≡◌, refl, true, false, ◌&&◌, ◌||◌, ◌==◌, ltb,
  if◌then◌else◌,
}

-- mant / 2 ^ exp
pub record F32 : Type 0 where
  pub mant : ℕ
  pub exp : ℕ

abbrev pub zero_f32 : F32
zero_f32 = record { mant = 0; exp = 0 }

-- The least e, from the given one on, with 2^23 ≤ n * 2^e / d.
scale : ℕ → ℕ → ℕ → ℕ → ℕ
scale zero n d e = e
scale (suc fuel) n d e = elim (ltb (n * 2 ^ e) (d * 2 ^ 23)) [
  | true ↦ scale fuel n d (suc e)
  | false ↦ e
]

-- n / d, to the nearest whole number, ties to even
unfoldable pub nearest : ℕ → ℕ → ℕ
nearest n d =
    let q = n / d in
    let r = n % d in if ltb d (2 * r) || (d == 2 * r) && (q % 2 == 1) then q + 1 else q

normal : ℕ → ℕ → F32
normal mant exp =
    if mant == 2 ^ 24
    then record { mant = 2 ^ 23; exp = exp - 1 }
    else record { mant = mant; exp = exp }

-- The number n / d in binary32, for 0 ≤ n / d < 2^24 and 2^-40 ≤ n / d unless n is 0.
unfoldable pub round_f32 : ℕ → ℕ → F32
unfolding scale nearest normal
round_f32 n d =
    if n == 0 then zero_f32 else let e = scale 64 n d 0 in normal (nearest (n * 2 ^ e) d) e

-- The quotient of two small whole numbers, which binary32 holds exactly.
unfoldable pub div_f32 : ℕ → ℕ → F32
unfolding round_f32
div_f32 a b = round_f32 a b

-- The product with a small whole number.
unfoldable pub mul_f32 : F32 → ℕ → F32
unfolding round_f32
mul_f32 x n = round_f32 (x.mant * n) (2 ^ x.exp)

-- The conversion to an integer.
unfoldable pub truncate : F32 → ℕ
truncate x = x.mant / 2 ^ x.exp

-- 0.05f is 13421773 / 2^28.
div_f32_twentieth : div_f32 1 20 ≡ record { mant = 13421773; exp = 28 }
unfolding div_f32
div_f32_twentieth = refl

div_f32_one : div_f32 20 20 ≡ record { mant = 2 ^ 23; exp = 23 }
unfolding div_f32
div_f32_one = refl
