-- ===== src/Predicate/Literal/Integers.antt =====
-- A double that is accepted for an integer column is that integer.
use icebergr.Prelude.{
  ℕ, ◌-◌, ◌*◌, ◌^◌, ◌≤◌, ◌<◌, ◌≡◌, ◌⊎◌, inl, inr, sym, ◌∙◌, Bool, true, false, some, arith, ltb,
  leb, ok, Bool-cases, leb→le, ltb→lt,
}
use native.Mathlib.Nat.{pow-le-pow_right, div-le_self}
use icebergr.Prelude.Int.{ℤ, pos, neg, fits_signed}
use icebergr.Prelude.Text.{Text}
use icebergr.Iceberg.{PrimitiveType}
use icebergr.Predicate.Float.{
  binary64, magnitude, is_negative, exponent64, significand64, trunc64, is_whole64,
  as_i64_saturating, in_i64_range, limit64,
}
use icebergr.Predicate.Literal.{i64_of_double}

-- `n` is the absolute value of the double with bits `b`: zero, or the significand scaled up or down
-- by the exponent with nothing lost.
abbrev pub IsAbsoluteValue : ℕ → ℕ → Type 0
IsAbsoluteValue b n =
    ((magnitude binary64 b ≡ 0) × (n ≡ 0))
    ⊎ ((1075 ≤ exponent64 b) × (n ≡ significand64 b * 2 ^ (exponent64 b - 1075)))
    ⊎ ((exponent64 b < 1075) × (n * 2 ^ (1075 - exponent64 b) ≡ significand64 b))

abbrev pub signed : Bool → ℕ → ℤ
signed true n = neg n
signed false n = pos n

scaled-lt : (s p : ℕ) → s < 2 ^ 53 → p ≤ 2 ^ 10 → s * p < 2 ^ 63
scaled-lt s p hs hp = grind arith

-- the scaled significand of a double below 2^63, by its exponent
scaled_bound : (s e : ℕ) → s < 2 ^ 53 → 1075 ≤ e → e ≤ 1085 → s * 2 ^ (e - 1075) < 2 ^ 63
scaled_bound s e hs lo hi =
    scaled-lt s (2 ^ (e - 1075)) hs
      (pow-le-pow_right {n = 2} (omega arith) {i = e - 1075} {j = 10} (omega arith))

trunc64-lt : (b : ℕ) → magnitude binary64 b < limit64 → trunc64 b < 2 ^ 63
unfolding trunc64
trunc64-lt b h = elim (Bool-cases (leb 1075 (exponent64 b))) [
  | inl big ↦
      let s =
        scaled_bound (significand64 b) (exponent64 b) (omega arith) (leb→le _ _ big)
          (omega arith) in
      ground arith
  | inr small ↦ ground (arith, div-le_self (significand64 b) (2 ^ (1075 - exponent64 b)))
]

trunc64-le : (b : ℕ) → magnitude binary64 b ≤ limit64 → trunc64 b ≤ 2 ^ 63
unfolding trunc64
trunc64-le b h = elim (Bool-cases (ltb (magnitude binary64 b) limit64)) [
  | inl below ↦ omega (arith, trunc64-lt b (ltb→lt _ _ below))
  | inr at ↦ let e : magnitude binary64 b ≡ limit64 = ground arith in rw e (omega arith)
]

trunc64-IsAbsoluteValue : (b : ℕ) → is_whole64 b ≡ true → IsAbsoluteValue b (trunc64 b)
unfolding trunc64 is_whole64
trunc64-IsAbsoluteValue b h = ground arith

as_i64-exact :
    (b : ℕ)
    → in_i64_range b ≡ true
    → (as_i64_saturating b ≡ signed (is_negative binary64 b) (trunc64 b))
      × (fits_signed 64 (signed (is_negative binary64 b) (trunc64 b)) ≡ true)
unfolding in_i64_range as_i64_saturating
as_i64-exact b h = ground (arith, trunc64-lt b, trunc64-le b)

-- A double that `as_i64` accepts is a whole number that an `i64` holds, and the result is that number
-- with its sign: nothing is cut off or clamped.
pub i64_of_double-exact :
    (f : ℕ) (col : Text) (ty : PrimitiveType) (v : ℤ)
    → i64_of_double (some f) col ty ≡ ok v
    → IsAbsoluteValue f (trunc64 f)
      × (v ≡ signed (is_negative binary64 f) (trunc64 f))
      × (fits_signed 64 v ≡ true)
unfolding i64_of_double
i64_of_double-exact f col ty v h =
    let (whole, inside, e) = accepted f col ty v h in
    let (exact, fits) = as_i64-exact f inside in
    (trunc64-IsAbsoluteValue f whole, sym e ∙ exact, rw (sym e ∙ exact) fits)
  where
    accepted :
        (f : ℕ) (col : Text) (ty : PrimitiveType) (v : ℤ)
        → i64_of_double (some f) col ty ≡ ok v
        → (is_whole64 f ≡ true) × (in_i64_range f ≡ true) × (as_i64_saturating f ≡ v)
    accepted f col ty v h = ground arith
