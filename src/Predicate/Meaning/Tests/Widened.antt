-- ===== src/Predicate/Meaning/Tests/Widened.antt =====
-- A widening of floats that keeps their order.
use icebergr.Prelude.{ℕ, ◌+◌, ◌-◌, ◌^◌, ◌<◌, ◌≡◌, false, arith, compare, if◌then◌else◌}
use icebergr.Predicate.Float.{
  binary32, binary64, is_nan_bits, is_negative, magnitude, value_key, value_order,
}

-- the double with the sign and the magnitude of the float
abbrev pub widened : ℕ → ℕ
widened x = (if is_negative binary32 x then 2 ^ 63 else 0) + magnitude binary32 x

widened-is_negative : (x : ℕ) → is_negative binary64 (widened x) ≡ is_negative binary32 x
widened-is_negative x = ground arith

widened-magnitude : (x : ℕ) → magnitude binary64 (widened x) ≡ magnitude binary32 x
widened-magnitude x = ground arith

widened-value_key :
    (x : ℕ) → value_key binary64 (widened x) ≡ value_key binary32 x + (2 ^ 63 - 2 ^ 31)
widened-value_key x =
    let n = widened-is_negative x in
    let m = widened-magnitude x in
    let small : magnitude binary32 x < 2 ^ 31 = omega arith in ground (arith, n, m, small)

compare-shift : (a b k : ℕ) → compare (a + k) (b + k) ≡ compare a b
compare-shift a b k = ground arith

pub widened_ordered :
    (x y : ℕ)
    → is_nan_bits binary32 x ≡ false
    → is_nan_bits binary32 y ≡ false
    → value_order binary64 (widened x) (widened y) ≡ value_order binary32 x y
widened_ordered x y h k =
    rw (widened-value_key x, widened-value_key y)
      (compare-shift (value_key binary32 x) (value_key binary32 y) (2 ^ 63 - 2 ^ 31))
