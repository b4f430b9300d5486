-- ===== src/Predicate/Float.antt =====
-- `f32` and `f64` as their bit patterns: the sign bit, and below it a magnitude that grows with the
-- absolute value, up to infinity and then NaN.
pub mod Order
use icebergr.Prelude.{
  ℕ, ◌+◌, ◌-◌, ◌*◌, ◌/◌, ◌%◌, ◌^◌, Bool, true, false, ◌&&◌, ◌||◌, Option, none, some, compare,
  Ordering, ltb, leb, ◌==◌, if◌then◌else◌,
}
use icebergr.Prelude.Int.{ℤ, pos, neg}

pub record Width : Type 0 where
  -- the pattern with the sign bit alone, which is -0.0
  pub sign : ℕ
  pub infinity : ℕ

abbrev pub binary32 : Width
binary32 = record { sign = 2 ^ 31; infinity = 0x7f80_0000 }

abbrev pub binary64 : Width
binary64 = record { sign = 2 ^ 63; infinity = 0x7ff0_0000_0000_0000 }

abbrev pub magnitude : Width → ℕ → ℕ
magnitude w b = b % w.sign

abbrev pub is_negative : Width → ℕ → Bool
is_negative w b = leb w.sign b

abbrev pub is_nan_bits : Width → ℕ → Bool
is_nan_bits w b = ltb w.infinity (magnitude w b)

-- `v == 0.0`, which holds of both zeros
abbrev pub is_zero_bits : Width → ℕ → Bool
is_zero_bits w b = magnitude w b == 0

-- IEEE 754's totalOrder: -0.0 below 0.0, and NaN with the sign bit clear above every number.
abbrev pub total_key : Width → ℕ → ℕ
total_key w b = if is_negative w b then w.sign - 1 - magnitude w b else w.sign + magnitude w b

abbrev pub total_order : Width → ℕ → ℕ → Ordering
total_order w a b = compare (total_key w a) (total_key w b)

-- The order of `<` and `==` on floats that are not NaN: the zeros are one value.
abbrev pub value_key : Width → ℕ → ℕ
value_key w b = if is_negative w b then w.sign - magnitude w b else w.sign + magnitude w b

abbrev pub value_order : Width → ℕ → ℕ → Ordering
value_order w a b = compare (value_key w a) (value_key w b)

-- The parts of a finite double.
abbrev pub exponent64 : ℕ → ℕ
exponent64 b = magnitude binary64 b / 2 ^ 52

abbrev pub significand64 : ℕ → ℕ
significand64 b = 2 ^ 52 + magnitude binary64 b % 2 ^ 52

-- The absolute value of a finite double, cut off at the point.
unfoldable pub trunc64 : ℕ → ℕ
trunc64 b =
    if ltb (exponent64 b) 1023
    then 0
    else if leb 1075 (exponent64 b)
    then significand64 b * 2 ^ (exponent64 b - 1075)
    else significand64 b / 2 ^ (1075 - exponent64 b)

-- `f.fract() == 0.0`: false of the infinities and of NaN, whose fraction is NaN.
unfoldable pub is_whole64 : ℕ → Bool
is_whole64 b =
    ltb (magnitude binary64 b) binary64.infinity
    && (is_zero_bits binary64 b
        || (leb 1023 (exponent64 b)
            && (leb 1075 (exponent64 b) || significand64 b % 2 ^ (1075 - exponent64 b) == 0)))

-- `f as i64`, which saturates, and takes NaN to 0.
unfoldable pub as_i64_saturating : ℕ → ℤ
unfolding trunc64
as_i64_saturating b =
    if is_nan_bits binary64 b
    then pos 0
    else if is_negative binary64 b
    then (if leb (trunc64 b) (2 ^ 63) then neg (trunc64 b) else neg (2 ^ 63))
    else if ltb (trunc64 b) (2 ^ 63)
    then pos (trunc64 b)
    else pos (2 ^ 63 - 1)

-- the doubles -2^63 and 2^63
abbrev pub limit64 : ℕ
limit64 = 0x43e0_0000_0000_0000

abbrev pub minus_limit64 : ℕ
minus_limit64 = 0xc3e0_0000_0000_0000

-- `f >= -limit && f < limit`, false of NaN
unfoldable pub in_i64_range : ℕ → Bool
in_i64_range b =
    leb (value_key binary64 minus_limit64) (value_key binary64 b)
    && ltb (value_key binary64 b) (value_key binary64 limit64)
    && (if is_nan_bits binary64 b then false else true)
