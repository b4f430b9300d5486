-- ===== src/Predicate/Tests.antt =====
-- The theorems on literals at concrete inputs.
use icebergr.Prelude.{ℕ, ◌≡◌, refl, true}
use icebergr.Prelude.Int.{negsuc, fits_signed}
use icebergr.Prelude.Text.{codes}
use icebergr.Iceberg.{PrimitiveType}
use icebergr.Predicate.Float.{
  binary64, is_negative, trunc64, is_whole64, in_i64_range, as_i64_saturating,
}
use icebergr.Predicate.Decimal.{rescale, split_sign, split_point, fit_fraction}
use icebergr.Predicate.Decimal.Rescale.{parts, IsRescaled, rescale-IsRescaled}
use icebergr.Predicate.Literal.{i64_of_double}
use icebergr.Predicate.Literal.Integers.{IsAbsoluteValue, signed, i64_of_double-exact}

rescale-IsRescaled_example : IsRescaled (parts (codes "-2.5")) 3 (parts (codes "-2.500"))
unfolding rescale split_sign split_point fit_fraction
rescale-IsRescaled_example = rescale-IsRescaled (codes "-2.5") 3 (codes "-2.500") refl

-- -3.0
abbrev minus_three : ℕ
minus_three = 0xc008_0000_0000_0000

i64_of_double-exact_example :
    IsAbsoluteValue minus_three (trunc64 minus_three)
    × (negsuc 2 ≡ signed (is_negative binary64 minus_three) (trunc64 minus_three))
    × (fits_signed 64 (negsuc 2) ≡ true)
unfolding i64_of_double is_whole64 in_i64_range as_i64_saturating trunc64
i64_of_double-exact_example =
    i64_of_double-exact minus_three (codes "n") PrimitiveType.long (negsuc 2) refl
