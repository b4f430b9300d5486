-- ===== src/Predicate/Decimal.antt =====
-- `rescale_decimal` of src/rust/src/predicate.rs.
pub mod Value
pub mod Rescale
use icebergr.Prelude.{
  ℕ, ◌-◌, List, [], ◌∷◌, ◌++◌, Bool, true, false, not, ◌&&◌, ◌||◌, Option, none, some, ◌==◌, ltb,
  if◌then◌else◌, length, take, drop, replicate, any, all, is_empty, Result, ok, err, unwrap_or,
}
use icebergr.Prelude.Text.{Text, is_ascii_digit, split_once, strip_prefix, trim}
use icebergr.Iceberg.{PrimitiveType}
use icebergr.Errors.{message}
use icebergr.Predicate.Message.{
  RResult, fail, Reason, exponent_notation, not_a_decimal, too_many_places, rejected_decimal,
}

-- The sign and what follows it.
unfoldable pub split_sign : Text → Text × Text
split_sign s = elim (strip_prefix (b'-' ∷ []) s) [
  | some rest ↦ (b'-' ∷ [], rest)
  | none ↦ ([], unwrap_or (strip_prefix (b'+' ∷ []) s) s)
]

unfoldable pub split_point : Text → Text × Text
split_point rest = unwrap_or (split_once (λ c. c == b'.') rest) (rest, [])

abbrev pub digits_only : Text → Bool
digits_only p = all is_ascii_digit p

-- The fraction padded or cut to `scale` digits; a digit that is not zero is never cut.
unfoldable pub fit_fraction : Text → ℕ → Result Reason Text
fit_fraction frac scale =
    if ltb scale (length frac)
    then (if any (λ b. not (b == b'0')) (drop scale frac)
        then err (too_many_places (length frac) scale)
        else ok (take scale frac))
    else ok (frac ++ replicate (scale - length frac) b'0')

abbrev pub print_decimal : Text → Text → Text → Text
print_decimal sign int_part frac =
    if is_empty frac then sign ++ int_part else sign ++ int_part ++ b'.' ∷ frac

-- What `rescale_decimal` makes of the trimmed text.
unfoldable pub rescale : Text → ℕ → Result Reason Text
rescale s scale =
    if any (λ c. c == b'e' || c == b'E') s
    then err exponent_notation
    else (let (sign, rest) = split_sign s in
        let (int_part, frac_part) = split_point rest in
        if (is_empty int_part && is_empty frac_part)
          || not (digits_only int_part)
          || not (digits_only frac_part)
        then err not_a_decimal
        else (let whole = if is_empty int_part then b'0' ∷ [] else int_part in
            elim (fit_fraction frac_part scale) [
              | err why ↦ err why
              | ok frac ↦ ok (print_decimal sign whole frac)
            ]))

unfoldable pub rescale_decimal : Text → ℕ → Text → PrimitiveType → RResult Text
unfolding rescale split_sign split_point fit_fraction
rescale_decimal s scale col ty = elim (rescale (trim s) scale) [
  | ok t ↦ ok t
  | err why ↦ fail (rejected_decimal col ty (trim s) why)
]
