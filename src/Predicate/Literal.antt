-- ===== src/Predicate/Literal.antt =====
-- `datum` of src/rust/src/predicate.rs and the readers below it: a literal of the column's own type
-- from the JSON value that R sent.
pub mod Integers
pub mod Strings
use icebergr.Prelude.{
  ℕ, suc, ◌+◌, List, [], ◌∷◌, Bool, true, false, ◌&&◌, ◌||◌, Option, none, some, ◌==◌,
  if◌then◌else◌, length, Result, ok, err, ◌>>=◌, map_err, ok_or, or_else, and_then, unwrap_or,
}
use icebergr.Prelude.Int.{ℤ, parse_signed, try_signed}
use icebergr.Prelude.Text.{Text, codes, is_ascii_digit, trim, trim_end}
use icebergr.Iceberg.{PrimitiveType}
use icebergr.Errors.{RError, ctx, message}
use icebergr.Predicate.Float.{is_whole64, in_i64_range, as_i64_saturating}
use icebergr.Predicate.Engine.{Engine}
use icebergr.Predicate.Message.{
  Error, RResult, fail, compared_with_na, expected, outside_i64, outside_i32, date_for_timestamp,
  outside_nanos, type_not_supported,
}
use icebergr.Predicate.Decimal.{rescale_decimal}

-- Ten characters, dashes at 4 and 7 and digits elsewhere.
all_date_chars : ℕ → Text → Bool
all_date_chars i [] = true
all_date_chars i (c ∷ s) =
    (if i == 4 || i == 7 then c == b'-' else is_ascii_digit c) && all_date_chars (suc i) s

unfoldable pub looks_like_a_date : Text → Bool
unfolding all_date_chars
looks_like_a_date s = length s == 10 && all_date_chars 0 s

unfoldable pub bad_timestamp : Text → Text → PrimitiveType → Text → Error
unfolding looks_like_a_date
bad_timestamp s col ty e =
    if looks_like_a_date s
    then message (date_for_timestamp s col ty)
    else ctx (codes "invalid timestamp") e

abbrev pub trim_z : Text → Text
trim_z s = trim_end (λ c. c == b'Z') s

-- the double fallback of `as_i64`
unfoldable pub i64_of_double : Option ℕ → Text → PrimitiveType → RResult ℤ
i64_of_double none col ty = fail (expected col ty (codes "a whole number"))
i64_of_double (some f) col ty =
    if is_whole64 f
    then (if in_i64_range f then ok (as_i64_saturating f) else fail (outside_i64 col ty f))
    else fail (expected col ty (codes "a whole number"))

module _ (E : Engine) where
  open E use {
    Json, json_is_null, json_as_bool, json_as_i64, json_as_f64, json_as_str, json_is_f64,
    json_to_string, to_f32, display_f64, parse_naive, parse_utc, naive_nanos_opt, utc_nanos_opt,
    Datum, datum_bool, datum_int, datum_long, datum_float, datum_double, datum_date, datum_string,
    timestamp_micros, timestamptz_micros, timestamp_nanos, timestamptz_nanos, date_from_str,
    timestamp_from_str, timestamptz_from_str, uuid_from_str, decimal_from_str, datum_to,
  }

  unfoldable pub naive_nanos : Text → Text → PrimitiveType → RResult ℤ
  unfolding bad_timestamp
  naive_nanos s col ty = do
    dt ← map_err (bad_timestamp s col ty) (or_else (parse_naive (trim_z s)) (parse_naive s))
    ok_or (naive_nanos_opt dt) (message (outside_nanos s col ty))

  unfoldable pub utc_nanos : Text → Text → PrimitiveType → RResult ℤ
  unfolding bad_timestamp
  utc_nanos s col ty = do
    dt ← map_err (bad_timestamp s col ty) (parse_utc s)
    ok_or (utc_nanos_opt dt) (message (outside_nanos s col ty))

  unfoldable pub as_i64 : Json → Text → PrimitiveType → RResult ℤ
  unfolding i64_of_double
  as_i64 value col ty = elim (json_as_i64 value) [
    | some v ↦ ok v
    | none ↦ elim (and_then (json_as_str value) (λ s. parse_signed 64 (trim s))) [
      | some v ↦ ok v
      | none ↦ i64_of_double (json_as_f64 value) col ty
    ]
  ]

  unfoldable pub as_f64 : Json → Text → PrimitiveType → RResult ℕ
  as_f64 value col ty = ok_or (json_as_f64 value) (message (expected col ty (codes "a number")))

  unfoldable pub as_str : Json → Text → PrimitiveType → RResult Text
  as_str value col ty = ok_or (json_as_str value) (message (expected col ty (codes "a string")))

  -- the spelling of a decimal literal
  unfoldable pub decimal_text : Json → Text
  decimal_text value = elim (json_as_str value) [
    | some s ↦ s
    | none ↦
        if json_is_f64 value
        then display_f64 (unwrap_or (json_as_f64 value) 0)
        else json_to_string value
  ]

  abbrev invalid : Text → Text → Error
  invalid what e = ctx what e

  -- `Json::String(s)` by the first function, any other value as a number by the second.
  abbrev by_string : Json → (Text → RResult Datum) → RResult Datum → RResult Datum
  by_string value on_text on_other = elim (json_as_str value) [
    | some s ↦ on_text s
    | none ↦ on_other
  ]

  -- The arms of the match on the column's type, for a value that is not null.
  unfoldable pub typed_datum : Json → PrimitiveType → Text → RResult Datum
  unfolding as_i64 as_f64 as_str decimal_text naive_nanos utc_nanos rescale_decimal bad_timestamp
  typed_datum value PrimitiveType.boolean col = do
    b ←
        ok_or (json_as_bool value)
          (message (expected col PrimitiveType.boolean (codes "TRUE or FALSE")))
    ok (datum_bool b)
  typed_datum value PrimitiveType.int col = do
    v ← as_i64 value col PrimitiveType.int
    n ← ok_or (try_signed 32 v) (message (outside_i32 v col))
    ok (datum_int n)
  typed_datum value PrimitiveType.long col = do
    v ← as_i64 value col PrimitiveType.long
    ok (datum_long v)
  typed_datum value PrimitiveType.float col = do
    f ← as_f64 value col PrimitiveType.float
    ok (datum_float (to_f32 f))
  typed_datum value PrimitiveType.double col = do
    f ← as_f64 value col PrimitiveType.double
    ok (datum_double f)
  typed_datum value PrimitiveType.date col =
      by_string value (λ s. map_err (invalid (codes "invalid date")) (date_from_str s))
        do
          v ← as_i64 value col PrimitiveType.date
          d ← ok_or (try_signed 32 v) (message (expected col PrimitiveType.date (codes "a date")))
          ok (datum_date d)
  typed_datum value PrimitiveType.timestamp col =
      by_string value
        (λ s.
          map_err (bad_timestamp s col PrimitiveType.timestamp)
            (or_else (timestamp_from_str (trim_z s)) (timestamp_from_str s)))
        do v ← as_i64 value col PrimitiveType.timestamp; ok (timestamp_micros v)
  typed_datum value PrimitiveType.timestamptz col =
      by_string value
        (λ s. map_err (bad_timestamp s col PrimitiveType.timestamptz) (timestamptz_from_str s))
        do v ← as_i64 value col PrimitiveType.timestamptz; ok (timestamptz_micros v)
  typed_datum value PrimitiveType.timestamp_ns col =
      by_string value
        (λ s. naive_nanos s col PrimitiveType.timestamp_ns >>= λ v. ok (timestamp_nanos v))
        do v ← as_i64 value col PrimitiveType.timestamp_ns; ok (timestamp_nanos v)
  typed_datum value PrimitiveType.timestamptz_ns col =
      by_string value
        (λ s. utc_nanos s col PrimitiveType.timestamptz_ns >>= λ v. ok (timestamptz_nanos v))
        do v ← as_i64 value col PrimitiveType.timestamptz_ns; ok (timestamptz_nanos v)
  typed_datum value PrimitiveType.string col = do
    s ← as_str value col PrimitiveType.string
    ok (datum_string s)
  typed_datum value PrimitiveType.uuid col = do
    s ← as_str value col PrimitiveType.uuid
    map_err (invalid (codes "invalid UUID")) (uuid_from_str s)
  typed_datum value (PrimitiveType.decimal precision scale) col = do
    let ty = PrimitiveType.decimal precision scale
    t ← rescale_decimal (decimal_text value) scale col ty
    d ← map_err (invalid (codes "invalid decimal")) (decimal_from_str t)
    map_err (invalid (codes "invalid decimal")) (datum_to d ty)
  typed_datum value PrimitiveType.time col = fail (type_not_supported col PrimitiveType.time)
  typed_datum value PrimitiveType.binary col = fail (type_not_supported col PrimitiveType.binary)
  typed_datum value (PrimitiveType.fixed n) col =
      fail (type_not_supported col (PrimitiveType.fixed n))

  unfoldable pub datum : Json → PrimitiveType → Text → RResult Datum
  unfolding typed_datum
  datum value ty col =
      if json_is_null value then fail (compared_with_na col) else typed_datum value ty col
