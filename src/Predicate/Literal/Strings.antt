-- ===== src/Predicate/Literal/Strings.antt =====
-- A `bit64::integer64`, which R sends as its digits in a string, as the literal of an integer column.
use icebergr.Prelude.{◌≡◌, refl, true, false, Bool-cases, inl, inr, none, some, ok, if◌then◌else◌}
use icebergr.Prelude.Int.{ℤ, fits_signed, print_signed}
use icebergr.Prelude.Int.Print.{parse_signed-print_signed}
use icebergr.Prelude.Text.{Text}
use icebergr.Iceberg.{PrimitiveType}
use icebergr.Predicate.Engine.{Engine}
use icebergr.Predicate.Message.{fail, outside_i32}
use icebergr.Predicate.Literal.{as_i64, datum}

module _ (E : Engine) where
  open E use {Json, json_is_null, json_as_i64, json_as_str, datum_int, datum_long}

  as_i64-print_signed :
      (v : Json) (n : ℤ) (col : Text) (ty : PrimitiveType)
      → json_as_i64 v ≡ none
      → json_as_str v ≡ some (print_signed n)
      → fits_signed 64 n ≡ true
      → as_i64 E v col ty ≡ ok n
  unfolding as_i64
  as_i64-print_signed v n col ty i s f = rw (as_i64, i, s, parse_signed-print_signed 64 n f) refl

  -- A JSON string of the digits of a 64-bit number is read without loss: a long column is compared
  -- with exactly that number, and so is an int column if the number fits 32 bits, while any other
  -- number is refused with the message that names it.
  pub datum-print_signed :
      (v : Json) (n : ℤ) (col : Text)
      → json_is_null v ≡ false
      → json_as_i64 v ≡ none
      → json_as_str v ≡ some (print_signed n)
      → fits_signed 64 n ≡ true
      → (datum E v PrimitiveType.long col ≡ ok (datum_long n))
        × (datum E v PrimitiveType.int col
            ≡ (if fits_signed 32 n then ok (datum_int n) else fail (outside_i32 n col)))
  unfolding datum
  datum-print_signed v n col z i s f =
      let long = as_i64-print_signed v n col PrimitiveType.long i s f in
      let int = as_i64-print_signed v n col PrimitiveType.int i s f in
      (
        rw (datum, z, long) refl,
        elim (Bool-cases (fits_signed 32 n)) [
          | inl e ↦ rw (datum, z, int, e) refl
          | inr e ↦ rw (datum, z, int, e) refl
        ],
      )
