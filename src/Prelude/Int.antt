-- ===== src/Prelude/Int.antt =====
-- Signed integers over the native numbers, under the library's names, and Rust's integer parsers.
pub mod Print
use icebergr.Prelude.Tests.{ltb, ◌==◌, if◌then◌else◌}
use icebergr.Prelude.Results.{and_then, unwrap_or}
use icebergr.Prelude.Text.{Text, is_hex, hex_value, strip_prefix}
use Prim.Native.Nat.{ℕ, zero, suc, ◌+◌, ◌-◌, ◌*◌, ◌/◌, ◌%◌, ◌^◌}
use mathlib.Core.Bool.{Bool, ◌&&◌}
use mathlib.Core.Option.{Option, none, some}
use mathlib.Core.List.{[], ◌∷◌}

-- `negsuc n` is -(n + 1).
pub data ℤ : Type 0 where
  pos : ℕ → ℤ
  negsuc : ℕ → ℤ

abbrev pub neg : ℕ → ℤ
neg zero = pos 0
neg (suc n) = negsuc n

abbrev pub pos_part : ℤ → ℕ
pos_part (pos n) = n
pos_part (negsuc n) = 0

abbrev pub neg_part : ℤ → ℕ
neg_part (pos n) = 0
neg_part (negsuc n) = suc n

abbrev pub ltb_ℤ : ℤ → ℤ → Bool
ltb_ℤ a b = ltb (pos_part a + neg_part b) (pos_part b + neg_part a)

abbrev pub eqb_ℤ : ℤ → ℤ → Bool
eqb_ℤ a b = (pos_part a + neg_part b) == (pos_part b + neg_part a)

-- An `iN`, for `bits = N`: from -2^(N-1) to 2^(N-1) - 1.
abbrev pub fits_signed : ℕ → ℤ → Bool
fits_signed bits (pos n) = ltb n (2 ^ (bits - 1))
fits_signed bits (negsuc n) = ltb n (2 ^ (bits - 1))

-- `TryFrom` between signed widths
abbrev pub try_signed : ℕ → ℤ → Option ℤ
try_signed bits v = if fits_signed bits v then some v else none

-- The value of a run of digits, `none` at the first character that is not one.
pub digits_value : ℕ → ℕ → Text → Option ℕ
digits_value radix acc [] = some acc
digits_value radix acc (c ∷ s) =
    let rest = digits_value radix (acc * radix + hex_value c) s in
    if is_hex c && ltb (hex_value c) radix then rest else none

-- At least one digit.
pub number : ℕ → Text → Option ℕ
number radix [] = none
number radix (c ∷ s) = digits_value radix 0 (c ∷ s)

-- the text after one leading `+`, if there is one
abbrev pub without_plus : Text → Text
without_plus s = unwrap_or (strip_prefix (b'+' ∷ []) s) s

-- `from_str_radix` of an unsigned type: a value past the width is an error.
unfoldable pub parse_unsigned : ℕ → ℕ → Text → Option ℕ
unfolding number digits_value
parse_unsigned bits radix s =
    and_then (number radix (without_plus s)) (λ n. if ltb n (2 ^ bits) then some n else none)

-- `parse::<iN>()`: one leading sign, then digits, and the value has to fit the width.
unfoldable pub parse_signed : ℕ → Text → Option ℤ
unfolding number digits_value
parse_signed bits s = elim (strip_prefix (b'-' ∷ []) s) [
  | some r ↦ and_then (number 10 r) (λ n. try_signed bits (neg n))
  | none ↦ and_then (number 10 (without_plus s)) (λ n. try_signed bits (pos n))
]

-- The decimal digits of `n` in front of `acc`. A number has at most one digit more than its value.
pub print_digits : ℕ → ℕ → Text → Text
print_digits zero n acc = acc
print_digits (suc fuel) n acc =
    let more = print_digits fuel (n / 10) ((n % 10 + 48) ∷ acc) in
    if ltb n 10 then (n + 48) ∷ acc else more

pub print_number : ℕ → Text
unfolding print_digits
print_number n = print_digits (suc n) n []

-- `to_string` of a signed integer
unfoldable pub print_signed : ℤ → Text
unfolding print_number
print_signed (pos n) = print_number n
print_signed (negsuc n) = b'-' ∷ print_number (suc n)
