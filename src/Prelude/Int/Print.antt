-- ===== src/Prelude/Int/Print.antt =====
-- What is printed parses back to the number.
use Prim.Native.Nat.{ℕ, zero, suc, ◌+◌, ◌*◌, ◌/◌, ◌%◌, ◌<◌}
use mathlib.Core.Path.{◌≡◌, refl, ap, ◌∙◌}
use mathlib.Core.Logic.{inl, inr}
use mathlib.Core.Bool.{true, false}
use mathlib.Core.Option.{none, some}
use mathlib.Core.List.{[], ◌∷◌}
use native.Mathlib.Omega.{arith}
use icebergr.Prelude.Tests.{ltb, Bool-cases}
use icebergr.Prelude.Lists.{All}
use icebergr.Prelude.Text.{Text, is_ascii_digit, is_whitespace, trim, trim_end, strip_prefix}
use icebergr.Prelude.Int.{
  ℤ, pos, negsuc, fits_signed, digits_value, number, parse_signed, print_digits, print_number,
  print_signed,
}

abbrev IsDigit : ℕ → Type 0
IsDigit c = is_ascii_digit c ≡ true

digit : (n : ℕ) → n < 10 → IsDigit (n + 48)
digit n h = ground arith

-- reading one more digit
digits_value-digit :
    (a n : ℕ) (s : Text)
    → n < 10
    → digits_value 10 a ((n + 48) ∷ s) ≡ digits_value 10 (a * 10 + n) s
unfolding digits_value
digits_value-digit a n s h = ground arith

-- a text of digits that is not empty
abbrev Digits : Text → Type 0
Digits s = (c : ℕ) × (rest : Text) × (s ≡ c ∷ rest) × All IsDigit (c ∷ rest)

print_digits-Digits :
    (fuel n : ℕ) (acc : Text) → n < fuel → All IsDigit acc → Digits (print_digits fuel n acc)
unfolding print_digits
print_digits-Digits zero n acc h d = absurd (omega arith)
print_digits-Digits (suc fuel) n acc h d = elim (Bool-cases (ltb n 10)) [
  | inl e ↦ rw e (n + 48, acc, refl, (digit n (ground arith), d))
  | inr e ↦ rw e (
      print_digits-Digits fuel (n / 10) ((n % 10 + 48) ∷ acc) (ground arith)
        (digit (n % 10) (omega arith), d))
]

digits_value-print_digits :
    (fuel n : ℕ) (acc : Text)
    → n < fuel
    → digits_value 10 0 (print_digits fuel n acc) ≡ digits_value 10 n acc
unfolding print_digits
digits_value-print_digits zero n acc h = absurd (omega arith)
digits_value-print_digits (suc fuel) n acc h = elim (Bool-cases (ltb n 10)) [
  | inl e ↦ rw e (
      digits_value-digit 0 n acc (ground arith)
      ∙ ap (λ (k : ℕ). digits_value 10 k acc) (omega arith))
  | inr e ↦ rw e (
      digits_value-print_digits fuel (n / 10) ((n % 10 + 48) ∷ acc) (ground arith)
      ∙ digits_value-digit (n / 10) (n % 10) acc (omega arith)
      ∙ ap (λ (k : ℕ). digits_value 10 k acc) (omega arith))
]

abbrev IsSolid : ℕ → Type 0
IsSolid c = is_whitespace c ≡ false

IsDigit-IsSolid : (c : ℕ) → IsDigit c → IsSolid c
IsDigit-IsSolid c d = ground arith

All-IsSolid : (s : Text) → All IsDigit s → All IsSolid s
All-IsSolid [] h = tt
All-IsSolid (c ∷ s) (d, h) = (IsDigit-IsSolid c d, All-IsSolid s h)

trim_end-solid : (s : Text) → All IsSolid s → trim_end is_whitespace s ≡ s
trim_end-solid [] h = refl
trim_end-solid (c ∷ []) (d, h) = rw d refl
trim_end-solid (c ∷ e ∷ s) (d, h) = rw (trim_end-solid (e ∷ s) h) refl

trim-solid : (s : Text) → All IsSolid s → trim s ≡ s
trim-solid [] h = refl
trim-solid (c ∷ s) (d, h) = rw d (trim_end-solid (c ∷ s) (d, h))

-- a text of digits, as the parser meets it
number-Digits :
    (s : Text) (n : ℕ)
    → Digits s
    → digits_value 10 0 s ≡ some n
    → (number 10 s ≡ some n)
      × (strip_prefix (b'-' ∷ []) s ≡ none)
      × (strip_prefix (b'+' ∷ []) s ≡ none)
unfolding number
number-Digits s n (c, rest, e, (d, h)) v = rw e (rw e at v, ground arith, ground arith)

print_number-Digits : (n : ℕ) → Digits (print_number n)
unfolding print_number
print_number-Digits n = print_digits-Digits (suc n) n [] (omega arith) tt

digits_value-print_number : (n : ℕ) → digits_value 10 0 (print_number n) ≡ some n
unfolding print_number digits_value
digits_value-print_number n = digits_value-print_digits (suc n) n [] (omega arith)

print_signed-IsSolid : (z : ℤ) → All IsSolid (print_signed z)
unfolding print_signed
print_signed-IsSolid (pos n) =
    let (c, rest, e, h) = print_number-Digits n in rw e (All-IsSolid (c ∷ rest) h)
print_signed-IsSolid (negsuc n) =
    let (c, rest, e, h) = print_number-Digits (suc n) in (refl, rw e (All-IsSolid (c ∷ rest) h))

parse_signed-print :
    (bits : ℕ) (z : ℤ) → fits_signed bits z ≡ true → parse_signed bits (print_signed z) ≡ some z
unfolding parse_signed print_signed
parse_signed-print bits (pos n) h =
    let (v, minus, plus) =
      number-Digits (print_number n) n (print_number-Digits n) (digits_value-print_number n) in
    ground arith
parse_signed-print bits (negsuc n) h =
    let (v, minus, plus) =
      number-Digits (print_number (suc n)) (suc n) (print_number-Digits (suc n))
        (digits_value-print_number (suc n)) in
    ground arith

-- A number of the width reads back from its print, once spaces are trimmed.
pub parse_signed-print_signed :
    (bits : ℕ) (z : ℤ)
    → fits_signed bits z ≡ true
    → parse_signed bits (trim (print_signed z)) ≡ some z
parse_signed-print_signed bits z h =
    rw (trim-solid (print_signed z) (print_signed-IsSolid z)) (parse_signed-print bits z h)
