-- ===== src/Prelude/Text.antt =====
-- Text as its list of code points, with the operations of `str` and `char` that the program calls.
-- Every byte that the program looks for is ASCII, so an index into the bytes of a text and one into
-- its code points pick out the same places.
use Prim.Native.Nat.{ℕ, ◌+◌, ◌-◌}
use Prim.Native.Char.{code}
use Prim.Native.String.{String}
use mathlib.Core.Path.{◌≡◌, refl, ap₂}
use mathlib.Core.Bool.{Bool, true, false, ◌&&◌, ◌||◌}
use mathlib.Core.Option.{Option, none, some}
use mathlib.Core.List.{List, [], ◌∷◌, ◌++◌}
use native.Mathlib.Omega.{arith}
use icebergr.Prelude.Tests.{leb, ◌==◌, if◌then◌else◌}

abbrev pub Text : Type 0
Text = List ℕ

-- The code points of a literal.
abbrev pub codes : String → Text
codes String.[] = []
codes (String.◌∷◌ c s) = code c ∷ codes s

abbrev pub text_eq : Text → Text → Bool
text_eq [] [] = true
text_eq [] (d ∷ t) = false
text_eq (c ∷ s) [] = false
text_eq (c ∷ s) (d ∷ t) = c == d && text_eq s t

pub text_eq→eq : (s t : Text) → text_eq s t ≡ true → s ≡ t
text_eq→eq [] [] h = refl
text_eq→eq [] (d ∷ t) h = cc
text_eq→eq (c ∷ s) [] h = cc
text_eq→eq (c ∷ s) (d ∷ t) h = ap₂ ◌∷◌ (ground arith) (text_eq→eq s t (ground arith))

pub text_eq_refl : (s : Text) → text_eq s s ≡ true
text_eq_refl [] = refl
text_eq_refl (c ∷ s) = ground (arith, text_eq_refl s)

abbrev within : ℕ → ℕ → ℕ → Bool
within lo hi c = leb lo c && leb c hi

abbrev pub is_ascii_digit : ℕ → Bool
is_ascii_digit c = within b'0' b'9' c

abbrev pub is_ascii_uppercase : ℕ → Bool
is_ascii_uppercase c = within b'A' b'Z' c

abbrev pub is_ascii_alphabetic : ℕ → Bool
is_ascii_alphabetic c = is_ascii_uppercase c || within b'a' b'z' c

abbrev pub is_ascii_alphanumeric : ℕ → Bool
is_ascii_alphanumeric c = is_ascii_alphabetic c || is_ascii_digit c

-- tab, line feed, form feed, carriage return and space
abbrev pub is_ascii_whitespace : ℕ → Bool
is_ascii_whitespace c = c == 0x20 || c == 0x09 || c == 0x0a || c == 0x0c || c == 0x0d

-- `char::is_whitespace`: the Unicode property White_Space
abbrev pub is_whitespace : ℕ → Bool
is_whitespace c =
    within 0x09 0x0d c
    || c == 0x20
    || c == 0x85
    || c == 0xa0
    || c == 0x1680
    || within 0x2000 0x200a c
    || c == 0x2028
    || c == 0x2029
    || c == 0x202f
    || c == 0x205f
    || c == 0x3000

abbrev pub ascii_lower : ℕ → ℕ
ascii_lower c = if is_ascii_uppercase c then c + 32 else c

abbrev pub to_ascii_lowercase : Text → Text
to_ascii_lowercase [] = []
to_ascii_lowercase (c ∷ s) = ascii_lower c ∷ to_ascii_lowercase s

-- the digits of a number in base 16 or below, and their values
abbrev pub is_hex : ℕ → Bool
is_hex c = is_ascii_digit c || within b'a' b'f' c || within b'A' b'F' c

abbrev pub hex_value : ℕ → ℕ
hex_value c = if is_ascii_digit c then c - 48 else if within b'a' b'f' c then c - 87 else c - 55

abbrev pub strip_prefix : Text → Text → Option Text
strip_prefix [] s = some s
strip_prefix (p ∷ ps) [] = none
strip_prefix (p ∷ ps) (c ∷ s) = if p == c then strip_prefix ps s else none

abbrev pub starts_with : Text → Text → Bool
starts_with [] s = true
starts_with (p ∷ ps) [] = false
starts_with (p ∷ ps) (c ∷ s) = p == c && starts_with ps s

-- `strip_suffix`: the shortest way to leave exactly `suffix` at the end.
abbrev pub strip_suffix : Text → Text → Option Text
strip_suffix suffix [] = if text_eq suffix [] then some [] else none
strip_suffix suffix (c ∷ s) =
    let rest = strip_suffix suffix s in
    if text_eq suffix (c ∷ s) then some [] else elim rest [ none ↦ none | some r ↦ some (c ∷ r) ]

-- `split_once(sep)` at the first, and `rsplit_once(seps)` at the last character that passes.
abbrev pub split_once : (ℕ → Bool) → Text → Option (Text × Text)
split_once p [] = none
split_once p (c ∷ s) =
    let rest = split_once p s in
    if p c then some ([], s) else elim rest [ none ↦ none | some (a, b) ↦ some (c ∷ a, b) ]

abbrev pub rsplit_once : (ℕ → Bool) → Text → Option (Text × Text)
rsplit_once p [] = none
rsplit_once p (c ∷ s) = elim (rsplit_once p s) [
  | some (a, b) ↦ some (c ∷ a, b)
  | none ↦ if p c then some ([], s) else none
]

abbrev pub trim_start : (ℕ → Bool) → Text → Text
trim_start p [] = []
trim_start p (c ∷ s) = let rest = trim_start p s in if p c then rest else c ∷ s

abbrev pub trim_end : (ℕ → Bool) → Text → Text
trim_end p [] = []
trim_end p (c ∷ s) =
    let rest = trim_end p s in elim rest [ [] ↦ if p c then [] else c ∷ [] | d ∷ r ↦ c ∷ d ∷ r ]

abbrev pub trim : Text → Text
trim s = trim_end is_whitespace (trim_start is_whitespace s)

-- `contains` and `ends_with` for texts
abbrev pub contains : Text → Text → Bool
contains pat [] = starts_with pat []
contains pat (c ∷ s) = starts_with pat (c ∷ s) || contains pat s

abbrev pub ends_with : Text → Text → Bool
ends_with pat [] = text_eq pat []
ends_with pat (c ∷ s) = text_eq pat (c ∷ s) || ends_with pat s

-- `join(sep)`
abbrev pub join : Text → List Text → Text
join sep [] = []
join sep (s ∷ []) = s
join sep (s ∷ t ∷ ts) = s ++ sep ++ join sep (t ∷ ts)
