-- ===== src/Filter/Json/Written.antt =====
-- What `json_string` writes is a JSON string for the text.
use icebergr.Prelude.{
  ℕ, ◌+◌, ◌*◌, ◌/◌, ◌%◌, ◌≤◌, ◌<◌, ◌≡◌, ◌≢◌, refl, [], ◌∷◌, ◌++◌, true, ◌&&◌, ◌||◌, arith, ◌==◌,
  ==_iff, ltb, if◌then◌else◌, any, Bool-cases, inl, inr, All, Option, none, some,
}
use icebergr.Prelude.Text.{Text, is_hex, hex_value}
use icebergr.Filter.Json.{hex_digit, gsub, controls, escape_controls, json_string}
use icebergr.Filter.Json.Escapes.{
  shortened, body, json_string-body, body-cons, body-plain, body-control, control-cases,
  hex_digit-is_hex, hex_digit-hex_value,
}

-- The short escapes of JSON: the letter after the backslash, and the character that it stands for.
pub data IsShort : ℕ → ℕ → Type 0 where
  quote : IsShort b'"' b'"'
  backslash : IsShort b'\\' b'\\'
  slash : IsShort b'/' b'/'
  backspace : IsShort b'b' 8
  form_feed : IsShort b'f' 12
  newline : IsShort b'n' 10
  carriage : IsShort b'r' 13
  tab : IsShort b't' 9

-- What stands between the quotes of a JSON string, and the text that it stands for, as RFC 8259 has it.
pub data Writes : Text → Text → Type 0 where
  done : Writes [] []
  plain : {c : ℕ} {s t : Text} → 32 ≤ c → c ≢ b'"' → c ≢ b'\\' → Writes s t → Writes (c ∷ s) (c ∷ t)
  short : {e c : ℕ} {s t : Text} → IsShort e c → Writes s t → Writes (b'\\' ∷ e ∷ s) (c ∷ t)
  unicode :
      {h i j k c : ℕ} {s t : Text}
      → (is_hex h && is_hex i && is_hex j && is_hex k) ≡ true
      → c ≡ ((hex_value h * 16 + hex_value i) * 16 + hex_value j) * 16 + hex_value k
      → Writes s t
      → Writes (b'\\' ∷ b'u' ∷ h ∷ i ∷ j ∷ k ∷ s) (c ∷ t)

control-Writes :
    (c : ℕ) (s t : Text)
    → c < 32
    → any (λ k. c == k) controls ≡ true
    → Writes s t
    → Writes (body (c ∷ []) ++ s) (c ∷ t)
control-Writes c s t l h w =
    let high : c / 16 < 16 = omega arith in
    let low : c % 16 < 16 = omega arith in
    let digits : (is_hex b'0'
          && is_hex b'0'
          && is_hex (hex_digit (c / 16))
          && is_hex (hex_digit (c % 16)))
        ≡ true =
      ground (arith, hex_digit-is_hex (c / 16) high, hex_digit-is_hex (c % 16) low) in
    let value : c
        ≡ ((hex_value b'0' * 16 + hex_value b'0') * 16 + hex_value (hex_digit (c / 16))) * 16
          + hex_value (hex_digit (c % 16)) =
      rw (hex_digit-hex_value (c / 16) high, hex_digit-hex_value (c % 16) low) (omega arith) in
    rw (body-control c h) (unicode digits value w)

short-Writes :
    (c d e : ℕ) (s t : Text)
    → (c == d) ≡ true
    → body (d ∷ []) ≡ b'\\' ∷ e ∷ []
    → IsShort e d
    → Writes s t
    → Writes (body (c ∷ []) ++ s) (c ∷ t)
short-Writes c d e s t same h k w = rw ((==_iff c d).0 same, h) (short k w)

written : (c : ℕ) (s t : Text) → c ≢ 0 → Writes s t → Writes (body (c ∷ []) ++ s) (c ∷ t)
unfolding body shortened escape_controls gsub
written c s t z w = elim (Bool-cases (c == b'"')) [
  | inl e ↦ short-Writes c b'"' b'"' s t e refl quote w
  | inr nq ↦ elim (Bool-cases (c == b'\\')) [
    | inl e ↦ short-Writes c b'\\' b'\\' s t e refl backslash w
    | inr nb ↦ elim (Bool-cases (ltb c 32)) [
      | inr big ↦
          rw (body-plain c (ground arith) (ground arith) (ground arith))
            (plain (ground arith) (ground arith) (ground arith) w)
      | inl small ↦ elim (Bool-cases (c == 8)) [
        | inl e ↦ short-Writes c 8 b'b' s t e refl backspace w
        | inr n8 ↦ elim (Bool-cases (c == 9)) [
          | inl e ↦ short-Writes c 9 b't' s t e refl tab w
          | inr n9 ↦ elim (Bool-cases (c == 10)) [
            | inl e ↦ short-Writes c 10 b'n' s t e refl newline w
            | inr n10 ↦ elim (Bool-cases (c == 12)) [
              | inl e ↦ short-Writes c 12 b'f' s t e refl form_feed w
              | inr n12 ↦ elim (Bool-cases (c == 13)) [
                | inl e ↦ short-Writes c 13 b'r' s t e refl carriage w
                | inr n13 ↦
                    control-Writes c s t (ground arith)
                      (control-cases c (ground arith) z (ground arith) (ground arith) (ground arith)
                        (ground arith) (ground arith))
                      w
              ]
            ]
          ]
        ]
      ]
    ]
  ]
]

body-Writes : (x : Text) → All (λ c. c ≢ 0) x → Writes (body x) x
unfolding body shortened escape_controls gsub
body-Writes [] h = done
body-Writes (c ∷ x) (z, h) = rw (body-cons c x) (written c (body x) x z (body-Writes x h))

-- What `json_string` writes for a text without NUL is a JSON string that stands for exactly that text:
-- two quotes around a body that holds no bare quote, backslash or control character, and whose escapes
-- stand for the characters of the text.
pub json_string-Writes :
    (x : Text)
    → All (λ c. c ≢ 0) x
    → (inner : Text) × (json_string x ≡ b'"' ∷ (inner ++ b'"' ∷ [])) × Writes inner x
json_string-Writes x h = (body x, json_string-body x, body-Writes x h)

-- the character of each short escape
abbrev short_of : ℕ → Option ℕ
short_of e =
    if e == b'"' || e == b'\\' || e == b'/'
    then some e
    else if e == b'b'
    then some 8
    else if e == b'f'
    then some 12
    else if e == b'n'
    then some 10
    else if e == b'r'
    then some 13
    else if e == b't'
    then some 9
    else none

short_of-some : {e c : ℕ} → IsShort e c → short_of e ≡ some c
short_of-some quote = refl
short_of-some backslash = refl
short_of-some slash = refl
short_of-some backspace = refl
short_of-some form_feed = refl
short_of-some newline = refl
short_of-some carriage = refl
short_of-some tab = refl

-- A body stands for one text.
Writes_unique : {s t u : Text} → Writes s t → Writes s u → t ≡ u
Writes_unique done done = refl
Writes_unique (plain l q b w) (plain l' q' b' w') = let ih = Writes_unique w w' in cc
Writes_unique (plain l q b w) (short k w') = absurd (b refl)
Writes_unique (plain l q b w) (unicode h e w') = absurd (b refl)
Writes_unique (short k w) (plain l q b w') = absurd (b refl)
Writes_unique (short {e} k w) (short k' w') =
    let p = short_of-some k in let p' = short_of-some k' in let ih = Writes_unique w w' in cc
Writes_unique (short k w) (unicode h e w') = absurd (let p = short_of-some k in cc)
Writes_unique (unicode h e w) (plain l q b w') = absurd (b refl)
Writes_unique (unicode h e w) (short k w') = absurd (let p = short_of-some k in cc)
Writes_unique (unicode h e w) (unicode h' e' w') = let ih = Writes_unique w w' in cc
