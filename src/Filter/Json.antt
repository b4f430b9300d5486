-- ===== src/Filter/Json.antt =====
-- `json_string` of R/filter.R: a text as a JSON string. Every pattern of its `gsub` calls is one
-- character, and a text of R holds no NUL.
pub mod Escapes
pub mod Written
use icebergr.Prelude.{ℕ, ◌+◌, ◌/◌, ◌%◌, List, [], ◌∷◌, ◌++◌, Bool, ◌==◌, ltb, if◌then◌else◌, any}
use icebergr.Prelude.Text.{Text, codes}

-- `gsub(pattern, replacement, x, fixed = TRUE)`
unfoldable pub gsub : ℕ → Text → Text → Text
gsub pattern replacement [] = []
gsub pattern replacement (c ∷ s) =
    let rest = gsub pattern replacement s in if c == pattern then replacement ++ rest else c ∷ rest

-- a digit in base 16, as `%x` prints it
abbrev pub hex_digit : ℕ → ℕ
hex_digit d = if ltb d 10 then d + 48 else d + 87

-- `sprintf("\\u%04x", cp)` for a number below 256
abbrev pub unicode_escape : ℕ → Text
unicode_escape cp = b'\\' ∷ b'u' ∷ b'0' ∷ b'0' ∷ hex_digit (cp / 16) ∷ hex_digit (cp % 16) ∷ []

-- `setdiff(1:31, c(8L, 9L, 10L, 12L, 13L))`
abbrev pub controls : List ℕ
controls =
    1 ∷ 2 ∷ 3 ∷ 4 ∷ 5 ∷ 6 ∷ 7 ∷ 11 ∷ 14 ∷ 15 ∷ 16 ∷ 17 ∷ 18 ∷ 19 ∷ 20 ∷ 21 ∷ 22 ∷ 23 ∷ 24 ∷ 25 ∷ 26
    ∷ 27 ∷ 28 ∷ 29 ∷ 30 ∷ 31 ∷ []

-- the loop over the characters that have no short form
unfoldable pub escape_controls : List ℕ → Text → Text
unfolding gsub
escape_controls [] x = x
escape_controls (cp ∷ cps) x =
    escape_controls cps (if any (λ c. c == cp) x then gsub cp (unicode_escape cp) x else x)

unfoldable pub json_string : Text → Text
unfolding gsub escape_controls
json_string x =
    let x1 = gsub b'\\' (codes "\\\\") x in
    let x2 = gsub b'"' (codes "\\\"") x1 in
    let x3 = gsub 8 (codes "\\b") x2 in
    let x4 = gsub 12 (codes "\\f") x3 in
    let x5 = gsub 10 (codes "\\n") x4 in
    let x6 = gsub 13 (codes "\\r") x5 in
    let x7 = gsub 9 (codes "\\t") x6 in b'"' ∷ (escape_controls controls x7 ++ b'"' ∷ [])
