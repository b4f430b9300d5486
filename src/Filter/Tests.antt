-- ===== src/Filter/Tests.antt =====
-- The JSON writer at concrete texts.
use icebergr.Prelude.{[], ◌∷◌, ◌++◌, ◌≡◌, refl, arith}
use icebergr.Prelude.Text.{Text, codes}
use icebergr.Filter.Json.{json_string}
use icebergr.Filter.Json.Written.{Writes, json_string-Writes}

-- a"b\, a line feed, a tab and the character 1
abbrev odd : Text
odd = codes "a\"b\\" ++ 10 ∷ 9 ∷ 1 ∷ []

odd_written : json_string odd ≡ codes "\"a\\\"b\\\\\\n\\t\\u0001\""
unfolding json_string
odd_written = refl

json_string-Writes_example :
    (inner : Text) × (json_string odd ≡ b'"' ∷ (inner ++ b'"' ∷ [])) × Writes inner odd
json_string-Writes_example = json_string-Writes odd (
  omega arith,
  (omega arith, (omega arith, (omega arith, (omega arith, (omega arith, (omega arith, tt)))))),
)
