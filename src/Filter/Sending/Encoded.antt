-- ===== src/Filter/Sending/Encoded.antt =====
-- What `filter_to_json` writes is the JSON document of the tree.
use icebergr.Prelude.{all, [], ◌∷◌, ◌++◌, true, not, ◌≡◌, ◌≢◌, refl, arith, All, append_assoc, ◌==◌}
use icebergr.Prelude.Text.{Text, codes}
use icebergr.Filter.Json.{json_string}
use icebergr.Filter.Json.Written.{json_string-Writes}
use icebergr.Filter.Document.{Json, Members, Encodes, EncodesMembers, tagged}

abbrev pub NoNul : Text → Type 0
NoNul = All (λ c. c ≢ 0)

pub all-NoNul : (s : Text) → all (λ c. not (c == 0)) s ≡ true → NoNul s
all-NoNul [] h = tt
all-NoNul (c ∷ s) h = (ground arith, all-NoNul s (ground arith))

-- a text of R as a JSON string
pub json_string-Encodes : (s : Text) → NoNul s → Encodes (json_string s) (Json.string s)
json_string-Encodes s h =
    let (inner, e, w) = json_string-Writes s h in
    let whole : Encodes (b'"' ∷ (inner ++ b'"' ∷ [])) (Json.string s) = Encodes.string w in
    rw e whole

abbrev pub op_key : Encodes (codes "\"op\"") (Json.string (codes "op"))
unfolding json_string
op_key = json_string-Encodes (codes "op") (all-NoNul (codes "op") refl)

abbrev pub col_key : Encodes (codes "\"col\"") (Json.string (codes "col"))
unfolding json_string
col_key = json_string-Encodes (codes "col") (all-NoNul (codes "col") refl)

abbrev pub arg_key : Encodes (codes "\"arg\"") (Json.string (codes "arg"))
unfolding json_string
arg_key = json_string-Encodes (codes "arg") (all-NoNul (codes "arg") refl)

abbrev pub args_key : Encodes (codes "\"args\"") (Json.string (codes "args"))
unfolding json_string
args_key = json_string-Encodes (codes "args") (all-NoNul (codes "args") refl)

abbrev pub value_key : Encodes (codes "\"value\"") (Json.string (codes "value"))
unfolding json_string
value_key = json_string-Encodes (codes "value") (all-NoNul (codes "value") refl)

abbrev pub values_key : Encodes (codes "\"values\"") (Json.string (codes "values"))
unfolding json_string
values_key = json_string-Encodes (codes "values") (all-NoNul (codes "values") refl)

pub tagged-Encodes :
    (op : Text)
    → NoNul op
    → Encodes (codes "{\"op\":" ++ json_string op ++ codes "}") (tagged op Members.empty)
tagged-Encodes op h = Encodes.object (EncodesMembers.only op_key (json_string-Encodes op h))

pub two-Encodes :
    (op k s name : Text) (j : Json)
    → NoNul op
    → Encodes k (Json.string name)
    → Encodes s j
    → Encodes
        (codes "{\"op\":" ++ json_string op ++ codes "," ++ k ++ codes ":" ++ s ++ codes "}")
        (tagged op (Members.member name j Members.empty))
two-Encodes op k s name j h hk hs =
    let built =
      Encodes.object
        (EncodesMembers.several op_key (json_string-Encodes op h) (EncodesMembers.only hk hs)) in
    let same : b'{'
          ∷ (((codes "\"op\"" ++ b':' ∷ json_string op) ++ b',' ∷ (k ++ b':' ∷ s)) ++ b'}' ∷ [])
        ≡ codes "{\"op\":" ++ json_string op ++ codes "," ++ k ++ codes ":" ++ s ++ codes "}" =
      simp (append_assoc) in
    rw (← same) built

pub three-Encodes :
    (op k s name l t next : Text) (j i : Json)
    → NoNul op
    → Encodes k (Json.string name)
    → Encodes s j
    → Encodes l (Json.string next)
    → Encodes t i
    → Encodes
        (codes "{\"op\":"
          ++ json_string op
          ++ codes ","
          ++ k
          ++ codes ":"
          ++ s
          ++ codes ","
          ++ l
          ++ codes ":"
          ++ t
          ++ codes "}")
        (tagged op (Members.member name j (Members.member next i Members.empty)))
three-Encodes op k s name l t next j i h hk hs hl ht =
    let built = Encodes.object (
      EncodesMembers.several op_key (json_string-Encodes op h)
        (EncodesMembers.several hk hs (EncodesMembers.only hl ht))) in
    let same : b'{'
          ∷ (((codes "\"op\"" ++ b':' ∷ json_string op)
                ++ b',' ∷ ((k ++ b':' ∷ s) ++ b',' ∷ (l ++ b':' ∷ t)))
              ++ b'}' ∷ [])
        ≡ codes "{\"op\":"
          ++ json_string op
          ++ codes ","
          ++ k
          ++ codes ":"
          ++ s
          ++ codes ","
          ++ l
          ++ codes ":"
          ++ t
          ++ codes "}" =
      simp (append_assoc) in
    rw (← same) built
