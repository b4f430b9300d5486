-- ===== src/Filter/Sending/Tests.antt =====
-- The text that is sent, at a filter with a number and a text.
use icebergr.Prelude.{List, [], ◌∷◌, Bool, true, false, none, ◌≡◌, refl, arith, Result, ok, err}
use icebergr.Prelude.Text.{Text, codes, to_ascii_lowercase}
use icebergr.Predicate.Node.{Node, Nodes}
use icebergr.Filter.{translate_filter}
use icebergr.Filter.Lookup.{Expr, Args, Language}
use icebergr.Filter.Meaning.{map_node}
use icebergr.Filter.Document.{IsWhole, IsUnsigned, IsNumber, Encodes, document}
use icebergr.Filter.Sending.{Vectors, json_scalar, filter_to_json}
use icebergr.Filter.Sending.Encoded.{NoNul}
use icebergr.Filter.Json.{json_string}
use icebergr.Filter.Sending.Scalars.{PrintsText, AllValues, scalar_json}
use icebergr.Filter.Sending.Sound.{translate_filter-filter_to_json}

-- the vectors 3 and "a\"b"
data Vector : Type 0 where
  three quoted : Vector

abbrev is_text : Vector → Bool
is_text Vector.three = false
is_text Vector.quoted = true

abbrev is_number : Vector → Bool
is_number Vector.three = true
is_number Vector.quoted = false

abbrev characters : Vector → Text
characters Vector.three = []
characters Vector.quoted = codes "a\"b"

abbrev print : Expr Vector → Text
print (Expr.symbol s) = s
print _ = []

abbrev value_of : Expr Vector → Result Text Vector
value_of (Expr.constant v) = ok v
value_of _ = err (codes "object not found")

abbrev language : Language
language = record {
  V = Vector;
  as_flag = λ v. none;
  length_of = λ v. 1;
  is_character = is_text;
  any_na = λ v. false;
  any_bare_nan = λ v. false;
  as_list = λ v. v ∷ [];
  deparse1 = print;
  eval = value_of;
  tolower = to_ascii_lowercase;
}

-- doubles without values
abbrev vectors : Vectors Vector
vectors = record {
  D = Unit;
  is_bare_double = is_number;
  is_nan = λ v. false;
  is_na = λ v. false;
  as_double = λ v. tt;
  is_infinite = λ x. false;
  is_date = λ v. false;
  is_posixt = λ v. false;
  is_integer64 = λ v. false;
  is_factor = λ v. false;
  is_logical = λ v. false;
  is_character = is_text;
  is_numeric = is_number;
  is_integer = λ v. false;
  is_unclassed = λ v. true;
  is_true = λ v. false;
  as_character = characters;
  first_class = λ v. [];
  format_date = λ v. [];
  format_fixed = λ v. codes "3";
  format_digits = λ v. codes "3";
  is_exact_integer = λ v. true;
  in_micros = λ x. x;
  whole_seconds = λ x. x;
  minus_seconds = λ x y. x;
  format_utc = λ x. [];
  print_micros = λ x. [];
}

three_text : IsNumber (codes "3")
three_text = IsNumber.plain (IsUnsigned.integral (IsWhole.positive (omega arith) (omega arith) tt))

characters-NoNul : (v : Vector) → NoNul (characters v)
characters-NoNul Vector.three = tt
characters-NoNul Vector.quoted = (omega arith, (omega arith, (omega arith, tt)))

vectors-PrintsText : PrintsText language vectors
vectors-PrintsText = record {
  date = λ v. tt;
  utc = λ x. tt;
  micros = λ x. tt;
  fixed = λ v. (omega arith, tt);
  character = characters-NoNul;
  number = λ v a b c d f. (three_text, three_text);
}

abbrev op2 : Text → Expr Vector → Expr Vector → Expr Vector
op2 name a b = Expr.call (Expr.symbol name) (Args.cons [] a (Args.cons [] b Args.nil))

-- 3 > Price & name == "a\"b", of columns price and NAME
abbrev filter : Expr Vector
filter =
    op2 (codes "&") (op2 (codes ">") (Expr.constant Vector.three) (Expr.symbol (codes "Price")))
      (op2 (codes "==") (Expr.symbol (codes "name")) (Expr.constant Vector.quoted))

abbrev tree : Node Vector
tree = Node.and (
    Nodes.cons (Node.lt (codes "price") Vector.three)
      (Nodes.cons (Node.eq (codes "NAME") Vector.quoted) Nodes.nil))

abbrev columns : List Text
columns = codes "price" ∷ codes "NAME" ∷ []

filter-ok : translate_filter language columns false filter ≡ ok tree
unfolding translate_filter
filter-ok = refl

abbrev sent : Text
sent =
    codes
      "{\"op\":\"and\",\"args\":[{\"op\":\"lt\",\"col\":\"price\",\"value\":3},{\"op\":\"eq\",\"col\":\"NAME\",\"value\":\"a\\\"b\"}]}"

tree-sent : filter_to_json language vectors tree ≡ ok sent
unfolding filter_to_json json_scalar json_string
tree-sent = refl

translate_filter-filter_to_json_example :
    Encodes sent (document (map_node (scalar_json language vectors) tree))
unfolding AllValues
translate_filter-filter_to_json_example =
    translate_filter-filter_to_json language vectors columns false filter tree sent
      vectors-PrintsText
      (
        (omega arith, (omega arith, (omega arith, (omega arith, (omega arith, tt))))),
        ((omega arith, (omega arith, (omega arith, (omega arith, tt)))), tt),
      )
      (λ a b. refl, (λ a b. refl, tt)) filter-ok tree-sent
