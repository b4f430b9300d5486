-- ===== src/Filter/Sending.antt =====
-- `filter_to_json` and `json_scalar` of R/filter.R: the tree of nodes as the text that goes to the Rust
-- side.
pub mod Encoded
pub mod Listed
pub mod Scalars
pub mod Sound
mod Tests
use icebergr.Prelude.{
  List, [], ◌∷◌, ◌++◌, Bool, false, not, ◌&&◌, ◌||◌, if◌then◌else◌, Result, ok, err, ◌>>=◌, ◌==◌,
  traverse,
}
use icebergr.Prelude.Text.{Text, codes}
use icebergr.Predicate.Node.{Node, Nodes}
use icebergr.Filter.Lookup.{Language}
use icebergr.Filter.Json.{json_string}

-- What R itself says of a vector of length 1. `D` are doubles.
pub record Vectors (V : Type 0) : Type 1 where
  pub D : Type 0
  pub is_bare_double : V → Bool
  pub is_nan : V → Bool
  pub is_na : V → Bool
  pub as_double : V → D
  pub is_infinite : D → Bool
  pub is_date : V → Bool
  pub is_posixt : V → Bool
  pub is_integer64 : V → Bool
  pub is_factor : V → Bool
  pub is_logical : V → Bool
  pub is_character : V → Bool
  pub is_numeric : V → Bool
  pub is_integer : V → Bool
  -- `is.null(attr(v, "class"))`
  pub is_unclassed : V → Bool
  -- `if (v)`
  pub is_true : V → Bool
  -- the one text of a character vector or a factor
  pub as_character : V → Text
  -- `class(v)[[1L]]`
  pub first_class : V → Text
  -- `format(v, "%Y-%m-%d")`
  pub format_date : V → Text
  -- `format(v, scientific = FALSE)`, alike with `trim = TRUE`, and the same with `digits = 17`
  pub format_fixed : V → Text
  pub format_digits : V → Text
  -- `v == trunc(v) && abs(v) <= 2^53`
  pub is_exact_integer : V → Bool
  -- `round(x * 1e6)`, `floor(x / 1e6)` and `x - y * 1e6`
  pub in_micros : D → D
  pub whole_seconds : D → D
  pub minus_seconds : D → D → D
  -- `format(.POSIXct(x, tz = "UTC"), "%Y-%m-%dT%H:%M:%S", tz = "UTC")` and `sprintf(".%06.0fZ", x)`
  pub format_utc : D → Text
  pub print_micros : D → Text

pub data ScalarError : Type 0 where
  not_scalar compared_to_nan compared_to_na compared_to_infinite : ScalarError
  unsupported_class : Text → ScalarError

-- `paste(..., collapse = ",")`
abbrev pub collapse : List Text → Text
collapse [] = []
collapse (s ∷ []) = s
collapse (s ∷ t ∷ l) = s ++ b',' ∷ collapse (t ∷ l)

module _ (L : Language) (W : Vectors L.V) where
  open L use {V, length_of}
  open W use {
    is_bare_double, is_nan, is_na, as_double, is_infinite, is_date, is_posixt, is_integer64,
    is_factor, is_logical, is_character, is_numeric, is_integer, is_true, as_character, first_class,
    format_date, format_fixed, format_digits, is_exact_integer, in_micros, whole_seconds,
    minus_seconds, format_utc, print_micros,
  }

  abbrev pub iso_utc : V → Text
  iso_utc v =
      let micros = in_micros (as_double v) in
      let whole = whole_seconds micros in
      format_utc whole ++ print_micros (minus_seconds micros whole)

  abbrev pub is_unbounded : V → Bool
  is_unbounded v =
      if is_bare_double v || is_date v || is_posixt v then is_infinite (as_double v) else false

  -- the value's text, in the order of the tests for its class
  unfoldable pub scalar_text : V → Result ScalarError Text
  scalar_text v =
      if is_date v
      then ok (json_string (format_date v))
      else if is_posixt v
      then ok (json_string (iso_utc v))
      else if is_integer64 v
      then ok (json_string (format_fixed v))
      else if is_factor v
      then ok (json_string (as_character v))
      else if is_logical v
      then ok (if is_true v then codes "true" else codes "false")
      else if is_character v
      then ok (json_string (as_character v))
      else if is_numeric v
      then ok (if is_integer v || is_exact_integer v then format_fixed v else format_digits v)
      else err (ScalarError.unsupported_class (first_class v))

  unfoldable pub json_scalar : V → Result ScalarError Text
  unfolding scalar_text
  json_scalar v =
      if not (length_of v == 1)
      then err ScalarError.not_scalar
      else if is_bare_double v && is_nan v
      then err ScalarError.compared_to_nan
      else if is_na v
      then err ScalarError.compared_to_na
      else if is_unbounded v
      then err ScalarError.compared_to_infinite
      else scalar_text v

  abbrev pub value_json : Text → Text → V → Result ScalarError Text
  value_json op col v = json_scalar v >>= λ s. ok (
      codes "{\"op\":"
      ++ json_string op
      ++ codes ",\"col\":"
      ++ json_string col
      ++ codes ",\"value\":"
      ++ s
      ++ codes "}")

  abbrev pub column_json : Text → Text → Result ScalarError Text
  column_json op col =
      ok (codes "{\"op\":" ++ json_string op ++ codes ",\"col\":" ++ json_string col ++ codes "}")

  abbrev pub values_json : Text → Text → List V → Result ScalarError Text
  values_json op col vs = traverse json_scalar vs >>= λ l. ok (
      codes "{\"op\":"
      ++ json_string op
      ++ codes ",\"col\":"
      ++ json_string col
      ++ codes ",\"values\":["
      ++ collapse l
      ++ codes "]}")

  abbrev pub args_json : Text → Result ScalarError (List Text) → Result ScalarError Text
  args_json op args = args >>= λ l.
      ok (codes "{\"op\":" ++ json_string op ++ codes ",\"args\":[" ++ collapse l ++ codes "]}")

  abbrev pub constant_json : Text → Result ScalarError Text
  constant_json op = ok (codes "{\"op\":" ++ json_string op ++ codes "}")

  unfoldable mutual
    pub filter_to_json : Node V → Result ScalarError Text
    filter_to_json (Node.and args) = args_json (codes "and") (all_to_json args)
    filter_to_json (Node.or args) = args_json (codes "or") (all_to_json args)
    filter_to_json (Node.not arg) =
        filter_to_json arg >>= λ s. ok (codes "{\"op\":\"not\",\"arg\":" ++ s ++ codes "}")
    filter_to_json Node.always_true = constant_json (codes "always_true")
    filter_to_json Node.always_false = constant_json (codes "always_false")
    filter_to_json (Node.eq col v) = value_json (codes "eq") col v
    filter_to_json (Node.ne col v) = value_json (codes "ne") col v
    filter_to_json (Node.lt col v) = value_json (codes "lt") col v
    filter_to_json (Node.lte col v) = value_json (codes "lte") col v
    filter_to_json (Node.gt col v) = value_json (codes "gt") col v
    filter_to_json (Node.gte col v) = value_json (codes "gte") col v
    filter_to_json (Node.starts_with col v) = value_json (codes "starts_with") col v
    filter_to_json (Node.not_starts_with col v) = value_json (codes "not_starts_with") col v
    filter_to_json (Node.is_null col) = column_json (codes "is_null") col
    filter_to_json (Node.is_not_null col) = column_json (codes "is_not_null") col
    filter_to_json (Node.is_nan col) = column_json (codes "is_nan") col
    filter_to_json (Node.is_not_nan col) = column_json (codes "is_not_nan") col
    filter_to_json (Node.in_set col vs) = values_json (codes "in") col vs
    filter_to_json (Node.not_in col vs) = values_json (codes "not_in") col vs

    pub all_to_json : Nodes V → Result ScalarError (List Text)
    all_to_json Nodes.nil = ok []
    all_to_json (Nodes.cons n ns) =
        let rest = all_to_json ns in filter_to_json n >>= λ s. rest >>= λ l. ok (s ∷ l)
