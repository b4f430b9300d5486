-- ===== src/Filter/Sending/Sound.antt =====
-- What `filter_to_json` writes is the document that serde reads as the tree.
use icebergr.Prelude.{
  List, [], ◌∷◌, ◌++◌, map, Bool, true, ◌≡◌, refl, Result, ok, ◌>>=◌, >>=-eq-ok, traverse, All,
  append_assoc, all, not, ◌==◌,
}
use icebergr.Prelude.Text.{Text, codes}
use icebergr.Predicate.Node.{Node, Nodes, referenced_columns, referenced_columns_all}
use icebergr.Filter.Lookup.{Language, Expr}
use icebergr.Filter.{translate_filter}
use icebergr.Filter.Meaning.{map_node, map_nodes}
use icebergr.Filter.Columns.{translate_filter-IsColumn}
use icebergr.Filter.Json.{json_string}
use icebergr.Filter.Document.{
  Json, Items, Members, Encodes, items, tagged, of_column, with_value, with_values, with_args,
  document, documents,
}
use icebergr.Filter.Sending.{
  Vectors, ScalarError, collapse, json_scalar, value_json, column_json, values_json, args_json,
  constant_json, filter_to_json, all_to_json,
}
use icebergr.Filter.Sending.Encoded.{
  NoNul, all-NoNul, col_key, arg_key, args_key, value_key, values_key, json_string-Encodes,
  tagged-Encodes, two-Encodes, three-Encodes,
}
use icebergr.Filter.Sending.Scalars.{
  PrintsText, IsBare, AllValues, AllValuesOf, scalar_json, json_scalar-Encodes, Each,
  collapse-EncodesItems, traverse-Each,
}
use icebergr.Filter.Sending.Listed.{snoc-All, referenced_columns_all-All, All-is_in}

module _ (L : Language) (W : Vectors L.V) (prints : PrintsText L W) where
  open L use {V}

  abbrev Gives : Result ScalarError Text → Json → Type 0
  Gives r j = (s : Text) → r ≡ ok s → Encodes s j

  given :
      (t u s : Text) (j : Json)
      → t ≡ u
      → ◌≡◌ {A = Result ScalarError Text} (ok u) (ok s)
      → Encodes t j
      → Encodes s j
  given t u s j e h w = let same : t ≡ s = cc in rw (← same) w

  tagged-Gives :
      (op : Text)
      → all (λ c. not (c == 0)) op ≡ true
      → Gives (constant_json L W op) (tagged op Members.empty)
  tagged-Gives op h s e = given _ _ s _ refl e (tagged-Encodes op (all-NoNul op h))

  column-Gives :
      (op col : Text)
      → all (λ c. not (c == 0)) op ≡ true
      → NoNul col
      → Gives (column_json L W op col) (of_column op col Members.empty)
  column-Gives op col h hc s e = given _ _ s _ (simp (append_assoc)) e (
      two-Encodes op (codes "\"col\"") (json_string col) (codes "col") (Json.string col)
        (all-NoNul op h) col_key (json_string-Encodes col hc))

  value-Gives :
      (op col : Text) (v : V)
      → all (λ c. not (c == 0)) op ≡ true
      → NoNul col
      → IsBare L W v
      → Gives (value_json L W op col v) (with_value op col (scalar_json L W v))
  value-Gives op col v h hc bare s e =
      let (t, ht, e1) = >>=-eq-ok (json_scalar L W v) _ e in
      given _ _ s _ (simp (append_assoc)) e1 (
        three-Encodes op (codes "\"col\"") (json_string col) (codes "col") (codes "\"value\"") t
          (codes "value") (Json.string col) (scalar_json L W v) (all-NoNul op h) col_key
          (json_string-Encodes col hc) value_key (json_scalar-Encodes L W prints v t bare ht))

  list-Encodes :
      (l : List Text) (js : Items)
      → Each l js
      → Encodes (b'[' ∷ (collapse l ++ b']' ∷ [])) (Json.array js)
  list-Encodes l js h = Encodes.array (collapse-EncodesItems l js h)

  values-Gives :
      (op col : Text) (vs : List V)
      → all (λ c. not (c == 0)) op ≡ true
      → NoNul col
      → All (IsBare L W) vs
      → Gives (values_json L W op col vs) (with_values op col (map (scalar_json L W) vs))
  values-Gives op col vs h hc bare s e =
      let (l, hl, e1) = >>=-eq-ok (traverse (json_scalar L W) vs) _ e in
      given _ _ s _ (simp (append_assoc)) e1 (
        three-Encodes op (codes "\"col\"") (json_string col) (codes "col") (codes "\"values\"")
          (b'[' ∷ (collapse l ++ b']' ∷ [])) (codes "values") (Json.string col)
          (Json.array (items (map (scalar_json L W) vs))) (all-NoNul op h) col_key
          (json_string-Encodes col hc) values_key
          (list-Encodes l _ (traverse-Each L W prints vs l bare hl)))

  args-Gives :
      (op : Text) (args : Result ScalarError (List Text)) (js : Items)
      → all (λ c. not (c == 0)) op ≡ true
      → ((l : List Text) → args ≡ ok l → Each l js)
      → Gives (args_json L W op args) (with_args op js)
  args-Gives op args js h ih s e =
      let (l, hl, e1) = >>=-eq-ok args _ e in
      given _ _ s _ (simp (append_assoc)) e1 (
        two-Encodes op (codes "\"args\"") (b'[' ∷ (collapse l ++ b']' ∷ [])) (codes "args")
          (Json.array js) (all-NoNul op h) args_key (list-Encodes l js (ih l hl)))

  not-Gives :
      (made : Result ScalarError Text) (j : Json)
      → Gives made j
      → Gives
          (made >>= λ s. ok (codes "{\"op\":\"not\",\"arg\":" ++ s ++ codes "}"))
          (tagged (codes "not") (Members.member (codes "arg") j Members.empty))
  unfolding json_string
  not-Gives made j ih s e =
      let (t, ht, e1) = >>=-eq-ok made _ e in
      given _ _ s _ refl e1 (
        two-Encodes (codes "not") (codes "\"arg\"") t (codes "arg") j (all-NoNul (codes "not") refl)
          arg_key (ih t ht))

  mutual
    unfolding filter_to_json referenced_columns map_node document AllValues

    node-Gives :
        (n : Node V) (out : List Text)
        → All NoNul (referenced_columns n out)
        → AllValues (IsBare L W) n
        → Gives (filter_to_json L W n) (document (map_node (scalar_json L W) n))
    node-Gives (Node.and args) out c b = args-Gives (codes "and") _ _ refl (nodes-Each args out c b)
    node-Gives (Node.or args) out c b = args-Gives (codes "or") _ _ refl (nodes-Each args out c b)
    node-Gives (Node.not arg) out c b = not-Gives _ _ (node-Gives arg out c b)
    node-Gives Node.always_true out c b = tagged-Gives (codes "always_true") refl
    node-Gives Node.always_false out c b = tagged-Gives (codes "always_false") refl
    node-Gives (Node.eq col v) out c b =
        value-Gives (codes "eq") col v refl (snoc-All NoNul out col c).1 b
    node-Gives (Node.ne col v) out c b =
        value-Gives (codes "ne") col v refl (snoc-All NoNul out col c).1 b
    node-Gives (Node.lt col v) out c b =
        value-Gives (codes "lt") col v refl (snoc-All NoNul out col c).1 b
    node-Gives (Node.lte col v) out c b =
        value-Gives (codes "lte") col v refl (snoc-All NoNul out col c).1 b
    node-Gives (Node.gt col v) out c b =
        value-Gives (codes "gt") col v refl (snoc-All NoNul out col c).1 b
    node-Gives (Node.gte col v) out c b =
        value-Gives (codes "gte") col v refl (snoc-All NoNul out col c).1 b
    node-Gives (Node.starts_with col v) out c b =
        value-Gives (codes "starts_with") col v refl (snoc-All NoNul out col c).1 b
    node-Gives (Node.not_starts_with col v) out c b =
        value-Gives (codes "not_starts_with") col v refl (snoc-All NoNul out col c).1 b
    node-Gives (Node.is_null col) out c b =
        column-Gives (codes "is_null") col refl (snoc-All NoNul out col c).1
    node-Gives (Node.is_not_null col) out c b =
        column-Gives (codes "is_not_null") col refl (snoc-All NoNul out col c).1
    node-Gives (Node.is_nan col) out c b =
        column-Gives (codes "is_nan") col refl (snoc-All NoNul out col c).1
    node-Gives (Node.is_not_nan col) out c b =
        column-Gives (codes "is_not_nan") col refl (snoc-All NoNul out col c).1
    node-Gives (Node.in_set col vs) out c b =
        values-Gives (codes "in") col vs refl (snoc-All NoNul out col c).1 b
    node-Gives (Node.not_in col vs) out c b =
        values-Gives (codes "not_in") col vs refl (snoc-All NoNul out col c).1 b

    nodes-Each :
        (ns : Nodes V) (out : List Text)
        → All NoNul (referenced_columns_all ns out)
        → AllValuesOf (IsBare L W) ns
        → (l : List Text) → all_to_json L W ns ≡ ok l
        → Each l (documents (map_nodes (scalar_json L W) ns))
    nodes-Each Nodes.nil out c b l e = let same : [] ≡ l = cc in rw (← same) tt
    nodes-Each (Nodes.cons n ns) out c (b, bs) l e =
        let (s, hs, e1) = >>=-eq-ok (filter_to_json L W n) _ e in
        let (rest, hr, e2) = >>=-eq-ok (all_to_json L W ns) _ e1 in
        let same : s ∷ rest ≡ l = cc in
        let here = referenced_columns_all-All NoNul ns (referenced_columns n out) c in
        rw (← same)
          (node-Gives n out here b s hs, nodes-Each ns (referenced_columns n out) c bs rest hr)

-- The text that a scan sends is the filter's own document. If no column name of the table holds a NUL,
-- and no number among the filter's values has a class other than integer64, then whatever text
-- `filter_to_json` makes of a translated filter is a JSON document, and it is the one that serde reads
-- as that tree: an object for each node, tagged with the node's name under `op`, with the columns as
-- strings and each vector as the JSON value that stands for it. R is taken to put no NUL in a text, and
-- to print a number that has no class and is neither missing nor infinite in digits.
pub translate_filter-filter_to_json :
    (L : Language) (W : Vectors L.V) (columns : List Text) (cs : Bool) (e : Expr L.V) (n : Node L.V)
    (s : Text)
    → PrintsText L W
    → All NoNul columns
    → AllValues (IsBare L W) n
    → translate_filter L columns cs e ≡ ok n
    → filter_to_json L W n ≡ ok s
    → Encodes s (document (map_node (scalar_json L W) n))
translate_filter-filter_to_json L W columns cs e n s prints clean bare h k =
    node-Gives L W prints n []
      (All-is_in NoNul columns (referenced_columns n []) clean
        (translate_filter-IsColumn L columns cs e n h))
      bare s k
