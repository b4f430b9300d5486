-- ===== src/Predicate/Meaning/Tests/Filter.antt =====
-- The theorem on R filters, at a table with the columns of the small engine.
use icebergr.Prelude.{ℕ, List, [], ◌∷◌, true, false, none, All, ◌≡◌, refl, Result, ok, err}
use icebergr.Prelude.Text.{Text, codes, to_ascii_lowercase}
use icebergr.Iceberg.{PrimitiveType}
use icebergr.Predicate.Node.{AllTests, Node, Nodes, referenced_columns}
use icebergr.Predicate.Cmp.{Cmp}
use icebergr.Predicate.Literal.{datum}
use icebergr.Predicate.Build.{Truth, build, reference, compare_truth, missing_truth}
use icebergr.Predicate.Meaning.{Logical, is_true, is_false, IsExact}
use icebergr.Predicate.Meaning.Tests.{
  engine, rows, schema, minus_zero, minus_zero-RowFits, rows-InCLocale, JsonValue, RowSet, Value,
}
use icebergr.Filter.{Expr, Args, Language, arity, is_in, translate_filter}
use icebergr.Filter.Meaning.{map_node, in_order, Denotes}
use icebergr.Filter.Leaves.{PrintsNames}
use icebergr.Filter.Sound.{translate_filter-build}
use icebergr.Filter.Columns.{translate_filter-IsColumn}

-- R with doubles alone, and no variables
abbrev print : Expr ℕ → Text
print (Expr.symbol s) = s
print (Expr.constant v) = []
print (Expr.call f args) = []

abbrev value_of : Expr ℕ → Result Text ℕ
value_of (Expr.constant v) = ok v
value_of _ = err (codes "object not found")

abbrev language : Language
language = record {
  V = ℕ;
  as_flag = λ v. none;
  length_of = λ v. 1;
  is_character = λ v. false;
  any_na = λ v. false;
  any_bare_nan = λ v. false;
  as_list = λ v. v ∷ [];
  deparse1 = print;
  eval = value_of;
  tolower = to_ascii_lowercase;
}

language-PrintsNames : PrintsNames language
unfolding arity
language-PrintsNames (Expr.symbol s) k h = refl
language-PrintsNames (Expr.constant v) k h = cc
language-PrintsNames (Expr.call f args) k h = cc

abbrev op2 : Text → Expr ℕ → Expr ℕ → Expr ℕ
op2 name a b = Expr.call (Expr.symbol name) (Args.cons [] a (Args.cons [] b Args.nil))

abbrev op1 : Text → Expr ℕ → Expr ℕ
op1 name a = Expr.call (Expr.symbol name) (Args.cons [] a Args.nil)

abbrev price_name : Expr ℕ
price_name = Expr.symbol (codes "price")

-- 0 >= price & !is.na(price)
abbrev not_positive : Expr ℕ
not_positive =
    op2 (codes "&") (op2 (codes ">=") (Expr.constant 0) price_name)
      (op1 (codes "!") (op1 (codes "is.na") price_name))

abbrev not_positive_node : Node ℕ
not_positive_node = Node.and (
    Nodes.cons (Node.lte (codes "price") 0)
      (Nodes.cons (Node.is_not_null (codes "price")) Nodes.nil))

not_positive-ok :
    translate_filter language (codes "price" ∷ []) true not_positive ≡ ok not_positive_node
unfolding translate_filter
not_positive-ok = refl

abbrev not_positive_tree : Node JsonValue
not_positive_tree = Node.and (
    Nodes.cons (Node.lte (codes "price") (JsonValue.double 0))
      (Nodes.cons (Node.is_not_null (codes "price")) Nodes.nil))

not_positive_tree-map_node :
    map_node (λ v. JsonValue.double v) not_positive_node ≡ not_positive_tree
unfolding map_node
not_positive_tree-map_node = refl

-- the pair for price <= 0 & !is.na(price)
abbrev not_positive_truth : Truth RowSet
unfolding compare_truth missing_truth
not_positive_truth =
    let low = compare_truth engine Cmp.lte (codes "price") PrimitiveType.double (Value.double 0) in
    let absent = missing_truth engine (codes "price") PrimitiveType.double in
    record {
      t = engine.p_and (engine.p_and engine.always_true low.t) absent.f;
      f = engine.p_or (engine.p_or engine.always_false low.f) absent.t;
    }

not_positive_tree-build :
    build engine (map_node (λ v. JsonValue.double v) not_positive_node) schema true
    ≡ ok not_positive_truth
unfolding build map_node reference datum not_positive_truth
not_positive_tree-build = refl

-- `price` is a double
not_positive-IsExact :
    AllTests
      (IsExact engine rows schema true)
      (map_node (λ v. JsonValue.double v) not_positive_node)
unfolding AllTests map_node reference
not_positive-IsExact = ((λ r x h. absurd cc), (tt, tt))

translate_filter-build_example :
    (x : Logical) × Denotes language
      (codes "price" ∷ [])
      true
      engine
      rows
      schema
      (λ v. JsonValue.double v)
      minus_zero
      not_positive
      x
    × (not_positive_truth.t minus_zero ≡ is_true x)
    × (not_positive_truth.f minus_zero ≡ is_false x)
unfolding in_order
translate_filter-build_example =
    translate_filter-build language (codes "price" ∷ []) true engine rows schema
      (λ v. JsonValue.double v) minus_zero not_positive not_positive_node not_positive_truth
      language-PrintsNames minus_zero-RowFits rows-InCLocale not_positive-IsExact refl
      not_positive-ok not_positive_tree-build

-- the same filter of a table with other columns, one of which is `price` in another case
abbrev shouted : List Text
shouted = codes "ID" ∷ codes "PRICE" ∷ []

abbrev shouted_node : Node ℕ
shouted_node = Node.and (
    Nodes.cons (Node.lte (codes "PRICE") 0)
      (Nodes.cons (Node.is_not_null (codes "PRICE")) Nodes.nil))

shouted-ok : translate_filter language shouted false not_positive ≡ ok shouted_node
unfolding translate_filter
shouted-ok = refl

shouted-columns : referenced_columns shouted_node [] ≡ codes "PRICE" ∷ codes "PRICE" ∷ []
unfolding referenced_columns
shouted-columns = refl

translate_filter-IsColumn_example :
    All (λ c. is_in c shouted ≡ true) (referenced_columns shouted_node [])
translate_filter-IsColumn_example =
    translate_filter-IsColumn language shouted false not_positive shouted_node shouted-ok
