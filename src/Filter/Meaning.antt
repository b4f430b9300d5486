-- ===== src/Filter/Meaning.antt =====
-- What an R filter expression says of a row: R's own reading of it, with a name that is a column of the
-- table standing for the row's value there, and any other for what it holds in the caller's
-- environment. `json_of` is the JSON value that stands for an R vector of length 1.
use icebergr.Prelude.{
  List, map, Bool, true, ◌&&◌, ◌||◌, Option, none, some, ◌≡◌, ◌⊎◌, Ordering, if◌then◌else◌,
  is_empty, ok, traverse,
}
use icebergr.Prelude.Text.{Text, codes, text_eq}
use icebergr.Iceberg.{PrimitiveType, Schema}
use icebergr.Predicate.Node.{Node, Nodes}
use icebergr.Predicate.Engine.{Engine}
use icebergr.Predicate.Literal.{datum}
use icebergr.Predicate.Cmp.{Cmp, compares}
use icebergr.Predicate.Build.{reference}
use icebergr.Predicate.Meaning.{
  Logical, logical, Cell, Rows, r_and, r_or, r_not, r_compare, r_missing, r_is_nan, r_in, r_prefix,
  r_order_of, orders,
}
use icebergr.Filter.{Expr, Args, Language, comparison_op}
use icebergr.Filter.Inversion.{Names, Evaluates}

-- A node with its values replaced.
unfoldable mutual
  pub map_node : {V J : Type 0} → (V → J) → Node V → Node J
  map_node f (Node.and args) = Node.and (map_nodes f args)
  map_node f (Node.or args) = Node.or (map_nodes f args)
  map_node f (Node.not arg) = Node.not (map_node f arg)
  map_node f Node.always_true = Node.always_true
  map_node f Node.always_false = Node.always_false
  map_node f (Node.eq col v) = Node.eq col (f v)
  map_node f (Node.ne col v) = Node.ne col (f v)
  map_node f (Node.lt col v) = Node.lt col (f v)
  map_node f (Node.lte col v) = Node.lte col (f v)
  map_node f (Node.gt col v) = Node.gt col (f v)
  map_node f (Node.gte col v) = Node.gte col (f v)
  map_node f (Node.starts_with col v) = Node.starts_with col (f v)
  map_node f (Node.not_starts_with col v) = Node.not_starts_with col (f v)
  map_node f (Node.is_null col) = Node.is_null col
  map_node f (Node.is_not_null col) = Node.is_not_null col
  map_node f (Node.is_nan col) = Node.is_nan col
  map_node f (Node.is_not_nan col) = Node.is_not_nan col
  map_node f (Node.in_set col vs) = Node.in_set col (map f vs)
  map_node f (Node.not_in col vs) = Node.not_in col (map f vs)

  pub map_nodes : {V J : Type 0} → (V → J) → Nodes V → Nodes J
  map_nodes f Nodes.nil = Nodes.nil
  map_nodes f (Nodes.cons n ns) = Nodes.cons (map_node f n) (map_nodes f ns)

-- The name of an argument leaves it in the place that it is written in.
abbrev pub fits_formal : Text → Text → Bool
fits_formal label formal = is_empty label || text_eq label formal

abbrev pub labels_fit : {V : Type 0} → Text → Args V → Bool
labels_fit fn (Args.cons l a (Args.cons m b Args.nil)) =
    if text_eq fn (codes "startsWith")
    then fits_formal l (codes "x") && fits_formal m (codes "prefix")
    else if text_eq fn (codes "%in%")
    then fits_formal l (codes "x") && fits_formal m (codes "table")
    else true
labels_fit fn _ = true

-- No call of `startsWith` or `%in%` names its arguments out of their order: these are the functions
-- that R matches arguments to by name. The function of a call is told by how it prints.
unfoldable mutual
  pub in_order : {V : Type 0} → (Expr V → Text) → Expr V → Bool
  in_order print (Expr.symbol s) = true
  in_order print (Expr.constant v) = true
  in_order print (Expr.call f args) = labels_fit (print f) args && all_in_order print args

  all_in_order : {V : Type 0} → (Expr V → Text) → Args V → Bool
  all_in_order print Args.nil = true
  all_in_order print (Args.cons l a args) = in_order print a && all_in_order print args

abbrev pub reversed : Ordering → Ordering
reversed Ordering.lt = Ordering.gt
reversed Ordering.eq = Ordering.eq
reversed Ordering.gt = Ordering.lt

module _ (E : Engine) (S : Rows E) where
  open S use {order}

  abbrev compared_from : Cmp → Option Ordering → Logical
  compared_from op none = Logical.na
  compared_from op (some o) = logical (compares op (reversed o))

  -- `literal <op> x`
  abbrev pub r_compare_from : Cmp → (E.Datum → Option Ordering) → Cell E.Datum → Logical
  r_compare_from op f Cell.absent = Logical.na
  r_compare_from op f Cell.null = Logical.na
  r_compare_from op f (Cell.value v) = compared_from op (f v)

module _ (L : Language) (columns : List Text) (cs : Bool) (E : Engine) (S : Rows E)
    (schema : Schema) (json_of : L.V → E.Json) (row : S.Row) where
  open L use {V, as_flag, as_list, deparse1}
  open S use {cell}

  -- the expression names a column that the table has, of the type
  abbrev pub IsColumnOf : Expr V → Text → E.Reference → PrimitiveType → Type 0
  IsColumnOf e col r ty = Names L columns cs e col × (reference E col schema cs ≡ ok (r, ty))

  -- the expression is a value, and the literal stands for it beside the column
  abbrev pub IsLiteral : Expr V → Text → PrimitiveType → V → E.Datum → Type 0
  IsLiteral e col ty v d = Evaluates L columns cs e v × (datum E (json_of v) ty col ≡ ok d)

  abbrev pub IsLiteralSet : Expr V → Text → PrimitiveType → V → List E.Datum → Type 0
  IsLiteralSet e col ty v ds =
      Evaluates L columns cs e v
      × (traverse (λ j. datum E j ty col) (map json_of (as_list v)) ≡ ok ds)

  -- The value of the expression on the row.
  pub data Denotes : Expr V → Logical → Type 0 where
    flag : (v : V) (b : Bool) → as_flag v ≡ some b → Denotes (Expr.constant v) (logical b)
    parens :
        {f a : Expr V} {l : Text} {x : Logical}
        → f ≡ Expr.symbol (codes "(")
        → Denotes a x
        → Denotes (Expr.call f (Args.cons l a Args.nil)) x
    negation :
        {f a : Expr V} {l : Text} {x : Logical}
        → f ≡ Expr.symbol (codes "!")
        → Denotes a x
        → Denotes (Expr.call f (Args.cons l a Args.nil)) (r_not x)
    na_test :
        {f a : Expr V} {l col : Text} {r : E.Reference} {ty : PrimitiveType}
        → f ≡ Expr.symbol (codes "is.na")
        → IsColumnOf a col r ty
        → Denotes (Expr.call f (Args.cons l a Args.nil)) (r_missing E S (cell row r))
    nan_test :
        {f a : Expr V} {l col : Text} {r : E.Reference} {ty : PrimitiveType}
        → f ≡ Expr.symbol (codes "is.nan")
        → IsColumnOf a col r ty
        → Denotes (Expr.call f (Args.cons l a Args.nil)) (r_is_nan E S (cell row r))
    conjunction :
        {f a b : Expr V} {l m : Text} {x y : Logical}
        → (f ≡ Expr.symbol (codes "&")) ⊎ (f ≡ Expr.symbol (codes "&&"))
        → Denotes a x
        → Denotes b y
        → Denotes (Expr.call f (Args.cons l a (Args.cons m b Args.nil))) (r_and x y)
    disjunction :
        {f a b : Expr V} {l m : Text} {x y : Logical}
        → (f ≡ Expr.symbol (codes "|")) ⊎ (f ≡ Expr.symbol (codes "||"))
        → Denotes a x
        → Denotes b y
        → Denotes (Expr.call f (Args.cons l a (Args.cons m b Args.nil))) (r_or x y)
    prefix_test :
        {f a b : Expr V} {l m col : Text} {r : E.Reference} {ty : PrimitiveType} {v : V}
        {d : E.Datum}
        → f ≡ Expr.symbol (codes "startsWith")
        → fits_formal l (codes "x") ≡ true
        → fits_formal m (codes "prefix") ≡ true
        → IsColumnOf a col r ty
        → IsLiteral b col ty v d
        → Denotes
            (Expr.call f (Args.cons l a (Args.cons m b Args.nil)))
            (r_prefix E S (cell row r) d)
    set_test :
        {f a b : Expr V} {l m col : Text} {r : E.Reference} {ty : PrimitiveType} {v : V}
        {ds : List E.Datum}
        → f ≡ Expr.symbol (codes "%in%")
        → fits_formal l (codes "x") ≡ true
        → fits_formal m (codes "table") ≡ true
        → IsColumnOf a col r ty
        → IsLiteralSet b col ty v ds
        → Denotes
            (Expr.call f (Args.cons l a (Args.cons m b Args.nil)))
            (r_in E S (cell row r) (orders E S ty (map json_of (as_list v)) ds))
    column_left :
        {fn l m col : Text} {a b : Expr V} {op : Cmp} {r : E.Reference} {ty : PrimitiveType} {v : V}
        {d : E.Datum}
        → comparison_op fn ≡ some op
        → IsColumnOf a col r ty
        → IsLiteral b col ty v d
        → Denotes
            (Expr.call (Expr.symbol fn) (Args.cons l a (Args.cons m b Args.nil)))
            (r_compare E S op (cell row r) (r_order_of E S ty (json_of v) d))
    column_right :
        {fn l m col : Text} {a b : Expr V} {op : Cmp} {r : E.Reference} {ty : PrimitiveType} {v : V}
        {d : E.Datum}
        → comparison_op fn ≡ some op
        → IsColumnOf b col r ty
        → IsLiteral a col ty v d
        → Denotes
            (Expr.call (Expr.symbol fn) (Args.cons l a (Args.cons m b Args.nil)))
            (r_compare_from E S op (r_order_of E S ty (json_of v) d) (cell row r))
