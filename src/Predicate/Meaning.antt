-- ===== src/Predicate/Meaning.antt =====
-- What a filter means. On one side the rows and how iceberg-rust evaluates a predicate on one, as
-- named hypotheses about that crate; on the other R's three-valued logic, on which the pairs that
-- predicate.rs builds are meant to agree.
mod Logic
mod Evaluation
pub mod Exact
pub mod Leaves
pub mod Missing
pub mod Sets
pub mod Sound
mod Tests
pub use Logic.*
pub use Evaluation.*
use icebergr.Prelude.{
  All, ℕ, List, [], ◌∷◌, Bool, true, false, not, ◌&&◌, ◌||◌, Option, none, some, ◌≡◌, Ordering, ltb,
  if◌then◌else◌, any, Result, ok, err, ◌>>=◌, traverse,
}
use icebergr.Prelude.Text.{Text}
use icebergr.Iceberg.{PrimitiveType, Schema}
use icebergr.Predicate.Float.{binary32, binary64, is_nan_bits, total_order, value_order}
use icebergr.Predicate.Node.{Node, Nodes}
use icebergr.Predicate.Engine.{Engine, Literal}
use icebergr.Predicate.Message.{RResult, fail, prefix_on_other_type}
use icebergr.Predicate.Literal.{datum}
use icebergr.Predicate.Cmp.{Cmp, compares}
use icebergr.Predicate.Build.{Truth, is_string, reference}

-- The kind of literal that a column of each type holds.
abbrev pub FitsType : PrimitiveType → Literal → Type 0
FitsType PrimitiveType.float l = (x : ℕ) × (l ≡ Literal.float x)
FitsType PrimitiveType.double l = (x : ℕ) × (l ≡ Literal.double x)
FitsType _ l = l ≡ Literal.other

-- How R orders two values of one type: not at all beside a NaN, by value for other floats, and by `o`
-- for every other type.
abbrev pub r_order : Literal → Literal → Ordering → Option Ordering
r_order (Literal.float x) (Literal.float y) o =
    if is_nan_bits binary32 x || is_nan_bits binary32 y
    then none
    else some (value_order binary32 x y)
r_order (Literal.double x) (Literal.double y) o =
    if is_nan_bits binary64 x || is_nan_bits binary64 y
    then none
    else some (value_order binary64 x y)
r_order _ _ o = some o

module _ (E : Engine) (S : Rows E) where
  open S use {Row, cell, order, collate, has_prefix}

  abbrev compared : Cmp → Option Ordering → Logical
  compared op none = Logical.na
  compared op (some o) = logical (compares op o)

  abbrev pub same : Option Ordering → Bool
  same none = false
  same (some o) = is_eq o

  -- a value and a literal of its column's type
  abbrev pub stored_order_of : E.Datum → E.Datum → Option Ordering
  stored_order_of v d = r_order (E.literal v) (E.literal d) (collate v d)

  -- a float beside a double: R has no float but as the double of the same value
  abbrev float_order : Literal → Option ℕ → Option Ordering → Option Ordering
  float_order (Literal.float x) (some y) o =
      if is_nan_bits binary32 x || is_nan_bits binary64 y
      then none
      else some (value_order binary64 (S.to_f64 x) y)
  float_order _ _ o = o

  -- A value of a column beside the JSON value that R sent, which is `d` as a literal of the column's
  -- type. A float column's is not rounded here: it is the double that R has.
  abbrev pub r_order_of : PrimitiveType → E.Json → E.Datum → E.Datum → Option Ordering
  r_order_of PrimitiveType.float j d v =
      float_order (E.literal v) (E.json_as_f64 j) (stored_order_of v d)
  r_order_of _ j d v = stored_order_of v d

  -- Rounding to 32 bits changes no literal that is compared with a float column.
  abbrev pub IsExact : Schema → Bool → Text → E.Json → Type 0
  IsExact schema cs col j =
      (r : E.Reference) (x : ℕ)
      → reference E col schema cs ≡ ok (r, PrimitiveType.float)
      → E.json_as_f64 j ≡ some x
      → S.to_f64 (E.to_f32 x) ≡ x

  -- R orders values that are not floats as Iceberg does. Of strings that is so in the C locale, and in
  -- no other: Iceberg's order is that of the bytes.
  abbrev pub InCLocale : Type 0
  InCLocale = (v d : E.Datum) → E.literal v ≡ Literal.other → collate v d ≡ order v d

  -- `x <op> literal`, with the order of a value beside the literal
  abbrev pub r_compare : Cmp → Cell E.Datum → (E.Datum → Option Ordering) → Logical
  r_compare op Cell.absent f = Logical.na
  r_compare op Cell.null f = Logical.na
  r_compare op (Cell.value v) f = compared op (f v)

  abbrev pub stored_compare : Cmp → Cell E.Datum → E.Datum → Logical
  stored_compare op Cell.absent d = Logical.na
  stored_compare op Cell.null d = Logical.na
  stored_compare op (Cell.value v) d = compared op (stored_order_of v d)

  -- `is.na(x)` and `is.nan(x)`
  abbrev pub r_missing : Cell E.Datum → Logical
  r_missing Cell.absent = Logical.holds
  r_missing Cell.null = Logical.holds
  r_missing (Cell.value v) = logical (nan_literal (E.literal v))

  abbrev pub r_is_nan : Cell E.Datum → Logical
  r_is_nan Cell.absent = Logical.fails
  r_is_nan Cell.null = Logical.fails
  r_is_nan (Cell.value v) = logical (nan_literal (E.literal v))

  -- `x %in% literals`
  abbrev pub r_in : Cell E.Datum → List (E.Datum → Option Ordering) → Logical
  r_in Cell.absent fs = Logical.fails
  r_in Cell.null fs = Logical.fails
  r_in (Cell.value v) fs = logical (any (λ f. same (f v)) fs)

  abbrev pub stored_in : Cell E.Datum → List E.Datum → Logical
  stored_in Cell.absent ds = Logical.fails
  stored_in Cell.null ds = Logical.fails
  stored_in (Cell.value v) ds = logical (any (λ d. same (stored_order_of v d)) ds)

  -- the order beside each of a vector's values
  abbrev pub orders : PrimitiveType → List E.Json → List E.Datum → List (E.Datum → Option Ordering)
  orders ty [] ds = []
  orders ty (j ∷ js) [] = []
  orders ty (j ∷ js) (d ∷ ds) = r_order_of ty j d ∷ orders ty js ds

  -- `startsWith(x, literal)`
  abbrev pub r_prefix : Cell E.Datum → E.Datum → Logical
  r_prefix Cell.absent d = Logical.na
  r_prefix Cell.null d = Logical.na
  r_prefix (Cell.value v) d = logical (has_prefix v d)

  abbrev pub r_compare_node : Cmp → Text → E.Json → Schema → Bool → Row → RResult Logical
  r_compare_node op col v schema cs row = do
    (r, ty) ← reference E col schema cs
    d ← datum E v ty col
    ok (r_compare op (cell row r) (r_order_of ty v d))

  abbrev pub r_missing_node : Text → Schema → Bool → Row → RResult Logical
  r_missing_node col schema cs row = do
    (r, ty) ← reference E col schema cs
    ok (r_missing (cell row r))

  abbrev pub r_nan_node : Text → Schema → Bool → Row → RResult Logical
  r_nan_node col schema cs row = do (r, ty) ← reference E col schema cs; ok (r_is_nan (cell row r))

  abbrev pub r_prefix_node : Text → E.Json → Schema → Bool → Row → RResult Logical
  r_prefix_node col v schema cs row = do
    (r, ty) ← reference E col schema cs
    if not (is_string ty)
        then fail (prefix_on_other_type col ty)
        else do d ← datum E v ty col; ok (r_prefix (cell row r) d)

  abbrev pub r_in_node : Text → List E.Json → Schema → Bool → Row → RResult Logical
  r_in_node col vs schema cs row = do
    (r, ty) ← reference E col schema cs
    ds ← traverse (λ v. datum E v ty col) vs
    ok (r_in (cell row r) (orders ty vs ds))

  abbrev negated : RResult Logical → RResult Logical
  negated m = m >>= λ x. ok (r_not x)

  -- The value of the R expression on a row, or the error of a name or a literal in it.
  unfoldable mutual
    pub r_value : Node E.Json → Schema → Bool → Row → RResult Logical
    r_value (Node.and args) schema cs row = r_all args schema cs row Logical.holds
    r_value (Node.or args) schema cs row = r_any args schema cs row Logical.fails
    r_value (Node.not arg) schema cs row = negated (r_value arg schema cs row)
    r_value Node.always_true schema cs row = ok Logical.holds
    r_value Node.always_false schema cs row = ok Logical.fails
    r_value (Node.is_null col) schema cs row = r_missing_node col schema cs row
    r_value (Node.is_not_null col) schema cs row = negated (r_missing_node col schema cs row)
    r_value (Node.is_nan col) schema cs row = r_nan_node col schema cs row
    r_value (Node.is_not_nan col) schema cs row = negated (r_nan_node col schema cs row)
    r_value (Node.eq col v) schema cs row = r_compare_node Cmp.eq col v schema cs row
    r_value (Node.ne col v) schema cs row = r_compare_node Cmp.ne col v schema cs row
    r_value (Node.lt col v) schema cs row = r_compare_node Cmp.lt col v schema cs row
    r_value (Node.lte col v) schema cs row = r_compare_node Cmp.lte col v schema cs row
    r_value (Node.gt col v) schema cs row = r_compare_node Cmp.gt col v schema cs row
    r_value (Node.gte col v) schema cs row = r_compare_node Cmp.gte col v schema cs row
    r_value (Node.starts_with col v) schema cs row = r_prefix_node col v schema cs row
    r_value (Node.not_starts_with col v) schema cs row = negated (r_prefix_node col v schema cs row)
    r_value (Node.in_set col vs) schema cs row = r_in_node col vs schema cs row
    r_value (Node.not_in col vs) schema cs row = negated (r_in_node col vs schema cs row)

    pub r_all : Nodes E.Json → Schema → Bool → Row → Logical → RResult Logical
    r_all Nodes.nil schema cs row acc = ok acc
    r_all (Nodes.cons n ns) schema cs row acc = do
      x ← r_value n schema cs row
      r_all ns schema cs row (r_and acc x)

    pub r_any : Nodes E.Json → Schema → Bool → Row → Logical → RResult Logical
    r_any Nodes.nil schema cs row acc = ok acc
    r_any (Nodes.cons n ns) schema cs row acc = do
      x ← r_value n schema cs row
      r_any ns schema cs row (r_or acc x)

  -- Every value of a column is of the column's type.
  abbrev pub RowFits : Schema → Bool → Row → Type 0
  RowFits schema cs row =
      (col : Text) (r : E.Reference) (ty : PrimitiveType) (v : E.Datum)
      → reference E col schema cs ≡ ok (r, ty)
      → cell row r ≡ Cell.value v
      → FitsType ty (E.literal v)

  -- The pair matches the rows where the value is TRUE and those where it is FALSE.
  abbrev pub Pairs : Row → Truth E.Predicate → Logical → Type 0
  Pairs row truth x = (S.matches truth.t row ≡ is_true x) × (S.matches truth.f row ≡ is_false x)

  abbrev pub Agrees : Row → RResult (Truth E.Predicate) → RResult Logical → Type 0
  Agrees row (ok truth) (ok x) = Pairs row truth x
  Agrees row (err e) (err e') = e ≡ e'
  Agrees row _ _ = ⊥
