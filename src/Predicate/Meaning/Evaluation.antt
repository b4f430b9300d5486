-- ===== src/Predicate/Meaning/Evaluation.antt =====
-- The rows of a table, and how iceberg-rust evaluates a predicate on one: named hypotheses about that
-- crate. Also how R orders values.
use icebergr.Prelude.{ℕ, List, Bool, true, false, not, ◌&&◌, ◌||◌, some, ◌≡◌, Ordering, any}
use icebergr.Predicate.Float.{binary32, binary64, is_nan_bits, total_order, value_order}
use icebergr.Predicate.Engine.{Engine, Literal}
use icebergr.Predicate.Cmp.{Cmp, compares}

-- What a row has in a column: its file may lack the column, and the value may be missing.
pub data Cell (D : Type 0) : Type 0 where
  absent null : Cell D
  value : D → Cell D

-- What iceberg-rust's row filter answers for a column that the file lacks.
abbrev pub absent_answer : Cmp → Bool
absent_answer Cmp.lt = true
absent_answer Cmp.lte = true
absent_answer _ = false

abbrev pub nan_literal : Literal → Bool
nan_literal (Literal.float x) = is_nan_bits binary32 x
nan_literal (Literal.double x) = is_nan_bits binary64 x
nan_literal Literal.other = false

-- A test of a cell, with its answers for an absent column and for a null.
abbrev pub on_cell : {D : Type 0} → Bool → Bool → (D → Bool) → Cell D → Bool
on_cell a n f Cell.absent = a
on_cell a n f Cell.null = n
on_cell a n f (Cell.value v) = f v

abbrev pub is_eq : Ordering → Bool
is_eq Ordering.eq = true
is_eq _ = false

-- The rows of a table, and iceberg-rust's evaluation of predicates on them: nulls match no comparison,
-- floats are compared in the total order, and an absent column is answered from a table of constants.
pub record Rows (E : Engine) : Type 1 where
  pub Row : Type 0
  pub cell : Row → E.Reference → Cell E.Datum
  pub matches : E.Predicate → Row → Bool
  pub order : E.Datum → E.Datum → Ordering
  -- R's own order of a value that is not a float and another: of strings, the locale's collation
  pub collate : E.Datum → E.Datum → Ordering
  pub has_prefix : E.Datum → E.Datum → Bool
  pub matches-true : (row : Row) → matches E.always_true row ≡ true
  pub matches-false : (row : Row) → matches E.always_false row ≡ false
  pub matches-and :
      (p q : E.Predicate) (row : Row) → matches (E.p_and p q) row ≡ (matches p row && matches q row)
  pub matches-or :
      (p q : E.Predicate) (row : Row) → matches (E.p_or p q) row ≡ (matches p row || matches q row)
  pub matches-is_null :
      (r : E.Reference) (row : Row)
      → matches (E.is_null r) row ≡ on_cell true true (λ _. false) (cell row r)
  pub matches-is_not_null :
      (r : E.Reference) (row : Row)
      → matches (E.is_not_null r) row ≡ on_cell false false (λ _. true) (cell row r)
  pub matches-is_nan :
      (r : E.Reference) (row : Row)
      → matches (E.is_nan r) row ≡ on_cell false false (λ v. nan_literal (E.literal v)) (cell row r)
  pub matches-is_not_nan :
      (r : E.Reference) (row : Row)
      → matches (E.is_not_nan r) row
        ≡ on_cell true true (λ v. not (nan_literal (E.literal v))) (cell row r)
  pub matches-equal_to :
      (r : E.Reference) (d : E.Datum) (row : Row)
      → matches (E.equal_to r d) row
        ≡ on_cell false false (λ v. compares Cmp.eq (order v d)) (cell row r)
  pub matches-not_equal_to :
      (r : E.Reference) (d : E.Datum) (row : Row)
      → matches (E.not_equal_to r d) row
        ≡ on_cell false false (λ v. compares Cmp.ne (order v d)) (cell row r)
  pub matches-less_than :
      (r : E.Reference) (d : E.Datum) (row : Row)
      → matches (E.less_than r d) row
        ≡ on_cell true false (λ v. compares Cmp.lt (order v d)) (cell row r)
  pub matches-less_than_or_equal_to :
      (r : E.Reference) (d : E.Datum) (row : Row)
      → matches (E.less_than_or_equal_to r d) row
        ≡ on_cell true false (λ v. compares Cmp.lte (order v d)) (cell row r)
  pub matches-greater_than :
      (r : E.Reference) (d : E.Datum) (row : Row)
      → matches (E.greater_than r d) row
        ≡ on_cell false false (λ v. compares Cmp.gt (order v d)) (cell row r)
  pub matches-greater_than_or_equal_to :
      (r : E.Reference) (d : E.Datum) (row : Row)
      → matches (E.greater_than_or_equal_to r d) row
        ≡ on_cell false false (λ v. compares Cmp.gte (order v d)) (cell row r)
  pub matches-starts_with :
      (r : E.Reference) (d : E.Datum) (row : Row)
      → matches (E.starts_with r d) row ≡ on_cell false false (λ v. has_prefix v d) (cell row r)
  pub matches-not_starts_with :
      (r : E.Reference) (d : E.Datum) (row : Row)
      → matches (E.not_starts_with r d) row
        ≡ on_cell true false (λ v. not (has_prefix v d)) (cell row r)
  pub matches-is_in :
      (r : E.Reference) (ds : List E.Datum) (row : Row)
      → matches (E.is_in r ds) row
        ≡ on_cell false false (λ v. any (λ d. is_eq (order v d)) ds) (cell row r)
  pub matches-is_not_in :
      (r : E.Reference) (ds : List E.Datum) (row : Row)
      → matches (E.is_not_in r ds) row
        ≡ on_cell true false (λ v. not (any (λ d. is_eq (order v d)) ds)) (cell row r)
  -- floats and doubles are ordered by their bits
  pub order-float :
      (a b : E.Datum) (x y : ℕ)
      → E.literal a ≡ Literal.float x
      → E.literal b ≡ Literal.float y
      → order a b ≡ total_order binary32 x y
  pub order-double :
      (a b : E.Datum) (x y : ℕ)
      → E.literal a ≡ Literal.double x
      → E.literal b ≡ Literal.double y
      → order a b ≡ total_order binary64 x y
  pub literal-float : (x : ℕ) → E.literal (E.datum_float x) ≡ Literal.float x
  pub literal-double : (x : ℕ) → E.literal (E.datum_double x) ≡ Literal.double x
  -- `f as f64`, which keeps the order of numbers
  pub to_f64 : ℕ → ℕ
  pub to_f64_ordered :
      (x y : ℕ)
      → is_nan_bits binary32 x ≡ false
      → is_nan_bits binary32 y ≡ false
      → value_order binary64 (to_f64 x) (to_f64 y) ≡ value_order binary32 x y
  -- JSON has no NaN, and narrowing a number to 32 bits makes none
  pub json_finite : (v : E.Json) (x : ℕ) → E.json_as_f64 v ≡ some x → is_nan_bits binary64 x ≡ false
  pub to_f32_finite :
      (x : ℕ) → is_nan_bits binary64 x ≡ false → is_nan_bits binary32 (E.to_f32 x) ≡ false
