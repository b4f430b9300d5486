-- ===== src/Predicate/Meaning/Tests.antt =====
-- A small engine that meets every hypothesis, and the theorems at inputs on it. A predicate is the set
-- of rows that it matches, and a literal is a float, a double or a number.
mod Scan
mod Filter
mod Widened
use icebergr.Prelude.{
  ℕ, [], ◌∷◌, Bool, true, false, not, ◌&&◌, ◌||◌, Option, none, some, ◌≡◌, refl, arith, Ordering,
  compare, if◌then◌else◌, any, Result, ok, err, traverse, All,
}
use icebergr.Prelude.Int.{pos, pos_part, print_signed}
use icebergr.Predicate.Message.{fail, outside_i32}
use icebergr.Predicate.Literal.Strings.{datum-print_signed}
use icebergr.Prelude.Text.{Text, codes, text_eq}
use icebergr.Iceberg.{PrimitiveType, IcebergType, Field, Schema}
use icebergr.Predicate.Float.{binary32, binary64, is_nan_bits, is_zero_bits, total_order}
use icebergr.Predicate.Meaning.Tests.Widened.{widened, widened_ordered}
use icebergr.Predicate.Node.{AllTests, Node, Nodes, referenced_columns}
use icebergr.Predicate.Engine.{Engine, Literal}
use icebergr.Predicate.Literal.{datum}
use icebergr.Predicate.Cmp.{Cmp, compares}
use icebergr.Predicate.Build.{
  Truth, truth_not, build, reference, missing, missing_truth, BuiltPredicate, build_predicate,
}
use icebergr.Table.Snapshots.{Metadata, read_schema}
use icebergr.Scan.{Builder, configured}
use icebergr.Scan.Agreement.{configured-filter}
use icebergr.Predicate.Build.Columns.{Resolves, referenced_columns-Resolves}
use icebergr.Predicate.Meaning.{
  Logical, Cell, nan_literal, on_cell, is_eq, Rows, RowFits, InCLocale, IsExact, Agrees, r_value,
}
use icebergr.Predicate.Meaning.Sound.{build-r_value}

data Value : Type 0 where
  float double number : ℕ → Value

abbrev literal_of : Value → Literal
literal_of (Value.float x) = Literal.float x
literal_of (Value.double x) = Literal.double x
literal_of (Value.number n) = Literal.other

abbrev value_order_of : Value → Value → Ordering
value_order_of (Value.float x) (Value.float y) = total_order binary32 x y
value_order_of (Value.double x) (Value.double y) = total_order binary64 x y
value_order_of (Value.number m) (Value.number n) = compare m n
value_order_of _ _ = Ordering.lt

data JsonValue : Type 0 where
  null : JsonValue
  double : ℕ → JsonValue

abbrev finite : ℕ → Option ℕ
finite x = if is_nan_bits binary64 x then none else some x

abbrev RowSet : Type 0
RowSet = (Text → Cell Value) → Bool

abbrev on_column : Bool → Bool → (Value → Bool) → Text → RowSet
on_column a n f col row = on_cell a n f (row col)

abbrev rejects : {A : Type 0} → Text → Result Text A
rejects s = err s

abbrev engine : Engine
engine = record {
  Json = JsonValue;
  json_is_null = λ v. elim v [ null ↦ true | double _ ↦ false ];
  json_as_bool = λ v. none;
  json_as_i64 = λ v. none;
  json_as_f64 = λ v. elim v [ null ↦ none | double x ↦ finite x ];
  json_as_str = λ v. none;
  json_is_f64 = λ v. true;
  json_to_string = λ v. [];
  json_parse = λ s. ok Node.always_true;
  to_f32 = λ x. if is_zero_bits binary64 x then 0 else 0x3f80_0000;
  display_f64 = λ x. [];
  NaiveDateTime = Text;
  UtcDateTime = Text;
  parse_naive = rejects;
  parse_utc = rejects;
  naive_nanos_opt = λ t. none;
  utc_nanos_opt = λ t. none;
  Datum = Value;
  literal = literal_of;
  datum_bool = λ b. Value.number 0;
  datum_int = λ n. Value.number (pos_part n);
  datum_long = λ n. Value.number (pos_part n);
  datum_float = Value.float;
  datum_double = Value.double;
  datum_date = λ n. Value.number (pos_part n);
  datum_string = λ s. Value.number 0;
  timestamp_micros = λ n. Value.number (pos_part n);
  timestamptz_micros = λ n. Value.number (pos_part n);
  timestamp_nanos = λ n. Value.number (pos_part n);
  timestamptz_nanos = λ n. Value.number (pos_part n);
  date_from_str = rejects;
  timestamp_from_str = rejects;
  timestamptz_from_str = rejects;
  uuid_from_str = rejects;
  decimal_from_str = rejects;
  datum_to = λ d ty. ok d;
  Reference = Text;
  reference_new = λ s. s;
  Predicate = RowSet;
  always_true = λ row. true;
  always_false = λ row. false;
  p_and = λ p q row. p row && q row;
  p_or = λ p q row. p row || q row;
  is_null = on_column true true (λ v. false);
  is_not_null = on_column false false (λ v. true);
  is_nan = on_column false false (λ v. nan_literal (literal_of v));
  is_not_nan = on_column true true (λ v. not (nan_literal (literal_of v)));
  equal_to = λ r d. on_column false false (λ v. compares Cmp.eq (value_order_of v d)) r;
  not_equal_to = λ r d. on_column false false (λ v. compares Cmp.ne (value_order_of v d)) r;
  less_than = λ r d. on_column true false (λ v. compares Cmp.lt (value_order_of v d)) r;
  less_than_or_equal_to =
      λ r d. on_column true false (λ v. compares Cmp.lte (value_order_of v d)) r;
  greater_than = λ r d. on_column false false (λ v. compares Cmp.gt (value_order_of v d)) r;
  greater_than_or_equal_to =
      λ r d. on_column false false (λ v. compares Cmp.gte (value_order_of v d)) r;
  starts_with = λ r d. on_column false false (λ v. is_eq (value_order_of v d)) r;
  not_starts_with = λ r d. on_column true false (λ v. not (is_eq (value_order_of v d))) r;
  is_in = λ r ds. on_column false false (λ v. any (λ d. is_eq (value_order_of v d)) ds) r;
  is_not_in = λ r ds. on_column true false (λ v. not (any (λ d. is_eq (value_order_of v d)) ds)) r;
  primitive_label = λ p. [];
}

finite_double :
    (v : JsonValue) (x : ℕ) → engine.json_as_f64 v ≡ some x → is_nan_bits binary64 x ≡ false
finite_double null x h = cc
finite_double (double y) x h = ground arith

order_of_floats :
    (a b : Value) (x y : ℕ)
    → literal_of a ≡ Literal.float x
    → literal_of b ≡ Literal.float y
    → value_order_of a b ≡ total_order binary32 x y
order_of_floats (Value.float u) (Value.float v) x y h k = ground arith
order_of_floats _ _ x y h k = cc

order_of_doubles :
    (a b : Value) (x y : ℕ)
    → literal_of a ≡ Literal.double x
    → literal_of b ≡ Literal.double y
    → value_order_of a b ≡ total_order binary64 x y
order_of_doubles (Value.double u) (Value.double v) x y h k = ground arith
order_of_doubles _ _ x y h k = cc

narrowed_finite :
    (x : ℕ) → is_nan_bits binary64 x ≡ false → is_nan_bits binary32 (engine.to_f32 x) ≡ false
narrowed_finite x h = ground arith

abbrev rows : Rows engine
rows = record {
  Row = Text → Cell Value;
  cell = λ row r. row r;
  matches = λ p row. p row;
  order = value_order_of;
  collate = value_order_of;
  to_f64 = widened;
  to_f64_ordered = widened_ordered;
  has_prefix = λ v d. is_eq (value_order_of v d);
  matches-true = λ row. refl;
  matches-false = λ row. refl;
  matches-and = λ p q row. refl;
  matches-or = λ p q row. refl;
  matches-is_null = λ r row. refl;
  matches-is_not_null = λ r row. refl;
  matches-is_nan = λ r row. refl;
  matches-is_not_nan = λ r row. refl;
  matches-equal_to = λ r d row. refl;
  matches-not_equal_to = λ r d row. refl;
  matches-less_than = λ r d row. refl;
  matches-less_than_or_equal_to = λ r d row. refl;
  matches-greater_than = λ r d row. refl;
  matches-greater_than_or_equal_to = λ r d row. refl;
  matches-starts_with = λ r d row. refl;
  matches-not_starts_with = λ r d row. refl;
  matches-is_in = λ r ds row. refl;
  matches-is_not_in = λ r ds row. refl;
  order-float = order_of_floats;
  order-double = order_of_doubles;
  literal-float = λ x. refl;
  literal-double = λ x. refl;
  json_finite = finite_double;
  to_f32_finite = narrowed_finite;
}

-- One double column, `price`.
abbrev price : Field
price = record {
  id = pos 1;
  name = codes "price";
  field_type = IcebergType.primitive PrimitiveType.double;
  required = false;
  doc = none;
}

abbrev by_name : Text → Option Field
by_name s = if text_eq s (codes "price") then some price else none

abbrev schema : Schema
schema = record {
  fields = price ∷ [];
  field_by_name = by_name;
  field_by_name_case_insensitive = by_name;
  field_by_id = λ i. none;
}

-- A row of a file that holds -0.0 in every column.
abbrev minus_zero : Text → Cell Value
minus_zero col = Cell.value (Value.double binary64.sign)

minus_zero-RowFits : RowFits engine rows schema true minus_zero
unfolding reference
minus_zero-RowFits col r ty v h e =
    let t : ty ≡ PrimitiveType.double = ground arith in
    let w : v ≡ Value.double binary64.sign = cc in rw (t, w) (binary64.sign, refl)

-- !(price %in% 0) & price >= 0, where R counts -0.0 as zero
abbrev not_zero : Node JsonValue
not_zero = Node.and (
    Nodes.cons (Node.not (Node.in_set (codes "price") (JsonValue.double 0 ∷ [])))
      (Nodes.cons (Node.gte (codes "price") (JsonValue.double 0)) Nodes.nil))

rows-InCLocale : InCLocale engine rows
rows-InCLocale v d h = refl

-- `price` is a double
not_zero-IsExact : AllTests (IsExact engine rows schema true) not_zero
unfolding AllTests reference
not_zero-IsExact = (((λ r x h. absurd cc), tt), ((λ r x h. absurd cc), tt))

build-r_value_example :
    Agrees engine rows minus_zero
      (build engine not_zero schema true)
      (r_value engine rows not_zero schema true minus_zero)
build-r_value_example =
    build-r_value engine rows schema true minus_zero minus_zero-RowFits rows-InCLocale not_zero
      not_zero-IsExact

not_zero_fails : r_value engine rows not_zero schema true minus_zero ≡ ok Logical.fails
unfolding r_value reference traverse datum
not_zero_fails = refl

-- !is.na(price)
abbrev has_price : Node JsonValue
has_price = Node.not (Node.is_null (codes "price"))

abbrev price_test : Truth RowSet
price_test = truth_not (missing_truth engine (codes "price") PrimitiveType.double)

referenced_columns-Resolves_example :
    All (Resolves engine schema true) (referenced_columns has_price [])
unfolding build reference missing missing_truth
referenced_columns-Resolves_example =
    referenced_columns-Resolves engine schema true has_price price_test refl

-- The same crates, with JSON values that are all strings.
abbrev text_engine : Engine
text_engine = record engine {
  Json = Text;
  json_is_null = λ v. false;
  json_as_bool = λ v. none;
  json_as_i64 = λ v. none;
  json_as_f64 = λ v. none;
  json_as_str = λ v. some v;
  json_is_f64 = λ v. false;
  json_to_string = λ v. v;
  json_parse = λ s. ok Node.always_true;
}

-- 2^53 + 1, which no double holds
abbrev past_doubles : ℕ
past_doubles = 9007199254740993

datum-print_signed_example :
    (datum text_engine (print_signed (pos past_doubles)) PrimitiveType.long (codes "n")
      ≡ ok (Value.number past_doubles))
    × (datum text_engine (print_signed (pos past_doubles)) PrimitiveType.int (codes "n")
        ≡ fail (outside_i32 (pos past_doubles) (codes "n")))
datum-print_signed_example =
    datum-print_signed text_engine (print_signed (pos past_doubles)) (pos past_doubles) (codes "n")
      refl refl refl refl
