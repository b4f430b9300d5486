-- ===== src/Predicate/Typing.antt =====
-- Which predicates a scan can bind to a schema: named hypotheses about iceberg-rust, whose binding asks
-- of a comparison a column and a literal of the column's type, and of a NaN test a float column.
pub mod Leaves
pub mod Literals
pub mod Sound
mod Tests
use icebergr.Prelude.{ℕ, ◌≡◌, List, Bool, true, false, Option, some, Result, ok, All}
use icebergr.Prelude.Int.{ℤ}
use icebergr.Prelude.Text.{Text}
use icebergr.Iceberg.{PrimitiveType, IcebergType, Field, Schema}
use icebergr.Predicate.Engine.{Engine}
use icebergr.Predicate.Build.{is_float}

module _ (E : Engine) where
  open E use {Datum, Predicate, Reference, reference_new}

  -- The type that each constructor of a literal gives it.
  pub record DatumTypes : Type 0 where
    pub type_of : Datum → PrimitiveType
    pub type-bool : (b : Bool) → type_of (E.datum_bool b) ≡ PrimitiveType.boolean
    pub type-int : (n : ℤ) → type_of (E.datum_int n) ≡ PrimitiveType.int
    pub type-long : (n : ℤ) → type_of (E.datum_long n) ≡ PrimitiveType.long
    pub type-float : (x : ℕ) → type_of (E.datum_float x) ≡ PrimitiveType.float
    pub type-double : (x : ℕ) → type_of (E.datum_double x) ≡ PrimitiveType.double
    pub type-date : (n : ℤ) → type_of (E.datum_date n) ≡ PrimitiveType.date
    pub type-string : (s : Text) → type_of (E.datum_string s) ≡ PrimitiveType.string
    pub type-micros : (n : ℤ) → type_of (E.timestamp_micros n) ≡ PrimitiveType.timestamp
    pub type-micros_tz : (n : ℤ) → type_of (E.timestamptz_micros n) ≡ PrimitiveType.timestamptz
    pub type-nanos : (n : ℤ) → type_of (E.timestamp_nanos n) ≡ PrimitiveType.timestamp_ns
    pub type-nanos_tz : (n : ℤ) → type_of (E.timestamptz_nanos n) ≡ PrimitiveType.timestamptz_ns
    pub type-date_text :
        (s : Text) (d : Datum) → E.date_from_str s ≡ ok d → type_of d ≡ PrimitiveType.date
    pub type-timestamp_text :
        (s : Text) (d : Datum) → E.timestamp_from_str s ≡ ok d → type_of d ≡ PrimitiveType.timestamp
    pub type-timestamptz_text :
        (s : Text) (d : Datum)
        → E.timestamptz_from_str s ≡ ok d
        → type_of d ≡ PrimitiveType.timestamptz
    pub type-uuid_text :
        (s : Text) (d : Datum) → E.uuid_from_str s ≡ ok d → type_of d ≡ PrimitiveType.uuid
    pub type-to : (d out : Datum) (ty : PrimitiveType) → E.datum_to d ty ≡ ok out → type_of out ≡ ty

  -- A column of the schema, by its own name.
  abbrev pub IsColumn : Schema → Text → PrimitiveType → Type 0
  IsColumn schema name ty =
      (f : Field) × (schema.field_by_name name ≡ some f) × (f.field_type ≡ IcebergType.primitive ty)

  -- What binds to the schema.
  pub record Binding (schema : Schema) (T : DatumTypes) : Type 1 where
    pub Binds : Predicate → Type 0
    pub binds-true : Binds E.always_true
    pub binds-false : Binds E.always_false
    pub binds-and : (p q : Predicate) → Binds p → Binds q → Binds (E.p_and p q)
    pub binds-or : (p q : Predicate) → Binds p → Binds q → Binds (E.p_or p q)
    pub binds-is_null :
        (c : Text) (ty : PrimitiveType) → IsColumn schema c ty → Binds (E.is_null (reference_new c))
    pub binds-is_not_null :
        (c : Text) (ty : PrimitiveType)
        → IsColumn schema c ty
        → Binds (E.is_not_null (reference_new c))
    pub binds-is_nan :
        (c : Text) (ty : PrimitiveType)
        → IsColumn schema c ty
        → is_float ty ≡ true
        → Binds (E.is_nan (reference_new c))
    pub binds-is_not_nan :
        (c : Text) (ty : PrimitiveType)
        → IsColumn schema c ty
        → is_float ty ≡ true
        → Binds (E.is_not_nan (reference_new c))
    pub binds-equal_to :
        (c : Text) (d : Datum)
        → IsColumn schema c (T.type_of d)
        → Binds (E.equal_to (reference_new c) d)
    pub binds-not_equal_to :
        (c : Text) (d : Datum)
        → IsColumn schema c (T.type_of d)
        → Binds (E.not_equal_to (reference_new c) d)
    pub binds-less_than :
        (c : Text) (d : Datum)
        → IsColumn schema c (T.type_of d)
        → Binds (E.less_than (reference_new c) d)
    pub binds-less_than_or_equal_to :
        (c : Text) (d : Datum)
        → IsColumn schema c (T.type_of d)
        → Binds (E.less_than_or_equal_to (reference_new c) d)
    pub binds-greater_than :
        (c : Text) (d : Datum)
        → IsColumn schema c (T.type_of d)
        → Binds (E.greater_than (reference_new c) d)
    pub binds-greater_than_or_equal_to :
        (c : Text) (d : Datum)
        → IsColumn schema c (T.type_of d)
        → Binds (E.greater_than_or_equal_to (reference_new c) d)
    pub binds-starts_with :
        (c : Text) (d : Datum)
        → IsColumn schema c PrimitiveType.string
        → T.type_of d ≡ PrimitiveType.string
        → Binds (E.starts_with (reference_new c) d)
    pub binds-not_starts_with :
        (c : Text) (d : Datum)
        → IsColumn schema c PrimitiveType.string
        → T.type_of d ≡ PrimitiveType.string
        → Binds (E.not_starts_with (reference_new c) d)
    pub binds-is_in :
        (c : Text) (ty : PrimitiveType) (ds : List Datum)
        → IsColumn schema c ty
        → All (λ d. T.type_of d ≡ ty) ds
        → Binds (E.is_in (reference_new c) ds)
    pub binds-is_not_in :
        (c : Text) (ty : PrimitiveType) (ds : List Datum)
        → IsColumn schema c ty
        → All (λ d. T.type_of d ≡ ty) ds
        → Binds (E.is_not_in (reference_new c) ds)
