-- ===== src/Iceberg.antt =====
-- What the program reads of iceberg-rust's `spec` types. The crate is not part of the repository:
-- the enumerations carry the constructors that the program matches on, and the records the answers
-- that it asks for.
pub mod Catalog
use icebergr.Prelude.{ℕ, Option, List, Bool}
use icebergr.Prelude.Int.{ℤ}
use icebergr.Prelude.Text.{Text}

pub data PrimitiveType : Type 0 where
  boolean int long float double date time : PrimitiveType
  timestamp timestamptz timestamp_ns timestamptz_ns : PrimitiveType
  string uuid binary : PrimitiveType
  fixed : ℕ → PrimitiveType
  -- precision and scale
  decimal : ℕ → ℕ → PrimitiveType

-- `Type` and the fields of a struct, `FieldName: FieldType` in order.
mutual
  pub data IcebergType : Type 0 where
    primitive : PrimitiveType → IcebergType
    struct : Fields → IcebergType
    list : IcebergType → IcebergType
    map : IcebergType → IcebergType → IcebergType

  pub data Fields : Type 0 where
    nil : Fields
    cons : Text → IcebergType → Fields → Fields

-- `NestedField`
pub record Field : Type 0 where
  pub id : ℤ
  pub name : Text
  pub field_type : IcebergType
  pub required : Bool
  pub doc : Option Text

-- `Schema`: its top-level fields, and the lookups that it answers. The lookups by name cover nested
-- fields too, and the case-insensitive one is a map in which one of two spellings wins.
pub record Schema : Type 0 where
  pub fields : List Field
  pub field_by_name : Text → Option Field
  pub field_by_name_case_insensitive : Text → Option Field
  pub field_by_id : ℤ → Option Field

-- A field of a partition spec; its transform as it prints.
pub record PartitionField : Type 0 where
  pub source_id : ℤ
  pub field_id : ℤ
  pub name : Text
  pub transform : Text
