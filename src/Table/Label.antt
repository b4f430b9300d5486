-- ===== src/Table/Label.antt =====
-- `type_label` of src/rust/src/table.rs. How a primitive type prints is iceberg-rust's, a parameter.
use icebergr.Prelude.{◌++◌, List, [], ◌∷◌}
use icebergr.Prelude.Text.{Text, codes, join}
use icebergr.Iceberg.{PrimitiveType, IcebergType, Fields}

unfoldable mutual
  pub type_label : (PrimitiveType → Text) → IcebergType → Text
  type_label show (IcebergType.primitive p) = show p
  type_label show (IcebergType.struct fs) =
      codes "struct<" ++ join (codes ", ") (field_labels show fs) ++ codes ">"
  type_label show (IcebergType.list e) = codes "list<" ++ type_label show e ++ codes ">"
  type_label show (IcebergType.map k v) =
      codes "map<" ++ type_label show k ++ codes ", " ++ type_label show v ++ codes ">"

  pub field_labels : (PrimitiveType → Text) → Fields → List Text
  field_labels show Fields.nil = []
  field_labels show (Fields.cons name ty fs) =
      (name ++ codes ": " ++ type_label show ty) ∷ field_labels show fs
