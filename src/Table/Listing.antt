-- ===== src/Table/Listing.antt =====
-- The listings of src/rust/src/table.rs, as the parallel columns that R makes a tibble of. Missing
-- values are `none`. The conversion `as f64`, how a primitive type prints, and serde_json's printing of
-- a map are parameters.
pub mod Ids
pub mod Order
use icebergr.Prelude.{
  List, [], ◌∷◌, ◌++◌, map, Bool, Option, none, some, Result, ok, err, ◌>>=◌, and_then,
}
use icebergr.Prelude.Int.{ℤ, print_signed}
use icebergr.Prelude.Text.{Text, codes}
use icebergr.Prelude.Sort.{sort, sort_by, text_le}
use icebergr.Iceberg.{Schema, PrimitiveType, Field, PartitionField}
use icebergr.Errors.{RError}
use icebergr.Table.Label.{type_label}
use icebergr.Table.Snapshots.{
  Message, LogEntry, Snapshot, Metadata, resolve_snapshot_opt, schema_at, rs_table_snapshots,
}

pub record SchemaColumns : Type 0 where
  pub field_id : List ℤ
  pub name : List Text
  pub field_type : List Text
  pub required : List Bool
  pub doc : List (Option Text)

-- a row for each field of the schema
unfoldable pub schema_columns : (PrimitiveType → Text) → Schema → SchemaColumns
unfolding type_label
schema_columns show schema = record {
  field_id = map (λ (f : Field). f.id) schema.fields;
  name = map (λ (f : Field). f.name) schema.fields;
  field_type = map (λ (f : Field). type_label show f.field_type) schema.fields;
  required = map (λ (f : Field). f.required) schema.fields;
  doc = map (λ (f : Field). f.doc) schema.fields;
}

unfoldable pub rs_table_schema :
    (PrimitiveType → Text) → Metadata → Option Text → Result (RError Message) SchemaColumns
unfolding resolve_snapshot_opt schema_at schema_columns
rs_table_schema show m snapshot_id = do
  snapshot ← resolve_snapshot_opt m snapshot_id
  schema ← schema_at m snapshot
  ok (schema_columns show schema)

pub record PartitionColumns : Type 0 where
  pub spec_id : List ℤ
  pub field_id : List ℤ
  pub name : List Text
  pub transform : List Text
  pub source_id : List ℤ
  pub source_name : List (Option Text)

unfoldable pub rs_table_partitions : Metadata → PartitionColumns
rs_table_partitions m = record {
  spec_id = map (λ (f : PartitionField). m.default_spec_id) m.default_spec_fields;
  field_id = map (λ (f : PartitionField). f.field_id) m.default_spec_fields;
  name = map (λ (f : PartitionField). f.name) m.default_spec_fields;
  transform = map (λ (f : PartitionField). f.transform) m.default_spec_fields;
  source_id = map (λ (f : PartitionField). f.source_id) m.default_spec_fields;
  source_name =
      map
        (λ (f : PartitionField).
          and_then (m.current_schema.field_by_id f.source_id) (λ (src : Field). some src.name))
        m.default_spec_fields;
}

-- the entries of a `BTreeMap`, by their keys
abbrev pub key_le : Text × Text → Text × Text → Bool
key_le (k, v) (k', v') = text_le k k'

-- a snapshot's summary, its keys sorted
unfoldable pub summary_json : (List (Text × Text) → Result Text Text) → Snapshot → Text
unfolding sort_by
summary_json to_string s = elim (to_string (sort_by key_le s.summary)) [
  | ok json ↦ json
  | err e ↦ codes "{}"
]

module _ {F : Type 0} (as_f64 : ℤ → F) where
  pub record SnapshotColumns : Type 0 where
    pub snapshot_id : List Text
    pub parent_snapshot_id : List (Option Text)
    pub sequence_number : List F
    pub timestamp_ms : List F
    pub operation : List Text
    pub schema_id : List (Option ℤ)
    pub summary : List Text
    pub manifest_list : List Text

  -- the columns of `rs_table_snapshots`, of its sorted rows
  unfoldable pub snapshot_columns :
      (List (Text × Text) → Result Text Text) → List Snapshot → SnapshotColumns
  unfolding summary_json print_signed
  snapshot_columns to_string rows = record {
    snapshot_id = map (λ (s : Snapshot). print_signed s.snapshot_id) rows;
    parent_snapshot_id =
        map (λ (s : Snapshot). and_then s.parent_snapshot_id (λ p. some (print_signed p))) rows;
    sequence_number = map (λ (s : Snapshot). as_f64 s.sequence_number) rows;
    timestamp_ms = map (λ (s : Snapshot). as_f64 s.timestamp_ms) rows;
    operation = map (λ (s : Snapshot). s.operation) rows;
    schema_id = map (λ (s : Snapshot). s.schema_id) rows;
    summary = map (summary_json to_string) rows;
    manifest_list = map (λ (s : Snapshot). s.manifest_list) rows;
  }

  unfoldable pub snapshots_listed :
      (List (Text × Text) → Result Text Text) → Metadata → SnapshotColumns
  unfolding snapshot_columns rs_table_snapshots
  snapshots_listed to_string m = snapshot_columns to_string (rs_table_snapshots m)

  pub record HistoryColumns : Type 0 where
    pub snapshot_id : List Text
    pub timestamp_ms : List F

  unfoldable pub rs_table_history : Metadata → HistoryColumns
  unfolding print_signed
  rs_table_history m = record {
    snapshot_id = map (λ (e : LogEntry). print_signed e.snapshot_id) m.history;
    timestamp_ms = map (λ (e : LogEntry). as_f64 e.timestamp_ms) m.history;
  }

unfoldable pub rs_table_current_snapshot : Metadata → Option Text
unfolding print_signed
rs_table_current_snapshot m = and_then m.current_snapshot_id (λ id. some (print_signed id))

unfoldable pub rs_table_location : Metadata → Text
rs_table_location m = m.location

unfoldable pub rs_table_format_version : Metadata → ℤ
rs_table_format_version m = m.format_version

-- `props[k]` for each key, none where the index panics
unfoldable pub values_of : (Text → Option Text) → List Text → Option (List Text)
values_of property [] = some []
values_of property (k ∷ keys) =
    let rest = values_of property keys in
    and_then (property k) (λ v. and_then rest (λ vs. some (v ∷ vs)))

-- names and values
unfoldable pub rs_table_properties : Metadata → Option (List Text × List Text)
unfolding values_of sort
rs_table_properties m =
    let keys = sort m.property_keys in
    and_then (values_of m.property keys) (λ values. some (keys, values))
