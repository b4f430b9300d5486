-- ===== src/Table/Snapshots.antt =====
-- `RTable` of src/rust/src/table.rs: which snapshot a read means, and the schema that goes with it.
pub mod History
pub mod Resolution
use icebergr.Prelude.{
  ℕ, List, [], ◌∷◌, map, Bool, true, false, Option, none, some, if◌then◌else◌, Result, ok, err,
  ◌>>=◌, map_err, or_else?,
}
use icebergr.Prelude.Int.{ℤ, ltb_ℤ, parse_signed, print_signed}
use icebergr.Prelude.Text.{Text, codes, trim}
use icebergr.Prelude.Sort.{sort, sort_by}
use icebergr.Iceberg.{Schema, PartitionField}
use icebergr.Errors.{RError, ctx, message}

-- An entry of the snapshot log.
pub record LogEntry : Type 0 where
  pub snapshot_id : ℤ
  pub timestamp_ms : ℤ

-- `SnapshotRef`, with the schema that `schema(metadata)` finds for it. The summary is a hash map's, in
-- some order.
pub record Snapshot : Type 0 where
  pub snapshot_id : ℤ
  pub timestamp_ms : ℤ
  pub sequence_number : ℤ
  pub parent_snapshot_id : Option ℤ
  pub schema_id : Option ℤ
  pub operation : Text
  pub summary : List (Text × Text)
  pub manifest_list : Text
  pub schema : Result Text Schema

-- What the program asks of `TableMetadata`. `snapshots` and `property_keys` come
-- in the order of a hash map.
pub record Metadata : Type 0 where
  pub snapshots : List Snapshot
  pub snapshot_by_id : ℤ → Option Snapshot
  pub current_snapshot_id : Option ℤ
  pub current_schema : Schema
  pub default_spec_id : ℤ
  pub default_spec_fields : List PartitionField
  pub history : List LogEntry
  pub property_keys : List Text
  pub property : Text → Option Text
  pub location : Text
  pub format_version : ℤ

pub data Message : Type 0 where
  not_a_snapshot_id : Text → Message
  -- the snapshot asked for, and those there are
  not_in_history : ℤ → List Text → Message
  unknown_snapshot : ℤ → Message

unfoldable pub resolve_snapshot : Metadata → Text → Result (RError Message) ℤ
unfolding parse_signed print_signed sort
resolve_snapshot m id = elim (parse_signed 64 (trim id)) [
  | none ↦ err (message (not_a_snapshot_id id))
  | some parsed ↦ elim (m.snapshot_by_id parsed) [
    | none ↦ err (
        message (
          not_in_history parsed
            (sort (map (λ (s : Snapshot). print_signed s.snapshot_id) m.snapshots))))
    | some s ↦ ok parsed
  ]
]

unfoldable pub resolve_snapshot_opt : Metadata → Option Text → Result (RError Message) (Option ℤ)
unfolding resolve_snapshot
resolve_snapshot_opt m none = ok none
resolve_snapshot_opt m (some id) = resolve_snapshot m id >>= λ n. ok (some n)

unfoldable pub schema_at : Metadata → Option ℤ → Result (RError Message) Schema
schema_at m none = ok m.current_schema
schema_at m (some id) = elim (m.snapshot_by_id id) [
  | none ↦ err (message (unknown_snapshot id))
  | some s ↦ map_err (ctx (codes "could not read the schema for that snapshot")) s.schema
]

unfoldable pub read_schema : Metadata → Option ℤ → Result (RError Message) Schema
unfolding schema_at
read_schema m snapshot = schema_at m (or_else? snapshot m.current_snapshot_id)

-- the order of `(timestamp_ms, sequence_number, snapshot_id)`
unfoldable pub snapshot_le : Snapshot → Snapshot → Bool
snapshot_le a b =
    if ltb_ℤ a.timestamp_ms b.timestamp_ms
    then true
    else if ltb_ℤ b.timestamp_ms a.timestamp_ms
    then false
    else if ltb_ℤ a.sequence_number b.sequence_number
    then true
    else if ltb_ℤ b.sequence_number a.sequence_number
    then false
    else if ltb_ℤ b.snapshot_id a.snapshot_id
    then false
    else true

-- The rows of `rs_table_snapshots`, oldest first.
unfoldable pub rs_table_snapshots : Metadata → List Snapshot
unfolding snapshot_le sort_by
rs_table_snapshots m = sort_by snapshot_le m.snapshots
