-- ===== src/Write/Append.antt =====
-- `rs_table_append` of src/rust/src/write.rs. What it asks of the warehouse is a list of events, in
-- order; iceberg-rust's tables, writer and transaction, and arrow, are parameters. `block_on` returns
-- what the call gives; where it aborts instead, the events end there.
pub mod Outcome
pub mod Refusal
pub mod Rows
use icebergr.Prelude.{
  ℕ, ◌+◌, List, [], ◌∷◌, ◌++◌, Bool, true, false, not, ◌||◌, Option, none, some, ◌==◌,
  if◌then◌else◌, length, is_empty, Result, ok, err, ◌>>=◌, map_err, unwrap_or, map,
}
use icebergr.Prelude.Int.{print_signed}
use icebergr.Prelude.Text.{Text, codes, rsplit_once}
use icebergr.Iceberg.{Schema, Field, PartitionField}
use icebergr.Errors.{ctx, message}
use icebergr.Catalog.{Properties, collect}
use icebergr.Write.Location.{
  Compression, compression_from, uncommittable_because, derives_next_metadata_location,
}
use icebergr.Write.Slices.{slices}
use icebergr.Write.Align.{ArrowField, Batch, Arrow, align_batch}
use icebergr.Write.Message.{
  RResult, fail, property_lengths_differ, partitioned, uncommittable, unknown_compression,
}

pub record Warehouse : Type 1 where
  pub DataType : Type 0
  pub Column : Type 0
  pub arrow : Arrow DataType Column
  pub is_uuid : Text → Bool
  -- what a table answers
  pub Table : Type 0
  pub name : Table → Text
  pub schema : Table → Schema
  pub partition_fields : Table → List PartitionField
  pub metadata_location : Table → Option Text
  pub arrow_schema : Schema → Result Text (List (ArrowField DataType))
  -- `DefaultLocationGenerator::new`
  pub LocationGenerator : Type 0
  pub location_generator : Table → Result Text LocationGenerator
  -- the data file writer, one state after another
  pub Writer : Type 0
  pub DataFile : Type 0
  pub build : Table → LocationGenerator → Compression → Result Text Writer
  pub write : Writer → Batch DataType Column → ℕ → ℕ → Result Text Writer
  pub close : Writer → Result Text (List DataFile)
  pub commit : Table → List DataFile → Option Properties → Result Text Table

-- What is asked of the warehouse: a writer, rows `offset..offset + len` of a batch, the end of the
-- writing, a commit.
pub data Event (B F : Type 0) : Type 0 where
  opened : Event B F
  wrote : B → ℕ → ℕ → Event B F
  closed : Event B F
  committed : List F → Event B F

module _ (house : Warehouse) where
  open house use {
    DataType, Column, arrow, is_uuid, Table, name, schema, partition_fields, metadata_location,
    arrow_schema, LocationGenerator, location_generator, Writer, DataFile, build, write, close,
    commit,
  }

  abbrev pub Rows : Type 0
  Rows = Batch DataType Column

  abbrev pub Log : Type 0
  Log = List (Event Rows DataFile)

  abbrev by_field : Schema → PartitionField → Text × Text
  by_field schema f = (
    f.transform,
    elim (schema.field_by_id f.source_id) [ some s ↦ s.name | none ↦ print_signed f.source_id ],
  )

  unfoldable pub check_partitions : Table → RResult (Unit {0})
  check_partitions t =
      if is_empty (partition_fields t)
      then ok (record {})
      else fail (partitioned (name t) (map (by_field (schema t)) (partition_fields t)))

  abbrev dir_and_file : Text → Text × Text
  dir_and_file location =
      unwrap_or (rsplit_once (λ c. c == b'/' || c == b'\\') location) ([], location)

  unfoldable pub check_location : Table → Text → RResult (Unit {0})
  unfolding uncommittable_because derives_next_metadata_location
  check_location t kind = elim (metadata_location t) [
    | none ↦ ok (record {})
    | some location ↦ elim (uncommittable_because is_uuid location) [
      | none ↦ ok (record {})
      | some why ↦
          if derives_next_metadata_location kind
          then fail (uncommittable (name t) (dir_and_file location).0 (dir_and_file location).1 why)
          else ok (record {})
    ]
  ]

  -- The batches of R's stream, aligned, less those that hold no row.
  unfoldable pub read_batches :
      List (ArrowField DataType) → List (Result Text Rows) → RResult (List Rows)
  unfolding align_batch
  read_batches target [] = ok []
  read_batches target (err e ∷ rest) = err (ctx (codes "could not read the data from R") e)
  read_batches target (ok b ∷ rest) =
      let more = read_batches target rest in
      if b.num_rows == 0
      then more
      else align_batch arrow b target >>= λ a. more >>= λ others. ok (a ∷ others)

  -- Everything up to the counted rows; `stream` is what `import_reader` gives.
  unfoldable pub prepare : Table → RResult (List (Result Text Rows)) → Text → RResult (List Rows)
  unfolding check_partitions check_location read_batches
  prepare t stream kind = do
    _ ← check_partitions t
    _ ← check_location t kind
    target ←
        map_err (ctx (codes "could not convert the table schema to Arrow"))
          (arrow_schema (schema t))
    batches ← stream
    read_batches target batches

  unfoldable pub total_rows : List Rows → ℕ
  total_rows [] = 0
  total_rows (b ∷ rest) = b.num_rows + total_rows rest

  unfoldable pub write_slices : Writer → Rows → List (ℕ × ℕ) → Log × Result Text Writer
  write_slices w b [] = ([], ok w)
  write_slices w b ((offset, len) ∷ rest) = elim (write w b offset len) [
    | err e ↦ (wrote b offset len ∷ [], err e)
    | ok v ↦ let (log, r) = write_slices v b rest in (wrote b offset len ∷ log, r)
  ]

  unfoldable pub write_batches : Writer → List Rows → Log × Result Text Writer
  unfolding write_slices slices
  write_batches w [] = ([], ok w)
  write_batches w (b ∷ rest) =
      let (log, r) = write_slices w b (slices b.num_rows) in
      elim r [
        | err e ↦ (log, err e)
        | ok v ↦ let (more, last) = write_batches v rest in (log ++ more, last)
      ]

  abbrev write_failed : {A : Type 0} → Text → RResult A
  write_failed e = err (ctx (codes "could not write the data files") e)

  unfoldable pub snapshot_properties : List Text → List Text → Option Properties
  snapshot_properties keys values =
      if is_empty keys then none else some (collect (λ (t : Text). none) keys values)

  -- From the building of the writer on.
  unfoldable pub store :
      Table → List Rows → LocationGenerator → Compression → Option Properties → Log × RResult Table
  unfolding write_batches
  store t batches gen c props = elim (build t gen c) [
    | err e ↦ (opened ∷ [], write_failed e)
    | ok w ↦
        let (log, written) = write_batches w batches in
        elim written [
          | err e ↦ (opened ∷ log, write_failed e)
          | ok v ↦ elim (close v) [
            | err e ↦ (opened ∷ (log ++ closed ∷ []), write_failed e)
            | ok files ↦ (
              opened ∷ (log ++ closed ∷ committed files ∷ []),
              map_err (ctx (codes "could not commit the append")) (commit t files props),
            )
          ]
        ]
  ]

  abbrev compression_of : Text → RResult Compression
  compression_of compression =
      map_err (λ lower. message (unknown_compression lower)) (compression_from compression)

  abbrev generator_of : Table → RResult LocationGenerator
  generator_of t =
      map_err (ctx (codes "could not determine where to write data files")) (location_generator t)

  unfoldable pub rs_table_append :
      Table
      → RResult (List (Result Text Rows))
      → Text
      → List Text
      → List Text
      → Text
      → Log × RResult Table
  unfolding prepare total_rows store compression_from
  rs_table_append t stream compression keys values kind =
      if not (length keys == length values)
      then ([], fail property_lengths_differ)
      else elim (prepare t stream kind) [
        | err e ↦ ([], err e)
        | ok batches ↦
            if total_rows batches == 0 then ([], ok t) else elim (compression_of compression) [
              | err e ↦ ([], err e)
              | ok c ↦ elim (generator_of t) [
                | err e ↦ ([], err e)
                | ok gen ↦ store t batches gen c (snapshot_properties keys values)
              ]
            ]
      ]
