-- ===== src/Write/Append/Refusal.antt =====
-- When an append asks the warehouse for nothing.
use icebergr.Prelude.{
  List, [], ◌∷◌, ◌≡◌, ◌≢◌, ◌⊎◌, inl, inr, true, false, some, ◌==◌, arith, length, is_empty, Result,
  ok, err, Bool-cases, Result-cases,
}
use icebergr.Prelude.Text.{Text}
use icebergr.Errors.{message}
use icebergr.Write.Location.{Why, uncommittable_because, derives_next_metadata_location}
use icebergr.Write.Align.{ArrowField, align_batch}
use icebergr.Write.Message.{RResult, Error, property_lengths_differ}
use icebergr.Write.Append.{
  Warehouse, Rows, check_partitions, check_location, read_batches, prepare, total_rows,
  rs_table_append,
}

module _ (house : Warehouse) where
  open house use {
    DataType, Column, arrow, is_uuid, Table, schema, partition_fields, metadata_location,
    arrow_schema, LocationGenerator, location_generator, Writer, DataFile, build, write, close,
    commit,
  }

  -- the two reasons to refuse a table as it stands
  abbrev pub IsUnwritable : Table → Text → Type 0
  IsUnwritable t kind =
      (is_empty (partition_fields t) ≡ false)
      ⊎ ((location : Text) × (why : Why) × (metadata_location t ≡ some location)
          × (derives_next_metadata_location kind ≡ true)
          × (uncommittable_because is_uuid location ≡ some why))

  prepare-IsUnwritable :
      (t : Table) (stream : RResult (List (Result Text (Rows house)))) (kind : Text)
      → IsUnwritable t kind
      → (e : Error) × (prepare house t stream kind ≡ err e)
  unfolding prepare check_partitions check_location
  prepare-IsUnwritable t stream kind h = elim (Result-cases (prepare house t stream kind)) [
    | inl r ↦ r
    | inr (batches, hb) ↦ elim h [
      | inl p ↦ absurd (ground arith)
      | inr (location, why, hm, hd, hw) ↦ elim (Bool-cases (is_empty (partition_fields t))) [
        | inl p ↦ absurd (ground arith)
        | inr p ↦ absurd (ground arith)
      ]
    ]
  ]

  -- A partitioned table, and one whose catalog could not name the metadata file after the current one,
  -- is refused whatever the data, with nothing asked of the warehouse.
  pub rs_table_append-IsUnwritable :
      (t : Table) (stream : RResult (List (Result Text (Rows house)))) (compression : Text)
      (keys values : List Text) (kind : Text)
      → IsUnwritable t kind
      → (e : Error) × (rs_table_append house t stream compression keys values kind ≡ ([], err e))
  unfolding rs_table_append
  rs_table_append-IsUnwritable t stream compression keys values kind h =
      let (e, he) = prepare-IsUnwritable t stream kind h in
      elim (Bool-cases (length keys == length values)) [
        | inr l ↦ (message property_lengths_differ, ground arith)
        | inl l ↦ (e, ground arith)
      ]

  -- The batches that hold a row, each aligned on the table's fields, in order; every item is a batch.
  abbrev pub AreAligned :
      List (ArrowField DataType) → List (Result Text (Rows house)) → List (Rows house) → Type 0
  AreAligned target [] out = out ≡ []
  AreAligned target (err e ∷ items) out = ⊥
  AreAligned target (ok b ∷ items) out =
      ((b.num_rows ≡ 0) × AreAligned target items out)
      ⊎ ((a : Rows house) × (others : List (Rows house)) × (out ≡ a ∷ others)
          × (b.num_rows ≢ 0)
          × (align_batch arrow b target ≡ ok a)
          × AreAligned target items others)

  read_batches-AreAligned :
      (target : List (ArrowField DataType)) (items : List (Result Text (Rows house)))
      (out : List (Rows house))
      → read_batches house target items ≡ ok out
      → AreAligned target items out
  unfolding read_batches
  read_batches-AreAligned target [] out h = ground arith
  read_batches-AreAligned target (err e ∷ items) out h = cc
  read_batches-AreAligned target (ok b ∷ items) out h = elim (Bool-cases (b.num_rows == 0)) [
    | inl z ↦ inl (ground arith, read_batches-AreAligned target items out (ground arith))
    | inr z ↦ elim (Result-cases (align_batch arrow b target)) [
      | inl (e, he) ↦ absurd (ground arith)
      | inr (a, ha) ↦ elim (Result-cases (read_batches house target items)) [
        | inl (e, he) ↦ absurd (ground arith)
        | inr (others, ho) ↦ inr (
          a,
          others,
          ground arith,
          ground arith,
          ha,
          read_batches-AreAligned target items others ho,
        )
      ]
    ]
  ]

  prepare-AreAligned :
      (t : Table) (stream : RResult (List (Result Text (Rows house)))) (kind : Text)
      (batches : List (Rows house))
      → prepare house t stream kind ≡ ok batches
      → (target : List (ArrowField DataType)) × (items : List (Result Text (Rows house)))
        × (arrow_schema (schema t) ≡ ok target)
        × (stream ≡ ok items)
        × AreAligned target items batches
  unfolding prepare
  prepare-AreAligned t stream kind batches h = elim (Result-cases (check_partitions house t)) [
    | inl (e, he) ↦ absurd (ground arith)
    | inr (c, hc) ↦ elim (Result-cases (check_location house t kind)) [
      | inl (e, he) ↦ absurd (ground arith)
      | inr (d, hd) ↦ elim (Result-cases (arrow_schema (schema t))) [
        | inl (e, he) ↦ absurd (ground arith)
        | inr (target, ht) ↦ elim (Result-cases stream) [
          | inl (e, he) ↦ absurd (ground arith)
          | inr (items, hi) ↦
              (target, items, ht, hi, read_batches-AreAligned target items batches (ground arith))
        ]
      ]
    ]
  ]

  -- An append that asks anything of the warehouse has read the whole stream without an error first, and
  -- aligned each batch that holds a row on the table's fields; it has a row to add.
  pub rs_table_append-AreAligned :
      (t : Table) (stream : RResult (List (Result Text (Rows house)))) (compression : Text)
      (keys values : List Text) (kind : Text)
      → (rs_table_append house t stream compression keys values kind).0 ≢ []
      → (target : List (ArrowField DataType)) × (items : List (Result Text (Rows house)))
        × (batches : List (Rows house)) × (arrow_schema (schema t) ≡ ok target)
        × (stream ≡ ok items)
        × AreAligned target items batches
        × (total_rows house batches ≢ 0)
  unfolding rs_table_append
  rs_table_append-AreAligned t stream compression keys values kind h =
      elim (Bool-cases (length keys == length values)) [
        | inr l ↦ absurd (h (ground arith))
        | inl l ↦ elim (Result-cases (prepare house t stream kind)) [
          | inl (e, he) ↦ absurd (h (ground arith))
          | inr (batches, hb) ↦ elim (Bool-cases (total_rows house batches == 0)) [
            | inl z ↦ absurd (h (ground arith))
            | inr z ↦
                let (target, items, ht, hi, ha) = prepare-AreAligned t stream kind batches hb in
                (target, items, batches, ht, hi, ha, ground arith)
          ]
        ]
      ]
