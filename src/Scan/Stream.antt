-- ===== src/Scan/Stream.antt =====
-- `rs_scan_to_stream` of src/rust/src/scan.rs: a whole scan, from the snapshot asked for to the stream
-- that R reads. The planning and the start of a scan, the Arrow schemas, and the FFI struct of a reader
-- are parameters.
pub mod Outcome
pub mod Read
use icebergr.Prelude.{ℕ, List, Bool, Option, none, some, Result, ok, err, ◌>>=◌, map_err}
use icebergr.Prelude.Int.{ℤ}
use icebergr.Prelude.Text.{Text, codes}
use icebergr.Iceberg.{Schema}
use icebergr.Errors.{RError, ctx}
use icebergr.Predicate.Engine.{Engine}
use icebergr.Reader as Reader
use icebergr.Reader.{Poll, Caught, BatchReader, new}
use icebergr.Reader.Exchange.{Memory, export_reader}
use icebergr.Table.Snapshots.{Metadata, resolve_snapshot_opt}
use icebergr.Write.Align.{ArrowField}
use icebergr.Scan.{Error, own, of_table, of_reader, Builder, configure, fallback_schema}

-- what R passes
pub record Request : Type 0 where
  pub select : Option (List Text)
  pub filter_json : Option Text
  pub snapshot_id : Option Text
  pub batch_size : Option ℤ
  pub case_sensitive : Bool
  pub row_group_filtering : Bool
  pub row_selection : Bool
  pub stream_addr : Text

module _ (e : Engine) (P B T Slot : Type 0) where
  -- What the crates do.
  pub record Scanner : Type 0 where
    pub plan : Builder e → Result Text P
    pub to_arrow : P → Result Text (List (Poll B))
    pub arrow_schema : Schema → Result Text (List (ArrowField T))
    pub schema_of : B → List (ArrowField T)
    pub ffi : BatchReader B (List (ArrowField T)) → Slot
    pub debug : Text → Text
    pub why : Text → Text

module _ (e : Engine) {P B T Slot : Type 0} where
  -- Everything before the reader: the stream and the schema of an empty result.
  unfoldable pub started :
      Scanner e P B T Slot → Metadata → Request → Result Error (List (Poll B) × List (ArrowField T))
  unfolding resolve_snapshot_opt configure fallback_schema
  started x m r = do
    snapshot ← map_err of_table (resolve_snapshot_opt m r.snapshot_id)
    scan ←
        configure e x.plan m r.select r.filter_json snapshot r.batch_size r.case_sensitive
          r.row_group_filtering r.row_selection
    stream ← map_err (λ t. own (ctx (codes "could not start the scan") t)) (x.to_arrow scan)
    fallback ← fallback_schema x.arrow_schema m r.select snapshot
    ok (stream, fallback)

  -- The reader over the stream, exported, and R's memory after it. A panic of the first poll unwinds.
  unfoldable pub hand_over :
      Scanner e P B T Slot
      → Text
      → List (Poll B)
      → List (ArrowField T)
      → Memory Slot
      → Caught (Result {0, 0} Error Unit) × Memory Slot
  unfolding new export_reader
  hand_over x stream_addr stream fallback memory =
      elim (new {M = Reader.Message} x.schema_of stream fallback) [
        | Caught.unwound p ↦ (Caught.unwound p, memory)
        | Caught.returned made ↦ elim made [
          | err w ↦ (Caught.returned (err (of_reader w)), memory)
          | ok reader ↦
              let (out, left) = export_reader x.debug x.why x.ffi stream_addr reader memory in
              (Caught.returned (map_err of_reader out), left)
        ]
      ]

  unfoldable pub rs_scan_to_stream :
      Scanner e P B T Slot
      → Metadata
      → Request
      → Memory Slot
      → Caught (Result {0, 0} Error Unit) × Memory Slot
  unfolding started hand_over
  rs_scan_to_stream x m r memory = elim (started x m r) [
    | err w ↦ (Caught.returned (err w), memory)
    | ok (stream, fallback) ↦ hand_over x r.stream_addr stream fallback memory
  ]
