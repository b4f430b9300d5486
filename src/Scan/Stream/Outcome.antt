-- ===== src/Scan/Stream/Outcome.antt =====
-- What a scan leaves in the struct that R allocated.
use icebergr.Prelude.{◌≡◌, ◌⊎◌, List, Bool, true, false, Option, Result, ok, err, ℕ}
use icebergr.Prelude.Int.{ℤ}
use icebergr.Predicate.Engine.{Engine}
use icebergr.Reader as Reader
use icebergr.Reader.{Poll, Caught, BatchReader, new, parse_addr}
use icebergr.Reader.Exchange.{Memory, write}
use icebergr.Table.Snapshots.{Metadata, resolve_snapshot_opt}
use icebergr.Write.Align.{ArrowField}
use icebergr.Scan.{Error, configure, fallback_schema}
use icebergr.Scan.Stream.{Request, Scanner}

-- the call returned without an error
abbrev pub is_done : Caught (Result {0, 0} Error Unit) → Bool
is_done (Caught.returned (ok u)) = true
is_done (Caught.returned (err w)) = false
is_done (Caught.unwound p) = false

module _ (e : Engine) {P B T Slot : Type 0} (x : Scanner e P B T Slot) (m : Metadata)
    (r : Request) where
  -- The stream and the schema of an empty result are of one snapshot, the one asked for.
  abbrev pub Agrees : List (Poll B) → List (ArrowField T) → Type 0
  Agrees stream fallback =
      (snapshot : Option ℤ) × (scan : P) × (resolve_snapshot_opt m r.snapshot_id ≡ ok snapshot)
      × (configure e x.plan m r.select r.filter_json snapshot r.batch_size r.case_sensitive
            r.row_group_filtering r.row_selection
          ≡ ok scan)
      × (x.to_arrow scan ≡ ok stream)
      × (fallback_schema x.arrow_schema m r.select snapshot ≡ ok fallback)

  -- The reader over the stream was written at the address that R passed.
  abbrev pub IsWritten : Memory Slot → Memory Slot → Type 0
  IsWritten before after =
      (stream : List (Poll B)) × (fallback : List (ArrowField T)) × (reader : BatchReader B
        (List (ArrowField T)))
      × (ptr : ℕ) × Agrees stream fallback
      × (new {M = Reader.Message} x.schema_of stream fallback ≡ Caught.returned (ok reader))
      × (parse_addr x.debug x.why r.stream_addr ≡ ok ptr)
      × (after ≡ write ptr (x.ffi reader) before)

  abbrev pub IsOutcome : Memory Slot → Caught (Result {0, 0} Error Unit) × Memory Slot → Type 0
  IsOutcome memory (out, left) =
      ((is_done out ≡ false) × (left ≡ memory)) ⊎ ((is_done out ≡ true) × IsWritten memory left)
