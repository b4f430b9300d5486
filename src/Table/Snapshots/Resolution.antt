-- ===== src/Table/Snapshots/Resolution.antt =====
-- A resolved snapshot is one of the table's, and its schema is the one a read uses.
use icebergr.Prelude.{true, ◌≡◌, some, arith, ok, map_err, Option-cases, inl, inr}
use icebergr.Prelude.Int.Print.{parse_signed-print_signed}
use icebergr.Prelude.Int.{fits_signed, print_signed, ℤ, parse_signed}
use icebergr.Prelude.Text.{Text, codes, trim}
use icebergr.Errors.{ctx}
use icebergr.Table.Snapshots.{Snapshot, Metadata, resolve_snapshot, read_schema}

-- A text that resolves is the number of a snapshot that the table has, and a read of that snapshot
-- uses its own schema, or reports that this schema could not be read: never that the snapshot is
-- unknown.
pub resolve_snapshot-read_schema :
    (m : Metadata) (id : Text) (n : ℤ)
    → resolve_snapshot m id ≡ ok n
    → (s : Snapshot) × (parse_signed 64 (trim id) ≡ some n)
      × (m.snapshot_by_id n ≡ some s)
      × (read_schema m (some n)
          ≡ map_err (ctx (codes "could not read the schema for that snapshot")) s.schema)
unfolding resolve_snapshot read_schema
resolve_snapshot-read_schema m id n h = elim (Option-cases (parse_signed 64 (trim id))) [
  | inl e ↦ absurd (ground arith)
  | inr (k, e) ↦ elim (Option-cases (m.snapshot_by_id k)) [
    | inl d ↦ absurd (ground arith)
    | inr (s, d) ↦ (s, ground arith, ground arith, ground arith)
  ]
]

-- A snapshot's id, as it is printed for R, resolves to that snapshot if the table finds it by its id.
pub resolve_snapshot-print_signed :
    (m : Metadata) (s : Snapshot)
    → fits_signed 64 s.snapshot_id ≡ true
    → m.snapshot_by_id s.snapshot_id ≡ some s
    → resolve_snapshot m (print_signed s.snapshot_id) ≡ ok s.snapshot_id
unfolding resolve_snapshot
resolve_snapshot-print_signed m s h e = ground (arith, parse_signed-print_signed 64 s.snapshot_id h)
