-- ===== src/Table/Listing/Ids.antt =====
-- The ids that a listing gives R find their snapshots again.
use icebergr.Prelude.{◌≡◌, refl, List, [], ◌∷◌, map, true, some, Result, ok, ◌>>=◌, map_err, All}
use icebergr.Prelude.Int.{ℤ, fits_signed, print_signed}
use icebergr.Prelude.Text.{Text, codes}
use icebergr.Prelude.Sort.Order.{All-sort_by}
use icebergr.Iceberg.{PrimitiveType}
use icebergr.Errors.{ctx}
use icebergr.Table.Snapshots.{
  Snapshot, Metadata, snapshot_le, resolve_snapshot_opt, schema_at, rs_table_snapshots,
}
use icebergr.Table.Snapshots.Resolution.{resolve_snapshot-print_signed}
use icebergr.Table.Listing.{schema_columns, rs_table_schema, snapshots_listed}

-- The metadata keeps the snapshot under its id, which is a number of 64 bits.
abbrev pub IsFound : Metadata → Snapshot → Type 0
IsFound m s = (fits_signed 64 s.snapshot_id ≡ true) × (m.snapshot_by_id s.snapshot_id ≡ some s)

module _ (show : PrimitiveType → Text) (m : Metadata) where
  -- The text is the id of a snapshot that the metadata keeps under it, and asking for the schema by it gives that snapshot's columns.
  abbrev pub Selects : Text → Type 0
  Selects id =
      (s : Snapshot) × (id ≡ print_signed s.snapshot_id)
      × (m.snapshot_by_id s.snapshot_id ≡ some s)
      × (rs_table_schema show m (some id) ≡ (
          map_err (ctx (codes "could not read the schema for that snapshot")) s.schema >>= λ schema.
          ok (schema_columns show schema)))

  rs_table_schema-print_signed : (s : Snapshot) → IsFound m s → Selects (print_signed s.snapshot_id)
  unfolding rs_table_schema
  rs_table_schema-print_signed s (fits, found) = (
    s,
    refl,
    found,
    rw
        (
          rs_table_schema,
          resolve_snapshot_opt,
          resolve_snapshot-print_signed m s fits found,
          schema_at,
          found,
        )
        refl,
  )

  ids-Selects :
      (rows : List Snapshot)
      → All (IsFound m) rows
      → All Selects (map (λ (s : Snapshot). print_signed s.snapshot_id) rows)
  ids-Selects [] h = tt
  ids-Selects (s ∷ rows) (h, rest) = (rs_table_schema-print_signed s h, ids-Selects rows rest)

  -- Every id in the listing of snapshots, each of which the metadata keeps under its id of 64 bits,
  -- selects its own snapshot's schema when it is passed back as it stands.
  pub snapshots_listed-rs_table_schema :
      {F : Type 0} (as_f64 : ℤ → F) (to_string : List (Text × Text) → Result Text Text)
      → All (IsFound m) m.snapshots
      → All Selects (snapshots_listed as_f64 to_string m).snapshot_id
  unfolding snapshots_listed
  snapshots_listed-rs_table_schema as_f64 to_string h =
      ids-Selects (rs_table_snapshots m) (All-sort_by snapshot_le (IsFound m) m.snapshots h)
