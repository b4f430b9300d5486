-- ===== src/Scan/Tests.antt =====
-- The schema of an empty result, at a new table whose Arrow schema has two columns.
use icebergr.Prelude.{◌≡◌, refl, List, [], ◌∷◌, Bool, true, false, none, some, Result, ok, traverse}
use icebergr.Prelude.Int.{pos}
use icebergr.Prelude.Text.{Text, codes}
use icebergr.Iceberg.{Schema}
use icebergr.Table.Snapshots.{Metadata, read_schema}
use icebergr.Write.Align.{ArrowField}
use icebergr.Scan.{fallback_schema}
use icebergr.Scan.Agreement.{IsDrawn, selects, fallback_schema-ArePicked}

abbrev no_schema : Schema
no_schema = record {
  fields = [];
  field_by_name = λ s. none;
  field_by_name_case_insensitive = λ s. none;
  field_by_id = λ i. none;
}

abbrev new_table : Metadata
new_table = record {
  snapshots = [];
  snapshot_by_id = λ i. none;
  current_snapshot_id = none;
  current_schema = no_schema;
  default_spec_id = pos 0;
  default_spec_fields = [];
  history = [];
  property_keys = [];
  property = λ k. none;
  location = [];
  format_version = pos 2;
}

abbrev letters : Schema → Result Text (List (ArrowField Bool))
letters s = ok (
    record { name = codes "a"; data_type = true }
    ∷ record { name = codes "b"; data_type = false }
    ∷ [])

abbrev only_b : List (ArrowField Bool)
only_b = record { name = codes "b"; data_type = false } ∷ []

fallback_schema-ArePicked_example :
    (schema : Schema) × (full : List (ArrowField Bool)) × (read_schema new_table none ≡ ok schema)
    × (letters schema ≡ ok full)
    × IsDrawn letters full (selects (some (codes "b" ∷ []))) only_b
unfolding fallback_schema traverse
fallback_schema-ArePicked_example =
    fallback_schema-ArePicked letters new_table (some (codes "b" ∷ [])) none only_b refl
