-- ===== src/Table/Tests.antt =====
-- The theorems on snapshots at tables with one and two.
use icebergr.Prelude.{
  All, ℕ, ap, is_empty, ◌↔◌, Option, ◌++◌, List, Result, err, true, Bool, ◌≡◌, refl, [], ◌∷◌,
  if◌then◌else◌, none, some, ok, map_err,
}
use icebergr.Prelude.Int.{pos, eqb_ℤ, parse_signed}
use icebergr.Prelude.Text.{Text, codes, trim, text_eq}
use icebergr.Iceberg.{Schema, PrimitiveType}
use icebergr.Errors.{ctx}
use icebergr.Table.Existence.{CatalogError}
use icebergr.Table.Snapshots.{
  Message, Snapshot, Metadata, resolve_snapshot, read_schema, rs_table_snapshots,
}
use icebergr.Prelude.Sort.Shuffle.{swap_heads}
use icebergr.Table.Snapshots.History.{rs_table_snapshots-Shuffle}
use icebergr.Iceberg.Catalog.{TableIdent, CatalogApi}
use icebergr.Table.Handle.{RTable, rs_table_open, rs_table_reload, rs_table_identifier}
use icebergr.Table.Handle.Reload.{HandleLaws, rs_table_open-rs_table_reload}
use icebergr.Table.Listing.Ids.{Selects, snapshots_listed-rs_table_schema}
use icebergr.Table.Listing.{snapshots_listed, summary_json}
use icebergr.Table.Listing.Order.{summary_json-Shuffle}
use icebergr.Table.Snapshots.Resolution.{resolve_snapshot-read_schema}

abbrev empty_schema : Schema
empty_schema = record {
  fields = [];
  field_by_name = λ s. none;
  field_by_name_case_insensitive = λ s. none;
  field_by_id = λ i. none;
}

abbrev first : Snapshot
first = record {
  snapshot_id = pos 12;
  timestamp_ms = pos 1;
  sequence_number = pos 1;
  parent_snapshot_id = none;
  schema_id = none;
  operation = codes "append";
  summary = [];
  manifest_list = [];
  schema = ok empty_schema;
}

abbrev one_snapshot : Metadata
one_snapshot = record {
  snapshots = first ∷ [];
  snapshot_by_id = λ i. if eqb_ℤ i (pos 12) then some first else none;
  current_snapshot_id = some (pos 12);
  current_schema = empty_schema;
  default_spec_id = pos 0;
  default_spec_fields = [];
  history = [];
  property_keys = [];
  property = λ k. none;
  location = [];
  format_version = pos 2;
}

resolve_snapshot-read_schema_example :
    (s : Snapshot) × (parse_signed 64 (trim (codes " 12")) ≡ some (pos 12))
    × (one_snapshot.snapshot_by_id (pos 12) ≡ some s)
    × (read_schema one_snapshot (some (pos 12))
        ≡ map_err (ctx (codes "could not read the schema for that snapshot")) s.schema)
unfolding resolve_snapshot parse_signed
resolve_snapshot-read_schema_example =
    resolve_snapshot-read_schema one_snapshot (codes " 12") (pos 12) refl

abbrev second : Snapshot
second = record first { snapshot_id = pos 9; timestamp_ms = pos 5 }

abbrev two_snapshots : Metadata
two_snapshots = record one_snapshot {
  snapshots = second ∷ first ∷ [];
  snapshot_by_id =
      λ i. if eqb_ℤ i (pos 12) then some first else if eqb_ℤ i (pos 9) then some second else none;
}

abbrev is_second : Snapshot → Bool
is_second s = eqb_ℤ s.snapshot_id (pos 9)

abbrev no_namespace : CatalogError
no_namespace = record { namespace_not_found = true; display = codes "nope" }

abbrev ident_of : List Text → Text → Result Text Text
ident_of namespace name = ok name

abbrev lost : Text → Result CatalogError Bool
lost i = err no_namespace

rs_table_snapshots-Shuffle_example :
    rs_table_snapshots two_snapshots
    ≡ rs_table_snapshots (record two_snapshots { snapshots = first ∷ second ∷ [] })
rs_table_snapshots-Shuffle_example =
    rs_table_snapshots-Shuffle two_snapshots (first ∷ second ∷ []) (refl, (refl, record {}))
      swap_heads

abbrev rows_and_files : List (Text × Text)
rows_and_files = (codes "rows", codes "7") ∷ (codes "files", codes "1") ∷ []

-- an entry as its key and value
abbrev as_lines : List (Text × Text) → Result Text Text
as_lines [] = ok []
as_lines ((k, v) ∷ l) = ok (k ++ v)

abbrev counted : Text → Option Text
counted k =
    if text_eq k (codes "rows")
    then some (codes "7")
    else if text_eq k (codes "files")
    then some (codes "1")
    else none

summary_json-Shuffle_example :
    summary_json as_lines (record first { summary = rows_and_files })
    ≡ summary_json as_lines
        (record first { summary = (codes "files", codes "1") ∷ (codes "rows", codes "7") ∷ [] })
summary_json-Shuffle_example =
    summary_json-Shuffle as_lines counted (record first { summary = rows_and_files })
      ((codes "files", codes "1") ∷ (codes "rows", codes "7") ∷ []) (refl, (refl, record {}))
      swap_heads

abbrev two_properties : Metadata
two_properties = record one_snapshot {
  property_keys = codes "rows" ∷ codes "files" ∷ [];
  property = counted;
}

-- A catalog whose tables all stand at one version, which is the state of the world.
abbrev Versioned : Type 0
Versioned = TableIdent (List Text) × ℕ

abbrev versions : CatalogApi (List Text) Bool Versioned ℕ
versions = record {
  from_vec = λ v. if is_empty v then err (codes "empty") else ok v;
  parts = λ ns. ns;
  identifier = λ t. t.0;
  load_table = λ h i w. (ok (i, w), w);
  create_table = λ h ns c w. (err (codes "read only"), w);
  register_table = λ h i l w. (err (codes "read only"), w);
  list_namespaces = λ h p w. (ok [], w);
  list_tables = λ h ns w. (ok [], w);
  namespace_exists = λ h ns w. (ok true, w);
  create_namespace = λ h ns w. (err (codes "read only"), w);
}

versions-HandleLaws : HandleLaws versions
versions-HandleLaws = record {
  spelled = spelled_in;
  named = λ h i t b a e. loaded i b t (ap (λ x. x.0) e);
}
  where
    spelled_in :
        (v ns : List Text) → (if is_empty v then err (codes "empty") else ok v) ≡ ok ns → ns ≡ v
    spelled_in [] ns e = absurd cc
    spelled_in (part ∷ v) ns e = cc

    loaded :
        (i : TableIdent (List Text)) (w : ℕ) (t : Versioned)
        → ◌≡◌ {A = Result Text Versioned} (ok (i, w)) (ok t)
        → t.0 ≡ i
    loaded i w (j, v) e = cc

abbrev events : ℕ → RTable Bool Versioned
events version = record {
  catalog = true;
  table = (record { namespace = codes "db" ∷ []; name = codes "events" }, version);
}

rs_table_open-rs_table_reload_example :
    (rs_table_identifier versions (events 3) ≡ codes "db" ∷ codes "events" ∷ [])
    × ((rs_table_reload versions {M = Message} (events 3) 4 ≡ (ok (events 4), 4)) ↔ (
        rs_table_open versions {M = Message} true (codes "db" ∷ []) (codes "events") 4
        ≡ (ok (events 4), 4)))
unfolding rs_table_open
rs_table_open-rs_table_reload_example =
    rs_table_open-rs_table_reload versions versions-HandleLaws true (codes "db" ∷ [])
      (codes "events") 3 3 4 4 (events 3) (events 4) refl

abbrev any_type : PrimitiveType → Text
any_type p = codes "type"

listed_ids_are_printed :
    (snapshots_listed (λ t. t) as_lines two_snapshots).snapshot_id ≡ codes "12" ∷ codes "9" ∷ []
unfolding snapshots_listed
listed_ids_are_printed = refl

snapshots_listed-rs_table_schema_example :
    All
      (Selects any_type two_snapshots)
      (snapshots_listed (λ t. t) as_lines two_snapshots).snapshot_id
snapshots_listed-rs_table_schema_example =
    snapshots_listed-rs_table_schema any_type two_snapshots (λ t. t) as_lines
      ((refl, refl), ((refl, refl), tt))
