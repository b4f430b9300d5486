-- ===== src/Predicate/Meaning/Tests/Scan.antt =====
-- The theorems on scans, at a table with the columns of the small engine.
use icebergr.Prelude.{
  suc, Result, List, ℕ, ◌≡◌, refl, [], ◌∷◌, Bool, true, false, Option, none, some, ok,
}
use icebergr.Prelude.Int.{ℤ, pos}
use icebergr.Prelude.Text.{Text, codes}
use icebergr.Write.Align.{ArrowField}
use icebergr.Predicate.Build.{build, reference, missing_truth, is_decimal, build_predicate}
use icebergr.Predicate.Meaning.Tests.{engine, schema}
use icebergr.Reader.{Poll}
use icebergr.Reader.Exchange.{Memory}
use icebergr.Table.Snapshots.{Metadata}
use icebergr.Scan.{Builder, configured}
use icebergr.Scan.Decimal.{Mentions, configured-row_selection}
use icebergr.Predicate.Node.{Node}
use icebergr.Predicate.Engine.{Engine}
use icebergr.Iceberg.{PrimitiveType}
use icebergr.Scan.Plan.{Task}
use icebergr.Scan.Plan.Rows.{arrived, rows, rs_scan_plan-rows}
use icebergr.Table.Snapshots.{resolve_snapshot_opt}
use icebergr.Scan.{configure}
use icebergr.Scan.Stream.{Request, Scanner, rs_scan_to_stream}
use icebergr.Panic.{Payload}
use icebergr.Reader.{BatchReader}
use icebergr.Reader.Stream.{Ending, pull, polls, given, number}
use icebergr.Scan.Stream.{started}
use icebergr.Scan.Stream.Read.{rs_scan_to_stream-given}
use icebergr.Scan.Stream.Outcome.{is_done}

abbrev new_table : Metadata
new_table = record {
  snapshots = [];
  snapshot_by_id = λ i. none;
  current_snapshot_id = none;
  current_schema = schema;
  default_spec_id = pos 0;
  default_spec_fields = [];
  history = [];
  property_keys = [];
  property = λ k. none;
  location = [];
  format_version = pos 2;
}

abbrev everything : Builder engine
everything = record {
  case_sensitive = true;
  columns = none;
  snapshot_id = none;
  filter = some engine.always_true;
  batch_size = none;
  row_group_filtering = true;
  row_selection = true;
}

-- an engine that reads every text as a null test of `price`, and a scan with that filter
abbrev null_prices : Engine
null_prices = record engine { json_parse = λ s. ok (Node.is_null (codes "price")) }

abbrev prices : Builder null_prices
unfolding missing_truth
prices = record {
  case_sensitive = true;
  columns = none;
  snapshot_id = none;
  filter = some (missing_truth null_prices (codes "price") PrimitiveType.double).t;
  batch_size = none;
  row_group_filtering = true;
  row_selection = true;
}

configured-row_selection_example : is_decimal PrimitiveType.double ≡ false
unfolding configured build_predicate build reference prices Mentions
configured-row_selection_example =
    configured-row_selection null_prices new_table none (codes "is.na(price)") none none true true
      true prices schema (Node.is_null (codes "price")) (codes "price") (codes "price")
      PrimitiveType.double refl refl refl refl refl refl

abbrev whole_table : Request
whole_table = record {
  select = none;
  filter_json = none;
  snapshot_id = none;
  batch_size = none;
  case_sensitive = true;
  row_group_filtering = true;
  row_selection = true;
  stream_addr = codes "0x10";
}

-- A plan is the builder, a batch a number, and a struct what is left in it.
abbrev scanner : Scanner engine (Builder engine) ℕ Bool (Option (Option ℕ))
scanner = record {
  plan = λ b. ok b;
  to_arrow = λ b. ok (Poll.batch 7 ∷ []);
  arrow_schema = λ s. ok [];
  schema_of = λ b. [];
  ffi = λ r. some r.pending;
  debug = λ s. s;
  why = λ s. s;
}

abbrev blank : Memory (Option (Option ℕ))
blank p = none

-- The first batch waits in the struct.
whole_table_is_exported :
    (rs_scan_to_stream engine scanner new_table whole_table blank).1 16 ≡ some (some 7)
unfolding rs_scan_to_stream
whole_table_is_exported = refl

abbrev two_files : List Task
two_files =
    record {
      data_file_path = codes "a";
      record_count = some 7;
      file_size_in_bytes = 90;
      start = 4;
      length = 86;
    }
    ∷ record {
      data_file_path = codes "b";
      record_count = none;
      file_size_in_bytes = 50;
      start = 4;
      length = 20;
    }
    ∷ []

rs_scan_plan-rows_example :
    (snapshot : Option ℤ) × (scan : Builder engine) × (tasks : List Task) × (resolve_snapshot_opt
        new_table none
      ≡ ok snapshot)
    × (configure engine (λ b. ok b) new_table none none snapshot none true true true ≡ ok scan)
    × (◌≡◌ {A = Result Text (List (Result Text Task))}
        (ok (arrived two_files))
        (ok (arrived tasks)))
    × (rows (λ n. n) two_files ≡ rows (λ n. n) tasks)
unfolding icebergr.Scan.Plan.rs_scan_plan
rs_scan_plan-rows_example =
    rs_scan_plan-rows (λ n. n) engine (λ b. ok b) (λ b. ok (arrived two_files)) new_table none none
      none true (rows (λ n. n) two_files) refl

abbrev two_batches : List ℕ
two_batches = 7 ∷ 8 ∷ []

abbrev bad_page : Ending ℕ
bad_page = Ending.panics (Payload.str (codes "bad page")) []

abbrev bad_scanner : Scanner engine (Builder engine) ℕ Bool (Option (Option ℕ))
bad_scanner = record scanner { to_arrow = λ b. ok (polls two_batches bad_page) }

rs_scan_to_stream-given_example :
    (reader : BatchReader ℕ (List (ArrowField Bool))) × (is_done
        (rs_scan_to_stream engine bad_scanner new_table whole_table blank).0
      ≡ true)
    × ((rs_scan_to_stream engine bad_scanner new_table whole_table blank).1 16
        ≡ some reader.pending)
    × (reader.schema ≡ [])
    × ((pull (suc (number two_batches)) reader).0 ≡ given two_batches bad_page)
unfolding started icebergr.Reader.parse_addr
rs_scan_to_stream-given_example =
    rs_scan_to_stream-given engine bad_scanner new_table whole_table blank 7 (8 ∷ []) bad_page [] 16
      refl refl
