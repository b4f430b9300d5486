-- ===== src/Scan.antt =====
-- src/rust/src/scan.rs: what a scan is configured with, and the schema of an empty result. The columns
-- of an Arrow schema are a parameter, and so is the planning of a scan.
pub mod Agreement
pub mod Decimal
pub mod Plan
pub mod Stream
mod Tests
use icebergr.Prelude.{
  ℕ, List, [], ◌∷◌, map, Bool, true, false, not, ◌&&◌, Option, none, some, if◌then◌else◌, is_empty,
  find, Result, ok, err, ◌>>=◌, map_err, ok_or, traverse,
}
use icebergr.Prelude.Int.{ℤ, ltb_ℤ, pos, pos_part}
use icebergr.Prelude.Text.{Text, codes, text_eq}
use icebergr.Prelude.Sort.{sort}
use icebergr.Iceberg.{Schema}
use icebergr.Errors.{RError, ctx, message}
use icebergr.Predicate.Engine.{Engine}
use icebergr.Predicate.Build.{BuiltPredicate, build_predicate}
use icebergr.Predicate.Message as Filter
use icebergr.Reader
use icebergr.Table.Snapshots
use icebergr.Table.Snapshots.{Metadata, read_schema}
use icebergr.Write.Align.{ArrowField}

pub data Message : Type 0 where
  -- the column, and those there are
  cannot_select : Text → List Text → Message

-- An error of this module, or of one that it calls.
pub data Error : Type 0 where
  own : RError Message → Error
  of_table : RError Snapshots.Message → Error
  of_reader : RError Reader.Message → Error
  of_filter : Filter.Error → Error

module _ (e : Engine) where
  open e use {Predicate}

  -- `TableScanBuilder`; no columns is `select_all`.
  pub record Builder : Type 0 where
    pub case_sensitive : Bool
    pub columns : Option (List Text)
    pub snapshot_id : Option ℤ
    pub filter : Option Predicate
    pub batch_size : Option ℕ
    pub row_group_filtering : Bool
    pub row_selection : Bool

  -- An empty selection selects every column.
  abbrev pub selected : Option (List Text) → Option (List Text)
  selected none = none
  selected (some []) = none
  selected (some (c ∷ cols)) = some (c ∷ cols)

  abbrev positive : Option ℤ → Option ℕ
  positive none = none
  positive (some n) = if ltb_ℤ (pos 0) n then some (pos_part n) else none

  -- The filter's predicate, and whether the row selection stays on.
  abbrev with_filter :
      Metadata → Option Text → Option ℤ → Bool → Bool → Result Error (Option Predicate × Bool)
  unfolding read_schema build_predicate
  with_filter m none snapshot cs row_selection = ok (none, row_selection)
  with_filter m (some json) snapshot cs row_selection = do
    schema ← map_err of_table (read_schema m snapshot)
    built ← map_err of_filter (build_predicate e json schema cs)
    ok (some built.predicate, if built.has_decimal then false else row_selection)

  -- `configure`, up to the planning of the scan.
  unfoldable pub configured :
      Metadata
      → Option (List Text)
      → Option Text
      → Option ℤ
      → Option ℤ
      → Bool
      → Bool
      → Bool
      → Result Error Builder
  unfolding with_filter
  configured m select filter_json snapshot batch_size cs row_group_filtering row_selection = do
    (predicate, rows) ← with_filter m filter_json snapshot cs row_selection
    ok (record {
      case_sensitive = true;
      columns = selected select;
      snapshot_id = snapshot;
      filter = predicate;
      batch_size = positive batch_size;
      row_group_filtering = row_group_filtering;
      row_selection = rows;
    })

  unfoldable pub configure :
      {P : Type 0}
      → (Builder → Result Text P)
      → Metadata
      → Option (List Text)
      → Option Text
      → Option ℤ
      → Option ℤ
      → Bool
      → Bool
      → Bool
      → Result Error P
  unfolding configured
  configure plan m select filter_json snapshot batch_size cs row_group_filtering row_selection =
      configured m select filter_json snapshot batch_size cs row_group_filtering row_selection
      >>= λ b. map_err (λ t. own (ctx (codes "could not plan the scan") t)) (plan b)

module _ {T : Type 0} (arrow_schema : Schema → Result Text (List (ArrowField T))) where
  unfoldable pub pick : List (ArrowField T) → Text → Result Error (ArrowField T)
  unfolding sort
  pick full c =
      ok_or (find (λ (f : ArrowField T). text_eq f.name c) full)
        (own (message (cannot_select c (sort (map (λ (f : ArrowField T). f.name) full)))))

  unfoldable pub fallback_schema :
      Metadata → Option (List Text) → Option ℤ → Result Error (List (ArrowField T))
  unfolding read_schema pick
  fallback_schema m select snapshot = do
    schema ← map_err of_table (read_schema m snapshot)
    full ←
        map_err (λ t. own (ctx (codes "could not convert the Iceberg schema to Arrow") t))
          (arrow_schema schema)
    elim select [
      | none ↦ ok full
      | some cols ↦ elim cols [ [] ↦ ok full | c ∷ rest ↦ traverse (pick full) (c ∷ rest) ]
    ]
