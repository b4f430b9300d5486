-- ===== src/Scan/Plan.antt =====
-- `rs_scan_plan` of src/rust/src/scan.rs: the planned file list. The planning is a parameter, and so is
-- the conversion `as f64`.
pub mod Rows
use icebergr.Prelude.{
  ℕ, List, [], ◌∷◌, ◌++◌, Bool, true, Option, none, some, Result, ok, err, ◌>>=◌, map_err, and_then,
}
use icebergr.Prelude.Text.{Text, codes}
use icebergr.Errors.{ctx}
use icebergr.Predicate.Engine.{Engine}
use icebergr.Table.Snapshots.{Metadata, resolve_snapshot_opt}
use icebergr.Scan.{Error, own, of_table, Builder, configure}

-- What is read of a `FileScanTask`.
pub record Task : Type 0 where
  pub data_file_path : Text
  pub record_count : Option ℕ
  pub file_size_in_bytes : ℕ
  pub start : ℕ
  pub length : ℕ

module _ {F : Type 0} (as_f64 : ℕ → F) where
  pub record Columns : Type 0 where
    pub paths : List Text
    pub records : List (Option F)
    pub sizes : List F
    pub starts : List F
    pub lengths : List F

  -- one turn of the loop: each scalar is pushed onto its column
  unfoldable pub push : Columns → Task → Columns
  push c t = record {
    paths = c.paths ++ t.data_file_path ∷ [];
    records = c.records ++ and_then t.record_count (λ n. some (as_f64 n)) ∷ [];
    sizes = c.sizes ++ as_f64 t.file_size_in_bytes ∷ [];
    starts = c.starts ++ as_f64 t.start ∷ [];
    lengths = c.lengths ++ as_f64 t.length ∷ [];
  }

  -- the loop over what `try_next` gives
  unfoldable pub drain : Columns → List (Result Text Task) → Result Text Columns
  unfolding push
  drain c [] = ok c
  drain c (err e ∷ rest) = err e
  drain c (ok t ∷ rest) = drain (push c t) rest

  unfoldable pub rs_scan_plan :
      (e : Engine) {P : Type 0}
      → (Builder e → Result Text P)
      → (P → Result Text (List (Result Text Task)))
      → Metadata
      → Option (List Text)
      → Option Text
      → Option Text
      → Bool
      → Result Error Columns
  unfolding resolve_snapshot_opt configure drain
  rs_scan_plan e plan plan_files m select filter_json snapshot_id case_sensitive = do
    snapshot ← map_err of_table (resolve_snapshot_opt m snapshot_id)
    scan ← configure e plan m select filter_json snapshot none case_sensitive true true
    map_err (λ t. own (ctx (codes "could not plan the scan") t))
        (plan_files scan
          >>= drain (record { paths = []; records = []; sizes = []; starts = []; lengths = [] }))
