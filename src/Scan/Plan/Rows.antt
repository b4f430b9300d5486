-- ===== src/Scan/Plan/Rows.antt =====
-- The planned file list has a row for each task.
use icebergr.Prelude.{
  ℕ, ◌≡◌, refl, ◌∙◌, sym, ap, List, [], ◌∷◌, ◌++◌, append_assoc, append-nil, map, Bool, true,
  Option, none, some, Result, ok, err, and_then, Result-cases, inl, inr, arith,
}
use icebergr.Prelude.Int.{ℤ}
use icebergr.Prelude.Text.{Text}
use icebergr.Predicate.Engine.{Engine}
use icebergr.Table.Snapshots.{Metadata, resolve_snapshot_opt}
use icebergr.Scan.{Builder, configure}
use icebergr.Scan.Plan.{Task, Columns, push, drain, rs_scan_plan}

-- The tasks that a stream without errors gives.
abbrev pub arrived : List Task → List (Result Text Task)
arrived = map (λ (t : Task). ok t)

module _ {F : Type 0} (as_f64 : ℕ → F) where
  -- the columns with a row added for each task
  abbrev with_rows : Columns as_f64 → List Task → Columns as_f64
  with_rows c tasks = record {
    paths = c.paths ++ map (λ (t : Task). t.data_file_path) tasks;
    records = c.records ++ map (λ (t : Task). and_then t.record_count (λ n. some (as_f64 n))) tasks;
    sizes = c.sizes ++ map (λ (t : Task). as_f64 t.file_size_in_bytes) tasks;
    starts = c.starts ++ map (λ (t : Task). as_f64 t.start) tasks;
    lengths = c.lengths ++ map (λ (t : Task). as_f64 t.length) tasks;
  }

  -- a row for each task: its path, its record count if it has one, its size, start and length
  abbrev pub rows : List Task → Columns as_f64
  rows tasks = record {
    paths = map (λ (t : Task). t.data_file_path) tasks;
    records = map (λ (t : Task). and_then t.record_count (λ n. some (as_f64 n))) tasks;
    sizes = map (λ (t : Task). as_f64 t.file_size_in_bytes) tasks;
    starts = map (λ (t : Task). as_f64 t.start) tasks;
    lengths = map (λ (t : Task). as_f64 t.length) tasks;
  }

  with_rows-push :
      (c : Columns as_f64) (t : Task) (tasks : List Task)
      → with_rows (push as_f64 c t) tasks ≡ with_rows c (t ∷ tasks)
  unfolding push
  with_rows-push c t tasks = simp (append_assoc) refl

  with_rows-none : (c : Columns as_f64) → with_rows c [] ≡ c
  with_rows-none c = simp append-nil refl

  drain-ok :
      (c out : Columns as_f64) (stream : List (Result Text Task))
      → drain as_f64 c stream ≡ ok out
      → (tasks : List Task) × (stream ≡ arrived tasks) × (out ≡ with_rows c tasks)
  unfolding drain
  drain-ok c out [] h = let same : c ≡ out = cc in ([], refl, sym same ∙ sym (with_rows-none c))
  drain-ok c out (err w ∷ stream) h = absurd cc
  drain-ok c out (ok t ∷ stream) h =
      let (tasks, same, e) = drain-ok (push as_f64 c t) out stream h in
      (
        t ∷ tasks,
        ap (λ (ts : List (Result Text Task)). ok t ∷ ts) same,
        e ∙ with_rows-push c t tasks,
      )

  -- A file list that is given has a row for each task of the scan of the snapshot asked for, in order,
  -- and the stream of tasks ended without an error.
  pub rs_scan_plan-rows :
      (e : Engine) {P : Type 0} (plan : Builder e → Result Text P)
      (plan_files : P → Result Text (List (Result Text Task))) (m : Metadata)
      (select : Option (List Text)) (filter_json snapshot_id : Option Text) (case_sensitive : Bool)
      (c : Columns as_f64)
      → rs_scan_plan as_f64 e plan plan_files m select filter_json snapshot_id case_sensitive ≡ ok c
      → (snapshot : Option ℤ) × (scan : P) × (tasks : List Task) × (resolve_snapshot_opt m
            snapshot_id
          ≡ ok snapshot)
        × (configure e plan m select filter_json snapshot none case_sensitive true true ≡ ok scan)
        × (plan_files scan ≡ ok (arrived tasks))
        × (c ≡ rows tasks)
  unfolding rs_scan_plan
  rs_scan_plan-rows e plan plan_files m select filter_json snapshot_id case_sensitive c h =
      elim (Result-cases (resolve_snapshot_opt m snapshot_id)) [
        | inl (w, hs) ↦ absurd (ground arith)
        | inr (snapshot, hs) ↦
            elim (Result-cases
              (configure e plan m select filter_json snapshot none case_sensitive true true)) [
                | inl (w, hc) ↦ absurd (ground arith)
                | inr (scan, hc) ↦ elim (Result-cases (plan_files scan)) [
                  | inl (w, hp) ↦ absurd (ground arith)
                  | inr (stream, hp) ↦
                      let (tasks, same, out) = drain-ok (rows []) c stream (ground arith) in
                      (snapshot, scan, tasks, hs, hc, cc, out)
                ]
              ]
      ]
