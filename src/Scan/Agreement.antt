-- ===== src/Scan/Agreement.antt =====
-- A scan and the schema of its empty result agree on the snapshot and the columns.
use mathlib.Core.Path.{subst}
use icebergr.Prelude.{
  ℕ, zero, suc, List, [], ◌∷◌, inl, inr, get_elem?, ◌≡◌, Bool, true, not, ◌&&◌, Option, none, some,
  arith, find, Result, ok, traverse, Bool-cases, Option-cases, Result-cases,
}
use icebergr.Prelude.Int.{ℤ}
use icebergr.Prelude.Text.{Text, text_eq, text_eq→eq}
use icebergr.Iceberg.{Schema}
use icebergr.Predicate.Engine.{Engine}
use icebergr.Predicate.Build.{BuiltPredicate, build_predicate}
use icebergr.Table.Snapshots.{Metadata, read_schema}
use icebergr.Write.Align.{ArrowField}
use icebergr.Scan.{Builder, configured, pick, fallback_schema}

module _ (e : Engine) where
  -- A scan with a filter is of the snapshot asked for, whose schema (the current snapshot's, when none
  -- is asked for) resolved the filter's names; the builder itself matches names exactly; and the row
  -- selection is off if the filter compares a decimal column, else as asked.
  pub configured-filter :
      (m : Metadata) (select : Option (List Text)) (json : Text) (snapshot batch_size : Option ℤ)
      (cs row_group_filtering row_selection : Bool) (b : Builder e)
      → configured e m select (some json) snapshot batch_size cs row_group_filtering row_selection
        ≡ ok b
      → (schema : Schema) × (built : BuiltPredicate e) × (read_schema m snapshot ≡ ok schema)
        × (build_predicate e json schema cs ≡ ok built)
        × (b.snapshot_id ≡ snapshot)
        × (b.case_sensitive ≡ true)
        × (b.filter ≡ some built.predicate)
        × (b.row_selection ≡ (row_selection && not built.has_decimal))
        × (b.row_group_filtering ≡ row_group_filtering)
  unfolding configured
  configured-filter m select json snapshot batch_size cs row_group_filtering row_selection b h =
      elim (Result-cases (read_schema m snapshot)) [
        | inl (x, hx) ↦ absurd (ground arith)
        | inr (schema, hs) ↦ elim (Result-cases (build_predicate e json schema cs)) [
          | inl (x, hx) ↦ absurd (ground arith)
          | inr (built, hb) ↦ (
            schema,
            built,
            hs,
            hb,
            ground arith,
            ground arith,
            ground arith,
            ground arith,
            ground arith,
          )
        ]
      ]

find-some :
    {A : Type 0} (p : A → Bool) (l : List A) (x : A)
    → find p l ≡ some x
    → (p x ≡ true) × (i : ℕ) × (get_elem? l i ≡ some x)
find-some p [] x h = cc
find-some p (y ∷ l) x h = elim (Bool-cases (p y)) [
  | inl e ↦ (ground arith, zero, ground arith)
  | inr e ↦ let (q, i, hi) = find-some p l x (ground arith) in (q, suc i, hi)
]

abbrev pub selects : Option (List Text) → List Text
selects none = []
selects (some cols) = cols

module _ {T : Type 0} (arrow_schema : Schema → Result Text (List (ArrowField T))) where
  -- Each name is the one of the field at its place, which the schema has.
  abbrev pub ArePicked : List (ArrowField T) → List Text → List (ArrowField T) → Type 0
  ArePicked full [] fields = fields ≡ []
  ArePicked full (c ∷ cols) [] = ⊥
  ArePicked full (c ∷ cols) (f ∷ fields) =
      (f.name ≡ c) × ((i : ℕ) × (get_elem? full i ≡ some f)) × ArePicked full cols fields

  -- All of the schema when nothing is selected, and else a field for each name.
  abbrev pub IsDrawn : List (ArrowField T) → List Text → List (ArrowField T) → Type 0
  IsDrawn full [] fields = fields ≡ full
  IsDrawn full (c ∷ cols) fields = ArePicked full (c ∷ cols) fields

  pick-ArePicked :
      (full : List (ArrowField T)) (cols : List Text) (fields : List (ArrowField T))
      → traverse (pick arrow_schema full) cols ≡ ok fields
      → ArePicked full cols fields
  unfolding traverse pick
  pick-ArePicked full [] fields h = ground arith
  pick-ArePicked full (c ∷ cols) fields h =
      elim (Option-cases (find (λ (f : ArrowField T). text_eq f.name c) full)) [
        | inl n ↦ absurd (ground arith)
        | inr (f, hf) ↦ elim (Result-cases (traverse (pick arrow_schema full) cols)) [
          | inl (x, hx) ↦ absurd (ground arith)
          | inr (rest, hr) ↦
              let (p, i, hi) = find-some (λ (g : ArrowField T). text_eq g.name c) full f hf in
              subst (ArePicked full (c ∷ cols)) {x = f ∷ rest} (ground arith)
                (text_eq→eq f.name c p, (i, hi), pick-ArePicked full cols rest hr)
        ]
      ]

  -- The schema of an empty result is drawn from the schema of the snapshot being read: all of it when
  -- nothing is selected, and else for each selected name, in order, a field of exactly that name.
  pub fallback_schema-ArePicked :
      (m : Metadata) (select : Option (List Text)) (snapshot : Option ℤ)
      (fields : List (ArrowField T))
      → fallback_schema arrow_schema m select snapshot ≡ ok fields
      → (schema : Schema) × (full : List (ArrowField T)) × (read_schema m snapshot ≡ ok schema)
        × (arrow_schema schema ≡ ok full)
        × IsDrawn full (selects select) fields
  unfolding fallback_schema
  fallback_schema-ArePicked m none snapshot fields h =
      elim (Result-cases (read_schema m snapshot)) [
        | inl (x, hx) ↦ absurd (ground arith)
        | inr (schema, hs) ↦ elim (Result-cases (arrow_schema schema)) [
          | inl (x, hx) ↦ absurd (ground arith)
          | inr (full, hf) ↦ (schema, full, hs, hf, ground arith)
        ]
      ]
  fallback_schema-ArePicked m (some []) snapshot fields h =
      elim (Result-cases (read_schema m snapshot)) [
        | inl (x, hx) ↦ absurd (ground arith)
        | inr (schema, hs) ↦ elim (Result-cases (arrow_schema schema)) [
          | inl (x, hx) ↦ absurd (ground arith)
          | inr (full, hf) ↦ (schema, full, hs, hf, ground arith)
        ]
      ]
  fallback_schema-ArePicked m (some (c ∷ cols)) snapshot fields h =
      elim (Result-cases (read_schema m snapshot)) [
        | inl (x, hx) ↦ absurd (ground arith)
        | inr (schema, hs) ↦ elim (Result-cases (arrow_schema schema)) [
          | inl (x, hx) ↦ absurd (ground arith)
          | inr (full, hf) ↦
              (schema, full, hs, hf, pick-ArePicked full (c ∷ cols) fields (ground arith))
        ]
      ]
