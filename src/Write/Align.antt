-- ===== src/Write/Align.antt =====
-- `align_batch` of src/rust/src/write.rs. Arrow's types, columns and batches, its cast and the building
-- of a batch are parameters.
pub mod Sound
use icebergr.Prelude.{
  ℕ, List, [], ◌∷◌, map, Bool, true, false, not, Option, none, some, if◌then◌else◌, any, keep,
  is_empty, Result, ok, err, ◌>>=◌, map_err, traverse,
}
use icebergr.Prelude.Text.{Text, codes, text_eq}
use icebergr.Prelude.Sort.{sort, dedup}
use icebergr.Write.Message.{RResult, fail, repeated, unexpected, missing, irreconcilable}
use icebergr.Errors.{ctx, message}

pub record ArrowField (T : Type 0) : Type 0 where
  pub name : Text
  pub data_type : T

-- `RecordBatch`: its schema's fields with their columns
pub record Batch (T C : Type 0) : Type 0 where
  pub columns : List (ArrowField T × C)
  pub num_rows : ℕ

-- What the module uses of arrow; `cast` is the cast with `safe: false`.
pub record Arrow (T C : Type 0) : Type 0 where
  pub same_type : T → T → Bool
  pub type_of : C → T
  pub show_type : T → Text
  pub cast : C → T → Result Text C
  pub try_new : List (ArrowField T) → List C → Result Text (Batch T C)

unfoldable pub seen_before : Text → List Text → Bool
seen_before n seen = any (text_eq n) seen

-- the names that occur again, at each place where they do
unfoldable pub repeated_names : List Text → List Text → List Text
unfolding seen_before
repeated_names seen [] = []
repeated_names seen (n ∷ names) =
    let rest = repeated_names (n ∷ seen) names in if seen_before n seen then n ∷ rest else rest

abbrev pub column_names : {T C : Type 0} → List (ArrowField T × C) → List Text
column_names [] = []
column_names ((f, c) ∷ rest) = f.name ∷ column_names rest

abbrev pub field_names : {T : Type 0} → List (ArrowField T) → List Text
field_names [] = []
field_names (f ∷ rest) = f.name ∷ field_names rest

-- `index_of`, then `column`: the first of the name
abbrev pub column_of : {T C : Type 0} → Text → List (ArrowField T × C) → Option C
column_of n [] = none
column_of n ((f, c) ∷ rest) = if text_eq f.name n then some c else column_of n rest

module _ {T C : Type 0} (arrow : Arrow T C) where
  unfoldable pub reconciled : ArrowField T → C → RResult C
  reconciled f c =
      if arrow.same_type (arrow.type_of c) f.data_type
      then ok c
      else map_err
          (λ e. message (
            irreconcilable f.name (arrow.show_type (arrow.type_of c)) (arrow.show_type f.data_type)
              e))
          (arrow.cast c f.data_type)

  -- the column for one field of the table
  unfoldable pub aligned : List (ArrowField T × C) → ArrowField T → RResult C
  unfolding reconciled
  aligned columns f = elim (column_of f.name columns) [
    | none ↦ fail (missing f.name)
    | some c ↦ reconciled f c
  ]

  unfoldable pub align_batch : Batch T C → List (ArrowField T) → RResult (Batch T C)
  unfolding repeated_names aligned sort dedup
  align_batch batch target =
      let names = column_names batch.columns in
      let again = repeated_names [] names in
      let strange = keep (λ n. not (seen_before n (field_names target))) names in
      if not (is_empty again)
      then fail (repeated (dedup (sort again)))
      else if not (is_empty strange)
      then fail (unexpected (sort strange) (sort (field_names target)))
      else (traverse (aligned batch.columns) target >>= λ columns.
          map_err (ctx (codes "the data does not fit the table schema"))
            (arrow.try_new target columns))
