-- ===== src/Write/Tests.antt =====
-- A small warehouse, whose writer counts rows, and the theorems on it. A column is a number, and it
-- casts if it is even.
use icebergr.Prelude.{
  length, replicate, length-replicate, take, drop, append-nil, ℕ, ◌+◌, ◌≡◌, ◌≢◌, refl, sym, ap, ◌∙◌,
  is_empty, ◌⊎◌, inl, List, [], ◌∷◌, ◌++◌, All, Bool, true, false, ◌==◌, if◌then◌else◌, none, some,
  Result, ok, err, traverse, arith,
}
use icebergr.Prelude.Int.{ℤ, parse_signed}
use icebergr.Prelude.Text.{Text, codes}
use icebergr.Iceberg.{Schema, PartitionField}
use icebergr.Write.Location.{uncommittable_because, metadata_name_is_committable, is_versioned_uuid}
use icebergr.Write.Location.Shape.{IsConventional, uncommittable_because-none}
use icebergr.Write.Message.{RResult, Error}
use icebergr.Write.Align.{
  ArrowField, Batch, Arrow, seen_before, column_names, field_names, align_batch,
}
use icebergr.Write.Align.Sound.{AreSingle, ComeFrom, align_batch_lem}
use icebergr.Write.Append.{
  Warehouse, Event, opened, closed, committed, Rows, prepare, total_rows, snapshot_properties,
  rs_table_append,
}
use icebergr.Write.Slices.{slices, Covers, slices-Covers}
use icebergr.Write.Append.Rows.{
  IsLater, WriterLaws, count, count-append, Adds, rs_table_append-holds,
}
use icebergr.Write.Append.Outcome.{wrote_batches, IsWritten, rs_table_append-ok}
use icebergr.Write.Append.Refusal.{
  AreAligned, rs_table_append-IsUnwritable, rs_table_append-AreAligned,
}

abbrev any_uuid : Text → Bool
any_uuid s = true

abbrev conventional : Text
conventional = codes "/w/metadata/00001-ab.metadata.json"

uncommittable_because-none_example :
    (above : Text) × (file : Text) × (conventional ≡ (above ++ codes "/metadata") ++ b'/' ∷ file)
    × IsConventional any_uuid file
unfolding uncommittable_because metadata_name_is_committable is_versioned_uuid parse_signed
uncommittable_because-none_example = uncommittable_because-none any_uuid conventional refl

slices-Covers_example : Covers 0 70000 (slices 70000)
slices-Covers_example = slices-Covers 70000

abbrev toy_arrow : Arrow Bool ℕ
toy_arrow = record {
  same_type = λ a b. if a then b else (if b then false else true);
  type_of = λ c. c == 4;
  show_type = λ a. [];
  cast = λ c a. ok (c + 1);
  try_new = λ fields columns. ok (record { columns = zipped fields columns; num_rows = 2 });
}
  where
    zipped : List (ArrowField Bool) → List ℕ → List (ArrowField Bool × ℕ)
    zipped [] cs = []
    zipped (f ∷ fs) [] = []
    zipped (f ∷ fs) (c ∷ cs) = (f, c) ∷ zipped fs cs

-- One column `a` of the type that odd columns have.
abbrev column_a : ArrowField Bool
column_a = record { name = codes "a"; data_type = true }

abbrev two_rows : Batch Bool ℕ
two_rows = record { columns = (column_a, 3) ∷ []; num_rows = 2 }

abbrev two_aligned : Batch Bool ℕ
two_aligned = record { columns = (column_a, 4) ∷ []; num_rows = 2 }

align_batch_lem_example :
    AreSingle (column_names two_rows.columns)
    × All (λ n. seen_before n (field_names (column_a ∷ [])) ≡ true) (column_names two_rows.columns)
    × (columns : List ℕ) × ComeFrom toy_arrow two_rows.columns (column_a ∷ []) columns
    × (toy_arrow.try_new (column_a ∷ []) columns ≡ ok two_aligned)
unfolding align_batch traverse
align_batch_lem_example = align_batch_lem toy_arrow two_rows (column_a ∷ []) two_aligned refl

abbrev no_schema : Schema
no_schema = record {
  fields = [];
  field_by_name = λ s. none;
  field_by_name_case_insensitive = λ s. none;
  field_by_id = λ i. none;
}

-- A row is a number, and every row of a batch alike; a table, a writer and a file are their rows, and
-- a table of nine rows is partitioned.
abbrev by_day : PartitionField
by_day = record {
  source_id = ℤ.pos 1;
  field_id = ℤ.pos 1000;
  name = codes "day";
  transform = codes "day";
}

abbrev batch_rows : Batch Bool ℕ → List ℕ
batch_rows b = replicate b.num_rows 7

abbrev all_rows : List (List ℕ) → List ℕ
all_rows [] = []
all_rows (f ∷ files) = f ++ all_rows files

abbrev house : Warehouse
house = record {
  DataType = Bool;
  Column = ℕ;
  arrow = toy_arrow;
  is_uuid = any_uuid;
  Table = List ℕ;
  name = λ t. codes "t";
  schema = λ t. no_schema;
  partition_fields = λ t. if length t == 9 then by_day ∷ [] else [];
  metadata_location = λ t. some conventional;
  arrow_schema = λ s. ok (column_a ∷ []);
  LocationGenerator = Unit {0};
  location_generator = λ t. ok tt;
  Writer = List ℕ;
  DataFile = List ℕ;
  build = λ t g c. ok [];
  write = λ w b offset len. ok (w ++ take len (drop offset (batch_rows b)));
  close = λ w. ok (w ∷ []);
  commit = λ t files props. ok (t ++ all_rows files);
}

abbrev one_row : List ℕ
one_row = 1 ∷ []

abbrev three_rows : List ℕ
three_rows = 1 ∷ 7 ∷ 7 ∷ []

abbrev stream : RResult (List (Result Text (Rows house)))
stream = ok (ok two_rows ∷ [])

rs_table_append-ok_example :
    (batches : List (Rows house)) × (prepare house one_row stream (codes "memory") ≡ ok batches)
    × (((total_rows house batches ≡ 0)
          × ((rs_table_append house one_row stream (codes "zstd") [] [] (codes "memory")).0 ≡ [])
          × (three_rows ≡ one_row))
        ⊎ ((files : List (List ℕ)) × IsWritten house one_row batches files
            × ((rs_table_append house one_row stream (codes "zstd") [] [] (codes "memory")).0
                ≡ opened ∷ (wrote_batches house batches ++ closed ∷ committed files ∷ []))
            × (house.commit one_row files (snapshot_properties house [] []) ≡ ok three_rows)))
unfolding rs_table_append metadata_name_is_committable is_versioned_uuid parse_signed traverse
rs_table_append-ok_example =
    rs_table_append-ok house one_row three_rows stream (codes "zstd") [] [] (codes "memory") refl

rs_table_append-IsUnwritable_example :
    (e : Error) × (rs_table_append house
        (replicate 9 0)
        stream
        (codes "zstd")
        []
        []
        (codes "memory")
      ≡ ([], err e))
rs_table_append-IsUnwritable_example =
    rs_table_append-IsUnwritable house (replicate 9 0) stream (codes "zstd") [] [] (codes "memory")
      (inl refl)

log_is_not_empty :
    is_empty (rs_table_append house one_row stream (codes "zstd") [] [] (codes "memory")).0 ≡ false
unfolding rs_table_append metadata_name_is_committable is_versioned_uuid parse_signed traverse
log_is_not_empty = refl

asks : (rs_table_append house one_row stream (codes "zstd") [] [] (codes "memory")).0 ≢ []
asks h =
    let k : true ≡ false =
      ap (λ (l : List (Event (Rows house) (List ℕ))). is_empty l) (sym h) ∙ log_is_not_empty in
    ground arith

rs_table_append-AreAligned_example :
    (target : List (ArrowField Bool)) × (items : List (Result Text (Rows house))) × (batches : List
      (Rows house))
    × (house.arrow_schema no_schema ≡ ok target)
    × (stream ≡ ok items)
    × AreAligned house target items batches
    × (total_rows house batches ≢ 0)
rs_table_append-AreAligned_example =
    rs_table_append-AreAligned house one_row stream (codes "zstd") [] [] (codes "memory") asks

ok_injective : {A : Type 0} {a b : A} → ◌≡◌ {A = Result Text A} (ok a) (ok b) → a ≡ b
ok_injective h = ground arith

abbrev laws : WriterLaws house
laws = record {
  Row = ℕ;
  rows_of = batch_rows;
  length-rows_of = λ b. length-replicate b.num_rows 7;
  written = λ w p. count p w;
  in_files = λ files p. count p (all_rows files);
  holds = λ t p. count p t;
  built = λ t g c w p h. ap (count p) (sym (ok_injective h));
  writes = λ w v b offset len p inside h.
      ap (count p) (sym (ok_injective h))
      ∙ count-append p w (take len (drop offset (batch_rows b)));
  closes = λ w files p h.
      ap (λ (f : List (List ℕ)). count p (all_rows f)) (sym (ok_injective h))
      ∙ ap (count p) (append-nil w);
  Commits = λ t u. (more : List ℕ) × (u ≡ t ++ more);
  commits = λ t u files props h. (
    t,
    IsLater.same,
    λ p. ap (count p) (sym (ok_injective h)) ∙ count-append p t (all_rows files),
  );
}

rs_table_append-holds_example :
    (batches : List (Rows house)) × (prepare house one_row stream (codes "memory") ≡ ok batches)
    × Adds house laws one_row three_rows batches
unfolding rs_table_append metadata_name_is_committable is_versioned_uuid parse_signed traverse
rs_table_append-holds_example =
    rs_table_append-holds house laws one_row three_rows stream (codes "zstd") [] [] (codes "memory")
      refl
