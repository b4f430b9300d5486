-- ===== src/Write/Append/Outcome.antt =====
-- What an append asks of the warehouse.
use icebergr.Prelude.{
  ℕ, List, [], ◌∷◌, ◌++◌, ◌≡◌, refl, ◌⊎◌, inl, inr, Option, ◌==◌, arith, length, Result, ok,
  Bool-cases, Result-cases,
}
use icebergr.Prelude.Text.{Text}
use icebergr.Catalog.{Properties}
use icebergr.Write.Location.{Compression}
use icebergr.Write.Slices.{slices}
use icebergr.Write.Message.{RResult}
use icebergr.Write.Append.{
  Warehouse, opened, wrote, closed, committed, Rows, Log, prepare, total_rows, write_slices,
  write_batches, snapshot_properties, store, compression_of, generator_of, rs_table_append,
}

module _ (house : Warehouse) where
  open house use {
    DataType, Column, arrow, is_uuid, Table, schema, partition_fields, metadata_location,
    arrow_schema, LocationGenerator, location_generator, Writer, DataFile, build, write, close,
    commit,
  }

  -- the events of writing the slices of one batch, and of every batch, in order
  abbrev pub wrote_slices : Rows house → List (ℕ × ℕ) → Log house
  wrote_slices b [] = []
  wrote_slices b ((offset, len) ∷ rest) = wrote b offset len ∷ wrote_slices b rest

  abbrev pub wrote_batches : List (Rows house) → Log house
  wrote_batches [] = []
  wrote_batches (b ∷ rest) = wrote_slices b (slices b.num_rows) ++ wrote_batches rest

  -- the writes that lead from one writer to another: the slices of one batch, and every batch, in order
  abbrev pub WritesSlices : Writer → Rows house → List (ℕ × ℕ) → Writer → Type 0
  WritesSlices w b [] v = w ≡ v
  WritesSlices w b ((offset, len) ∷ rest) v =
      (u : Writer) × (write w b offset len ≡ ok u) × WritesSlices u b rest v

  abbrev pub WritesBatches : Writer → List (Rows house) → Writer → Type 0
  WritesBatches w [] v = w ≡ v
  WritesBatches w (b ∷ rest) v =
      (u : Writer) × WritesSlices w b (slices b.num_rows) u × WritesBatches u rest v

  write_slices-WritesSlices :
      (w v : Writer) (b : Rows house) (l : List (ℕ × ℕ))
      → (write_slices house w b l).1 ≡ ok v
      → WritesSlices w b l v
  unfolding write_slices
  write_slices-WritesSlices w v b [] h = cc
  write_slices-WritesSlices w v b ((offset, len) ∷ rest) h =
      elim (Result-cases (write w b offset len)) [
        | inl (e, he) ↦ absurd (ground arith)
        | inr (u, hu) ↦ (u, hu, write_slices-WritesSlices u v b rest (ground arith))
      ]

  write_batches-WritesBatches :
      (w v : Writer) (bs : List (Rows house))
      → (write_batches house w bs).1 ≡ ok v
      → WritesBatches w bs v
  unfolding write_batches
  write_batches-WritesBatches w v [] h = cc
  write_batches-WritesBatches w v (b ∷ rest) h =
      elim (Result-cases (write_slices house w b (slices b.num_rows)).1) [
        | inl (e, he) ↦ absurd (ground arith)
        | inr (u, hu) ↦ (
          u,
          write_slices-WritesSlices w u b (slices b.num_rows) hu,
          write_batches-WritesBatches u v rest (ground arith),
        )
      ]

  write_slices-log :
      (w v : Writer) (b : Rows house) (l : List (ℕ × ℕ))
      → (write_slices house w b l).1 ≡ ok v
      → (write_slices house w b l).0 ≡ wrote_slices b l
  unfolding write_slices
  write_slices-log w v b [] h = refl
  write_slices-log w v b ((offset, len) ∷ rest) h = elim (Result-cases (write w b offset len)) [
    | inl (e, he) ↦ absurd (ground arith)
    | inr (u, hu) ↦ ground (arith, write_slices-log u v b rest)
  ]

  write_batches-log :
      (w v : Writer) (bs : List (Rows house))
      → (write_batches house w bs).1 ≡ ok v
      → (write_batches house w bs).0 ≡ wrote_batches bs
  unfolding write_batches
  write_batches-log w v [] h = refl
  write_batches-log w v (b ∷ rest) h =
      elim (Result-cases (write_slices house w b (slices b.num_rows)).1) [
        | inl (e, he) ↦ absurd (ground arith)
        | inr (u, hu) ↦
            ground (arith, write_slices-log w u b (slices b.num_rows), write_batches-log u v rest)
      ]

  -- The files are those that a new writer gives when it is closed after every write.
  pub record IsWritten (t : Table) (batches : List (Rows house)) (files : List DataFile)
      : Type 0 where
    pub gen : LocationGenerator
    pub compression : Compression
    pub fresh : Writer
    pub full : Writer
    pub located : location_generator t ≡ ok gen
    pub built : build t gen compression ≡ ok fresh
    pub filled : WritesBatches fresh batches full
    pub done : close full ≡ ok files

  store-ok :
      (t u : Table) (batches : List (Rows house)) (gen : LocationGenerator) (c : Compression)
      (props : Option Properties)
      → location_generator t ≡ ok gen
      → (store house t batches gen c props).1 ≡ ok u
      → (files : List DataFile) × IsWritten t batches files
        × ((store house t batches gen c props).0
            ≡ opened ∷ (wrote_batches batches ++ closed ∷ committed files ∷ []))
        × (commit t files props ≡ ok u)
  unfolding store
  store-ok t u batches gen c props hg h = elim (Result-cases (build t gen c)) [
    | inl (e, he) ↦ absurd (ground arith)
    | inr (w, hw) ↦ elim (Result-cases (write_batches house w batches).1) [
      | inl (e, he) ↦ absurd (ground arith)
      | inr (v, hv) ↦ elim (Result-cases (close v)) [
        | inl (e, he) ↦ absurd (ground arith)
        | inr (files, hf) ↦ elim (Result-cases (commit t files props)) [
          | inl (e, he) ↦ absurd (ground arith)
          | inr (x, hx) ↦
              let log = write_batches-log w v batches hv in
              let written : IsWritten t batches files = record {
                gen = gen;
                compression = c;
                fresh = w;
                full = v;
                located = hg;
                built = hw;
                filled = write_batches-WritesBatches w v batches hv;
                done = hf;
              } in
              (files, written, ground arith, ground arith)
        ]
      ]
    ]
  ]

  -- An append that succeeds either had no row to add, asked for nothing and gives the table back; or it
  -- opened a writer, wrote the slices of every aligned batch in order, closed, and committed once, with
  -- the caller's properties, exactly the files that the closing of that writer gave; and it gives the
  -- table of that commit.
  pub rs_table_append-ok :
      (t u : Table) (stream : RResult (List (Result Text (Rows house)))) (compression : Text)
      (keys values : List Text) (kind : Text)
      → (rs_table_append house t stream compression keys values kind).1 ≡ ok u
      → (batches : List (Rows house)) × (prepare house t stream kind ≡ ok batches)
        × (((total_rows house batches ≡ 0)
              × ((rs_table_append house t stream compression keys values kind).0 ≡ [])
              × (u ≡ t))
            ⊎ ((files : List DataFile) × IsWritten t batches files
                × ((rs_table_append house t stream compression keys values kind).0
                    ≡ opened ∷ (wrote_batches batches ++ closed ∷ committed files ∷ []))
                × (commit t files (snapshot_properties house keys values) ≡ ok u)))
  unfolding rs_table_append
  rs_table_append-ok t u stream compression keys values kind h =
      elim (Bool-cases (length keys == length values)) [
        | inr l ↦ absurd (ground arith)
        | inl l ↦ elim (Result-cases (prepare house t stream kind)) [
          | inl (e, he) ↦ absurd (ground arith)
          | inr (batches, hb) ↦ elim (Bool-cases (total_rows house batches == 0)) [
            | inl z ↦ (batches, hb, inl (ground arith, ground arith, ground arith))
            | inr z ↦ elim (Result-cases (compression_of house compression)) [
              | inl (e, he) ↦ absurd (ground arith)
              | inr (c, hc) ↦ elim (Result-cases (generator_of house t)) [
                | inl (e, he) ↦ absurd (ground arith)
                | inr (gen, hg) ↦
                    let located : location_generator t ≡ ok gen = ground arith in
                    let (files, hw, hl, hu) =
                      store-ok t u batches gen c (snapshot_properties house keys values) located
                        (ground arith) in
                    (batches, hb, inr (files, hw, ground arith, hu))
              ]
            ]
          ]
        ]
      ]
