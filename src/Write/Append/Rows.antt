-- ===== src/Write/Append/Rows.antt =====
-- What an append does to the rows of a table, seen as a bag: how many rows pass any test.
use icebergr.Prelude.{
  ℕ, zero, suc, ◌+◌, ◌≤◌, ◌≡◌, refl, sym, ap, ◌∙◌, inl, inr, List, [], ◌∷◌, ◌++◌, Bool, Option,
  arith, ◌==◌, if◌then◌else◌, length, take, drop, take-append-drop, Result, ok, Result-cases,
  Bool-cases,
}
use icebergr.Prelude.Text.{Text}
use icebergr.Catalog.{Properties}
use icebergr.Write.Location.{Compression}
use icebergr.Write.Slices.{slices, Covers, slices-Covers}
use icebergr.Write.Message.{RResult}
use icebergr.Write.Append.{
  Warehouse, Rows, prepare, total_rows, write_slices, write_batches, snapshot_properties, store,
  compression_of, generator_of, rs_table_append,
}

module _ {R : Type 0} where
  abbrev pub count : (R → Bool) → List R → ℕ
  count p [] = 0
  count p (x ∷ l) = (if p x then 1 else 0) + count p l

  pub count-append : (p : R → Bool) (l r : List R) → count p (l ++ r) ≡ count p l + count p r
  count-append p [] r = omega arith
  count-append p (x ∷ l) r = omega (arith, count-append p l r)

  count-le : (p : R → Bool) (l : List R) → count p l ≤ length l
  count-le p [] = omega arith
  count-le p (x ∷ l) = ground (arith, count-le p l)

  drop-nil : (n : ℕ) → drop {A = R} n [] ≡ []
  drop-nil zero = refl
  drop-nil (suc n) = refl

  drop-drop : (m n : ℕ) (l : List R) → drop n (drop m l) ≡ drop (m + n) l
  drop-drop zero n l = ap (λ (k : ℕ). drop k l) (omega arith)
  drop-drop (suc m) n [] = drop-nil n ∙ sym (drop-nil (suc m + n))
  drop-drop (suc m) n (x ∷ l) =
      let e : suc m + n ≡ suc (m + n) = omega arith in rw e (drop-drop m n l)

  drop-all : (l : List R) → drop (length l) l ≡ []
  drop-all [] = refl
  drop-all (x ∷ l) = drop-all l

  -- what a slice takes and what is behind it
  count-slice :
      (p : R → Bool) (at len : ℕ) (l : List R)
      → count p (drop at l) ≡ count p (take len (drop at l)) + count p (drop (at + len) l)
  count-slice p at len l =
      ap (count p) (sym (take-append-drop len (drop at l)))
      ∙ count-append p (take len (drop at l)) (drop len (drop at l))
      ∙ ap (λ (r : List R). count p (take len (drop at l)) + count p r) (drop-drop at len l)

Covers-le : (at n : ℕ) (l : List (ℕ × ℕ)) → Covers at n l → at ≤ n
Covers-le at n [] h = omega arith
Covers-le at n ((offset, len) ∷ l) (s, pos, small, c) = omega (arith, Covers-le (at + len) n l c)

-- The states that a table goes through from one on, by the commits that `Commits` tells of.
pub data IsLater {T : Type 0} (Commits : T → T → Type 0) (t : T) : T → Type 0 where
  same : IsLater Commits t t
  after : {u v : T} → IsLater Commits t u → Commits u v → IsLater Commits t v

-- What an append relies on of iceberg-rust: a writer is built empty, a write adds the rows of its
-- slice if that is inside the batch, closing gives files with the rows written, and a fast append adds
-- the rows of its files to the table as it stands in the catalog when the swap succeeds, which other
-- writers may have taken further than the handle's.
pub record WriterLaws (house : Warehouse) : Type 1 where
  pub Row : Type 0
  pub rows_of : Rows house → List Row
  pub length-rows_of : (b : Rows house) → length (rows_of b) ≡ b.num_rows
  -- the rows that pass a test: handed to a writer, in data files, in a table
  pub written : house.Writer → (Row → Bool) → ℕ
  pub in_files : List house.DataFile → (Row → Bool) → ℕ
  pub holds : house.Table → (Row → Bool) → ℕ
  pub built :
      (t : house.Table) (g : house.LocationGenerator) (c : Compression) (w : house.Writer)
      (p : Row → Bool)
      → house.build t g c ≡ ok w
      → written w p ≡ 0
  pub writes :
      (w v : house.Writer) (b : Rows house) (offset len : ℕ) (p : Row → Bool)
      → offset + len ≤ b.num_rows
      → house.write w b offset len ≡ ok v
      → written v p ≡ written w p + count p (take len (drop offset (rows_of b)))
  pub closes :
      (w : house.Writer) (files : List house.DataFile) (p : Row → Bool)
      → house.close w ≡ ok files
      → in_files files p ≡ written w p
  -- another writer's commit takes the table from the one state to the other
  pub Commits : house.Table → house.Table → Type 0
  pub commits :
      (t u : house.Table) (files : List house.DataFile) (props : Option Properties)
      → house.commit t files props ≡ ok u
      → (current : house.Table) × IsLater Commits t current
        × ((p : Row → Bool) → holds u p ≡ holds current p + in_files files p)

module _ (house : Warehouse) (laws : WriterLaws house) where
  open house use {Table, LocationGenerator, Writer, DataFile, build, write, close, commit}
  open laws use {
    Row, rows_of, length-rows_of, written, in_files, holds, built, writes, closes, Commits, commits,
  }

  -- the rows of the batches that pass a test
  abbrev pub in_batches : (Row → Bool) → List (Rows house) → ℕ
  in_batches p [] = 0
  in_batches p (b ∷ rest) = count p (rows_of b) + in_batches p rest

  write_slices-written :
      (w v : Writer) (b : Rows house) (at : ℕ) (l : List (ℕ × ℕ)) (p : Row → Bool)
      → Covers at b.num_rows l
      → (write_slices house w b l).1 ≡ ok v
      → written v p ≡ written w p + count p (drop at (rows_of b))
  unfolding write_slices
  write_slices-written w v b at [] p c h =
      let e : w ≡ v = cc in
      let d : drop at (rows_of b) ≡ [] =
        ap (λ (k : ℕ). drop k (rows_of b)) (c ∙ sym (length-rows_of b)) ∙ drop-all (rows_of b) in
      rw (← e, d) (omega arith)
  write_slices-written w v b at ((offset, len) ∷ rest) p (s, pos, small, c) h =
      elim (Result-cases (write w b offset len)) [
        | inl (e, he) ↦ absurd (ground arith)
        | inr (u, hu) ↦
            let inside : offset + len ≤ b.num_rows =
              omega (arith, s, Covers-le (at + len) b.num_rows rest c) in
            let one = writes w u b offset len p inside hu in
            let more = write_slices-written u v b (at + len) rest p c (ground arith) in
            let split = count-slice p at len (rows_of b) in
            let here = rw s at one in omega (arith, here, more, split)
      ]

  write_batches-written :
      (w v : Writer) (bs : List (Rows house)) (p : Row → Bool)
      → (write_batches house w bs).1 ≡ ok v
      → written v p ≡ written w p + in_batches p bs
  unfolding write_batches
  write_batches-written w v [] p h = let e : w ≡ v = cc in rw (← e) (omega arith)
  write_batches-written w v (b ∷ rest) p h =
      elim (Result-cases (write_slices house w b (slices b.num_rows)).1) [
        | inl (e, he) ↦ absurd (ground arith)
        | inr (u, hu) ↦
            let one =
              write_slices-written w u b 0 (slices b.num_rows) p (slices-Covers b.num_rows) hu in
            let more = write_batches-written u v rest p (ground arith) in omega (arith, one, more)
      ]

  -- `u` holds the rows of the batches, and those of a state of the table that is `t` or later
  abbrev pub Adds : Table → Table → List (Rows house) → Type 0
  Adds t u batches =
      (current : Table) × IsLater Commits t current
      × ((p : Row → Bool) → holds u p ≡ holds current p + in_batches p batches)

  store-holds :
      (t u : Table) (batches : List (Rows house)) (gen : LocationGenerator) (c : Compression)
      (props : Option Properties)
      → (store house t batches gen c props).1 ≡ ok u
      → Adds t u batches
  unfolding store
  store-holds t u batches gen c props h = elim (Result-cases (build t gen c)) [
    | inl (e, he) ↦ absurd (ground arith)
    | inr (w, hw) ↦ elim (Result-cases (write_batches house w batches).1) [
      | inl (e, he) ↦ absurd (ground arith)
      | inr (v, hv) ↦ elim (Result-cases (close v)) [
        | inl (e, he) ↦ absurd (ground arith)
        | inr (files, hf) ↦ elim (Result-cases (commit t files props)) [
          | inl (e, he) ↦ absurd (ground arith)
          | inr (x, hx) ↦
              let q : commit t files props ≡ ok u = ground arith in
              let (current, later, f) = commits t u files props q in
              (
                current,
                later,
                λ p.
                    let a = built t gen c w p hw in
                    let b = write_batches-written w v batches p hv in
                    let d = closes v files p hf in let e = f p in omega (arith, a, b, d, e),
              )
        ]
      ]
    ]
  ]

  in_batches-empty :
      (bs : List (Rows house)) (p : Row → Bool) → total_rows house bs ≡ 0 → in_batches p bs ≡ 0
  unfolding total_rows
  in_batches-empty [] p h = refl
  in_batches-empty (b ∷ bs) p h =
      omega (arith, count-le p (rows_of b), length-rows_of b, in_batches-empty bs p (omega arith))

  -- With a warehouse that keeps `WriterLaws`, an append that succeeds adds the aligned batches and takes
  -- nothing away: there is a state of the table, the handle's or one that other writers' commits took it
  -- to, such that the table that the append gives holds, for any test of a row, as many rows that pass
  -- it as that state and the batches together.
  pub rs_table_append-holds :
      (t u : Table) (stream : RResult (List (Result Text (Rows house)))) (compression : Text)
      (keys values : List Text) (kind : Text)
      → (rs_table_append house t stream compression keys values kind).1 ≡ ok u
      → (batches : List (Rows house)) × (prepare house t stream kind ≡ ok batches)
        × Adds t u batches
  unfolding rs_table_append
  rs_table_append-holds t u stream compression keys values kind h =
      elim (Bool-cases (length keys == length values)) [
        | inr l ↦ absurd (ground arith)
        | inl l ↦ elim (Result-cases (prepare house t stream kind)) [
          | inl (e, he) ↦ absurd (ground arith)
          | inr (batches, hb) ↦ elim (Bool-cases (total_rows house batches == 0)) [
            | inl z ↦
                let e : t ≡ u = ground arith in
                let same : Adds t u batches = (
                  t,
                  IsLater.same,
                  λ p.
                      let none_added = in_batches-empty batches p (ground arith) in
                      rw (← e) (omega (arith, none_added)),
                ) in
                (batches, hb, same)
            | inr z ↦ elim (Result-cases (compression_of house compression)) [
              | inl (e, he) ↦ absurd (ground arith)
              | inr (c, hc) ↦ elim (Result-cases (generator_of house t)) [
                | inl (e, he) ↦ absurd (ground arith)
                | inr (gen, hg) ↦ (
                  batches,
                  hb,
                  store-holds t u batches gen c (snapshot_properties house keys values)
                      (ground arith),
                )
              ]
            ]
          ]
        ]
      ]
