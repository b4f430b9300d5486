-- ===== src/Write/Align/Sound.antt =====
-- An aligned batch holds every column of the data once, and none of its values changed but by a cast.
use mathlib.Core.Path.{subst}
use icebergr.Prelude.{
  List, [], ◌∷◌, ◌≡◌, refl, ◌⊎◌, inl, inr, Bool, true, false, not, some, arith, keep, is_empty,
  Result, ok, err, ◌>>=◌, map_err, traverse, All, Bool-cases, Option-cases, Result-cases, >>=-eq-ok,
}
use icebergr.Prelude.Text.{Text, text_eq, codes}
use icebergr.Errors.{ctx}
use icebergr.Write.Message.{Message}
use icebergr.Write.Align.{
  ArrowField, Batch, Arrow, seen_before, repeated_names, column_names, field_names, column_of,
  aligned, align_batch,
}

-- no name twice
abbrev pub AreSingle : List Text → Type 0
AreSingle [] = Unit
AreSingle (n ∷ names) = (seen_before n names ≡ false) × AreSingle names

text_eq_sym : (s t : Text) → text_eq s t ≡ text_eq t s
text_eq_sym [] [] = refl
text_eq_sym [] (d ∷ t) = refl
text_eq_sym (c ∷ s) [] = refl
text_eq_sym (c ∷ s) (d ∷ t) = ground (arith, text_eq_sym s t)

-- what `All` says of the names that follow `n`
unseen :
    (n : Text) (seen names : List Text)
    → All (λ m. seen_before m (n ∷ seen) ≡ false) names
    → seen_before n names ≡ false
unfolding seen_before
unseen n seen [] h = refl
unseen n seen (m ∷ names) (h, k) = ground (arith, text_eq_sym n m, unseen n seen names k)

weaken :
    (n : Text) (seen names : List Text)
    → All (λ m. seen_before m (n ∷ seen) ≡ false) names
    → All (λ m. seen_before m seen ≡ false) names
unfolding seen_before
weaken n seen [] h = h
weaken n seen (m ∷ names) (h, k) = (ground arith, weaken n seen names k)

repeated_names-AreSingle :
    (seen names : List Text)
    → repeated_names seen names ≡ []
    → All (λ m. seen_before m seen ≡ false) names × AreSingle names
unfolding repeated_names
repeated_names-AreSingle seen [] h = (record {}, record {})
repeated_names-AreSingle seen (n ∷ names) h =
    let (fresh, single) = repeated_names-AreSingle (n ∷ seen) names (ground arith) in
    ((ground arith, weaken n seen names fresh), (unseen n seen names fresh, single))

keep-none :
    (p : Text → Bool) (names : List Text)
    → keep (λ n. not (p n)) names ≡ []
    → All (λ n. p n ≡ true) names
keep-none p [] h = record {}
keep-none p (n ∷ names) h = elim (Bool-cases (p n)) [
  | inl e ↦ (e, keep-none p names (ground arith))
  | inr e ↦ absurd (ground arith)
]

Empty-cases : (l : List Text) → (l ≡ []) ⊎ (is_empty l ≡ false)
Empty-cases [] = inl refl
Empty-cases (x ∷ l) = inr refl

map_err-eq-ok :
    {E F A : Type 0} (f : E → F) (m : Result E A) {a : A} → map_err f m ≡ ok a → m ≡ ok a
map_err-eq-ok f (ok b) h = ground arith
map_err-eq-ok f (err e) h = cc

module _ {T C : Type 0} (arrow : Arrow T C) where
  -- The column of the field's name, as it is when the types agree, and else cast with no value lost.
  abbrev pub ComesFrom : List (ArrowField T × C) → ArrowField T → C → Type 0
  ComesFrom columns f c =
      (raw : C) × (column_of f.name columns ≡ some raw)
      × (((arrow.same_type (arrow.type_of raw) f.data_type ≡ true) × (c ≡ raw))
          ⊎ ((arrow.same_type (arrow.type_of raw) f.data_type ≡ false)
              × (arrow.cast raw f.data_type ≡ ok c)))

  abbrev pub ComeFrom : List (ArrowField T × C) → List (ArrowField T) → List C → Type 0
  ComeFrom columns [] [] = Unit
  ComeFrom columns [] (c ∷ out) = ⊥
  ComeFrom columns (f ∷ fs) [] = ⊥
  ComeFrom columns (f ∷ fs) (c ∷ out) = ComesFrom columns f c × ComeFrom columns fs out

  aligned-ComesFrom :
      (columns : List (ArrowField T × C)) (f : ArrowField T) (c : C)
      → aligned arrow columns f ≡ ok c
      → ComesFrom columns f c
  unfolding aligned
  aligned-ComesFrom columns f c h = elim (Option-cases (column_of f.name columns)) [
    | inl n ↦ absurd (ground arith)
    | inr (raw, e) ↦ elim (Bool-cases (arrow.same_type (arrow.type_of raw) f.data_type)) [
      | inl s ↦ (raw, e, inl (s, ground arith))
      | inr s ↦ elim (Result-cases (arrow.cast raw f.data_type)) [
        | inl (d, hd) ↦ absurd (ground arith)
        | inr (d, hd) ↦ (raw, e, inr (s, ground arith))
      ]
    ]
  ]

  traverse-ComeFrom :
      (columns : List (ArrowField T × C)) (fs : List (ArrowField T)) (out : List C)
      → traverse (aligned arrow columns) fs ≡ ok out
      → ComeFrom columns fs out
  unfolding traverse
  traverse-ComeFrom columns [] [] h = record {}
  traverse-ComeFrom columns [] (c ∷ out) h = cc
  traverse-ComeFrom columns (f ∷ fs) out h =
      let (c, hc, k) =
        >>=-eq-ok (aligned arrow columns f)
          (λ b. traverse (aligned arrow columns) fs >>= λ bs. ok (b ∷ bs)) h in
      let (cs, hcs, l) = >>=-eq-ok (traverse (aligned arrow columns) fs) (λ bs. ok (c ∷ bs)) k in
      subst (ComeFrom columns (f ∷ fs)) {x = c ∷ cs} (ground arith)
        (aligned-ComesFrom columns f c hc, traverse-ComeFrom columns fs cs hcs)

  -- When a batch is aligned, no two of its columns share a name and the table has a column of each
  -- name, so none is dropped; and arrow builds the result on the table's fields from columns each of
  -- which is the batch's column of the field's name, unchanged where the types agree and else cast.
  pub align_batch_lem :
      (batch : Batch T C) (target : List (ArrowField T)) (r : Batch T C)
      → align_batch arrow batch target ≡ ok r
      → AreSingle (column_names batch.columns)
        × All (λ n. seen_before n (field_names target) ≡ true) (column_names batch.columns)
        × (columns : List C) × ComeFrom batch.columns target columns
        × (arrow.try_new target columns ≡ ok r)
  unfolding align_batch
  align_batch_lem batch target r h =
      let names = column_names batch.columns in
      elim (Empty-cases (repeated_names [] names)) [
        | inr e ↦ absurd (ground arith)
        | inl e ↦ elim (Empty-cases (keep (λ n. not (seen_before n (field_names target))) names)) [
          | inr d ↦ absurd (ground arith)
          | inl d ↦
              let (columns, hc, k) =
                >>=-eq-ok (traverse (aligned arrow batch.columns) target)
                  (λ (columns : List C).
                    map_err {A = Batch T C}
                      (ctx {M = Message} (codes "the data does not fit the table schema"))
                      (arrow.try_new target columns))
                  (ground arith) in
              (
                (repeated_names-AreSingle [] names e).1,
                keep-none (λ n. seen_before n (field_names target)) names d,
                columns,
                traverse-ComeFrom batch.columns target columns hc,
                map_err-eq-ok (ctx {M = Message} (codes "the data does not fit the table schema"))
                    (arrow.try_new target columns) k,
              )
        ]
      ]
