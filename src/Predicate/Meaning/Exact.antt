-- ===== src/Predicate/Meaning/Exact.antt =====
-- R's comparison with a double, and the literal that is rounded to the column's width.
use icebergr.Prelude.{
  ℕ, List, [], ◌∷◌, some, ◌≡◌, refl, arith, All, any, ok, >>=-eq-ok, traverse, Bool-cases,
  Option-cases, inl, inr,
}
use icebergr.Prelude.Text.{Text}
use icebergr.Iceberg.{PrimitiveType}
use icebergr.Predicate.Float.{binary32, is_nan_bits}
use icebergr.Predicate.Engine.{Engine, Literal}
use icebergr.Predicate.Literal.{datum}
use icebergr.Predicate.Cmp.{Cmp}
use icebergr.Predicate.Meaning.{
  Cell, Rows, FitsType, r_order_of, stored_order_of, r_compare, stored_compare, same, r_in,
  stored_in, orders,
}

module _ (E : Engine) (S : Rows E) where
  open E use {Json, Datum, Reference, literal, Predicate}

  -- where the literal of a float column comes from
  pub datum-float_arg :
      (v : Json) (col : Text) (d : Datum)
      → datum E v PrimitiveType.float col ≡ ok d
      → (x : ℕ) × (E.json_as_f64 v ≡ some x) × (d ≡ E.datum_float (E.to_f32 x))
  unfolding datum
  datum-float_arg v col d e = elim (Option-cases (E.json_as_f64 v)) [
    | inl n ↦ absurd (ground arith)
    | inr (x, ex) ↦ (x, ex, ground arith)
  ]

  -- the literal of a column of this type is not rounded
  abbrev pub Keeps : PrimitiveType → Json → Type 0
  Keeps ty j =
      (x : ℕ) → ty ≡ PrimitiveType.float → E.json_as_f64 j ≡ some x → S.to_f64 (E.to_f32 x) ≡ x

  r_order_of-stored :
      (ty : PrimitiveType) (col : Text) (j : Json) (d v : Datum)
      → FitsType ty (literal v)
      → Keeps ty j
      → datum E j ty col ≡ ok d
      → r_order_of E S ty j d v ≡ stored_order_of E S v d
  r_order_of-stored PrimitiveType.float col j d v (a, ea) keeps h =
      let (x, ex, ed) = datum-float_arg j col d h in
      let l : literal d ≡ Literal.float (E.to_f32 x) = rw ed (S.literal-float (E.to_f32 x)) in
      let exact = keeps x refl ex in
      let nx = S.json_finite j x ex in
      let nz = S.to_f32_finite x nx in
      elim (Bool-cases (is_nan_bits binary32 a)) [
        | inl n ↦ rw (ea, ex, l, n) refl
        | inr n ↦
            let ordered = rw exact at (S.to_f64_ordered a (E.to_f32 x) n nz) in
            rw (ea, ex, l, n, nz, nx, ordered) refl
      ]
  r_order_of-stored _ col j d v fits keeps h = refl

  pub r_compare-stored :
      (op : Cmp) (ty : PrimitiveType) (col : Text) (j : Json) (d : Datum) (c : Cell Datum)
      → ((v : Datum) → c ≡ Cell.value v → FitsType ty (literal v))
      → Keeps ty j
      → datum E j ty col ≡ ok d
      → stored_compare E S op c d ≡ r_compare E S op c (r_order_of E S ty j d)
  r_compare-stored op ty col j d Cell.absent fits keeps h = refl
  r_compare-stored op ty col j d Cell.null fits keeps h = refl
  r_compare-stored op ty col j d (Cell.value v) fits keeps h =
      rw (r_order_of-stored ty col j d v (fits v refl) keeps h) refl

  any-stored :
      (ty : PrimitiveType) (col : Text) (js : List Json) (ds : List Datum) (v : Datum)
      → FitsType ty (literal v)
      → All (Keeps ty) js
      → traverse (λ j. datum E j ty col) js ≡ ok ds
      → any (λ d. same E S (stored_order_of E S v d)) ds
        ≡ any (λ f. same E S (f v)) (orders E S ty js ds)
  unfolding traverse
  any-stored ty col [] ds v fits keeps h = let nil : [] ≡ ds = cc in rw (← nil) refl
  any-stored ty col (j ∷ js) ds v fits (k, keeps) h =
      let (d, hd, h1) = >>=-eq-ok (datum E j ty col) _ h in
      let (rest, hr, h2) = >>=-eq-ok (traverse (λ j. datum E j ty col) js) _ h1 in
      let cons : d ∷ rest ≡ ds = cc in
      rw
        (
          ← cons,
          r_order_of-stored ty col j d v fits k hd,
          any-stored ty col js rest v fits keeps hr,
        )
        refl

  pub r_in-stored :
      (ty : PrimitiveType) (col : Text) (js : List Json) (ds : List Datum) (c : Cell Datum)
      → ((v : Datum) → c ≡ Cell.value v → FitsType ty (literal v))
      → All (Keeps ty) js
      → traverse (λ j. datum E j ty col) js ≡ ok ds
      → stored_in E S c ds ≡ r_in E S c (orders E S ty js ds)
  r_in-stored ty col js ds Cell.absent fits keeps h = refl
  r_in-stored ty col js ds Cell.null fits keeps h = refl
  r_in-stored ty col js ds (Cell.value v) fits keeps h =
      rw (any-stored ty col js ds v (fits v refl) keeps h) refl
