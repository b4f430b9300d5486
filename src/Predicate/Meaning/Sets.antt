-- ===== src/Predicate/Meaning/Sets.antt =====
-- The pair of `%in%`.
use icebergr.Prelude.{
  ℕ, ◌<◌, List, [], ◌∷◌, true, false, not, ◌&&◌, ◌||◌, ◌≡◌, refl, arith, if◌then◌else◌, any, keep,
  All, is_empty, Bool-cases, inl, inr,
}
use mathlib.Core.Path.{subst}
use icebergr.Iceberg.{PrimitiveType}
use icebergr.Predicate.Float.{Width, binary32, binary64, is_nan_bits, is_zero_bits, value_order}
use icebergr.Predicate.Float.Order.{total_order-eq-value_order}
use icebergr.Predicate.Engine.{Engine, Literal}
use icebergr.Predicate.Cmp.{Cmp}
use icebergr.Predicate.Build.{is_float, is_zero, float_compare, membership_truth}
use icebergr.Predicate.Meaning.{
  Cell, nan_literal, on_cell, is_eq, Rows, FitsType, InCLocale, stored_in, Pairs, same,
  stored_order_of,
}
use icebergr.Predicate.Meaning.Leaves.{
  matches-float_compare, matches-float_compare_null, matches-float_compare_absent,
  stored_order_of-value, other_literal, value_of,
}

-- NaN equals no number, and the zeros equal the same values.
value_order-nan :
    (w : Width) (x y : ℕ)
    → 0 < w.sign
    → is_nan_bits w x ≡ true
    → is_nan_bits w y ≡ false
    → is_eq (value_order w x y) ≡ false
value_order-nan w x y h hx hy = ground arith

value_order-zero :
    (w : Width) (x y z : ℕ)
    → is_zero_bits w y ≡ true
    → is_zero_bits w z ≡ true
    → value_order w x y ≡ value_order w x z
value_order-zero w x y z hy hz = ground arith

module _ (E : Engine) (S : Rows E) where
  open E use {Datum, Reference, literal}
  open S use {Row, cell, matches, order}

  abbrev pub IsFinite : PrimitiveType → Datum → Type 0
  IsFinite ty d = FitsType ty (literal d) × (nan_literal (literal d) ≡ false)

  same-value_of :
      (v d : Datum) (ty : PrimitiveType)
      → is_float ty ≡ true
      → FitsType ty (literal v)
      → IsFinite ty d
      → same E S (stored_order_of E S v d) ≡ is_eq (value_of E S v d)
  unfolding value_of
  same-value_of v d PrimitiveType.float h (x, ex) ((y, ey), fin) =
      ground (arith, value_order-nan binary32 x y (omega arith))
  same-value_of v d PrimitiveType.double h (x, ex) ((y, ey), fin) =
      ground (arith, value_order-nan binary64 x y (omega arith))
  same-value_of v d _ h fv fd = cc

  -- one literal of the set: looked up by its bits, unless it is a zero
  same-split :
      (v d : Datum) (ty : PrimitiveType)
      → is_float ty ≡ true
      → FitsType ty (literal v)
      → IsFinite ty d
      → same E S (stored_order_of E S v d)
        ≡ (if is_zero E d then is_eq (value_of E S v d) else is_eq (order v d))
  unfolding value_of is_zero
  same-split v d PrimitiveType.float h (x, ex) ((y, ey), fin) = ground (
    arith,
    value_order-nan binary32 x y (omega arith),
    total_order-eq-value_order binary32 x y (omega arith),
    S.order-float v d x y ex ey,
  )
  same-split v d PrimitiveType.double h (x, ex) ((y, ey), fin) = ground (
    arith,
    value_order-nan binary64 x y (omega arith),
    total_order-eq-value_order binary64 x y (omega arith),
    S.order-double v d x y ex ey,
  )
  same-split v d _ h fv fd = cc

  value_of-zero :
      (v d z : Datum) (ty : PrimitiveType)
      → is_float ty ≡ true
      → FitsType ty (literal v)
      → FitsType ty (literal d)
      → FitsType ty (literal z)
      → is_zero E d ≡ true
      → is_zero E z ≡ true
      → value_of E S v d ≡ value_of E S v z
  unfolding value_of is_zero
  value_of-zero v d z PrimitiveType.float h (x, ex) (y, ey) (u, eu) hd hz =
      ground (arith, value_order-zero binary32 x y u)
  value_of-zero v d z PrimitiveType.double h (x, ex) (y, ey) (u, eu) hd hz =
      ground (arith, value_order-zero binary64 x y u)
  value_of-zero v d z _ h fv fd fz hd hz = cc

  abbrev zeros_in : PrimitiveType → List Datum → List Datum
  zeros_in ty ds = keep (λ d. is_float ty && is_zero E d) ds

  abbrev others_in : PrimitiveType → List Datum → List Datum
  others_in ty ds = keep (λ d. not (is_float ty && is_zero E d)) ds

  -- The set test splits into the lookup of the others and the zeros.
  any-split :
      (v : Datum) (ty : PrimitiveType) (ds : List Datum)
      → is_float ty ≡ true
      → FitsType ty (literal v)
      → All (IsFinite ty) ds
      → any (λ d. same E S (stored_order_of E S v d)) ds ≡ (
          any (λ d. is_eq (order v d)) (others_in ty ds)
          || any (λ d. is_eq (value_of E S v d)) (zeros_in ty ds))
  any-split v ty [] h fv fs = refl
  any-split v ty (d ∷ ds) h fv (f, fs) =
      ground (arith, any-split v ty ds h fv fs, same-split v d ty h fv f)

  -- Any zero stands for all of them.
  any-zeros :
      (v z : Datum) (ty : PrimitiveType) (ds : List Datum)
      → is_float ty ≡ true
      → FitsType ty (literal v)
      → FitsType ty (literal z)
      → is_zero E z ≡ true
      → All (IsFinite ty) ds
      → (is_eq (value_of E S v z) || any (λ d. is_eq (value_of E S v d)) (zeros_in ty ds))
        ≡ is_eq (value_of E S v z)
  any-zeros v z ty [] h fv fz hz fs = ground arith
  any-zeros v z ty (d ∷ ds) h fv fz hz (f, fs) =
      ground (arith, any-zeros v z ty ds h fv fz hz fs, value_of-zero v d z ty h fv f.0 fz)

  abbrev absent_test : PrimitiveType → Reference → E.Predicate
  absent_test ty r = if is_float ty then E.p_or (E.is_null r) (E.is_nan r) else E.is_null r

  matches-absent_test :
      (ty : PrimitiveType) (r : Reference) (row : Row)
      → matches (absent_test ty r) row
        ≡ on_cell true true (λ v. is_float ty && nan_literal (literal v)) (cell row r)
  matches-absent_test ty r row = ground (
    arith,
    S.matches-or (E.is_null r) (E.is_nan r) row,
    S.matches-is_null r row,
    S.matches-is_nan r row,
  )

  -- the lookup part of a set test, which an empty set answers outright
  abbrev lookup_t : Reference → List Datum → E.Predicate
  lookup_t r ds = if is_empty ds then E.always_false else E.is_in r ds

  abbrev lookup_f : Reference → List Datum → E.Predicate
  lookup_f r ds = if is_empty ds then E.always_true else E.is_not_in r ds

  matches-lookup_t :
      (r : Reference) (ds : List Datum) (row : Row)
      → matches (lookup_t r ds) row
        ≡ on_cell false false (λ v. any (λ d. is_eq (order v d)) ds) (cell row r)
  matches-lookup_t r [] row = ground (arith, S.matches-false row)
  matches-lookup_t r (d ∷ ds) row = S.matches-is_in r (d ∷ ds) row

  matches-lookup_f_value :
      (r : Reference) (ds : List Datum) (row : Row) (v : Datum)
      → cell row r ≡ Cell.value v
      → matches (lookup_f r ds) row ≡ not (any (λ d. is_eq (order v d)) ds)
  matches-lookup_f_value r [] row v e = S.matches-true row
  matches-lookup_f_value r (d ∷ ds) row v e = ground (arith, S.matches-is_not_in r (d ∷ ds) row)

  any-nan :
      (v : Datum) (ty : PrimitiveType) (ds : List Datum)
      → is_float ty ≡ true
      → FitsType ty (literal v)
      → All (IsFinite ty) ds
      → nan_literal (literal v) ≡ true
      → any (λ d. same E S (stored_order_of E S v d)) ds ≡ false
  any-nan v ty [] h fv fs n = refl
  any-nan v ty (d ∷ ds) h fv (f, fs) n =
      ground (arith, any-nan v ty ds h fv fs n, stored_order_of-value E S v d ty h fv f.0 f.1)

  -- No literal of another type leaves the set.
  zeros_in-nil : (ty : PrimitiveType) (ds : List Datum) → is_float ty ≡ false → zeros_in ty ds ≡ []
  zeros_in-nil ty [] h = refl
  zeros_in-nil ty (d ∷ ds) h = ground (arith, zeros_in-nil ty ds h)

  others_in_self :
      (ty : PrimitiveType) (ds : List Datum) → is_float ty ≡ false → others_in ty ds ≡ ds
  others_in_self ty [] h = refl
  others_in_self ty (d ∷ ds) h = ground (arith, others_in_self ty ds h)

  zeros_fit :
      (ty : PrimitiveType) (ds : List Datum) (z : Datum) (zs : List Datum)
      → is_float ty ≡ true
      → All (IsFinite ty) ds
      → zeros_in ty ds ≡ z ∷ zs
      → FitsType ty (literal z) × (is_zero E z ≡ true)
  zeros_fit ty [] z zs h fs e = cc
  zeros_fit ty (d ∷ ds) z zs h (f, fs) e = elim (Bool-cases (is_zero E d)) [
    | inl p ↦
        let q : d ≡ z = ground arith in (subst (λ x. FitsType ty (literal x)) q f.0, rw (← q) p)
    | inr p ↦ zeros_fit ty ds z zs h fs (ground arith)
  ]

  pub membership-Pairs_float :
      (r : Reference) (ty : PrimitiveType) (ds : List Datum) (row : Row) (c : Cell Datum)
      (zs : List Datum)
      → cell row r ≡ c
      → is_float ty ≡ true
      → ((v : Datum) → c ≡ Cell.value v → FitsType ty (literal v))
      → All (IsFinite ty) ds
      → zeros_in ty ds ≡ zs
      → Pairs E S row (membership_truth E r ty ds) (stored_in E S c ds)
  unfolding membership_truth
  membership-Pairs_float r ty ds row (Cell.value v) [] e h fits fs ez = ground (
    arith,
    matches-lookup_t r (others_in ty ds) row,
    matches-lookup_f_value r (others_in ty ds) row v e,
    matches-absent_test ty r row,
    S.matches-or (lookup_f r (others_in ty ds)) (absent_test ty r) row,
    any-split v ty ds h (fits v refl) fs,
    any-nan v ty ds h (fits v refl) fs,
  )
  membership-Pairs_float r ty ds row (Cell.value v) (z ∷ zs) e h fits fs ez =
      let (fz, hz) = zeros_fit ty ds z zs h fs ez in
      ground (
        arith,
        matches-lookup_t r (others_in ty ds) row,
        matches-lookup_f_value r (others_in ty ds) row v e,
        matches-absent_test ty r row,
        S.matches-or (lookup_t r (others_in ty ds)) (float_compare E Cmp.eq r z ty) row,
        S.matches-and (lookup_f r (others_in ty ds)) (float_compare E Cmp.ne r z ty) row,
        S.matches-or (E.p_and (lookup_f r (others_in ty ds)) (float_compare E Cmp.ne r z ty))
            (absent_test ty r) row,
        matches-float_compare E S Cmp.eq r z v ty row h fz (fits v refl) e,
        matches-float_compare E S Cmp.ne r z v ty row h fz (fits v refl) e,
        any-split v ty ds h (fits v refl) fs,
        any-zeros v z ty ds h (fits v refl) fz hz fs,
        any-nan v ty ds h (fits v refl) fs,
      )
  membership-Pairs_float r ty ds row c [] e h fits fs ez = ground (
    arith,
    matches-lookup_t r (others_in ty ds) row,
    matches-absent_test ty r row,
    S.matches-or (lookup_f r (others_in ty ds)) (absent_test ty r) row,
  )
  membership-Pairs_float r ty ds row c (z ∷ zs) e h fits fs ez = ground (
    arith,
    matches-lookup_t r (others_in ty ds) row,
    matches-absent_test ty r row,
    S.matches-or (lookup_t r (others_in ty ds)) (float_compare E Cmp.eq r z ty) row,
    S.matches-or (E.p_and (lookup_f r (others_in ty ds)) (float_compare E Cmp.ne r z ty))
        (absent_test ty r) row,
    matches-float_compare_null E S Cmp.eq r z ty row,
    matches-float_compare_absent E S r z ty row,
  )

  any-other :
      (v : Datum) (ds : List Datum)
      → InCLocale E S
      → literal v ≡ Literal.other
      → any (λ d. same E S (stored_order_of E S v d)) ds ≡ any (λ d. is_eq (order v d)) ds
  any-other v [] locale h = refl
  any-other v (d ∷ ds) locale h = ground (arith, locale v d h, any-other v ds locale h)

  pub membership-Pairs_other :
      (r : Reference) (ty : PrimitiveType) (ds : List Datum) (row : Row) (c : Cell Datum)
      → cell row r ≡ c
      → is_float ty ≡ false
      → InCLocale E S
      → ((v : Datum) → c ≡ Cell.value v → FitsType ty (literal v))
      → Pairs E S row (membership_truth E r ty ds) (stored_in E S c ds)
  unfolding membership_truth
  membership-Pairs_other r ty ds row (Cell.value v) e h locale fits = ground (
    arith,
    zeros_in-nil ty ds h,
    others_in_self ty ds h,
    matches-lookup_t r ds row,
    matches-lookup_f_value r ds row v e,
    S.matches-is_null r row,
    S.matches-or (lookup_f r ds) (E.is_null r) row,
    any-other v ds locale (other_literal E S ty (literal v) h (fits v refl)),
  )
  membership-Pairs_other r ty ds row c e h locale fits = ground (
    arith,
    zeros_in-nil ty ds h,
    others_in_self ty ds h,
    matches-lookup_t r ds row,
    S.matches-is_null r row,
    S.matches-or (lookup_f r ds) (E.is_null r) row,
  )
