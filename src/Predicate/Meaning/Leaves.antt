-- ===== src/Predicate/Meaning/Leaves.antt =====
-- The pairs of the leaf nodes.
use icebergr.Prelude.{
  Bool, true, false, not, ◌&&◌, none, some, ◌≡◌, refl, Ordering, arith, if◌then◌else◌,
}
use icebergr.Iceberg.{PrimitiveType}
use icebergr.Predicate.Float.{binary32, binary64, value_order}
use icebergr.Predicate.Float.Order.{total_order-eq-value_order, zero_answer, zero_answer_lem}
use icebergr.Predicate.Engine.{Engine, Literal}
use icebergr.Predicate.Cmp.{Cmp, compares, negate}
use icebergr.Predicate.Build.{
  is_float, apply, zeros, zero_compare, float_compare, comparable, compare_truth,
}
use icebergr.Predicate.Meaning.{
  Cell, absent_answer, nan_literal, on_cell, Rows, FitsType, InCLocale, stored_compare, Pairs,
  stored_order_of,
}

compares-negate : (op : Cmp) (o : Ordering) → compares (negate op) o ≡ not (compares op o)
unfolding negate
compares-negate Cmp.eq o = ground arith
compares-negate Cmp.ne o = ground arith
compares-negate Cmp.lt o = ground arith
compares-negate Cmp.lte o = ground arith
compares-negate Cmp.gt o = ground arith
compares-negate Cmp.gte o = ground arith

module _ (E : Engine) (S : Rows E) where
  open E use {Datum, Reference, literal}
  open S use {Row, cell, matches, order}

  pub matches-apply :
      (op : Cmp) (r : Reference) (d : Datum) (row : Row)
      → matches (apply E op r d) row
        ≡ on_cell (absent_answer op) false (λ v. compares op (order v d)) (cell row r)
  unfolding apply
  matches-apply Cmp.eq r d row = S.matches-equal_to r d row
  matches-apply Cmp.ne r d row = S.matches-not_equal_to r d row
  matches-apply Cmp.lt r d row = S.matches-less_than r d row
  matches-apply Cmp.lte r d row = S.matches-less_than_or_equal_to r d row
  matches-apply Cmp.gt r d row = S.matches-greater_than r d row
  matches-apply Cmp.gte r d row = S.matches-greater_than_or_equal_to r d row

  pub matches-comparable :
      (r : Reference) (ty : PrimitiveType) (row : Row)
      → matches (comparable E r ty) row
        ≡ on_cell false false (λ v. not (is_float ty && nan_literal (literal v))) (cell row r)
  unfolding comparable
  matches-comparable r ty row = ground (
    arith,
    S.matches-and (E.is_not_null r) (E.is_not_nan r) row,
    S.matches-is_not_null r row,
    S.matches-is_not_nan r row,
  )

  -- what the two-zero form of a comparison answers for an absent column
  abbrev zero_absent : Cmp → Bool
  zero_absent Cmp.ne = true
  zero_absent op = absent_answer op

  matches-zero_compare :
      (op : Cmp) (r : Reference) (neg pos : Datum) (row : Row)
      → matches (zero_compare E op r (neg, pos)) row
        ≡ on_cell
            (zero_absent op)
            false
            (λ v. zero_answer op (order v neg) (order v pos))
            (cell row r)
  unfolding zero_compare
  matches-zero_compare Cmp.eq r neg pos row = ground (
    arith,
    S.matches-and (E.greater_than_or_equal_to r neg) (E.less_than_or_equal_to r pos) row,
    S.matches-greater_than_or_equal_to r neg row,
    S.matches-less_than_or_equal_to r pos row,
  )
  matches-zero_compare Cmp.ne r neg pos row = ground (
    arith,
    S.matches-or (E.less_than r neg) (E.greater_than r pos) row,
    S.matches-less_than r neg row,
    S.matches-greater_than r pos row,
  )
  matches-zero_compare Cmp.lt r neg pos row = S.matches-less_than r neg row
  matches-zero_compare Cmp.lte r neg pos row = S.matches-less_than_or_equal_to r pos row
  matches-zero_compare Cmp.gt r neg pos row = S.matches-greater_than r pos row
  matches-zero_compare Cmp.gte r neg pos row = S.matches-greater_than_or_equal_to r neg row

  -- the order of the values, for two literals of one float type
  abbrev value_order_of : Literal → Literal → Ordering → Ordering
  value_order_of (Literal.float x) (Literal.float y) o = value_order binary32 x y
  value_order_of (Literal.double x) (Literal.double y) o = value_order binary64 x y
  value_order_of _ _ o = o

  unfoldable pub value_of : Datum → Datum → Ordering
  value_of v d = value_order_of (literal v) (literal d) (order v d)

  -- On a value the comparison of float_compare is by value, whatever the literal.
  pub matches-float_compare :
      (op : Cmp) (r : Reference) (d v : Datum) (ty : PrimitiveType) (row : Row)
      → is_float ty ≡ true
      → FitsType ty (literal d)
      → FitsType ty (literal v)
      → cell row r ≡ Cell.value v
      → matches (float_compare E op r d ty) row ≡ compares op (value_of v d)
  unfolding float_compare value_of
  matches-float_compare op r d v PrimitiveType.double row h (y, ey) (x, ex) e = ground (
    arith,
    matches-apply op r d row,
    matches-zero_compare op r (E.datum_double binary64.sign) (E.datum_double 0) row,
    S.order-double v d x y ex ey,
    S.order-double v (E.datum_double binary64.sign) x binary64.sign ex
        (S.literal-double binary64.sign),
    S.order-double v (E.datum_double 0) x 0 ex (S.literal-double 0),
    zero_answer_lem op binary64 x y (omega arith),
    total_order-eq-value_order binary64 x y (omega arith),
  )
  matches-float_compare op r d v PrimitiveType.float row h (y, ey) (x, ex) e = ground (
    arith,
    matches-apply op r d row,
    matches-zero_compare op r (E.datum_float binary32.sign) (E.datum_float 0) row,
    S.order-float v d x y ex ey,
    S.order-float v (E.datum_float binary32.sign) x binary32.sign ex
        (S.literal-float binary32.sign),
    S.order-float v (E.datum_float 0) x 0 ex (S.literal-float 0),
    zero_answer_lem op binary32 x y (omega arith),
    total_order-eq-value_order binary32 x y (omega arith),
  )
  matches-float_compare op r d v _ row h fd fv e = cc

  -- A null matches no comparison.
  pub matches-float_compare_null :
      (op : Cmp) (r : Reference) (d : Datum) (ty : PrimitiveType) (row : Row)
      → cell row r ≡ Cell.null
      → matches (float_compare E op r d ty) row ≡ false
  unfolding float_compare
  matches-float_compare_null op r d ty row e =
      ground (
        arith,
        matches-apply op r d row,
        matches-zero_compare op r (zeros E ty).0 (zeros E ty).1 row,
      )

  -- The range that stands for `== 0` is empty in a file that lacks the column.
  pub matches-float_compare_absent :
      (r : Reference) (d : Datum) (ty : PrimitiveType) (row : Row)
      → cell row r ≡ Cell.absent
      → matches (float_compare E Cmp.eq r d ty) row ≡ false
  unfolding float_compare
  matches-float_compare_absent r d ty row e = ground (
    arith,
    matches-apply Cmp.eq r d row,
    matches-zero_compare Cmp.eq r (zeros E ty).0 (zeros E ty).1 row,
  )

  -- R's order of two floats: none beside a NaN, else the order of the values.
  pub stored_order_of-value :
      (v d : Datum) (ty : PrimitiveType)
      → is_float ty ≡ true
      → FitsType ty (literal v)
      → FitsType ty (literal d)
      → nan_literal (literal d) ≡ false
      → stored_order_of E S v d ≡ (if nan_literal (literal v) then none else some (value_of v d))
  unfolding value_of
  stored_order_of-value v d PrimitiveType.float h (x, ex) (y, ey) finite = ground arith
  stored_order_of-value v d PrimitiveType.double h (x, ex) (y, ey) finite = ground arith
  stored_order_of-value v d _ h fv fd finite = cc

  pub compare-Pairs_float :
      (op : Cmp) (r : Reference) (ty : PrimitiveType) (d : Datum) (row : Row) (c : Cell Datum)
      → cell row r ≡ c
      → is_float ty ≡ true
      → ((v : Datum) → c ≡ Cell.value v → FitsType ty (literal v))
      → FitsType ty (literal d)
      → nan_literal (literal d) ≡ false
      → Pairs E S row (compare_truth E op r ty d) (stored_compare E S op c d)
  unfolding compare_truth
  compare-Pairs_float op r ty d row (Cell.value v) e h fits fd finite = ground (
    arith,
    S.matches-and (float_compare E op r d ty) (comparable E r ty) row,
    S.matches-and (float_compare E (negate op) r d ty) (comparable E r ty) row,
    matches-comparable r ty row,
    matches-float_compare op r d v ty row h fd (fits v refl) e,
    matches-float_compare (negate op) r d v ty row h fd (fits v refl) e,
    stored_order_of-value v d ty h (fits v refl) fd finite,
    compares-negate op (value_of v d),
  )
  compare-Pairs_float op r ty d row Cell.null e h fits fd finite = ground (
    arith,
    S.matches-and (float_compare E op r d ty) (comparable E r ty) row,
    S.matches-and (float_compare E (negate op) r d ty) (comparable E r ty) row,
    matches-comparable r ty row,
  )
  compare-Pairs_float op r ty d row Cell.absent e h fits fd finite = ground (
    arith,
    S.matches-and (float_compare E op r d ty) (comparable E r ty) row,
    S.matches-and (float_compare E (negate op) r d ty) (comparable E r ty) row,
    matches-comparable r ty row,
  )

  -- the literal of a value of a column that is not a float column
  pub other_literal :
      (ty : PrimitiveType) (l : Literal) → is_float ty ≡ false → FitsType ty l → l ≡ Literal.other
  other_literal PrimitiveType.float l h fits = cc
  other_literal PrimitiveType.double l h fits = cc
  other_literal _ l h fits = fits

  pub compare-Pairs_other :
      (op : Cmp) (r : Reference) (ty : PrimitiveType) (d : Datum) (row : Row) (c : Cell Datum)
      → cell row r ≡ c
      → is_float ty ≡ false
      → InCLocale E S
      → ((v : Datum) → c ≡ Cell.value v → FitsType ty (literal v))
      → Pairs E S row (compare_truth E op r ty d) (stored_compare E S op c d)
  unfolding compare_truth
  compare-Pairs_other op r ty d row (Cell.value v) e h locale fits = ground (
    arith,
    S.matches-and (apply E op r d) (comparable E r ty) row,
    S.matches-and (apply E (negate op) r d) (comparable E r ty) row,
    matches-comparable r ty row,
    matches-apply op r d row,
    matches-apply (negate op) r d row,
    compares-negate op (order v d),
    locale v d (other_literal ty (literal v) h (fits v refl)),
    other_literal ty (literal v) h (fits v refl),
  )
  compare-Pairs_other op r ty d row Cell.null e h locale fits = ground (
    arith,
    S.matches-and (apply E op r d) (comparable E r ty) row,
    S.matches-and (apply E (negate op) r d) (comparable E r ty) row,
    matches-comparable r ty row,
  )
  compare-Pairs_other op r ty d row Cell.absent e h locale fits = ground (
    arith,
    S.matches-and (apply E op r d) (comparable E r ty) row,
    S.matches-and (apply E (negate op) r d) (comparable E r ty) row,
    matches-comparable r ty row,
  )
