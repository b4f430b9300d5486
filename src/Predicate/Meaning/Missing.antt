-- ===== src/Predicate/Meaning/Missing.antt =====
-- The pairs of `is.na` and `startsWith`.
use icebergr.Prelude.{false, ◌≡◌, refl, arith}
use icebergr.Iceberg.{PrimitiveType}
use icebergr.Predicate.Engine.{Engine}
use icebergr.Predicate.Build.{is_float, comparable, missing_truth, prefix_truth}
use icebergr.Predicate.Meaning.{Cell, Rows, FitsType, r_missing, r_prefix, Pairs}
use icebergr.Predicate.Meaning.Leaves.{matches-comparable, other_literal}

module _ (E : Engine) (S : Rows E) where
  open E use {Datum, Reference, literal}
  open S use {Row, cell, matches, order}

  pub missing-Pairs :
      (r : Reference) (ty : PrimitiveType) (row : Row) (c : Cell Datum)
      → cell row r ≡ c
      → ((v : Datum) → c ≡ Cell.value v → FitsType ty (literal v))
      → Pairs E S row (missing_truth E r ty) (r_missing E S c)
  unfolding missing_truth
  missing-Pairs r ty row (Cell.value v) e fits = ground (
    arith,
    S.matches-or (E.is_null r) (E.is_nan r) row,
    S.matches-and (E.is_not_null r) (E.is_not_nan r) row,
    S.matches-is_null r row,
    S.matches-is_nan r row,
    S.matches-is_not_null r row,
    S.matches-is_not_nan r row,
    other_literal E S ty (literal v),
    fits v refl,
  )
  missing-Pairs r ty row c e fits = ground (
    arith,
    S.matches-or (E.is_null r) (E.is_nan r) row,
    S.matches-and (E.is_not_null r) (E.is_not_nan r) row,
    S.matches-is_null r row,
    S.matches-is_nan r row,
    S.matches-is_not_null r row,
    S.matches-is_not_nan r row,
  )

  pub prefix-Pairs :
      (r : Reference) (ty : PrimitiveType) (d : Datum) (row : Row) (c : Cell Datum)
      → cell row r ≡ c
      → is_float ty ≡ false
      → Pairs E S row (prefix_truth E r ty d) (r_prefix E S c d)
  unfolding prefix_truth
  prefix-Pairs r ty d row c e h = ground (
    arith,
    S.matches-and (E.starts_with r d) (comparable E r ty) row,
    S.matches-and (E.not_starts_with r d) (comparable E r ty) row,
    S.matches-starts_with r d row,
    S.matches-not_starts_with r d row,
    matches-comparable E S r ty row,
  )
