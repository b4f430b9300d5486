-- ===== src/Predicate/Typing/Literals.antt =====
-- Every literal that `datum` makes has the type of the column that it is compared with.
use icebergr.Prelude.{
  ◌≡◌, List, [], ◌∷◌, Option, none, some, Result, ok, err, ◌>>=◌, >>=-eq-ok, All, Bool-cases, inl,
  inr, traverse, map_err, or_else, ok_or, arith,
}
use icebergr.Prelude.Int.{try_signed}
use icebergr.Prelude.Text.{Text, codes}
use icebergr.Iceberg.{PrimitiveType}
use icebergr.Predicate.Engine.{Engine}
use icebergr.Predicate.Message.{RResult, Error, outside_i32, expected}
use icebergr.Predicate.Literal.{datum, typed_datum, as_i64, decimal_text, naive_nanos, utc_nanos}
use icebergr.Predicate.Decimal.{rescale_decimal}
use icebergr.Errors.{ctx, message}
use icebergr.Predicate.Typing.{DatumTypes}

module _ (E : Engine) (T : DatumTypes E) where
  open E use {Json, Datum}
  open T use {type_of}

  abbrev HasType : PrimitiveType → RResult Datum → Type 0
  HasType ty m = (d : Datum) → m ≡ ok d → type_of d ≡ ty

  -- a bind whose continuation gives the type
  HasType-bind :
      {A : Type 0} (ty : PrimitiveType) (m : RResult A) (k : A → RResult Datum)
      → ((a : A) → HasType ty (k a))
      → HasType ty (m >>= k)
  HasType-bind ty (ok a) k h d e = h a d e
  HasType-bind ty (err w) k h d e = absurd cc

  HasType-ok : (ty : PrimitiveType) (d : Datum) → type_of d ≡ ty → HasType ty (ok d)
  HasType-ok ty d h out e = let same : d ≡ out = cc in rw (← same) h

  HasType-map_err :
      {W : Type 0} (ty : PrimitiveType) (f : W → Error) (m : Result W Datum)
      → ((d : Datum) → m ≡ ok d → type_of d ≡ ty)
      → HasType ty (map_err f m)
  HasType-map_err ty f (ok d) h out e = h out cc
  HasType-map_err ty f (err w) h out e = absurd cc

  HasType-elim :
      (ty : PrimitiveType) (o : Option Text) (on_text : Text → RResult Datum)
      (on_other : RResult Datum)
      → ((s : Text) → HasType ty (on_text s))
      → HasType ty on_other
      → HasType ty (elim o [ some s ↦ on_text s | none ↦ on_other ])
  HasType-elim ty none f g h k = k
  HasType-elim ty (some s) f g h k = h s

  either_type :
      {W : Type 0} (ty : PrimitiveType) (m n : Result W Datum)
      → ((d : Datum) → m ≡ ok d → type_of d ≡ ty)
      → ((d : Datum) → n ≡ ok d → type_of d ≡ ty)
      → (d : Datum) → or_else m n ≡ ok d
      → type_of d ≡ ty
  either_type ty (ok a) n h k d e = h d e
  either_type ty (err w) n h k d e = k d e

  typed_datum-HasType :
      (v : Json) (ty : PrimitiveType) (col : Text) → HasType ty (typed_datum E v ty col)
  unfolding typed_datum
  typed_datum-HasType v PrimitiveType.boolean col =
      HasType-bind _ _ _ (λ b. HasType-ok _ _ (T.type-bool b))
  typed_datum-HasType v PrimitiveType.int col =
      HasType-bind _ (as_i64 E v col PrimitiveType.int) _ (λ n.
        HasType-bind _ (ok_or (try_signed 32 n) (message (outside_i32 n col))) _
          (λ m. HasType-ok _ _ (T.type-int m)))
  typed_datum-HasType v PrimitiveType.long col =
      HasType-bind _ _ _ (λ n. HasType-ok _ _ (T.type-long n))
  typed_datum-HasType v PrimitiveType.float col =
      HasType-bind _ _ _ (λ x. HasType-ok _ _ (T.type-float (E.to_f32 x)))
  typed_datum-HasType v PrimitiveType.double col =
      HasType-bind _ _ _ (λ x. HasType-ok _ _ (T.type-double x))
  typed_datum-HasType v PrimitiveType.date col =
      HasType-elim _ (E.json_as_str v)
        (λ s. map_err (ctx (codes "invalid date")) (E.date_from_str s)) _
        (λ s. HasType-map_err _ _ _ (T.type-date_text s))
        (HasType-bind _ (as_i64 E v col PrimitiveType.date) _ (λ n.
          HasType-bind _
            (ok_or (try_signed 32 n) (message (expected col PrimitiveType.date (codes "a date")))) _
            (λ m. HasType-ok _ _ (T.type-date m))))
  typed_datum-HasType v PrimitiveType.timestamp col =
      HasType-elim _ _ _ _
        (λ s.
          HasType-map_err _ _ _
            (either_type _ _ _ (T.type-timestamp_text _) (T.type-timestamp_text s)))
        (HasType-bind _ _ _ (λ n. HasType-ok _ _ (T.type-micros n)))
  typed_datum-HasType v PrimitiveType.timestamptz col =
      HasType-elim _ _ _ _ (λ s. HasType-map_err _ _ _ (T.type-timestamptz_text s))
        (HasType-bind _ _ _ (λ n. HasType-ok _ _ (T.type-micros_tz n)))
  typed_datum-HasType v PrimitiveType.timestamp_ns col =
      HasType-elim _ (E.json_as_str v)
        (λ s. naive_nanos E s col PrimitiveType.timestamp_ns >>= λ n. ok (E.timestamp_nanos n))
        (as_i64 E v col PrimitiveType.timestamp_ns >>= λ n. ok (E.timestamp_nanos n))
        (λ s. HasType-bind _ _ _ (λ n. HasType-ok _ _ (T.type-nanos n)))
        (HasType-bind _ _ _ (λ n. HasType-ok _ _ (T.type-nanos n)))
  typed_datum-HasType v PrimitiveType.timestamptz_ns col =
      HasType-elim _ (E.json_as_str v)
        (λ s. utc_nanos E s col PrimitiveType.timestamptz_ns >>= λ n. ok (E.timestamptz_nanos n))
        (as_i64 E v col PrimitiveType.timestamptz_ns >>= λ n. ok (E.timestamptz_nanos n))
        (λ s. HasType-bind _ _ _ (λ n. HasType-ok _ _ (T.type-nanos_tz n)))
        (HasType-bind _ _ _ (λ n. HasType-ok _ _ (T.type-nanos_tz n)))
  typed_datum-HasType v PrimitiveType.string col =
      HasType-bind _ _ _ (λ s. HasType-ok _ _ (T.type-string s))
  typed_datum-HasType v PrimitiveType.uuid col =
      HasType-bind _ _ _ (λ s. HasType-map_err _ _ _ (T.type-uuid_text s))
  typed_datum-HasType v (PrimitiveType.decimal precision scale) col =
      let ty = PrimitiveType.decimal precision scale in
      HasType-bind _ (rescale_decimal (decimal_text E v) scale col ty) _ (λ t.
        HasType-bind _ (map_err (ctx (codes "invalid decimal")) (E.decimal_from_str t)) _
          (λ d. HasType-map_err _ (ctx (codes "invalid decimal")) _ (λ out. T.type-to d out ty)))
  typed_datum-HasType v PrimitiveType.time col = λ d e. absurd cc
  typed_datum-HasType v PrimitiveType.binary col = λ d e. absurd cc
  typed_datum-HasType v (PrimitiveType.fixed n) col = λ d e. absurd cc

  pub datum-type_of :
      (v : Json) (ty : PrimitiveType) (col : Text) (d : Datum)
      → datum E v ty col ≡ ok d
      → type_of d ≡ ty
  unfolding datum
  datum-type_of v ty col d e = elim (Bool-cases (E.json_is_null v)) [
    | inl n ↦ absurd (ground arith)
    | inr n ↦ typed_datum-HasType v ty col d (ground arith)
  ]

  pub All-same :
      (ty : PrimitiveType) (ds es : List Datum)
      → ds ≡ es
      → All (λ d. type_of d ≡ ty) ds
      → All (λ d. type_of d ≡ ty) es
  All-same ty ds es e h = rw (← e) h

  pub traverse-type_of :
      (vs : List Json) (ty : PrimitiveType) (col : Text) (ds : List Datum)
      → traverse (λ v. datum E v ty col) vs ≡ ok ds
      → All (λ d. type_of d ≡ ty) ds
  unfolding traverse
  traverse-type_of [] ty col ds e = let same : [] ≡ ds = cc in All-same ty [] ds same tt
  traverse-type_of (v ∷ vs) ty col ds e =
      let (d, ed, e1) = >>=-eq-ok (datum E v ty col) _ e in
      let (r, er, e2) = >>=-eq-ok (traverse (λ v. datum E v ty col) vs) _ e1 in
      let same : d ∷ r ≡ ds = cc in
      All-same ty (d ∷ r) ds same (datum-type_of v ty col d ed, traverse-type_of vs ty col r er)
