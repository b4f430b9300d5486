-- ===== src/Predicate/Build.antt =====
-- `build_predicate` of src/rust/src/predicate.rs: each node becomes the pair of predicates for the rows
-- where R says TRUE and for those where it says FALSE.
pub mod Columns
use icebergr.Prelude.{
  ℕ, List, [], ◌∷◌, map, Bool, true, false, not, ◌&&◌, ◌||◌, Option, none, some, ◌==◌,
  if◌then◌else◌, any, keep, is_empty, Result, ok, err, ◌>>=◌, map_err, or_else?, traverse,
}
use icebergr.Prelude.Text.{Text, codes}
use icebergr.Prelude.Sort.{sort}
use icebergr.Iceberg.{PrimitiveType, IcebergType, Field, Schema}
use icebergr.Errors.{ctx}
use icebergr.Table.Label.{type_label}
use icebergr.Predicate.Float.{binary32, binary64, is_zero_bits}
use icebergr.Predicate.Node.{Node, Nodes, referenced_columns}
use icebergr.Predicate.Engine.{Engine, Literal}
use icebergr.Predicate.Message.{RResult, fail, no_such_column, not_primitive, prefix_on_other_type}
use icebergr.Predicate.Literal.{datum}
use icebergr.Predicate.Cmp.{Cmp, negate}

abbrev pub is_float : PrimitiveType → Bool
is_float PrimitiveType.float = true
is_float PrimitiveType.double = true
is_float _ = false

abbrev pub is_string : PrimitiveType → Bool
is_string PrimitiveType.string = true
is_string _ = false

abbrev pub is_decimal : PrimitiveType → Bool
is_decimal (PrimitiveType.decimal _ _) = true
is_decimal _ = false

-- The rows where an R expression is TRUE, and those where it is FALSE.
pub record Truth (P : Type 0) : Type 0 where
  pub t : P
  pub f : P

abbrev pub truth_not : {P : Type 0} → Truth P → Truth P
truth_not x = record { t = x.f; f = x.t }

abbrev names_of : List Field → List Text
names_of [] = []
names_of (f ∷ fs) = f.name ∷ names_of fs

module _ (E : Engine) where
  open E use {
    Json, json_parse, Datum, literal, datum_float, datum_double, Reference, reference_new,
    Predicate, always_true, always_false, p_and, p_or, is_null, is_not_null, is_nan, is_not_nan,
    equal_to, not_equal_to, less_than, less_than_or_equal_to, greater_than,
    greater_than_or_equal_to, starts_with, not_starts_with, is_in, is_not_in, primitive_label,
  }

  unfoldable pub apply : Cmp → Reference → Datum → Predicate
  apply Cmp.eq r d = equal_to r d
  apply Cmp.ne r d = not_equal_to r d
  apply Cmp.lt r d = less_than r d
  apply Cmp.lte r d = less_than_or_equal_to r d
  apply Cmp.gt r d = greater_than r d
  apply Cmp.gte r d = greater_than_or_equal_to r d

  abbrev zero_literal : Literal → Bool
  zero_literal (Literal.float v) = is_zero_bits binary32 v
  zero_literal (Literal.double v) = is_zero_bits binary64 v
  zero_literal Literal.other = false

  unfoldable pub is_zero : Datum → Bool
  is_zero d = zero_literal (literal d)

  -- -0.0 and 0.0 as literals of the column's type
  unfoldable pub zeros : PrimitiveType → Datum × Datum
  zeros PrimitiveType.float = (datum_float binary32.sign, datum_float 0)
  zeros _ = (datum_double binary64.sign, datum_double 0)

  -- a comparison with zero, on the two zeros
  unfoldable pub zero_compare : Cmp → Reference → Datum × Datum → Predicate
  zero_compare Cmp.eq r (neg, pos) =
      p_and (greater_than_or_equal_to r neg) (less_than_or_equal_to r pos)
  zero_compare Cmp.ne r (neg, pos) = p_or (less_than r neg) (greater_than r pos)
  zero_compare Cmp.lt r (neg, pos) = less_than r neg
  zero_compare Cmp.lte r (neg, pos) = less_than_or_equal_to r pos
  zero_compare Cmp.gt r (neg, pos) = greater_than r pos
  zero_compare Cmp.gte r (neg, pos) = greater_than_or_equal_to r neg

  unfoldable pub float_compare : Cmp → Reference → Datum → PrimitiveType → Predicate
  unfolding apply is_zero zeros zero_compare
  float_compare op r d ty = if is_zero d then zero_compare op r (zeros ty) else apply op r d

  unfoldable pub comparable : Reference → PrimitiveType → Predicate
  comparable r ty = if is_float ty then p_and (is_not_null r) (is_not_nan r) else is_not_null r

  -- A case-sensitive lookup is exact; the other takes an exact match first.
  unfoldable pub find_field : Text → Schema → Bool → Option Field
  find_field col schema cs =
      if cs
      then schema.field_by_name col
      else or_else? (schema.field_by_name col) (schema.field_by_name_case_insensitive col)

  unfoldable pub reference : Text → Schema → Bool → RResult (Reference × PrimitiveType)
  unfolding find_field
  reference col schema cs = elim (find_field col schema cs) [
    | none ↦ fail (no_such_column col (sort (names_of schema.fields)))
    | some field ↦ elim field.field_type [
      | IcebergType.primitive p ↦ ok (reference_new field.name, p)
      | other ↦ fail (not_primitive col (type_label primitive_label other))
    ]
  ]

  -- the pair of a comparison, for a column and a literal of its type
  unfoldable pub compare_truth : Cmp → Reference → PrimitiveType → Datum → Truth Predicate
  unfolding comparable float_compare negate
  compare_truth op r ty d =
      let guard = comparable r ty in
      if not (is_float ty)
      then record { t = p_and (apply op r d) guard; f = p_and (apply (negate op) r d) guard }
      else record {
        t = p_and (float_compare op r d ty) guard;
        f = p_and (float_compare (negate op) r d ty) guard;
      }

  unfoldable pub compare_node : Cmp → Text → Json → Schema → Bool → RResult (Truth Predicate)
  unfolding reference datum compare_truth
  compare_node op col value schema cs = do
    (r, ty) ← reference col schema cs
    d ← datum E value ty col
    ok (compare_truth op r ty d)

  unfoldable pub missing_truth : Reference → PrimitiveType → Truth Predicate
  missing_truth r ty =
      if is_float ty
      then record { t = p_or (is_null r) (is_nan r); f = p_and (is_not_null r) (is_not_nan r) }
      else record { t = is_null r; f = is_not_null r }

  unfoldable pub missing : Text → Schema → Bool → RResult (Truth Predicate)
  unfolding reference missing_truth
  missing col schema cs = do (r, ty) ← reference col schema cs; ok (missing_truth r ty)

  -- The pair of a set test. Zeros of a float column leave the set and come back as a range.
  unfoldable pub membership_truth : Reference → PrimitiveType → List Datum → Truth Predicate
  unfolding float_compare
  membership_truth r ty datums =
      let float = is_float ty in
      let zero = keep (λ d. float && is_zero d) datums in
      let rest = keep (λ d. not (float && is_zero d)) datums in
      let t0 = if is_empty rest then always_false else is_in r rest in
      let f0 = if is_empty rest then always_true else is_not_in r rest in
      let absent = if float then p_or (is_null r) (is_nan r) else is_null r in
      elim zero [
        | [] ↦ record { t = t0; f = p_or f0 absent }
        | z ∷ _ ↦ record {
          t = p_or t0 (float_compare Cmp.eq r z ty);
          f = p_or (p_and f0 (float_compare Cmp.ne r z ty)) absent;
        }
      ]

  unfoldable pub membership : Text → List Json → Schema → Bool → RResult (Truth Predicate)
  unfolding reference datum membership_truth traverse
  membership col values schema cs = do
    (r, ty) ← reference col schema cs
    datums ← traverse (λ v. datum E v ty col) values
    ok (membership_truth r ty datums)

  unfoldable pub prefix_truth : Reference → PrimitiveType → Datum → Truth Predicate
  unfolding comparable
  prefix_truth r ty d =
      let guard = comparable r ty in
      record { t = p_and (starts_with r d) guard; f = p_and (not_starts_with r d) guard }

  unfoldable pub prefix : Text → Json → Schema → Bool → RResult (Truth Predicate)
  unfolding reference datum prefix_truth
  prefix col value schema cs = do
    (r, ty) ← reference col schema cs
    if not (is_string ty)
        then fail (prefix_on_other_type col ty)
        else do d ← datum E value ty col; ok (prefix_truth r ty d)

  unfoldable pub nan_test : Text → Schema → Bool → RResult (Truth Predicate)
  unfolding reference
  nan_test col schema cs = do
    (r, ty) ← reference col schema cs
    ok (record { t = is_nan r; f = is_not_nan r })

  abbrev inverted : RResult (Truth Predicate) → RResult (Truth Predicate)
  inverted m = m >>= λ x. ok (truth_not x)

  -- `build`, with the loops of its `And` and `Or` arms, whose `t` and `f` are their accumulators.
  unfoldable mutual
    unfolding compare_node missing membership prefix nan_test

    pub build : Node Json → Schema → Bool → RResult (Truth Predicate)
    build (Node.and args) schema cs = build_and args schema cs always_true always_false
    build (Node.or args) schema cs = build_or args schema cs always_false always_true
    build (Node.not arg) schema cs = inverted (build arg schema cs)
    build Node.always_true schema cs = ok (record { t = always_true; f = always_false })
    build Node.always_false schema cs = ok (record { t = always_false; f = always_true })
    build (Node.is_null col) schema cs = missing col schema cs
    build (Node.is_not_null col) schema cs = inverted (missing col schema cs)
    build (Node.is_nan col) schema cs = nan_test col schema cs
    build (Node.is_not_nan col) schema cs = inverted (nan_test col schema cs)
    build (Node.eq col value) schema cs = compare_node Cmp.eq col value schema cs
    build (Node.ne col value) schema cs = compare_node Cmp.ne col value schema cs
    build (Node.lt col value) schema cs = compare_node Cmp.lt col value schema cs
    build (Node.lte col value) schema cs = compare_node Cmp.lte col value schema cs
    build (Node.gt col value) schema cs = compare_node Cmp.gt col value schema cs
    build (Node.gte col value) schema cs = compare_node Cmp.gte col value schema cs
    build (Node.starts_with col value) schema cs = prefix col value schema cs
    build (Node.not_starts_with col value) schema cs = inverted (prefix col value schema cs)
    build (Node.in_set col values) schema cs = membership col values schema cs
    build (Node.not_in col values) schema cs = inverted (membership col values schema cs)

    pub build_and : Nodes Json → Schema → Bool → Predicate → Predicate → RResult (Truth Predicate)
    build_and Nodes.nil schema cs t f = ok (record { t = t; f = f })
    build_and (Nodes.cons n ns) schema cs t f = do
      part ← build n schema cs
      build_and ns schema cs (p_and t part.t) (p_or f part.f)

    pub build_or : Nodes Json → Schema → Bool → Predicate → Predicate → RResult (Truth Predicate)
    build_or Nodes.nil schema cs t f = ok (record { t = t; f = f })
    build_or (Nodes.cons n ns) schema cs t f = do
      part ← build n schema cs
      build_or ns schema cs (p_or t part.t) (p_and f part.f)

  -- `BuiltPredicate`
  pub record BuiltPredicate : Type 0 where
    pub predicate : Predicate
    pub has_decimal : Bool

  abbrev pub resolves_to_decimal : RResult (Reference × PrimitiveType) → Bool
  resolves_to_decimal (ok (r, ty)) = is_decimal ty
  resolves_to_decimal (err e) = false

  unfoldable pub build_predicate : Text → Schema → Bool → RResult BuiltPredicate
  unfolding build reference referenced_columns
  build_predicate json schema cs = do
    node ← map_err (ctx (codes "could not read the filter expression")) (json_parse json)
    truth ← build node schema cs
    ok (record {
      predicate = truth.t;
      has_decimal =
          any (λ c. resolves_to_decimal (reference c schema cs)) (referenced_columns node []);
    })
