-- ===== src/Predicate/Meaning/Sound.antt =====
-- `build` gives, for every filter expression, the pair of predicates for R's TRUE and R's FALSE.
use mathlib.Core.Path.{subst}
use icebergr.Prelude.{
  ℕ, List, [], ◌∷◌, Bool, true, false, some, ◌≡◌, refl, arith, All, Result, ok, err, ◌>>=◌,
  >>=-eq-ok, traverse, Bool-cases, Option-cases, inl, inr,
}
use icebergr.Prelude.Text.{Text}
use icebergr.Iceberg.{PrimitiveType, Schema}
use icebergr.Predicate.Node.{AllTestsOf, AllTests, Node, Nodes}
use icebergr.Predicate.Engine.{Engine}
use icebergr.Predicate.Message.{RResult}
use icebergr.Predicate.Literal.{datum}
use icebergr.Predicate.Cmp.{Cmp}
use icebergr.Predicate.Build.{
  is_float, is_string, Truth, truth_not, reference, compare_node, missing, nan_test, prefix,
  membership, compare_truth, membership_truth, build, build_and, build_or,
}
use icebergr.Predicate.Meaning.{
  Logical, Rows, r_and, r_or, r_not, r_compare_node, r_missing_node, r_nan_node, r_prefix_node,
  r_in_node, r_value, r_all, r_any, RowFits, InCLocale, IsExact, Pairs, Agrees,
}
use icebergr.Predicate.Meaning.Exact.{datum-float_arg, Keeps, r_compare-stored, r_in-stored}
use icebergr.Predicate.Meaning.Leaves.{compare-Pairs_float, compare-Pairs_other}
use icebergr.Predicate.Meaning.Sets.{IsFinite, membership-Pairs_float, membership-Pairs_other}
use icebergr.Predicate.Meaning.Missing.{missing-Pairs, prefix-Pairs}

ok_injective : {A B : Type 0} {a b : A} → ◌≡◌ {A = Result B A} (ok a) (ok b) → a ≡ b
ok_injective h = cc

module _ (E : Engine) (S : Rows E) where
  open E use {Json, Datum, Reference, literal, Predicate}
  open S use {Row, cell, matches}

  -- where the literal of a float column comes from
  datum-double_arg :
      (v : Json) (col : Text) (d : Datum)
      → datum E v PrimitiveType.double col ≡ ok d
      → (x : ℕ) × (E.json_as_f64 v ≡ some x) × (d ≡ E.datum_double x)
  unfolding datum
  datum-double_arg v col d e = elim (Option-cases (E.json_as_f64 v)) [
    | inl n ↦ absurd (ground arith)
    | inr (x, ex) ↦ (x, ex, ground arith)
  ]

  -- A literal for a float column is a float of its width, and no NaN.
  datum-IsFinite :
      (v : Json) (ty : PrimitiveType) (col : Text) (d : Datum)
      → is_float ty ≡ true
      → datum E v ty col ≡ ok d
      → IsFinite E S ty d
  datum-IsFinite v PrimitiveType.float col d h e =
      let (x, ex, ed) = datum-float_arg E S v col d e in
      let l = S.literal-float (E.to_f32 x) in
      rw ed ((E.to_f32 x, l), rw l (S.to_f32_finite x (S.json_finite v x ex)))
  datum-IsFinite v PrimitiveType.double col d h e =
      let (x, ex, ed) = datum-double_arg v col d e in
      let l = S.literal-double x in rw ed ((x, l), rw l (S.json_finite v x ex))
  datum-IsFinite v _ col d h e = cc

  traverse-IsFinite :
      (vs : List Json) (ty : PrimitiveType) (col : Text) (ds : List Datum)
      → is_float ty ≡ true
      → traverse (λ v. datum E v ty col) vs ≡ ok ds
      → All (IsFinite E S ty) ds
  unfolding traverse
  traverse-IsFinite [] ty col [] h e = tt
  traverse-IsFinite [] ty col (d ∷ ds) h e = cc
  traverse-IsFinite (v ∷ vs) ty col ds h e =
      let (d, ed, e1) = >>=-eq-ok (datum E v ty col) _ e in
      let (r, er, e2) = >>=-eq-ok (traverse (λ v. datum E v ty col) vs) _ e1 in
      subst (All (IsFinite E S ty)) (ok_injective e2)
        (datum-IsFinite v ty col d h ed, traverse-IsFinite vs ty col r h er)

  module _ (row : Row) where
    Agrees-bind :
        {A : Type 0} (m : RResult A) (f : A → RResult (Truth Predicate)) (g : A → RResult Logical)
        → ((a : A) → m ≡ ok a → Agrees E S row (f a) (g a))
        → Agrees E S row (m >>= f) (m >>= g)
    Agrees-bind (ok a) f g k = k a refl
    Agrees-bind (err e) f g k = refl

    Agrees-step :
        (m : RResult (Truth Predicate)) (n : RResult Logical)
        (f : Truth Predicate → RResult (Truth Predicate)) (g : Logical → RResult Logical)
        → Agrees E S row m n
        → ((t : Truth Predicate) (x : Logical) → Pairs E S row t x → Agrees E S row (f t) (g x))
        → Agrees E S row (m >>= f) (n >>= g)
    Agrees-step (ok t) (ok x) f g h k = k t x h
    Agrees-step (err e) (err e') f g h k = h
    Agrees-step (ok t) (err e) f g h k = elim h [ ]
    Agrees-step (err e) (ok x) f g h k = elim h [ ]

    Agrees-not :
        (m : RResult (Truth Predicate)) (n : RResult Logical)
        → Agrees E S row m n
        → Agrees E S row (m >>= λ t. ok (truth_not t)) (n >>= λ x. ok (r_not x))
    Agrees-not m n h = Agrees-step m n _ _ h (λ t x p. ground arith)

  module _ (schema : Schema) (cs : Bool) (row : Row) (fits : RowFits E S schema cs row)
      (locale : InCLocale E S) where
    compare_node-Agrees :
        (op : Cmp) (col : Text) (v : Json)
        → IsExact E S schema cs col v
        → Agrees E S row
            (compare_node E op col v schema cs)
            (r_compare_node E S op col v schema cs row)
    unfolding compare_node
    compare_node-Agrees op col v exact =
        Agrees-bind row (reference E col schema cs) _ _ λ (r, ty) er.
          Agrees-bind row (datum E v ty col) _ _ λ d ed.
            let keeps : Keeps E S ty v = λ x et ex. exact r x (rw (← et) er) ex in
            let stored =
              r_compare-stored E S op ty col v d (cell row r) (λ w e. fits col r ty w er e) keeps
                ed in
            subst (Pairs E S row (compare_truth E op r ty d)) stored
              (elim (Bool-cases (is_float ty)) [
                | inl h ↦
                    let (fd, nd) = datum-IsFinite v ty col d h ed in
                    compare-Pairs_float E S op r ty d row (cell row r) refl h
                      (λ w e. fits col r ty w er e) fd nd
                | inr h ↦
                    compare-Pairs_other E S op r ty d row (cell row r) refl h locale
                      (λ w e. fits col r ty w er e)
              ])

    missing-Agrees :
        (col : Text)
        → Agrees E S row (missing E col schema cs) (r_missing_node E S col schema cs row)
    unfolding missing
    missing-Agrees col =
        Agrees-bind row (reference E col schema cs) _ _
          λ (r, ty) er. missing-Pairs E S r ty row (cell row r) refl (λ w e. fits col r ty w er e)

    nan_test-Agrees :
        (col : Text) → Agrees E S row (nan_test E col schema cs) (r_nan_node E S col schema cs row)
    unfolding nan_test
    nan_test-Agrees col =
        Agrees-bind row (reference E col schema cs) _ _
          λ (r, ty) er. ground (arith, S.matches-is_nan r row, S.matches-is_not_nan r row)

    string-not-float : (ty : PrimitiveType) → is_string ty ≡ true → is_float ty ≡ false
    string-not-float PrimitiveType.string h = refl
    string-not-float _ h = cc

    prefix-Agrees :
        (col : Text) (v : Json)
        → Agrees E S row (prefix E col v schema cs) (r_prefix_node E S col v schema cs row)
    unfolding prefix
    prefix-Agrees col v = Agrees-bind row (reference E col schema cs) _ _ λ (r, ty) er.
        elim (Bool-cases (is_string ty)) [
          | inl h ↦ rw h (
              Agrees-bind row (datum E v ty col) _ _
                λ d ed. prefix-Pairs E S r ty d row (cell row r) refl (string-not-float ty h))
          | inr h ↦ rw h
        ]

    All-Keeps :
        (col : Text) (r : Reference) (ty : PrimitiveType)
        → reference E col schema cs ≡ ok (r, ty)
        → (vs : List Json) → All (IsExact E S schema cs col) vs
        → All (Keeps E S ty) vs
    All-Keeps col r ty er [] exact = tt
    All-Keeps col r ty er (v ∷ vs) (exact, more) =
        ((λ x et ex. exact r x (rw (← et) er) ex), All-Keeps col r ty er vs more)

    membership-Agrees :
        (col : Text) (vs : List Json)
        → All (IsExact E S schema cs col) vs
        → Agrees E S row (membership E col vs schema cs) (r_in_node E S col vs schema cs row)
    unfolding membership
    membership-Agrees col vs exact = Agrees-bind row (reference E col schema cs) _ _ λ (r, ty) er.
        Agrees-bind row (traverse (λ v. datum E v ty col) vs) _ _ λ ds ed.
          let keeps = All-Keeps col r ty er vs exact in
          let stored =
            r_in-stored E S ty col vs ds (cell row r) (λ w e. fits col r ty w er e) keeps ed in
          subst (Pairs E S row (membership_truth E r ty ds)) stored
            (elim (Bool-cases (is_float ty)) [
              | inl h ↦
                  membership-Pairs_float E S r ty ds row (cell row r) _ refl h
                    (λ w e. fits col r ty w er e) (traverse-IsFinite vs ty col ds h ed) refl
              | inr h ↦
                  membership-Pairs_other E S r ty ds row (cell row r) refl h locale
                    (λ w e. fits col r ty w er e)
            ])

    mutual
      unfolding build r_value AllTests

      build_sound :
          (n : Node Json)
          → AllTests (IsExact E S schema cs) n
          → Agrees E S row (build E n schema cs) (r_value E S n schema cs row)
      build_sound (Node.and args) x =
          build_and_sound args x E.always_true E.always_false Logical.holds
            (S.matches-true row, S.matches-false row)
      build_sound (Node.or args) x =
          build_or_sound args x E.always_false E.always_true Logical.fails
            (S.matches-false row, S.matches-true row)
      build_sound (Node.not arg) x = Agrees-not row _ _ (build_sound arg x)
      build_sound Node.always_true x = (S.matches-true row, S.matches-false row)
      build_sound Node.always_false x = (S.matches-false row, S.matches-true row)
      build_sound (Node.is_null col) x = missing-Agrees col
      build_sound (Node.is_not_null col) x = Agrees-not row _ _ (missing-Agrees col)
      build_sound (Node.is_nan col) x = nan_test-Agrees col
      build_sound (Node.is_not_nan col) x = Agrees-not row _ _ (nan_test-Agrees col)
      build_sound (Node.eq col v) x = compare_node-Agrees Cmp.eq col v x
      build_sound (Node.ne col v) x = compare_node-Agrees Cmp.ne col v x
      build_sound (Node.lt col v) x = compare_node-Agrees Cmp.lt col v x
      build_sound (Node.lte col v) x = compare_node-Agrees Cmp.lte col v x
      build_sound (Node.gt col v) x = compare_node-Agrees Cmp.gt col v x
      build_sound (Node.gte col v) x = compare_node-Agrees Cmp.gte col v x
      build_sound (Node.starts_with col v) x = prefix-Agrees col v
      build_sound (Node.not_starts_with col v) x = Agrees-not row _ _ (prefix-Agrees col v)
      build_sound (Node.in_set col vs) x = membership-Agrees col vs x
      build_sound (Node.not_in col vs) x = Agrees-not row _ _ (membership-Agrees col vs x)

      build_and_sound :
          (ns : Nodes Json)
          → AllTestsOf (IsExact E S schema cs) ns
          → (t f : Predicate) (acc : Logical) → Pairs E S row (record { t = t; f = f }) acc
          → Agrees E S row (build_and E ns schema cs t f) (r_all E S ns schema cs row acc)
      build_and_sound Nodes.nil e t f acc h = h
      build_and_sound (Nodes.cons n ns) (e, es) t f acc h =
          Agrees-step row (build E n schema cs) (r_value E S n schema cs row) _ _ (build_sound n e)
            λ part x p.
              build_and_sound ns es (E.p_and t part.t) (E.p_or f part.f) (r_and acc x)
                (ground (arith, S.matches-and t part.t row, S.matches-or f part.f row))

      build_or_sound :
          (ns : Nodes Json)
          → AllTestsOf (IsExact E S schema cs) ns
          → (t f : Predicate) (acc : Logical) → Pairs E S row (record { t = t; f = f }) acc
          → Agrees E S row (build_or E ns schema cs t f) (r_any E S ns schema cs row acc)
      build_or_sound Nodes.nil e t f acc h = h
      build_or_sound (Nodes.cons n ns) (e, es) t f acc h =
          Agrees-step row (build E n schema cs) (r_value E S n schema cs row) _ _ (build_sound n e)
            λ part x p.
              build_or_sound ns es (E.p_or t part.t) (E.p_and f part.f) (r_or acc x)
                (ground (arith, S.matches-or t part.t row, S.matches-and f part.f row))

-- `build` keeps R's three-valued logic. With R in the C locale, on a row whose values have their
-- columns' types, and for a filter whose literals beside float columns are values of 32-bit floats,
-- `build` and R agree: either both fail with the same error, or `build` gives a pair whose first
-- predicate matches the row exactly if the expression is TRUE there, and whose second matches it exactly
-- if it is FALSE. R compares a float as the double of the same value, and a literal for any other
-- column as what `datum` makes of it. Nulls, NaN, both zeros, `%in%` and columns that the row's file
-- lacks are included. In another locale the order of strings is not Iceberg's, and nothing is said.
pub build-r_value :
    (E : Engine) (S : Rows E) (schema : Schema) (cs : Bool) (row : S.Row)
    → RowFits E S schema cs row
    → InCLocale E S
    → (n : Node E.Json) → AllTests (IsExact E S schema cs) n
    → Agrees E S row (build E n schema cs) (r_value E S n schema cs row)
build-r_value E S schema cs row fits locale n exact =
    build_sound E S schema cs row fits locale n exact
