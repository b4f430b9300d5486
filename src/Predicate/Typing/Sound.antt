-- ===== src/Predicate/Typing/Sound.antt =====
-- What `build` makes of a filter binds to the schema that it was built for.
use icebergr.Prelude.{
  List, Bool, true, some, ◌≡◌, refl, arith, ok, ◌>>=◌, >>=-eq-ok, Option-cases, Bool-cases, inl,
  inr, traverse,
}
use icebergr.Prelude.Text.{Text}
use icebergr.Iceberg.{PrimitiveType, IcebergType, Field, Schema}
use icebergr.Predicate.Node.{Node, Nodes}
use icebergr.Predicate.Engine.{Engine}
use icebergr.Predicate.Literal.{datum}
use icebergr.Predicate.Message.{RResult}
use icebergr.Predicate.Cmp.{Cmp}
use icebergr.Predicate.Build.{
  Truth, truth_not, is_float, is_string, find_field, reference, compare_truth, missing_truth,
  membership_truth, prefix_truth, compare_node, missing, nan_test, prefix, membership, build,
  build_and, build_or,
}
use icebergr.Predicate.Typing.{DatumTypes, IsColumn, Binding}
use icebergr.Predicate.Typing.Literals.{datum-type_of, traverse-type_of}
use icebergr.Predicate.Typing.Leaves.{
  BindsBoth, truth_not-BindsBoth, compare_truth-BindsBoth, missing_truth-BindsBoth,
  prefix_truth-BindsBoth, membership_truth-BindsBoth,
}

-- Every field that a filter's name finds is found by its own name, as the top-level fields are.
abbrev pub FindsTopLevel : Engine → Schema → Bool → Type 0
FindsTopLevel E schema cs =
    (col : Text) (f : Field)
    → find_field E col schema cs ≡ some f
    → schema.field_by_name f.name ≡ some f

-- a column that resolves to a float one
abbrev pub OnFloat : (E : Engine) → Schema → Bool → Text → Type 0
OnFloat E schema cs col =
    (p : E.Reference × PrimitiveType) → reference E col schema cs ≡ ok p → is_float p.1 ≡ true

-- what holds of the column of each NaN test of a filter
unfoldable mutual
  pub NanTests : {J : Type 0} → (Text → Type 0) → Node J → Type 0
  NanTests P (Node.and args) = NanTestsAll P args
  NanTests P (Node.or args) = NanTestsAll P args
  NanTests P (Node.not arg) = NanTests P arg
  NanTests P (Node.is_nan col) = P col
  NanTests P (Node.is_not_nan col) = P col
  NanTests P _ = Unit

  NanTestsAll : {J : Type 0} → (Text → Type 0) → Nodes J → Type 0
  NanTestsAll P Nodes.nil = Unit
  NanTestsAll P (Nodes.cons n ns) = NanTests P n × NanTestsAll P ns

module _ (E : Engine) (T : DatumTypes E) (schema : Schema) (cs : Bool) (B : Binding E schema T)
    (found : FindsTopLevel E schema cs) where
  open E use {Json, Datum, Predicate, Reference, reference_new}

  abbrev Both : Truth Predicate → Type 0
  Both = BindsBoth E T schema B

  -- a reference names a column of its type
  abbrev IsOf : Reference × PrimitiveType → Type 0
  IsOf (r, ty) = (c : Text) × (r ≡ reference_new c) × IsColumn E schema c ty

  field-IsOf :
      (col : Text) (p : Reference × PrimitiveType) (f : Field) (t : IcebergType)
      → find_field E col schema cs ≡ some f
      → f.field_type ≡ t
      → reference E col schema cs ≡ ok p
      → IsOf p
  unfolding reference
  field-IsOf col p f (IcebergType.primitive q) e k h =
      let same : (reference_new f.name, q) ≡ p = ground arith in
      rw (← same) (f.name, refl, (f, found col f e, k))
  field-IsOf col p f _ e k h = absurd (ground arith)

  reference-IsOf :
      (col : Text) (p : Reference × PrimitiveType) → reference E col schema cs ≡ ok p → IsOf p
  unfolding reference
  reference-IsOf col p h = elim (Option-cases (find_field E col schema cs)) [
    | inl n ↦ absurd (ground arith)
    | inr (f, e) ↦ field-IsOf col p f f.field_type e refl h
  ]

  Both-same : (y x : Truth Predicate) → y ≡ x → Both y → Both x
  Both-same y x e h = rw (← e) h

  ok-Both :
      (t f : Predicate) (x : Truth Predicate)
      → ◌≡◌ {A = RResult (Truth Predicate)} (ok (record { t = t; f = f })) (ok x)
      → B.Binds t
      → B.Binds f
      → Both x
  ok-Both t f x e ht hf = let same : record { t = t; f = f } ≡ x = cc in Both-same _ x same (ht, hf)

  compare_node-Both :
      (op : Cmp) (col : Text) (v : Json) (x : Truth Predicate)
      → compare_node E op col v schema cs ≡ ok x
      → Both x
  unfolding compare_node
  compare_node-Both op col v x h =
      let ((r, ty), er, h1) = >>=-eq-ok (reference E col schema cs) _ h in
      let (c, ec, column) = reference-IsOf col (r, ty) er in
      let (d, ed, h2) = >>=-eq-ok (datum E v ty col) _ h1 in
      let same : compare_truth E op (reference_new c) ty d ≡ x = cc in
      Both-same _ x same
        (compare_truth-BindsBoth E T schema B op c ty d column (datum-type_of E T v ty col d ed))

  missing-Both : (col : Text) (x : Truth Predicate) → missing E col schema cs ≡ ok x → Both x
  unfolding missing
  missing-Both col x h =
      let ((r, ty), er, h1) = >>=-eq-ok (reference E col schema cs) _ h in
      let (c, ec, column) = reference-IsOf col (r, ty) er in
      let same : missing_truth E (reference_new c) ty ≡ x = cc in
      Both-same _ x same (missing_truth-BindsBoth E T schema B c ty column)

  nan_test-Both :
      (col : Text) (x : Truth Predicate)
      → OnFloat E schema cs col
      → nan_test E col schema cs ≡ ok x
      → Both x
  unfolding nan_test
  nan_test-Both col x fl h =
      let ((r, ty), er, h1) = >>=-eq-ok (reference E col schema cs) _ h in
      let (c, ec, column) = reference-IsOf col (r, ty) er in
      let float = fl (r, ty) er in
      let same : record { t = E.is_nan (reference_new c); f = E.is_not_nan (reference_new c) } ≡ x =
        cc in
      Both-same _ x same (B.binds-is_nan c ty column float, B.binds-is_not_nan c ty column float)

  prefix-Both :
      (col : Text) (v : Json) (x : Truth Predicate) → prefix E col v schema cs ≡ ok x → Both x
  unfolding prefix
  prefix-Both col v x h =
      let ((r, ty), er, h1) = >>=-eq-ok (reference E col schema cs) _ h in
      let (c, ec, column) = reference-IsOf col (r, ty) er in
      elim (Bool-cases (is_string ty)) [
        | inl s ↦
            let h2 : (datum E v ty col >>= λ d. ok (prefix_truth E r ty d)) ≡ ok x = ground arith in
            let (d, ed, h3) = >>=-eq-ok (datum E v ty col) _ h2 in
            let same : prefix_truth E (reference_new c) ty d ≡ x = cc in
            Both-same _ x same (
              prefix_truth-BindsBoth E T schema B c ty d column s (datum-type_of E T v ty col d ed))
        | inr n ↦ absurd (ground arith)
      ]

  membership-Both :
      (col : Text) (vs : List Json) (x : Truth Predicate)
      → membership E col vs schema cs ≡ ok x
      → Both x
  unfolding membership
  membership-Both col vs x h =
      let ((r, ty), er, h1) = >>=-eq-ok (reference E col schema cs) _ h in
      let (c, ec, column) = reference-IsOf col (r, ty) er in
      let (ds, ed, h2) = >>=-eq-ok (traverse (λ v. datum E v ty col) vs) _ h1 in
      let same : membership_truth E (reference_new c) ty ds ≡ x = cc in
      Both-same _ x same (
        membership_truth-BindsBoth E T schema B c ty ds column
          (traverse-type_of E T vs ty col ds ed))

  inverted-Both :
      (m : RResult (Truth Predicate)) (x : Truth Predicate)
      → ((y : Truth Predicate) → m ≡ ok y → Both y)
      → (m >>= λ y. ok (truth_not y)) ≡ ok x
      → Both x
  inverted-Both m x h e =
      let (y, ey, e1) = >>=-eq-ok m (λ y. ok (truth_not y)) e in
      let same : truth_not y ≡ x = cc in
      Both-same _ x same (truth_not-BindsBoth E T schema B y (h y ey))

  mutual
    unfolding build NanTests

    build-Both :
        (n : Node Json) (x : Truth Predicate)
        → NanTests (OnFloat E schema cs) n
        → build E n schema cs ≡ ok x
        → Both x
    build-Both (Node.and args) x fl h = and-Both args _ _ x fl B.binds-true B.binds-false h
    build-Both (Node.or args) x fl h = or-Both args _ _ x fl B.binds-false B.binds-true h
    build-Both (Node.not arg) x fl h =
        let (y, ey, e1) = >>=-eq-ok (build E arg schema cs) _ h in
        let same : truth_not y ≡ x = cc in
        Both-same _ x same (truth_not-BindsBoth E T schema B y (build-Both arg y fl ey))
    build-Both Node.always_true x fl h = ok-Both _ _ x h B.binds-true B.binds-false
    build-Both Node.always_false x fl h = ok-Both _ _ x h B.binds-false B.binds-true
    build-Both (Node.is_null col) x fl h = missing-Both col x h
    build-Both (Node.is_not_null col) x fl h = inverted-Both _ x (missing-Both col) h
    build-Both (Node.is_nan col) x fl h = nan_test-Both col x fl h
    build-Both (Node.is_not_nan col) x fl h = inverted-Both _ x (λ y e. nan_test-Both col y fl e) h
    build-Both (Node.eq col v) x fl h = compare_node-Both Cmp.eq col v x h
    build-Both (Node.ne col v) x fl h = compare_node-Both Cmp.ne col v x h
    build-Both (Node.lt col v) x fl h = compare_node-Both Cmp.lt col v x h
    build-Both (Node.lte col v) x fl h = compare_node-Both Cmp.lte col v x h
    build-Both (Node.gt col v) x fl h = compare_node-Both Cmp.gt col v x h
    build-Both (Node.gte col v) x fl h = compare_node-Both Cmp.gte col v x h
    build-Both (Node.starts_with col v) x fl h = prefix-Both col v x h
    build-Both (Node.not_starts_with col v) x fl h = inverted-Both _ x (prefix-Both col v) h
    build-Both (Node.in_set col vs) x fl h = membership-Both col vs x h
    build-Both (Node.not_in col vs) x fl h = inverted-Both _ x (membership-Both col vs) h

    and-Both :
        (ns : Nodes Json) (t f : Predicate) (x : Truth Predicate)
        → NanTestsAll (OnFloat E schema cs) ns
        → B.Binds t
        → B.Binds f
        → build_and E ns schema cs t f ≡ ok x
        → Both x
    and-Both Nodes.nil t f x fl ht hf h = ok-Both t f x h ht hf
    and-Both (Nodes.cons n ns) t f x (fn, fl) ht hf h =
        let (part, e, rest) = >>=-eq-ok (build E n schema cs) _ h in
        let (pt, pf) = build-Both n part fn e in
        and-Both ns _ _ x fl (B.binds-and t part.t ht pt) (B.binds-or f part.f hf pf) rest

    or-Both :
        (ns : Nodes Json) (t f : Predicate) (x : Truth Predicate)
        → NanTestsAll (OnFloat E schema cs) ns
        → B.Binds t
        → B.Binds f
        → build_or E ns schema cs t f ≡ ok x
        → Both x
    or-Both Nodes.nil t f x fl ht hf h = ok-Both t f x h ht hf
    or-Both (Nodes.cons n ns) t f x (fn, fl) ht hf h =
        let (part, e, rest) = >>=-eq-ok (build E n schema cs) _ h in
        let (pt, pf) = build-Both n part fn e in
        or-Both ns _ _ x fl (B.binds-or t part.t ht pt) (B.binds-and f part.f hf pf) rest

  -- If `build` accepts a filter whose NaN tests are of float columns, on a schema where every name that
  -- is found is a top-level one, then both predicates of its pair bind to the schema: each comparison in
  -- them is of a column with a literal of the column's type.
  pub build-Binds :
      (n : Node Json) (x : Truth Predicate)
      → NanTests (OnFloat E schema cs) n
      → build E n schema cs ≡ ok x
      → B.Binds x.t × B.Binds x.f
  build-Binds n x fl h = build-Both n x fl h
