-- ===== src/Filter/Inversion.antt =====
-- How a filter can have been accepted.
use icebergr.Prelude.{
  List, [], Bool, true, false, not, ◌||◌, none, some, ◌==◌, ◌≡◌, inl, inr, arith, if◌then◌else◌,
  Option-cases, List-cases, Result-cases, ok, err, ◌>>=◌, >>=-eq-ok,
}
use icebergr.Prelude.Text.{Text}
use icebergr.Predicate.Node.{Node}
use icebergr.Predicate.Cmp.{Cmp}
use icebergr.Filter.{
  Expr, Language, FilterError, column_ref, literal, value_columns, starts_with_node, in_node, sides,
  comparison_node, flipped_op, comparison,
}

module _ (L : Language) (columns : List Text) (cs : Bool) where
  open L use {V, length_of, is_character, any_na, as_list, deparse1, eval}

  -- the expression names the column
  abbrev pub Names : Expr V → Text → Type 0
  Names e col = column_ref L columns cs e ≡ ok (some col)

  -- the expression is a value in the caller's environment, and names no column
  abbrev pub Evaluates : Expr V → V → Type 0
  Evaluates e v = (value_columns L e columns cs ≡ []) × (eval e ≡ ok v)

  pub literal-Evaluates :
      (x whole : Expr V) (v : V) → literal L columns cs x whole ≡ ok v → Evaluates x v
  unfolding literal
  literal-Evaluates x whole v h = elim (List-cases (value_columns L x columns cs)) [
    | inl e ↦ elim (Result-cases (eval x)) [
      | inl (w, k) ↦ absurd (ground arith)
      | inr (u, k) ↦ let same : u ≡ v = ground arith in (e, rw (← same) k)
    ]
    | inr (c, rest, e) ↦ absurd (ground arith)
  ]

  -- A set or a prefix test has the column first.
  pub starts_with_node-ok :
      (whole a b : Expr V) (n : Node V)
      → starts_with_node L columns cs whole a b ≡ ok n
      → (col : Text) × (v : V) × Names a col
        × Evaluates b v
        × (is_character v ≡ true)
        × (length_of v ≡ 1)
        × (n ≡ Node.starts_with col v)
  unfolding starts_with_node
  starts_with_node-ok whole a b n h =
      let (found, hf, h1) = >>=-eq-ok (column_ref L columns cs a) _ h in
      elim (Option-cases found) [
        | inl e ↦ absurd (ground arith)
        | inr (col, e) ↦
            let h2 : (literal L columns cs b whole >>= λ v.
            if not (is_character v) || not (length_of v == 1)
            then err FilterError.prefix_not_string
            else ok (Node.starts_with col v))
                ≡ ok n =
              ground arith in
            let (v, hv, h3) = >>=-eq-ok (literal L columns cs b whole) _ h2 in
            (col, v, cc, literal-Evaluates b whole v hv, ground arith, ground arith, ground arith)
      ]

  pub in_node-ok :
      (whole a b : Expr V) (n : Node V)
      → in_node L columns cs whole a b ≡ ok n
      → (col : Text) × (v : V) × Names a col
        × Evaluates b v
        × (any_na v ≡ false)
        × (n ≡ Node.in_set col (as_list v))
  unfolding in_node
  in_node-ok whole a b n h =
      let (found, hf, h1) = >>=-eq-ok (column_ref L columns cs a) _ h in
      elim (Option-cases found) [
        | inl e ↦ absurd (ground arith)
        | inr (col, e) ↦
            let h2 : (literal L columns cs b whole >>= λ v.
            if any_na v
            then err
                (if L.any_bare_nan v then FilterError.set_with_nan else FilterError.set_with_na)
            else ok (Node.in_set col (as_list v)))
                ≡ ok n =
              ground arith in
            let (v, hv, h3) = >>=-eq-ok (literal L columns cs b whole) _ h2 in
            (col, v, cc, literal-Evaluates b whole v hv, ground arith, ground arith)
      ]

  -- A comparison has the column on one side and a value on the other.
  pub data IsSides (op : Cmp) (lhs rhs : Expr V) : Cmp → Text → V → Type 0 where
    column_left :
        {col : Text} {v : V} → Names lhs col → Evaluates rhs v → IsSides op lhs rhs op col v
    column_right :
        {col : Text} {v : V}
        → Names rhs col
        → Evaluates lhs v
        → IsSides op lhs rhs (flipped_op op) col v

  IsSides-left :
      (op : Cmp) (whole lhs rhs : Expr V) (p : Cmp × Text × V) (col : Text)
      → Names lhs col
      → (literal L columns cs rhs whole >>= λ v. ok (op, col, v)) ≡ ok p
      → IsSides op lhs rhs p.0 p.1 p.2
  IsSides-left op whole lhs rhs p col e h =
      let (v, hv, h1) = >>=-eq-ok (literal L columns cs rhs whole) _ h in
      let same : (op, col, v) ≡ p = cc in
      rw (← same) (column_left e (literal-Evaluates rhs whole v hv))

  IsSides-right :
      (op : Cmp) (whole lhs rhs : Expr V) (p : Cmp × Text × V) (col : Text)
      → Names rhs col
      → (literal L columns cs lhs whole >>= λ v. ok (flipped_op op, col, v)) ≡ ok p
      → IsSides op lhs rhs p.0 p.1 p.2
  IsSides-right op whole lhs rhs p col e h =
      let (v, hv, h1) = >>=-eq-ok (literal L columns cs lhs whole) _ h in
      let same : (flipped_op op, col, v) ≡ p = cc in
      rw (← same) (column_right e (literal-Evaluates lhs whole v hv))

  sides-IsSides :
      (op : Cmp) (whole lhs rhs : Expr V) (p : Cmp × Text × V)
      → sides L columns cs op whole lhs rhs ≡ ok p
      → IsSides op lhs rhs p.0 p.1 p.2
  unfolding sides
  sides-IsSides op whole lhs rhs p h =
      let (left, hl, h1) = >>=-eq-ok (column_ref L columns cs lhs) _ h in
      elim (Option-cases left) [
        | inr (col, e) ↦
            let names : Names lhs col = cc in
            IsSides-left op whole lhs rhs p col names (ground arith)
        | inl e ↦
            let h2 : (column_ref L columns cs rhs >>= λ right. elim right [
              | some col ↦ literal L columns cs lhs whole >>= λ v. ok (flipped_op op, col, v)
              | none ↦ err (FilterError.no_column (deparse1 whole))
            ])
                ≡ ok p =
              ground arith in
            let (right, hr, h3) = >>=-eq-ok (column_ref L columns cs rhs) _ h2 in
            elim (Option-cases right) [
              | inr (col, k) ↦
                  let names : Names rhs col = cc in
                  IsSides-right op whole lhs rhs p col names (ground arith)
              | inl k ↦ absurd (ground arith)
            ]
      ]

  pub comparison_node-ok :
      (op : Cmp) (whole lhs rhs : Expr V) (n : Node V)
      → comparison_node L columns cs op whole lhs rhs ≡ ok n
      → (op1 : Cmp) × (col : Text) × (v : V) × IsSides op lhs rhs op1 col v
        × (length_of v ≡ 1)
        × (n ≡ comparison op1 col v)
  unfolding comparison_node
  comparison_node-ok op whole lhs rhs n h =
      let ((op1, col, v), hs, h1) = >>=-eq-ok (sides L columns cs op whole lhs rhs) _ h in
      (op1, col, v, sides-IsSides op whole lhs rhs (op1, col, v) hs, ground arith, ground arith)
