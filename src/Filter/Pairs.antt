-- ===== src/Filter/Pairs.antt =====
-- The meaning of each kind of call with two arguments, from the node that it becomes.
use icebergr.Prelude.{
  ℕ, List, map, Bool, true, ◌&&◌, Option, some, ◌≡◌, refl, ◌∙◌, sym, ◌⊎◌, inl, inr, arith, Ordering,
  Bool-cases, Option-cases, ok, ◌>>=◌, >>=-eq-ok, traverse,
}
use icebergr.Prelude.Text.{Text, codes, text_eq, text_eq→eq}
use icebergr.Iceberg.{PrimitiveType, Schema}
use icebergr.Predicate.Node.{Node}
use icebergr.Predicate.Engine.{Engine}
use icebergr.Predicate.Message.{RResult}
use icebergr.Predicate.Literal.{datum}
use icebergr.Predicate.Cmp.{Cmp, compares}
use icebergr.Predicate.Build.{is_string, reference}
use icebergr.Predicate.Meaning.{
  Logical, Cell, Rows, r_compare, r_in, r_prefix, r_order_of, orders, r_value, r_compare_node,
  r_prefix_node, r_in_node,
}
use icebergr.Filter.{
  Expr, Args, Language, arity, comparison, comparison_op, flipped_op, translate_filter,
}
use icebergr.Filter.Inversion.{Names, Evaluates, IsSides, column_left, column_right}
use icebergr.Filter.Meaning.{map_node, fits_formal, reversed, r_compare_from, Denotes}
use icebergr.Filter.Leaves.{PrintsNames, Means-same, head_symbol}

flipped_op-reversed :
    (op : Cmp) (o : Ordering) → compares (flipped_op op) o ≡ compares op (reversed o)
unfolding flipped_op
flipped_op-reversed Cmp.eq Ordering.lt = refl
flipped_op-reversed Cmp.eq Ordering.eq = refl
flipped_op-reversed Cmp.eq Ordering.gt = refl
flipped_op-reversed Cmp.ne Ordering.lt = refl
flipped_op-reversed Cmp.ne Ordering.eq = refl
flipped_op-reversed Cmp.ne Ordering.gt = refl
flipped_op-reversed Cmp.lt Ordering.lt = refl
flipped_op-reversed Cmp.lt Ordering.eq = refl
flipped_op-reversed Cmp.lt Ordering.gt = refl
flipped_op-reversed Cmp.lte Ordering.lt = refl
flipped_op-reversed Cmp.lte Ordering.eq = refl
flipped_op-reversed Cmp.lte Ordering.gt = refl
flipped_op-reversed Cmp.gt Ordering.lt = refl
flipped_op-reversed Cmp.gt Ordering.eq = refl
flipped_op-reversed Cmp.gt Ordering.gt = refl
flipped_op-reversed Cmp.gte Ordering.lt = refl
flipped_op-reversed Cmp.gte Ordering.eq = refl
flipped_op-reversed Cmp.gte Ordering.gt = refl

pub comparison_op-arity : (fn : Text) (op : Cmp) → comparison_op fn ≡ some op → arity fn ≡ some 3
unfolding comparison_op arity
comparison_op-arity fn op h = elim (Bool-cases (text_eq fn (codes "=="))) [
  | inl e0 ↦ rw (text_eq→eq fn (codes "==") e0) refl
  | inr e0 ↦ elim (Bool-cases (text_eq fn (codes "!="))) [
    | inl e1 ↦ rw (text_eq→eq fn (codes "!=") e1) refl
    | inr e1 ↦ elim (Bool-cases (text_eq fn (codes "<"))) [
      | inl e2 ↦ rw (text_eq→eq fn (codes "<") e2) refl
      | inr e2 ↦ elim (Bool-cases (text_eq fn (codes "<="))) [
        | inl e3 ↦ rw (text_eq→eq fn (codes "<=") e3) refl
        | inr e3 ↦ elim (Bool-cases (text_eq fn (codes ">"))) [
          | inl e4 ↦ rw (text_eq→eq fn (codes ">") e4) refl
          | inr e4 ↦ elim (Bool-cases (text_eq fn (codes ">="))) [
            | inl e5 ↦ rw (text_eq→eq fn (codes ">=") e5) refl
            | inr e5 ↦ absurd (ground arith)
          ]
        ]
      ]
    ]
  ]
]

module _ (L : Language) (columns : List Text) (cs : Bool) (E : Engine) (S : Rows E)
    (schema : Schema) (json_of : L.V → E.Json) (row : S.Row) (prints : PrintsNames L) where
  open L use {V, deparse1, as_list}
  open S use {Row, cell}

  abbrev pub Means : Expr V → Logical → Type 0
  Means = Denotes L columns cs E S schema json_of row

  abbrev pub Value : Node V → RResult Logical
  Value n = r_value E S (map_node json_of n) schema cs row

  -- a part of the expression that has been translated means what its node does
  abbrev pub IsSound : Expr V → Type 0
  IsSound a =
      (m : Node V) (y : Logical)
      → translate_filter L columns cs a ≡ ok m
      → Value m ≡ ok y
      → Means a y

  flipped-r_compare :
      (op : Cmp) (c : Cell E.Datum) (f : E.Datum → Option Ordering)
      → r_compare E S (flipped_op op) c f ≡ r_compare_from E S op f c
  flipped-r_compare op Cell.absent f = refl
  flipped-r_compare op Cell.null f = refl
  flipped-r_compare op (Cell.value v) f = elim (Option-cases (f v)) [
    | inl e ↦ rw e refl
    | inr (o, e) ↦ rw (e, flipped_op-reversed op o) refl
  ]

  pub both-ok :
      (x y : RResult Logical) (f : Logical → Logical → Logical) (start z : Logical)
      → (x >>= λ u. y >>= λ v. ok (f (f start u) v)) ≡ ok z
      → (u : Logical) × (v : Logical) × (x ≡ ok u) × (y ≡ ok v) × (f (f start u) v ≡ z)
  both-ok x y f start z h =
      let (u, hu, h1) = >>=-eq-ok x _ h in
      let (v, hv, h2) = >>=-eq-ok y (λ v. ok (f (f start u) v)) h1 in (u, v, hu, hv, cc)

  -- a symbol by either of two names
  pub either_symbol :
      (f : Expr V) (s t : Text) (k : ℕ)
      → arity s ≡ some k
      → arity t ≡ some k
      → (deparse1 f ≡ s) ⊎ (deparse1 f ≡ t)
      → (f ≡ Expr.symbol s) ⊎ (f ≡ Expr.symbol t)
  either_symbol f s t k hs ht (inl e) =
      inl (head_symbol L columns cs E S schema json_of row prints f s k e hs)
  either_symbol f s t k hs ht (inr e) =
      inr (head_symbol L columns cs E S schema json_of row prints f t k e ht)

  pub prefix_test-Means :
      (f a b : Expr V) (l m col : Text) (v : V) (y : Logical)
      → deparse1 f ≡ codes "startsWith"
      → (fits_formal l (codes "x") && fits_formal m (codes "prefix")) ≡ true
      → Names L columns cs a col
      → Evaluates L columns cs b v
      → r_prefix_node E S col (json_of v) schema cs row ≡ ok y
      → Means (Expr.call f (Args.cons l a (Args.cons m b Args.nil))) y
  unfolding arity
  prefix_test-Means f a b l m col v y e lm hn hv h =
      let ((r, ty), hr, h1) = >>=-eq-ok (reference E col schema cs) _ h in
      elim (Bool-cases (is_string ty)) [
        | inr n ↦ absurd (ground arith)
        | inl s ↦
            let h2 : (datum E (json_of v) ty col >>= λ d. ok (r_prefix E S (cell row r) d)) ≡ ok y =
              ground arith in
            let (d, hd, h3) = >>=-eq-ok (datum E (json_of v) ty col) _ h2 in
            let same : r_prefix E S (cell row r) d ≡ y = cc in
            Means-same L columns cs E S schema json_of row prints _ _ y same (
              Denotes.prefix_test
                (head_symbol L columns cs E S schema json_of row prints f (codes "startsWith") 3 e
                  refl)
                (ground arith) (ground arith) (hn, hr) (hv, hd))
      ]

  pub set_test-Means :
      (f a b : Expr V) (l m col : Text) (v : V) (y : Logical)
      → deparse1 f ≡ codes "%in%"
      → (fits_formal l (codes "x") && fits_formal m (codes "table")) ≡ true
      → Names L columns cs a col
      → Evaluates L columns cs b v
      → r_in_node E S col (map json_of (as_list v)) schema cs row ≡ ok y
      → Means (Expr.call f (Args.cons l a (Args.cons m b Args.nil))) y
  unfolding arity
  set_test-Means f a b l m col v y e lm hn hv h =
      let ((r, ty), hr, h1) = >>=-eq-ok (reference E col schema cs) _ h in
      let (ds, hd, h2) =
        >>=-eq-ok (traverse (λ j. datum E j ty col) (map json_of (as_list v))) _ h1 in
      let same : r_in E S (cell row r) (orders E S ty (map json_of (as_list v)) ds) ≡ y = cc in
      Means-same L columns cs E S schema json_of row prints _ _ y same (
        Denotes.set_test
          (head_symbol L columns cs E S schema json_of row prints f (codes "%in%") 3 e refl)
          (ground arith) (ground arith) (hn, hr) (hv, hd))

  -- the node of a comparison
  comparison-ok :
      (op : Cmp) (col : Text) (v : V) (y : Logical)
      → Value (comparison op col v) ≡ ok y
      → (r : E.Reference) × (ty : PrimitiveType) × (d : E.Datum) × (reference E col schema cs
          ≡ ok (r, ty))
        × (datum E (json_of v) ty col ≡ ok d)
        × (r_compare E S op (cell row r) (r_order_of E S ty (json_of v) d) ≡ y)
  unfolding r_value map_node
  comparison-ok op col v y h =
      let node : Value (comparison op col v) ≡ r_compare_node E S op col (json_of v) schema cs row =
        by_op op in
      let ((r, ty), hr, h1) = >>=-eq-ok (reference E col schema cs) _ (sym node ∙ h) in
      let (d, hd, h2) = >>=-eq-ok (datum E (json_of v) ty col) _ h1 in (r, ty, d, hr, hd, cc)
    where
      by_op :
          (op : Cmp)
          → Value (comparison op col v) ≡ r_compare_node E S op col (json_of v) schema cs row
      by_op Cmp.eq = refl
      by_op Cmp.ne = refl
      by_op Cmp.lt = refl
      by_op Cmp.lte = refl
      by_op Cmp.gt = refl
      by_op Cmp.gte = refl

  pub comparison-Means :
      (fn l m col : Text) (a b : Expr V) (op op1 : Cmp) (v : V) (y : Logical)
      → comparison_op fn ≡ some op
      → IsSides L columns cs op a b op1 col v
      → Value (comparison op1 col v) ≡ ok y
      → Means (Expr.call (Expr.symbol fn) (Args.cons l a (Args.cons m b Args.nil))) y
  comparison-Means fn l m col a b op _ v y ho (column_left hn hv) h =
      let (r, ty, d, hr, hd, same) = comparison-ok op col v y h in
      Means-same L columns cs E S schema json_of row prints _ _ y same
        (Denotes.column_left ho (hn, hr) (hv, hd))
  comparison-Means fn l m col a b op _ v y ho (column_right hn hv) h =
      let (r, ty, d, hr, hd, same) = comparison-ok (flipped_op op) col v y h in
      Means-same L columns cs E S schema json_of row prints _ _ y
        (sym (flipped-r_compare op (cell row r) (r_order_of E S ty (json_of v) d)) ∙ same)
        (Denotes.column_right ho (hn, hr) (hv, hd))
