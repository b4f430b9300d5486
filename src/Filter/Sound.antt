-- ===== src/Filter/Sound.antt =====
-- What `translate_filter` sends to the Rust side has the meaning of the expression.
use icebergr.Prelude.{
  List, [], ◌∷◌, Bool, true, false, ◌&&◌, some, ◌≡◌, refl, ◌∙◌, sym, inl, inr, arith, Option-cases,
  ok, err, >>=-eq-ok, if◌then◌else◌,
}
use icebergr.Prelude.Text.{Text, codes}
use icebergr.Iceberg.{Schema}
use icebergr.Predicate.Node.{Node, AllTests}
use icebergr.Predicate.Engine.{Engine}
use icebergr.Predicate.Message.{RResult}
use icebergr.Predicate.Meaning.{Logical, Rows, r_and, r_or, r_value}
use icebergr.Filter.{
  Expr, Args, Language, arity, comparison, pair_of, column_ref, translate_filter, translate_all,
}
use icebergr.Filter.Inversion.{starts_with_node-ok, in_node-ok, comparison_node-ok}
use icebergr.Filter.Branches.{
  unary-ok, IsBinary, binary-ok, translate_call-ok, translate_call-none, translate_call-more,
}
use icebergr.Filter.Meaning.{map_node, labels_fit, fits_formal, in_order, Denotes}
use icebergr.Filter.Leaves.{PrintsNames, Means-same, head_symbol, unary-Means}
use icebergr.Filter.Pairs.{
  comparison_op-arity, both-ok, either_symbol, prefix_test-Means, set_test-Means, comparison-Means,
}
use icebergr.Predicate.Build.{Truth, build}
use icebergr.Predicate.Meaning.{is_true, is_false, RowFits, InCLocale, IsExact, Pairs, Agrees}
use icebergr.Predicate.Meaning.Sound.{build-r_value}

module _ (L : Language) (columns : List Text) (cs : Bool) (E : Engine) (S : Rows E)
    (schema : Schema) (json_of : L.V → E.Json) (row : S.Row) (prints : PrintsNames L) where
  open L use {V, deparse1, as_list}
  open S use {Row, cell}

  abbrev Means : Expr V → Logical → Type 0
  Means = Denotes L columns cs E S schema json_of row

  abbrev Value : Node V → RResult Logical
  Value n = r_value E S (map_node json_of n) schema cs row

  -- a part of the expression that has been translated means what its node does
  abbrev IsSound : Expr V → Type 0
  IsSound a =
      (m : Node V) (y : Logical)
      → translate_filter L columns cs a ≡ ok m
      → Value m ≡ ok y
      → Means a y

  binary-Means :
      (f a b : Expr V) (l m : Text) (n : Node V) (y : Logical) (fn : Text)
      → deparse1 f ≡ fn
      → labels_fit fn (Args.cons l a (Args.cons m b Args.nil)) ≡ true
      → IsSound a
      → IsSound b
      → IsBinary L columns cs
          (Expr.call f (Args.cons l a (Args.cons m b Args.nil)))
          a
          b
          (translate_filter L columns cs a)
          (translate_filter L columns cs b)
          n
          fn
      → Value n ≡ ok y
      → Means (Expr.call f (Args.cons l a (Args.cons m b Args.nil))) y
  unfolding arity r_value map_node
  binary-Means f a b l m n y fn e lab iha ihb (IsBinary.both p q names hp hq en) h =
      let h1 : Value (Node.and (pair_of p q)) ≡ ok y = rw en at h in
      let (u, v, hu, hv, same) =
        both-ok L columns cs E S schema json_of row prints (Value p) (Value q) r_and Logical.holds y
          h1 in
      Means-same L columns cs E S schema json_of row prints _ _ y same (
        Denotes.conjunction
          (either_symbol L columns cs E S schema json_of row prints f (codes "&") (codes "&&") 3
            refl refl (rw e names))
          (iha p u hp hu) (ihb q v hq hv))
  binary-Means f a b l m n y fn e lab iha ihb (IsBinary.either p q names hp hq en) h =
      let h1 : Value (Node.or (pair_of p q)) ≡ ok y = rw en at h in
      let (u, v, hu, hv, same) =
        both-ok L columns cs E S schema json_of row prints (Value p) (Value q) r_or Logical.fails y
          h1 in
      Means-same L columns cs E S schema json_of row prints _ _ y same (
        Denotes.disjunction
          (either_symbol L columns cs E S schema json_of row prints f (codes "|") (codes "||") 3
            refl refl (rw e names))
          (iha p u hp hu) (ihb q v hq hv))
  binary-Means f a b l m n y fn e lab iha ihb (IsBinary.prefix_test name hn) h =
      let (col, v, hc, hv, hs, hl, en) = starts_with_node-ok L columns cs _ a b n hn in
      let h1 : Value (Node.starts_with col v) ≡ ok y = rw en at h in
      let fits : (fits_formal l (codes "x") && fits_formal m (codes "prefix")) ≡ true =
        rw name at lab in
      prefix_test-Means L columns cs E S schema json_of row prints f a b l m col v y (e ∙ name) fits
        hc hv h1
  binary-Means f a b l m n y fn e lab iha ihb (IsBinary.set_test name hn) h =
      let (col, v, hc, hv, hs, en) = in_node-ok L columns cs _ a b n hn in
      let h1 : Value (Node.in_set col (as_list v)) ≡ ok y = rw en at h in
      let fits : (fits_formal l (codes "x") && fits_formal m (codes "table")) ≡ true =
        rw name at lab in
      set_test-Means L columns cs E S schema json_of row prints f a b l m col v y (e ∙ name) fits hc
        hv h1
  binary-Means f a b l m n y fn e lab iha ihb (IsBinary.compared op ho hn) h =
      let (op1, col, v, hs, hl, en) = comparison_node-ok L columns cs op _ a b n hn in
      let h1 : Value (comparison op1 col v) ≡ ok y = rw en at h in
      let symbol =
        head_symbol L columns cs E S schema json_of row prints f fn 3 e
          (comparison_op-arity fn op ho) in
      rw symbol (
        comparison-Means L columns cs E S schema json_of row prints fn l m col a b op op1 v y ho hs
          h1)

  flag-Means :
      (v : V) (b : Bool) (n : Node V) (y : Logical)
      → L.as_flag v ≡ some b
      → (if b then Node.always_true else Node.always_false) ≡ n
      → Value n ≡ ok y
      → Means (Expr.constant v) y
  unfolding r_value map_node
  flag-Means v true n y e en h =
      let en1 : n ≡ Node.always_true = sym en in
      let h1 : Value Node.always_true ≡ ok y = rw en1 at h in
      let same : Logical.holds ≡ y = cc in
      Means-same L columns cs E S schema json_of row prints _ _ y same (Denotes.flag v true e)
  flag-Means v false n y e en h =
      let en1 : n ≡ Node.always_false = sym en in
      let h1 : Value Node.always_false ≡ ok y = rw en1 at h in
      let same : Logical.fails ≡ y = cc in
      Means-same L columns cs E S schema json_of row prints _ _ y same (Denotes.flag v false e)

  translate-Means : (e : Expr V) → in_order deparse1 e ≡ true → IsSound e
  unfolding translate_filter in_order r_value map_node
  translate-Means (Expr.constant v) o n y h k = elim (Option-cases (L.as_flag v)) [
    | inl missing ↦ absurd (ground arith)
    | inr (b, eb) ↦ flag-Means v b n y eb (ground arith) k
  ]
  translate-Means (Expr.symbol s) o n y h k =
      let (found, hf, h1) = >>=-eq-ok (column_ref L columns cs (Expr.symbol s)) _ h in
      elim (Option-cases found) [
        | inl e ↦ absurd (ground arith)
        | inr (c, e) ↦ absurd (ground arith)
      ]
  translate-Means (Expr.call f Args.nil) o n y h k =
      absurd (translate_call-none L columns cs (deparse1 f) (Expr.call f Args.nil) n h)
  translate-Means (Expr.call f (Args.cons l a Args.nil)) o n y h k =
      let args = Args.cons l a Args.nil in
      let made = translate_filter L columns cs a in
      let accepted =
        translate_call-ok L columns cs (deparse1 f) (Expr.call f args) args (made ∷ []) n h in
      unary-Means L columns cs E S schema json_of row prints f a l n y (deparse1 f) refl
        (translate-Means a (ground arith)) (unary-ok L columns cs (deparse1 f) a made n accepted) k
  translate-Means (Expr.call f (Args.cons l a (Args.cons m b Args.nil))) o n y h k =
      let args = Args.cons l a (Args.cons m b Args.nil) in
      let left = translate_filter L columns cs a in
      let right = translate_filter L columns cs b in
      let accepted =
        translate_call-ok L columns cs (deparse1 f) (Expr.call f args) args (left ∷ right ∷ []) n
          h in
      binary-Means f a b l m n y (deparse1 f) refl (ground arith) (translate-Means a (ground arith))
        (translate-Means b (ground arith))
        (binary-ok L columns cs (deparse1 f) (Expr.call f args) a b left right n accepted) k
  translate-Means (Expr.call f (Args.cons l a (Args.cons m b (Args.cons i c args)))) o n y h k =
      absurd (
        translate_call-more L columns cs (deparse1 f)
          (Expr.call f (Args.cons l a (Args.cons m b (Args.cons i c args)))) a b c l m i args
          (translate_filter L columns cs a) (translate_filter L columns cs b)
          (translate_filter L columns cs c) (translate_all L columns cs args) n h)

-- The rows that a filter keeps are those where R says TRUE, in the C locale. If `translate_filter`
-- accepts an expression, in which no call of `startsWith` or `%in%` names its arguments out of their
-- order, and `build` accepts the tree that it makes, whose literals beside float columns are values of
-- 32-bit floats, then on a row whose values have their columns' types the expression has a value, and of
-- the two predicates the first matches the row exactly if the value is TRUE and the second exactly if it
-- is FALSE. R compares a float as the double of the same value, and a literal for any other column as
-- what `datum` makes of it. In another locale the order of strings is not Iceberg's, and nothing is said.
pub translate_filter-build :
    (L : Language) (columns : List Text) (cs : Bool) (E : Engine) (S : Rows E) (schema : Schema)
    (json_of : L.V → E.Json) (row : S.Row) (e : Expr L.V) (n : Node L.V) (truth : Truth E.Predicate)
    → PrintsNames L
    → RowFits E S schema cs row
    → InCLocale E S
    → AllTests (IsExact E S schema cs) (map_node json_of n)
    → in_order L.deparse1 e ≡ true
    → translate_filter L columns cs e ≡ ok n
    → build E (map_node json_of n) schema cs ≡ ok truth
    → (x : Logical) × Denotes L columns cs E S schema json_of row e x
      × (S.matches truth.t row ≡ is_true x)
      × (S.matches truth.f row ≡ is_false x)
translate_filter-build L columns cs E S schema json_of row e n truth prints fits locale exact o h
      k =
    let agrees = build-r_value E S schema cs row fits locale (map_node json_of n) exact in
    let (x, value, (pt, pf)) =
      valued (r_value E S (map_node json_of n) schema cs row) truth (rw k at agrees) in
    (x, translate-Means L columns cs E S schema json_of row prints e o n x h value, pt, pf)
  where
    valued :
        (v : RResult Logical) (truth : Truth E.Predicate)
        → Agrees E S row (ok truth) v
        → (x : Logical) × (v ≡ ok x) × Pairs E S row truth x
    valued (ok x) truth a = (x, refl, a)
    valued (err w) truth a = absurd a
