-- ===== src/Filter.antt =====
-- R/filter.R and `column_index` of R/utils.R: the translation of an R filter expression into the tree
-- that `build_predicate` reads. R's own functions, and the environment that values are evaluated in,
-- are parameters.
mod Lookup
mod Tests
mod Names
pub mod Branches
pub mod Columns
pub mod Document
pub mod Sending
pub mod Inversion
pub mod Json
pub mod Leaves
pub mod Pairs
pub mod Meaning
pub mod Sound
pub use Lookup.*
unfoldable pub use Names.*
use icebergr.Prelude.{
  ℕ, suc, ◌-◌, List, [], ◌∷◌, ◌++◌, map, Bool, true, false, not, ◌&&◌, ◌||◌, Option, none, some,
  ◌==◌, if◌then◌else◌, any, length, Result, ok, err, ◌>>=◌, map_err,
}
use icebergr.Prelude.Text.{Text, codes, text_eq}
use icebergr.Predicate.Node.{Node, Nodes}
use icebergr.Predicate.Cmp.{Cmp}

module _ (L : Language) (columns : List Text) (cs : Bool) where
  open L use {V, as_flag, length_of, is_character, any_na, any_bare_nan, as_list, deparse1, eval}

  -- `column_ref`
  unfoldable pub column_ref : Expr V → Translated (Option Text)
  unfolding column_index
  column_ref (Expr.symbol s) =
      map_err (λ hits. FilterError.ambiguous s hits) (column_index L s columns cs)
  column_ref (Expr.constant v) = ok none
  column_ref (Expr.call f args) = ok none

  -- `literal`, the value side of a comparison
  unfoldable pub literal : Expr V → Expr V → Translated V
  unfolding value_columns
  literal x whole = elim (value_columns L x columns cs) [
    | named ∷ _ ↦ err (FilterError.column_as_value named (deparse1 whole))
    | [] ↦ map_err (FilterError.not_evaluated (deparse1 x)) (eval x)
  ]

  -- the column that a test has to be of
  abbrev pub required : Text → Option Text → Translated Text
  required what none = err (FilterError.needs_column what)
  required what (some col) = ok col

  -- `!`: the direct predicate for a negated test of a column
  abbrev pub negated_test : Text → Option Text → Translated (Node V) → Translated (Node V)
  negated_test inner_fn none inner = inner >>= λ n. ok (Node.not n)
  negated_test inner_fn (some col) inner =
      if text_eq inner_fn (codes "is.na")
      then ok (Node.is_not_null col)
      else if text_eq inner_fn (codes "is.nan")
      then ok (Node.is_not_nan col)
      else inner >>= λ n. ok (Node.not n)

  unfoldable pub negation : Expr V → Translated (Node V) → Translated (Node V)
  unfolding column_ref
  negation (Expr.call f (Args.cons l x Args.nil)) inner = do
    column ← column_ref x
    negated_test (deparse1 f) column inner
  negation e inner = inner >>= λ n. ok (Node.not n)

  unfoldable pub starts_with_node : Expr V → Expr V → Expr V → Translated (Node V)
  unfolding column_ref literal
  starts_with_node whole a b = do
    found ← column_ref a
    col ← required (codes "startsWith()") found
    prefix ← literal b whole
    if not (is_character prefix) || not (length_of prefix == 1)
        then err FilterError.prefix_not_string
        else ok (Node.starts_with col prefix)

  unfoldable pub in_node : Expr V → Expr V → Expr V → Translated (Node V)
  unfolding column_ref literal
  in_node whole a b = do
    found ← column_ref a
    col ← required (codes "the left side of %in%") found
    values ← literal b whole
    if any_na values
        then err (if any_bare_nan values then FilterError.set_with_nan else FilterError.set_with_na)
        else ok (Node.in_set col (as_list values))

  -- the operator, the column and the value, whichever side the column is on
  unfoldable pub sides : Cmp → Expr V → Expr V → Expr V → Translated (Cmp × Text × V)
  unfolding column_ref literal flipped_op
  sides op whole lhs rhs = do
    left ← column_ref lhs
    elim left [
      | some col ↦ literal rhs whole >>= λ v. ok (op, col, v)
      | none ↦ column_ref rhs >>= λ right. elim right [
        | some col ↦ literal lhs whole >>= λ v. ok (flipped_op op, col, v)
        | none ↦ err (FilterError.no_column (deparse1 whole))
      ]
    ]

  unfoldable pub comparison_node : Cmp → Expr V → Expr V → Expr V → Translated (Node V)
  unfolding sides
  comparison_node op whole lhs rhs = do
    (op1, col, value) ← sides op whole lhs rhs
    if not (length_of value == 1)
        then err (FilterError.not_single col (length_of value))
        else ok (comparison op1 col value)

  -- The branches for a call with one argument, and for one with two, given what the arguments translate
  -- to.
  unfoldable pub unary : Text → Expr V → Translated (Node V) → Translated (Node V)
  unfolding negation column_ref
  unary fn a inner =
      if text_eq fn (codes "(")
      then inner
      else if text_eq fn (codes "!")
      then negation a inner
      else if text_eq fn (codes "is.na")
      then (column_ref a >>= λ found. required fn found >>= λ col. ok (Node.is_null col))
      else if text_eq fn (codes "is.nan")
      then (column_ref a >>= λ found. required fn found >>= λ col. ok (Node.is_nan col))
      else err (FilterError.unsupported fn)

  unfoldable pub binary :
      Text
      → Expr V
      → Expr V
      → Expr V
      → Translated (Node V)
      → Translated (Node V)
      → Translated (Node V)
  unfolding starts_with_node in_node comparison_op comparison_node
  binary fn whole a b left right =
      if text_eq fn (codes "&") || text_eq fn (codes "&&")
      then (left >>= λ x. right >>= λ y. ok (Node.and (pair_of x y)))
      else if text_eq fn (codes "|") || text_eq fn (codes "||")
      then (left >>= λ x. right >>= λ y. ok (Node.or (pair_of x y)))
      else if text_eq fn (codes "startsWith")
      then starts_with_node whole a b
      else if text_eq fn (codes "%in%")
      then in_node whole a b
      else elim (comparison_op fn) [
        | some op ↦ comparison_node op whole a b
        | none ↦ err (FilterError.unsupported fn)
      ]

  abbrev pub branch : Text → Expr V → Args V → List (Translated (Node V)) → Translated (Node V)
  branch fn whole (Args.cons _ a Args.nil) (ra ∷ []) = unary fn a ra
  branch fn whole (Args.cons _ a (Args.cons _ b Args.nil)) (ra ∷ rb ∷ []) =
      binary fn whole a b ra rb
  branch fn whole _ _ = err (FilterError.unsupported fn)

  abbrev pub miscounts : Option ℕ → ℕ → Bool
  miscounts none n = false
  miscounts (some k) n = not (suc n == k)

  abbrev expected_args : Option ℕ → ℕ
  expected_args none = 0
  expected_args (some k) = k - 1

  -- the test of the argument count, and the branches
  unfoldable pub translate_call :
      Text → Expr V → Args V → List (Translated (Node V)) → Translated (Node V)
  unfolding arity unary binary
  translate_call fn whole args results =
      if miscounts (arity fn) (args_length args)
      then err (FilterError.wrong_arity fn (expected_args (arity fn)) (args_length args))
      else branch fn whole args results

  unfoldable mutual
    unfolding translate_call column_ref

    -- `translate_filter`
    pub translate_filter : Expr V → Translated (Node V)
    translate_filter (Expr.constant v) = elim (as_flag v) [
      | some b ↦ ok (if b then Node.always_true else Node.always_false)
      | none ↦ err (FilterError.not_an_expression (deparse1 (Expr.constant v)))
    ]
    translate_filter (Expr.symbol s) = column_ref (Expr.symbol s) >>= λ found. elim found [
      | some col ↦ err (FilterError.bare_column s)
      | none ↦ err (FilterError.not_a_column s)
    ]
    translate_filter (Expr.call f args) =
        translate_call (deparse1 f) (Expr.call f args) args (translate_all args)

    pub translate_all : Args V → List (Translated (Node V))
    translate_all Args.nil = []
    translate_all (Args.cons l a args) = translate_filter a ∷ translate_all args
