-- ===== src/Filter/Names.antt =====
-- The functions that a filter may call, by name, and the aborts of R/filter.R.
use icebergr.Prelude.{ℕ, List, [], ◌∷◌, Option, none, some, if◌then◌else◌, any, Result}
use icebergr.Prelude.Text.{Text, codes, text_eq}
use icebergr.Predicate.Node.{Node, Nodes}
use icebergr.Predicate.Cmp.{Cmp}

-- The aborts, with what their messages name.
pub data FilterError : Type 0 where
  ambiguous : Text → List Text → FilterError
  column_as_value : Text → Text → FilterError
  not_evaluated : Text → Text → FilterError
  bare_column not_a_column : Text → FilterError
  not_an_expression unsupported : Text → FilterError
  wrong_arity : Text → ℕ → ℕ → FilterError
  needs_column : Text → FilterError
  prefix_not_string set_with_nan set_with_na : FilterError
  no_column : Text → FilterError
  not_single : Text → ℕ → FilterError

abbrev pub Translated : Type 0 → Type 0
Translated A = Result FilterError A

-- `length(e)` of a supported call, its function included.
unfoldable pub arity : Text → Option ℕ
arity fn =
    if any (text_eq fn) (codes "(" ∷ codes "!" ∷ codes "is.na" ∷ codes "is.nan" ∷ [])
    then some 2
    else if any (text_eq fn) (
        codes "startsWith"
        ∷ codes "&"
        ∷ codes "&&"
        ∷ codes "|"
        ∷ codes "||"
        ∷ codes "%in%"
        ∷ codes "=="
        ∷ codes "!="
        ∷ codes "<"
        ∷ codes "<="
        ∷ codes ">"
        ∷ codes ">="
        ∷ [])
    then some 3
    else none

unfoldable pub comparison_op : Text → Option Cmp
comparison_op fn =
    if text_eq fn (codes "==")
    then some Cmp.eq
    else if text_eq fn (codes "!=")
    then some Cmp.ne
    else if text_eq fn (codes "<")
    then some Cmp.lt
    else if text_eq fn (codes "<=")
    then some Cmp.lte
    else if text_eq fn (codes ">")
    then some Cmp.gt
    else if text_eq fn (codes ">=")
    then some Cmp.gte
    else none

unfoldable pub flipped_op : Cmp → Cmp
flipped_op Cmp.lt = Cmp.gt
flipped_op Cmp.lte = Cmp.gte
flipped_op Cmp.gt = Cmp.lt
flipped_op Cmp.gte = Cmp.lte
flipped_op Cmp.eq = Cmp.eq
flipped_op Cmp.ne = Cmp.ne

abbrev pub comparison : {V : Type 0} → Cmp → Text → V → Node V
comparison Cmp.eq col v = Node.eq col v
comparison Cmp.ne col v = Node.ne col v
comparison Cmp.lt col v = Node.lt col v
comparison Cmp.lte col v = Node.lte col v
comparison Cmp.gt col v = Node.gt col v
comparison Cmp.gte col v = Node.gte col v

abbrev pub pair_of : {V : Type 0} → Node V → Node V → Nodes V
pair_of a b = Nodes.cons a (Nodes.cons b Nodes.nil)
