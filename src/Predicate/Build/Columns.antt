-- ===== src/Predicate/Build/Columns.antt =====
-- Every column that a filter names resolves, once `build` has accepted the filter.
use icebergr.Prelude.{List, [], ◌∷◌, ◌++◌, Bool, ◌≡◌, All, All-append, ok, ◌>>=◌, >>=-eq-ok}
use icebergr.Prelude.Text.{Text}
use icebergr.Iceberg.{PrimitiveType, Schema}
use icebergr.Predicate.Node.{Node, Nodes, referenced_columns, referenced_columns_all}
use icebergr.Predicate.Engine.{Engine}
use icebergr.Predicate.Message.{RResult}
use icebergr.Predicate.Cmp.{Cmp}
use icebergr.Predicate.Build.{
  Truth, reference, compare_node, missing, nan_test, prefix, membership, build, build_and, build_or,
}

module _ (E : Engine) (schema : Schema) (cs : Bool) where
  open E use {Json, Reference, Predicate}

  abbrev pub Resolves : Text → Type 0
  Resolves col = (p : Reference × PrimitiveType) × (reference E col schema cs ≡ ok p)

  bind-Resolves :
      {B : Type 0} (col : Text) (k : Reference × PrimitiveType → RResult B) (b : B)
      → (reference E col schema cs >>= k) ≡ ok b
      → Resolves col
  bind-Resolves col k b h = let (p, e, _) = >>=-eq-ok (reference E col schema cs) k h in (p, e)

  All-snoc :
      (out : List Text) (col : Text)
      → All Resolves out
      → Resolves col
      → All Resolves (out ++ col ∷ [])
  All-snoc out col ho hc = All-append Resolves out (col ∷ []) ho (hc, tt)

  compare_node-Resolves :
      (op : Cmp) (col : Text) (v : Json) (x : Truth Predicate)
      → compare_node E op col v schema cs ≡ ok x
      → Resolves col
  unfolding compare_node
  compare_node-Resolves op col v x h = bind-Resolves col _ x h

  missing-Resolves :
      (col : Text) (x : Truth Predicate) → missing E col schema cs ≡ ok x → Resolves col
  unfolding missing
  missing-Resolves col x h = bind-Resolves col _ x h

  nan_test-Resolves :
      (col : Text) (x : Truth Predicate) → nan_test E col schema cs ≡ ok x → Resolves col
  unfolding nan_test
  nan_test-Resolves col x h = bind-Resolves col _ x h

  prefix-Resolves :
      (col : Text) (v : Json) (x : Truth Predicate) → prefix E col v schema cs ≡ ok x → Resolves col
  unfolding prefix
  prefix-Resolves col v x h = bind-Resolves col _ x h

  membership-Resolves :
      (col : Text) (vs : List Json) (x : Truth Predicate)
      → membership E col vs schema cs ≡ ok x
      → Resolves col
  unfolding membership
  membership-Resolves col vs x h = bind-Resolves col _ x h

  -- a negated leaf
  inverted-ok :
      (m : RResult (Truth Predicate)) (k : Truth Predicate → RResult (Truth Predicate))
      (x : Truth Predicate)
      → (m >>= k) ≡ ok x
      → (y : Truth Predicate) × (m ≡ ok y)
  inverted-ok m k x h = let (y, e, _) = >>=-eq-ok m k h in (y, e)

  mutual
    unfolding build referenced_columns

    columns_resolve :
        (n : Node Json) (out : List Text) (x : Truth Predicate)
        → build E n schema cs ≡ ok x
        → All Resolves out
        → All Resolves (referenced_columns n out)
    columns_resolve (Node.and args) out x h ho = and_resolve args out _ _ x h ho
    columns_resolve (Node.or args) out x h ho = or_resolve args out _ _ x h ho
    columns_resolve (Node.not arg) out x h ho =
        let (y, e) = inverted-ok (build E arg schema cs) _ x h in columns_resolve arg out y e ho
    columns_resolve Node.always_true out x h ho = ho
    columns_resolve Node.always_false out x h ho = ho
    columns_resolve (Node.is_null col) out x h ho = All-snoc out col ho (missing-Resolves col x h)
    columns_resolve (Node.is_not_null col) out x h ho =
        let (y, e) = inverted-ok (missing E col schema cs) _ x h in
        All-snoc out col ho (missing-Resolves col y e)
    columns_resolve (Node.is_nan col) out x h ho = All-snoc out col ho (nan_test-Resolves col x h)
    columns_resolve (Node.is_not_nan col) out x h ho =
        let (y, e) = inverted-ok (nan_test E col schema cs) _ x h in
        All-snoc out col ho (nan_test-Resolves col y e)
    columns_resolve (Node.eq col v) out x h ho =
        All-snoc out col ho (compare_node-Resolves Cmp.eq col v x h)
    columns_resolve (Node.ne col v) out x h ho =
        All-snoc out col ho (compare_node-Resolves Cmp.ne col v x h)
    columns_resolve (Node.lt col v) out x h ho =
        All-snoc out col ho (compare_node-Resolves Cmp.lt col v x h)
    columns_resolve (Node.lte col v) out x h ho =
        All-snoc out col ho (compare_node-Resolves Cmp.lte col v x h)
    columns_resolve (Node.gt col v) out x h ho =
        All-snoc out col ho (compare_node-Resolves Cmp.gt col v x h)
    columns_resolve (Node.gte col v) out x h ho =
        All-snoc out col ho (compare_node-Resolves Cmp.gte col v x h)
    columns_resolve (Node.starts_with col v) out x h ho =
        All-snoc out col ho (prefix-Resolves col v x h)
    columns_resolve (Node.not_starts_with col v) out x h ho =
        let (y, e) = inverted-ok (prefix E col v schema cs) _ x h in
        All-snoc out col ho (prefix-Resolves col v y e)
    columns_resolve (Node.in_set col vs) out x h ho =
        All-snoc out col ho (membership-Resolves col vs x h)
    columns_resolve (Node.not_in col vs) out x h ho =
        let (y, e) = inverted-ok (membership E col vs schema cs) _ x h in
        All-snoc out col ho (membership-Resolves col vs y e)

    and_resolve :
        (ns : Nodes Json) (out : List Text) (t f : Predicate) (x : Truth Predicate)
        → build_and E ns schema cs t f ≡ ok x
        → All Resolves out
        → All Resolves (referenced_columns_all ns out)
    and_resolve Nodes.nil out t f x h ho = ho
    and_resolve (Nodes.cons n ns) out t f x h ho =
        let (part, e, rest) = >>=-eq-ok (build E n schema cs) _ h in
        and_resolve ns (referenced_columns n out) _ _ x rest (columns_resolve n out part e ho)

    or_resolve :
        (ns : Nodes Json) (out : List Text) (t f : Predicate) (x : Truth Predicate)
        → build_or E ns schema cs t f ≡ ok x
        → All Resolves out
        → All Resolves (referenced_columns_all ns out)
    or_resolve Nodes.nil out t f x h ho = ho
    or_resolve (Nodes.cons n ns) out t f x h ho =
        let (part, e, rest) = >>=-eq-ok (build E n schema cs) _ h in
        or_resolve ns (referenced_columns n out) _ _ x rest (columns_resolve n out part e ho)

-- When `build` accepts a filter, `reference` succeeds on each column that `referenced_columns` lists.
pub referenced_columns-Resolves :
    (E : Engine) (schema : Schema) (cs : Bool) (n : Node E.Json) (x : Truth E.Predicate)
    → build E n schema cs ≡ ok x
    → All (Resolves E schema cs) (referenced_columns n [])
referenced_columns-Resolves E schema cs n x h = columns_resolve E schema cs n [] x h tt
