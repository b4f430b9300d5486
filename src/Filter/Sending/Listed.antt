-- ===== src/Filter/Sending/Listed.antt =====
-- What holds of every column that `referenced_columns` lists.
use icebergr.Prelude.{List, [], ◌∷◌, ◌++◌, true, ◌≡◌, sym, arith, All, Bool-cases, inl, inr}
use icebergr.Prelude.Text.{Text, text_eq, text_eq→eq}
use icebergr.Predicate.Node.{Node, Nodes, referenced_columns, referenced_columns_all}
use icebergr.Filter.Lookup.{is_in}

module _ (P : Text → Type 0) where
  pub snoc-All : (out : List Text) (col : Text) → All P (out ++ col ∷ []) → All P out × P col
  snoc-All [] col (h, _) = (tt, h)
  snoc-All (c ∷ out) col (h, hs) = let (ho, hc) = snoc-All out col hs in ((h, ho), hc)

  -- the columns from before are among those after
  mutual
    unfolding referenced_columns

    pub referenced_columns-All :
        {V : Type 0} (n : Node V) (out : List Text) → All P (referenced_columns n out) → All P out
    referenced_columns-All (Node.and args) out h = referenced_columns_all-All args out h
    referenced_columns-All (Node.or args) out h = referenced_columns_all-All args out h
    referenced_columns-All (Node.not arg) out h = referenced_columns-All arg out h
    referenced_columns-All Node.always_true out h = h
    referenced_columns-All Node.always_false out h = h
    referenced_columns-All (Node.eq col v) out h = (snoc-All out col h).0
    referenced_columns-All (Node.ne col v) out h = (snoc-All out col h).0
    referenced_columns-All (Node.lt col v) out h = (snoc-All out col h).0
    referenced_columns-All (Node.lte col v) out h = (snoc-All out col h).0
    referenced_columns-All (Node.gt col v) out h = (snoc-All out col h).0
    referenced_columns-All (Node.gte col v) out h = (snoc-All out col h).0
    referenced_columns-All (Node.starts_with col v) out h = (snoc-All out col h).0
    referenced_columns-All (Node.not_starts_with col v) out h = (snoc-All out col h).0
    referenced_columns-All (Node.is_null col) out h = (snoc-All out col h).0
    referenced_columns-All (Node.is_not_null col) out h = (snoc-All out col h).0
    referenced_columns-All (Node.is_nan col) out h = (snoc-All out col h).0
    referenced_columns-All (Node.is_not_nan col) out h = (snoc-All out col h).0
    referenced_columns-All (Node.in_set col vs) out h = (snoc-All out col h).0
    referenced_columns-All (Node.not_in col vs) out h = (snoc-All out col h).0

    pub referenced_columns_all-All :
        {V : Type 0} (ns : Nodes V) (out : List Text)
        → All P (referenced_columns_all ns out)
        → All P out
    referenced_columns_all-All Nodes.nil out h = h
    referenced_columns_all-All (Nodes.cons n ns) out h =
        referenced_columns-All n out (referenced_columns_all-All ns (referenced_columns n out) h)

is_in-All : (P : Text → Type 0) (c : Text) (l : List Text) → is_in c l ≡ true → All P l → P c
is_in-All P c (d ∷ l) h (hd, hl) = elim (Bool-cases (text_eq c d)) [
  | inl e ↦ let same : d ≡ c = sym (text_eq→eq c d e) in rw (← same) hd
  | inr e ↦ is_in-All P c l (ground arith) hl
]
is_in-All P c [] h hl = absurd cc

pub All-is_in :
    (P : Text → Type 0) (l names : List Text)
    → All P l
    → All (λ c. is_in c l ≡ true) names
    → All P names
All-is_in P l [] hl h = tt
All-is_in P l (c ∷ names) hl (h, hs) = (is_in-All P c l h hl, All-is_in P l names hl hs)
