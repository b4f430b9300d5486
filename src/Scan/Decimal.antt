-- ===== src/Scan/Decimal.antt =====
-- The row selection of a scan and the decimal columns of its filter.
use icebergr.Prelude.{
  List, [], ◌∷◌, ◌++◌, ◌≡◌, sym, ◌∙◌, ◌⊎◌, inl, inr, Bool, true, false, Option, some, arith, any,
  All, ok, >>=-eq-ok, map_err,
}
use icebergr.Prelude.Int.{ℤ}
use icebergr.Prelude.Text.{Text, codes}
use icebergr.Errors.{ctx}
use icebergr.Iceberg.{PrimitiveType, Schema}
use icebergr.Predicate.Node.{Node, Nodes, referenced_columns, referenced_columns_all}
use icebergr.Predicate.Engine.{Engine}
use icebergr.Predicate.Build.{
  BuiltPredicate, build, build_predicate, reference, is_decimal, resolves_to_decimal,
}
use icebergr.Filter.Sending.Listed.{snoc-All, referenced_columns_all-All}
use icebergr.Table.Snapshots.{Metadata, read_schema}
use icebergr.Scan.{Builder, configured}
use icebergr.Scan.Agreement.{configured-filter}

module _ {J : Type 0} (c : Text) where
  -- a test of the column stands somewhere in the tree
  unfoldable mutual
    pub Mentions : Node J → Type 0
    Mentions (Node.and args) = MentionsAny args
    Mentions (Node.or args) = MentionsAny args
    Mentions (Node.not arg) = Mentions arg
    Mentions Node.always_true = ⊥
    Mentions Node.always_false = ⊥
    Mentions (Node.eq col v) = c ≡ col
    Mentions (Node.ne col v) = c ≡ col
    Mentions (Node.lt col v) = c ≡ col
    Mentions (Node.lte col v) = c ≡ col
    Mentions (Node.gt col v) = c ≡ col
    Mentions (Node.gte col v) = c ≡ col
    Mentions (Node.starts_with col v) = c ≡ col
    Mentions (Node.not_starts_with col v) = c ≡ col
    Mentions (Node.is_null col) = c ≡ col
    Mentions (Node.is_not_null col) = c ≡ col
    Mentions (Node.is_nan col) = c ≡ col
    Mentions (Node.is_not_nan col) = c ≡ col
    Mentions (Node.in_set col vs) = c ≡ col
    Mentions (Node.not_in col vs) = c ≡ col

    pub MentionsAny : Nodes J → Type 0
    MentionsAny Nodes.nil = ⊥
    MentionsAny (Nodes.cons n ns) = Mentions n ⊎ MentionsAny ns

here :
    (P : Text → Type 0) (c : Text) (out : List Text) (col : Text)
    → All P (out ++ col ∷ [])
    → c ≡ col
    → P c
here P c out col h e = rw e (snoc-All P out col h).1

module _ {J : Type 0} (P : Text → Type 0) (c : Text) where
  mutual
    unfolding referenced_columns Mentions

    Mentions-All :
        (n : Node J) (out : List Text) → All P (referenced_columns n out) → Mentions c n → P c
    Mentions-All (Node.and args) out h e = MentionsAny-All args out h e
    Mentions-All (Node.or args) out h e = MentionsAny-All args out h e
    Mentions-All (Node.not arg) out h e = Mentions-All arg out h e
    Mentions-All Node.always_true out h e = absurd e
    Mentions-All Node.always_false out h e = absurd e
    Mentions-All (Node.eq col v) out h e = here P c out col h e
    Mentions-All (Node.ne col v) out h e = here P c out col h e
    Mentions-All (Node.lt col v) out h e = here P c out col h e
    Mentions-All (Node.lte col v) out h e = here P c out col h e
    Mentions-All (Node.gt col v) out h e = here P c out col h e
    Mentions-All (Node.gte col v) out h e = here P c out col h e
    Mentions-All (Node.starts_with col v) out h e = here P c out col h e
    Mentions-All (Node.not_starts_with col v) out h e = here P c out col h e
    Mentions-All (Node.in_set col v) out h e = here P c out col h e
    Mentions-All (Node.not_in col v) out h e = here P c out col h e
    Mentions-All (Node.is_null col) out h e = here P c out col h e
    Mentions-All (Node.is_not_null col) out h e = here P c out col h e
    Mentions-All (Node.is_nan col) out h e = here P c out col h e
    Mentions-All (Node.is_not_nan col) out h e = here P c out col h e

    MentionsAny-All :
        (ns : Nodes J) (out : List Text)
        → All P (referenced_columns_all ns out)
        → MentionsAny c ns
        → P c
    MentionsAny-All Nodes.nil out h e = absurd e
    MentionsAny-All (Nodes.cons n ns) out h (inl e) =
        Mentions-All n out (referenced_columns_all-All P ns (referenced_columns n out) h) e
    MentionsAny-All (Nodes.cons n ns) out h (inr e) =
        MentionsAny-All ns (referenced_columns n out) h e

any-All : (p : Text → Bool) (l : List Text) → any p l ≡ false → All (λ c. p c ≡ false) l
any-All p [] h = tt
any-All p (c ∷ l) h = (ground arith, any-All p l (ground arith))

module _ (e : Engine) where
  open e use {Json, Reference, json_parse}

  build_predicate-decimal :
      (json : Text) (schema : Schema) (cs : Bool) (built : BuiltPredicate e) (node : Node Json)
      → build_predicate e json schema cs ≡ ok built
      → json_parse json ≡ ok node
      → built.has_decimal
        ≡ any (λ c. resolves_to_decimal e (reference e c schema cs)) (referenced_columns node [])
  unfolding build_predicate
  build_predicate-decimal json schema cs built node h k =
      let (read, hr, h1) =
        >>=-eq-ok (map_err (ctx (codes "could not read the filter expression")) (json_parse json)) _
          h in
      let same : read ≡ node = ground arith in
      let (truth, ht, h2) = >>=-eq-ok (build e read schema cs) _ h1 in
      let flag : built.has_decimal
          ≡ any (λ c. resolves_to_decimal e (reference e c schema cs))
              (referenced_columns read []) =
        ground arith in
      rw (← same) flag

  -- A scan that keeps row selection on tests no decimal column: on such a column it would lose rows.
  -- If the configuration with a filter succeeds and has row selection on, then every column that a
  -- test in the parsed filter names, at any depth, is of another type in the schema being read.
  pub configured-row_selection :
      (m : Metadata) (select : Option (List Text)) (json : Text) (snapshot batch_size : Option ℤ)
      (cs row_group_filtering row_selection : Bool) (b : Builder e) (schema : Schema)
      (node : Node Json) (c : Text) (r : Reference) (ty : PrimitiveType)
      → configured e m select (some json) snapshot batch_size cs row_group_filtering row_selection
        ≡ ok b
      → b.row_selection ≡ true
      → read_schema m snapshot ≡ ok schema
      → json_parse json ≡ ok node
      → Mentions c node
      → reference e c schema cs ≡ ok (r, ty)
      → is_decimal ty ≡ false
  configured-row_selection m select json snapshot batch_size cs rg rs b schema node c r ty h on hs
        hp hm hr =
      let (at, built, ha, hb, _, _, _, row, _) =
        configured-filter e m select json snapshot batch_size cs rg rs b h in
      let same : at ≡ schema = cc in
      let hb1 : build_predicate e json schema cs ≡ ok built = rw same at hb in
      let flag = build_predicate-decimal json schema cs built node hb1 hp in
      let off : built.has_decimal ≡ false = ground arith in
      let none = any-All _ (referenced_columns node []) (sym flag ∙ off) in
      let q =
        Mentions-All (λ c. resolves_to_decimal e (reference e c schema cs) ≡ false) c node [] none
          hm in
      rw hr at q
