-- ===== src/Filter/Columns.antt =====
-- The columns that a translated filter names are columns of the table.
use icebergr.Prelude.{
  List, [], ◌∷◌, ◌++◌, Bool, true, false, some, ◌≡◌, sym, inl, inr, arith, if◌then◌else◌,
  Bool-cases, Option-cases, List-cases, keep, ok, >>=-eq-ok, All, All-append,
}
use icebergr.Prelude.Text.{Text, text_eq, text_eq_refl}
use icebergr.Predicate.Node.{Node, referenced_columns}
use icebergr.Predicate.Cmp.{Cmp}
use icebergr.Filter.{
  Expr, Args, Language, is_in, column_ref, comparison, pair_of, translate_filter, translate_all,
}
use icebergr.Filter.Lookup.{column_index}
use icebergr.Filter.Inversion.{
  Names, starts_with_node-ok, in_node-ok, IsSides, column_left, column_right, comparison_node-ok,
}
use icebergr.Filter.Branches.{
  IsUnary, unary-ok, IsNegation, negation-ok, IsBinary, binary-ok, translate_call-ok,
  translate_call-none, translate_call-more,
}

-- what a test keeps of a list is in it
keep-is_in :
    (p : Text → Bool) (l : List Text) (c : Text) (rest : List Text)
    → keep p l ≡ c ∷ rest
    → is_in c l ≡ true
keep-is_in p [] c rest h = cc
keep-is_in p (d ∷ l) c rest h = elim (Bool-cases (p d)) [
  | inl e ↦
      let first : d ∷ keep p l ≡ c ∷ rest = ground arith in
      let same : d ≡ c = cc in rw same (ground (arith, text_eq_refl c))
  | inr e ↦ let ih = keep-is_in p l c rest (ground arith) in ground arith
]

module _ (L : Language) (columns : List Text) (cs : Bool) where
  open L use {V, deparse1, tolower, as_list}

  abbrev pub IsColumn : Text → Type 0
  IsColumn c = is_in c columns ≡ true

  column_index-IsColumn :
      (name col : Text) → column_index L name columns cs ≡ ok (some col) → IsColumn col
  unfolding column_index
  column_index-IsColumn name col h = elim (Bool-cases (is_in name columns)) [
    | inl e ↦ let same : name ≡ col = ground arith in rw (← same) e
    | inr e ↦ elim (Bool-cases cs) [
      | inl k ↦ absurd (ground arith)
      | inr k ↦ elim (List-cases (keep (λ c. text_eq (tolower c) (tolower name)) columns)) [
        | inl m ↦ absurd (ground arith)
        | inr (c, more, m) ↦
            let same : c ≡ col = ground arith in
            rw (← same) (keep-is_in (λ c. text_eq (tolower c) (tolower name)) columns c more m)
      ]
    ]
  ]

  Names-IsColumn : (e : Expr V) (col : Text) → Names L columns cs e col → IsColumn col
  unfolding column_ref
  Names-IsColumn (Expr.symbol s) col h = column_index-IsColumn s col (ground arith)
  Names-IsColumn (Expr.constant v) col h = absurd cc
  Names-IsColumn (Expr.call f args) col h = absurd cc

  -- whatever a node adds to a list of columns is a column
  abbrev AddsColumns : Node V → Type 0
  AddsColumns n = (out : List Text) → All IsColumn out → All IsColumn (referenced_columns n out)

  snoc :
      (out : List Text) (col : Text)
      → IsColumn col
      → All IsColumn out
      → All IsColumn (out ++ col ∷ [])
  snoc out col h ho = All-append IsColumn out (col ∷ []) ho (h, tt)

  comparison-AddsColumns :
      (op : Cmp) (col : Text) (v : V) → IsColumn col → AddsColumns (comparison op col v)
  unfolding referenced_columns
  comparison-AddsColumns Cmp.eq col v h out ho = snoc out col h ho
  comparison-AddsColumns Cmp.ne col v h out ho = snoc out col h ho
  comparison-AddsColumns Cmp.lt col v h out ho = snoc out col h ho
  comparison-AddsColumns Cmp.lte col v h out ho = snoc out col h ho
  comparison-AddsColumns Cmp.gt col v h out ho = snoc out col h ho
  comparison-AddsColumns Cmp.gte col v h out ho = snoc out col h ho

  abbrev IsSound : Expr V → Type 0
  IsSound e = (n : Node V) → translate_filter L columns cs e ≡ ok n → AddsColumns n

  sides-IsColumn :
      (op op1 : Cmp) (a b : Expr V) (col : Text) (v : V)
      → IsSides L columns cs op a b op1 col v
      → IsColumn col
  sides-IsColumn op _ a b col v (column_left hn hv) = Names-IsColumn a col hn
  sides-IsColumn op _ a b col v (column_right hn hv) = Names-IsColumn b col hn

  same-AddsColumns : (m n : Node V) → n ≡ m → AddsColumns m → AddsColumns n
  same-AddsColumns m n e h = rw e h

  negation-AddsColumns :
      (a : Expr V) (n : Node V)
      → IsSound a
      → IsNegation L columns cs (translate_filter L columns cs a) a n
      → AddsColumns n
  unfolding referenced_columns
  negation-AddsColumns a _ ih (IsNegation.plain m hm) out ho = ih m hm out ho
  negation-AddsColumns _ _ ih (IsNegation.not_na {f = f} {x = x} {l = l} {col = col} e hn) out ho =
      snoc out col (Names-IsColumn x col hn) ho
  negation-AddsColumns _ _ ih (IsNegation.not_nan {f = f} {x = x} {l = l} {col = col} e hn) out ho =
      snoc out col (Names-IsColumn x col hn) ho

  unary-AddsColumns :
      (fn : Text) (a : Expr V) (n : Node V)
      → IsSound a
      → IsUnary L columns cs a (translate_filter L columns cs a) n fn
      → AddsColumns n
  unfolding referenced_columns
  unary-AddsColumns fn a n ih (IsUnary.parens h) = ih n h
  unary-AddsColumns fn a n ih (IsUnary.negated h) =
      negation-AddsColumns a n ih (negation-ok L columns cs a _ n h)
  unary-AddsColumns fn a n ih (IsUnary.na_test col hn e) =
      same-AddsColumns (Node.is_null col) n e (λ out ho. snoc out col (Names-IsColumn a col hn) ho)
  unary-AddsColumns fn a n ih (IsUnary.nan_test col hn e) =
      same-AddsColumns (Node.is_nan col) n e (λ out ho. snoc out col (Names-IsColumn a col hn) ho)

  binary-AddsColumns :
      (fn : Text) (whole a b : Expr V) (n : Node V)
      → IsSound a
      → IsSound b
      → IsBinary L columns cs whole a b
          (translate_filter L columns cs a)
          (translate_filter L columns cs b)
          n
          fn
      → AddsColumns n
  unfolding referenced_columns
  binary-AddsColumns fn whole a b n iha ihb (IsBinary.both x y names hx hy e) =
      same-AddsColumns (Node.and (pair_of x y)) n e
        (λ out ho. ihb y hy (referenced_columns x out) (iha x hx out ho))
  binary-AddsColumns fn whole a b n iha ihb (IsBinary.either x y names hx hy e) =
      same-AddsColumns (Node.or (pair_of x y)) n e
        (λ out ho. ihb y hy (referenced_columns x out) (iha x hx out ho))
  binary-AddsColumns fn whole a b n iha ihb (IsBinary.prefix_test name h) =
      let (col, v, hc, hv, hs, hl, e) = starts_with_node-ok L columns cs whole a b n h in
      same-AddsColumns (Node.starts_with col v) n e
        (λ out ho. snoc out col (Names-IsColumn a col hc) ho)
  binary-AddsColumns fn whole a b n iha ihb (IsBinary.set_test name h) =
      let (col, v, hc, hv, hs, e) = in_node-ok L columns cs whole a b n h in
      same-AddsColumns (Node.in_set col (as_list v)) n e
        (λ out ho. snoc out col (Names-IsColumn a col hc) ho)
  binary-AddsColumns fn whole a b n iha ihb (IsBinary.compared op ho h) =
      let (op1, col, v, hs, hl, e) = comparison_node-ok L columns cs op whole a b n h in
      same-AddsColumns (comparison op1 col v) n e
        (comparison-AddsColumns op1 col v (sides-IsColumn op op1 a b col v hs))

  flag-AddsColumns :
      (b : Bool) (n : Node V)
      → (if b then Node.always_true else Node.always_false) ≡ n
      → AddsColumns n
  unfolding referenced_columns
  flag-AddsColumns true n e = same-AddsColumns Node.always_true n (sym e) (λ out ho. ho)
  flag-AddsColumns false n e = same-AddsColumns Node.always_false n (sym e) (λ out ho. ho)

  translate-AddsColumns : (e : Expr V) → IsSound e
  unfolding translate_filter referenced_columns
  translate-AddsColumns (Expr.constant v) n h = elim (Option-cases (L.as_flag v)) [
    | inl missing ↦ absurd (ground arith)
    | inr (b, eb) ↦
        let flag : (if b then Node.always_true else Node.always_false) ≡ n = ground arith in
        flag-AddsColumns b n flag
  ]
  translate-AddsColumns (Expr.symbol s) n h =
      let (found, hf, h1) = >>=-eq-ok (column_ref L columns cs (Expr.symbol s)) _ h in
      elim (Option-cases found) [
        | inl e ↦ absurd (ground arith)
        | inr (c, e) ↦ absurd (ground arith)
      ]
  translate-AddsColumns (Expr.call f Args.nil) n h =
      absurd (translate_call-none L columns cs (deparse1 f) (Expr.call f Args.nil) n h)
  translate-AddsColumns (Expr.call f (Args.cons l a Args.nil)) n h =
      let args = Args.cons l a Args.nil in
      let made = translate_filter L columns cs a in
      let accepted =
        translate_call-ok L columns cs (deparse1 f) (Expr.call f args) args (made ∷ []) n h in
      unary-AddsColumns (deparse1 f) a n (translate-AddsColumns a)
        (unary-ok L columns cs (deparse1 f) a made n accepted)
  translate-AddsColumns (Expr.call f (Args.cons l a (Args.cons m b Args.nil))) n h =
      let args = Args.cons l a (Args.cons m b Args.nil) in
      let left = translate_filter L columns cs a in
      let right = translate_filter L columns cs b in
      let accepted =
        translate_call-ok L columns cs (deparse1 f) (Expr.call f args) args (left ∷ right ∷ []) n
          h in
      binary-AddsColumns (deparse1 f) (Expr.call f args) a b n (translate-AddsColumns a)
        (translate-AddsColumns b)
        (binary-ok L columns cs (deparse1 f) (Expr.call f args) a b left right n accepted)
  translate-AddsColumns (Expr.call f (Args.cons l a (Args.cons m b (Args.cons i c args)))) n h =
      absurd (
        translate_call-more L columns cs (deparse1 f)
          (Expr.call f (Args.cons l a (Args.cons m b (Args.cons i c args)))) a b c l m i args
          (translate_filter L columns cs a) (translate_filter L columns cs b)
          (translate_filter L columns cs c) (translate_all L columns cs args) n h)

-- Every column that the translation of an expression names, as `referenced_columns` lists them for the
-- scan's projection check, is a column of the table, spelled as the table spells it, whether or not
-- the lookup ignores case.
pub translate_filter-IsColumn :
    (L : Language) (columns : List Text) (cs : Bool) (e : Expr L.V) (n : Node L.V)
    → translate_filter L columns cs e ≡ ok n
    → All (λ c. is_in c columns ≡ true) (referenced_columns n [])
translate_filter-IsColumn L columns cs e n h = translate-AddsColumns L columns cs e n h [] tt
