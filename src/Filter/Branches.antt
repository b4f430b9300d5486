-- ===== src/Filter/Branches.antt =====
-- What each branch of `translate_filter` accepts.
use icebergr.Prelude.{
  List, [], ◌∷◌, Bool, true, ◌||◌, Option, none, some, ◌≡◌, ◌⊎◌, inl, inr, arith, Bool-cases,
  Option-cases, ok, err, ◌>>=◌, >>=-eq-ok,
}
use icebergr.Prelude.Text.{Text, codes, text_eq, text_eq→eq}
use icebergr.Predicate.Node.{Node, Nodes}
use icebergr.Predicate.Cmp.{Cmp}
use icebergr.Filter.{
  Expr, Args, args_length, Language, Translated, FilterError, column_ref, negation,
  starts_with_node, in_node, comparison_node, comparison_op, pair_of, unary, binary, required,
  translate_call, miscounts, arity, branch, negated_test,
}
use icebergr.Filter.Inversion.{Names}

module _ (L : Language) (columns : List Text) (cs : Bool) where
  open L use {V, deparse1}

  -- What a call with one argument can be.
  pub data IsUnary (a : Expr V) (inner : Translated (Node V)) (n : Node V) : Text → Type 0 where
    parens : inner ≡ ok n → IsUnary a inner n (codes "(")
    negated : negation L columns cs a inner ≡ ok n → IsUnary a inner n (codes "!")
    na_test :
        (col : Text)
        → Names L columns cs a col
        → n ≡ Node.is_null col
        → IsUnary a inner n (codes "is.na")
    nan_test :
        (col : Text)
        → Names L columns cs a col
        → n ≡ Node.is_nan col
        → IsUnary a inner n (codes "is.nan")

  -- a test of a column
  tested :
      (a : Expr V) (what : Text) (make : Text → Node V) (n : Node V)
      → (column_ref L columns cs a >>= λ found.
          required L columns cs what found >>= λ col. ok (make col))
        ≡ ok n
      → (col : Text) × Names L columns cs a col × (n ≡ make col)
  tested a what make n h =
      let (found, hf, h1) = >>=-eq-ok (column_ref L columns cs a) _ h in
      elim (Option-cases found) [
        | inl e ↦ absurd (ground arith)
        | inr (col, e) ↦ (col, cc, ground arith)
      ]

  pub unary-ok :
      (fn : Text) (a : Expr V) (inner : Translated (Node V)) (n : Node V)
      → unary L columns cs fn a inner ≡ ok n
      → IsUnary a inner n fn
  unfolding unary
  unary-ok fn a inner n h = elim (Bool-cases (text_eq fn (codes "("))) [
    | inl e ↦ rw (text_eq→eq fn (codes "(") e) (parens (ground arith))
    | inr e ↦ elim (Bool-cases (text_eq fn (codes "!"))) [
      | inl k ↦ rw (text_eq→eq fn (codes "!") k) (negated (ground arith))
      | inr k ↦ elim (Bool-cases (text_eq fn (codes "is.na"))) [
        | inl l ↦
            let (col, hn, e1) = tested a fn (λ c. Node.is_null c) n (ground arith) in
            rw (text_eq→eq fn (codes "is.na") l) (na_test col hn e1)
        | inr l ↦ elim (Bool-cases (text_eq fn (codes "is.nan"))) [
          | inl m ↦
              let (col, hn, e1) = tested a fn (λ c. Node.is_nan c) n (ground arith) in
              rw (text_eq→eq fn (codes "is.nan") m) (nan_test col hn e1)
          | inr m ↦ absurd (ground arith)
        ]
      ]
    ]
  ]

  -- What `!` of an expression becomes.
  pub data IsNegation (inner : Translated (Node V)) : Expr V → Node V → Type 0 where
    plain : {a : Expr V} (m : Node V) → inner ≡ ok m → IsNegation inner a (Node.not m)
    not_na :
        {f x : Expr V} {l col : Text}
        → deparse1 f ≡ codes "is.na"
        → Names L columns cs x col
        → IsNegation inner (Expr.call f (Args.cons l x Args.nil)) (Node.is_not_null col)
    not_nan :
        {f x : Expr V} {l col : Text}
        → deparse1 f ≡ codes "is.nan"
        → Names L columns cs x col
        → IsNegation inner (Expr.call f (Args.cons l x Args.nil)) (Node.is_not_nan col)

  plain-ok :
      (a : Expr V) (inner : Translated (Node V)) (n : Node V)
      → (inner >>= λ m. ok (Node.not m)) ≡ ok n
      → IsNegation inner a n
  plain-ok a inner n h =
      let (m, hm, h1) = >>=-eq-ok inner _ h in
      let same : Node.not m ≡ n = cc in rw (← same) (plain m hm)

  negated_test-ok :
      (f x : Expr V) (l : Text) (found : Option Text) (inner : Translated (Node V)) (n : Node V)
      → column_ref L columns cs x ≡ ok found
      → negated_test L columns cs (deparse1 f) found inner ≡ ok n
      → IsNegation inner (Expr.call f (Args.cons l x Args.nil)) n
  negated_test-ok f x l none inner n e h = plain-ok _ inner n h
  negated_test-ok f x l (some col) inner n e h =
      elim (Bool-cases (text_eq (deparse1 f) (codes "is.na"))) [
        | inl k ↦
            let same : Node.is_not_null col ≡ n = ground arith in
            rw (← same) (not_na (text_eq→eq _ _ k) e)
        | inr k ↦ elim (Bool-cases (text_eq (deparse1 f) (codes "is.nan"))) [
          | inl m ↦
              let same : Node.is_not_nan col ≡ n = ground arith in
              rw (← same) (not_nan (text_eq→eq _ _ m) e)
          | inr m ↦ plain-ok _ inner n (ground arith)
        ]
      ]

  pub negation-ok :
      (a : Expr V) (inner : Translated (Node V)) (n : Node V)
      → negation L columns cs a inner ≡ ok n
      → IsNegation inner a n
  unfolding negation
  negation-ok (Expr.symbol s) inner n h = plain-ok _ inner n h
  negation-ok (Expr.constant v) inner n h = plain-ok _ inner n h
  negation-ok (Expr.call f Args.nil) inner n h = plain-ok _ inner n h
  negation-ok (Expr.call f (Args.cons l x Args.nil)) inner n h =
      let (found, hf, h1) = >>=-eq-ok (column_ref L columns cs x) _ h in
      negated_test-ok f x l found inner n hf h1
  negation-ok (Expr.call f (Args.cons l x (Args.cons m y args))) inner n h = plain-ok _ inner n h

  -- What a call with two arguments can be.
  pub data IsBinary (whole a b : Expr V) (left right : Translated (Node V)) (n : Node V) (fn : Text)
      : Type 0 where
    both :
        (x y : Node V)
        → (fn ≡ codes "&") ⊎ (fn ≡ codes "&&")
        → left ≡ ok x
        → right ≡ ok y
        → n ≡ Node.and (pair_of x y)
        → IsBinary whole a b left right n fn
    either :
        (x y : Node V)
        → (fn ≡ codes "|") ⊎ (fn ≡ codes "||")
        → left ≡ ok x
        → right ≡ ok y
        → n ≡ Node.or (pair_of x y)
        → IsBinary whole a b left right n fn
    prefix_test :
        fn ≡ codes "startsWith"
        → starts_with_node L columns cs whole a b ≡ ok n
        → IsBinary whole a b left right n fn
    set_test :
        fn ≡ codes "%in%"
        → in_node L columns cs whole a b ≡ ok n
        → IsBinary whole a b left right n fn
    compared :
        (op : Cmp)
        → comparison_op fn ≡ some op
        → comparison_node L columns cs op whole a b ≡ ok n
        → IsBinary whole a b left right n fn

  either_name : (fn s t : Text) → (text_eq fn s || text_eq fn t) ≡ true → (fn ≡ s) ⊎ (fn ≡ t)
  either_name fn s t h = elim (Bool-cases (text_eq fn s)) [
    | inl e ↦ inl (text_eq→eq fn s e)
    | inr e ↦ inr (text_eq→eq fn t (ground arith))
  ]

  pairs-ok :
      (left right : Translated (Node V)) (make : Nodes V → Node V) (n : Node V)
      → (left >>= λ x. right >>= λ y. ok (make (pair_of x y))) ≡ ok n
      → (x : Node V) × (y : Node V) × (left ≡ ok x) × (right ≡ ok y) × (n ≡ make (pair_of x y))
  pairs-ok left right make n h =
      let (x, hx, h1) = >>=-eq-ok left _ h in
      let (y, hy, h2) = >>=-eq-ok right _ h1 in (x, y, hx, hy, cc)

  pub binary-ok :
      (fn : Text) (whole a b : Expr V) (left right : Translated (Node V)) (n : Node V)
      → binary L columns cs fn whole a b left right ≡ ok n
      → IsBinary whole a b left right n fn
  unfolding binary
  binary-ok fn whole a b left right n h =
      elim (Bool-cases (text_eq fn (codes "&") || text_eq fn (codes "&&"))) [
        | inl e ↦
            let (x, y, hx, hy, hn) = pairs-ok left right (λ ns. Node.and ns) n (ground arith) in
            both x y (either_name fn _ _ e) hx hy hn
        | inr e ↦ elim (Bool-cases (text_eq fn (codes "|") || text_eq fn (codes "||"))) [
          | inl k ↦
              let (x, y, hx, hy, hn) = pairs-ok left right (λ ns. Node.or ns) n (ground arith) in
              either x y (either_name fn _ _ k) hx hy hn
          | inr k ↦ elim (Bool-cases (text_eq fn (codes "startsWith"))) [
            | inl l ↦ prefix_test (text_eq→eq _ _ l) (ground arith)
            | inr l ↦ elim (Bool-cases (text_eq fn (codes "%in%"))) [
              | inl m ↦ set_test (text_eq→eq _ _ m) (ground arith)
              | inr m ↦ elim (Option-cases (comparison_op fn)) [
                | inl o ↦ absurd (ground arith)
                | inr (op, o) ↦ compared op o (ground arith)
              ]
            ]
          ]
        ]
      ]

  -- an accepted call has a supported function, and what its branch gives
  pub translate_call-ok :
      (fn : Text) (whole : Expr V) (args : Args V) (results : List (Translated (Node V)))
      (n : Node V)
      → translate_call L columns cs fn whole args results ≡ ok n
      → branch L columns cs fn whole args results ≡ ok n
  unfolding translate_call
  translate_call-ok fn whole args results n h =
      elim (Bool-cases (miscounts L columns cs (arity fn) (args_length args))) [
        | inl e ↦ absurd (ground arith)
        | inr e ↦ ground arith
      ]

  refused : (e : FilterError) (n : Node V) → ◌≡◌ {A = Translated (Node V)} (err e) (ok n) → ⊥
  refused e n h = absurd cc

  -- a call with no arguments, or with more than two, is not accepted
  pub translate_call-none :
      (fn : Text) (whole : Expr V) (n : Node V)
      → translate_call L columns cs fn whole Args.nil [] ≡ ok n
      → ⊥
  translate_call-none fn whole n h = refused _ n (translate_call-ok fn whole Args.nil [] n h)

  pub translate_call-more :
      (fn : Text) (whole a b c : Expr V) (k l m : Text) (args : Args V)
      (x y z : Translated (Node V)) (rest : List (Translated (Node V))) (n : Node V)
      → translate_call L columns cs fn whole
          (Args.cons k a (Args.cons l b (Args.cons m c args)))
          (x ∷ y ∷ z ∷ rest)
        ≡ ok n
      → ⊥
  translate_call-more fn whole a b c k l m args x y z rest n h =
      refused _ n (translate_call-ok fn whole _ _ n h)
