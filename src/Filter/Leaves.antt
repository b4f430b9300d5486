-- ===== src/Filter/Leaves.antt =====
-- The meaning of each kind of call, from the node that it becomes.
use icebergr.Prelude.{ℕ, List, Bool, some, ◌≡◌, refl, ok, ◌>>=◌, >>=-eq-ok}
use icebergr.Prelude.Text.{Text, codes}
use icebergr.Iceberg.{Schema}
use icebergr.Predicate.Node.{Node}
use icebergr.Predicate.Engine.{Engine}
use icebergr.Predicate.Message.{RResult}
use icebergr.Predicate.Build.{reference}
use icebergr.Predicate.Meaning.{
  Logical, Rows, r_not, r_missing, r_is_nan, r_value, r_missing_node, r_nan_node,
}
use icebergr.Filter.{Expr, Args, Language, arity, translate_filter}
use icebergr.Filter.Inversion.{Names}
use icebergr.Filter.Branches.{IsUnary, IsNegation, negation-ok}
use icebergr.Filter.Meaning.{map_node, Denotes}

-- Only a symbol prints as the name of a supported function.
abbrev pub PrintsNames : Language → Type 0
PrintsNames L =
    (f : Expr L.V) (k : ℕ) → arity (L.deparse1 f) ≡ some k → f ≡ Expr.symbol (L.deparse1 f)

module _ (L : Language) (columns : List Text) (cs : Bool) (E : Engine) (S : Rows E)
    (schema : Schema) (json_of : L.V → E.Json) (row : S.Row) (prints : PrintsNames L) where
  open L use {V, deparse1, as_list}
  open S use {Row, cell}

  abbrev pub Means : Expr V → Logical → Type 0
  Means = Denotes L columns cs E S schema json_of row

  abbrev pub Value : Node V → RResult Logical
  Value n = r_value E S (map_node json_of n) schema cs row

  -- a part of the expression that has been translated means what its node does
  abbrev pub IsSound : Expr V → Type 0
  IsSound a =
      (m : Node V) (y : Logical)
      → translate_filter L columns cs a ≡ ok m
      → Value m ≡ ok y
      → Means a y

  pub Means-same : (e : Expr V) (x y : Logical) → x ≡ y → Means e x → Means e y
  Means-same e x y h m = rw (← h) m

  pub head_symbol :
      (f : Expr V) (fn : Text) (k : ℕ) → deparse1 f ≡ fn → arity fn ≡ some k → f ≡ Expr.symbol fn
  head_symbol f fn k e h = rw (← e) (prints f k (rw e h))

  na_test-Means :
      (f a : Expr V) (l col : Text) (y : Logical)
      → deparse1 f ≡ codes "is.na"
      → Names L columns cs a col
      → r_missing_node E S col schema cs row ≡ ok y
      → Means (Expr.call f (Args.cons l a Args.nil)) y
  unfolding arity
  na_test-Means f a l col y e hn h =
      let ((r, ty), hr, h1) = >>=-eq-ok (reference E col schema cs) _ h in
      let same : r_missing E S (cell row r) ≡ y = cc in
      Means-same _ _ y same (Denotes.na_test (head_symbol f (codes "is.na") 2 e refl) (hn, hr))

  nan_test-Means :
      (f a : Expr V) (l col : Text) (y : Logical)
      → deparse1 f ≡ codes "is.nan"
      → Names L columns cs a col
      → r_nan_node E S col schema cs row ≡ ok y
      → Means (Expr.call f (Args.cons l a Args.nil)) y
  unfolding arity
  nan_test-Means f a l col y e hn h =
      let ((r, ty), hr, h1) = >>=-eq-ok (reference E col schema cs) _ h in
      let same : r_is_nan E S (cell row r) ≡ y = cc in
      Means-same _ _ y same (Denotes.nan_test (head_symbol f (codes "is.nan") 2 e refl) (hn, hr))

  -- the value of a negated node
  negated-ok :
      (m : RResult Logical) (y : Logical)
      → (m >>= λ x. ok (r_not x)) ≡ ok y
      → (x : Logical) × (m ≡ ok x) × (r_not x ≡ y)
  negated-ok m y h = let (x, hx, h1) = >>=-eq-ok m (λ x. ok (r_not x)) h in (x, hx, cc)

  negation-Means :
      (f a : Expr V) (l : Text) (n : Node V) (y : Logical)
      → deparse1 f ≡ codes "!"
      → IsSound a
      → IsNegation L columns cs (translate_filter L columns cs a) a n
      → Value n ≡ ok y
      → Means (Expr.call f (Args.cons l a Args.nil)) y
  unfolding arity r_value map_node
  negation-Means f a l n y e ih (IsNegation.plain m hm) h =
      let (x, hx, same) = negated-ok (Value m) y h in
      Means-same _ (r_not x) y same
        (Denotes.negation (head_symbol f (codes "!") 2 e refl) (ih m x hm hx))
  negation-Means f _ l _ y e ih (IsNegation.not_na {f = g} {x = x} {l = k} {col = col} eg hn) h =
      let (z, hz, same) = negated-ok (r_missing_node E S col schema cs row) y h in
      Means-same _ (r_not z) y same
        (Denotes.negation (head_symbol f (codes "!") 2 e refl) (na_test-Means g x k col z eg hn hz))
  negation-Means f _ l _ y e ih (IsNegation.not_nan {f = g} {x = x} {l = k} {col = col} eg hn) h =
      let (z, hz, same) = negated-ok (r_nan_node E S col schema cs row) y h in
      Means-same _ (r_not z) y same (
        Denotes.negation (head_symbol f (codes "!") 2 e refl) (nan_test-Means g x k col z eg hn hz))

  pub unary-Means :
      (f a : Expr V) (l : Text) (n : Node V) (y : Logical) (fn : Text)
      → deparse1 f ≡ fn
      → IsSound a
      → IsUnary L columns cs a (translate_filter L columns cs a) n fn
      → Value n ≡ ok y
      → Means (Expr.call f (Args.cons l a Args.nil)) y
  unfolding arity r_value map_node
  unary-Means f a l n y fn e ih (IsUnary.parens hm) h =
      Denotes.parens (head_symbol f (codes "(") 2 e refl) (ih n y hm h)
  unary-Means f a l n y fn e ih (IsUnary.negated hm) h =
      negation-Means f a l n y e ih (negation-ok L columns cs a _ n hm) h
  unary-Means f a l n y fn e ih (IsUnary.na_test col hn en) h =
      let h1 : Value (Node.is_null col) ≡ ok y = rw en at h in na_test-Means f a l col y e hn h1
  unary-Means f a l n y fn e ih (IsUnary.nan_test col hn en) h =
      let h1 : Value (Node.is_nan col) ≡ ok y = rw en at h in nan_test-Means f a l col y e hn h1
