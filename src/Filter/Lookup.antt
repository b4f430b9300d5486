-- ===== src/Filter/Lookup.antt =====
-- R expressions, and the columns that they name: `column_index` of R/utils.R, `expression_vars` and
-- `value_columns` of R/filter.R.
use icebergr.Prelude.{
  ℕ, suc, List, [], ◌∷◌, ◌++◌, map, Bool, true, false, ◌||◌, Option, none, some, if◌then◌else◌, any,
  keep, is_empty, Result, ok, err,
}
use icebergr.Prelude.Text.{Text, codes, text_eq}

-- A language object. The arguments of a call carry their names, empty for none.
mutual
  pub data Expr (V : Type 0) : Type 0 where
    symbol : Text → Expr V
    constant : V → Expr V
    call : Expr V → Args V → Expr V

  pub data Args (V : Type 0) : Type 0 where
    nil : Args V
    cons : Text → Expr V → Args V → Args V

abbrev pub args_length : {V : Type 0} → Args V → ℕ
args_length Args.nil = 0
args_length (Args.cons l e args) = suc (args_length args)

-- What R itself does: vectors and the tests that are made of them, `deparse1`, `tolower`, and
-- evaluation in the caller's environment.
pub record Language : Type 1 where
  pub V : Type 0
  -- the value, if it is a logical of length 1 that is not NA
  pub as_flag : V → Option Bool
  pub length_of : V → ℕ
  pub is_character : V → Bool
  pub any_na : V → Bool
  -- a double without a class that holds a NaN
  pub any_bare_nan : V → Bool
  pub as_list : V → List V
  pub deparse1 : Expr V → Text
  pub eval : Expr V → Result Text V
  pub tolower : Text → Text

abbrev pub is_in : Text → List Text → Bool
is_in s l = any (text_eq s) l

-- `unique`: the first of each
abbrev pub unique_from : List Text → List Text → List Text
unique_from seen [] = []
unique_from seen (s ∷ l) =
    let fresh = unique_from (s ∷ seen) l in
    let rest = unique_from seen l in if is_in s seen then rest else s ∷ fresh

abbrev is_call : {V : Type 0} → Expr V → Bool
is_call (Expr.call f args) = true
is_call _ = false

-- `$` and `@`, whose second operand is a name and not a variable
abbrev selects : {V : Type 0} → Expr V → Bool
selects (Expr.symbol s) = text_eq s (codes "$") || text_eq s (codes "@")
selects _ = false

-- the variables of the first argument, and of all
abbrev first_vars : List (List Text) → List Text
first_vars [] = []
first_vars (v ∷ _) = v

abbrev flatten : List (List Text) → List Text
flatten [] = []
flatten (v ∷ vs) = v ++ flatten vs

unfoldable mutual
  pub expression_vars : {V : Type 0} → Expr V → List Text
  expression_vars (Expr.symbol s) = if is_empty s then [] else s ∷ []
  expression_vars (Expr.constant v) = []
  expression_vars (Expr.call f args) =
      let from_fn = expression_vars f in
      let vars = args_vars args in
      unique_from [] (
        (if is_call f then from_fn else [])
        ++ (if selects f then first_vars vars else flatten vars))

  args_vars : {V : Type 0} → Args V → List (List Text)
  args_vars Args.nil = []
  args_vars (Args.cons l a args) = expression_vars a ∷ args_vars args

module _ (L : Language) where
  open L use {V, tolower}

  -- `columns[[column_index(...)]]`, as a name: an exact match, else the only one when case is ignored.
  -- Several candidates are an error that lists them.
  unfoldable pub column_index : Text → List Text → Bool → Result (List Text) (Option Text)
  column_index name columns cs =
      if is_in name columns
      then ok (some name)
      else if cs
      then ok none
      else elim (keep (λ c. text_eq (tolower c) (tolower name)) columns) [
        | [] ↦ ok none
        | c ∷ more ↦ if is_empty more then ok (some c) else err (c ∷ more)
      ]

  unfoldable pub value_columns : Expr V → List Text → Bool → List Text
  unfolding expression_vars
  value_columns e columns cs =
      keep (λ v. if cs then is_in v columns else is_in (tolower v) (map tolower columns))
        (expression_vars e)
