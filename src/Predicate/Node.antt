-- ===== src/Predicate/Node.antt =====
-- The filter expression that R sends, as serde reads it: `Node` of src/rust/src/predicate.rs. `J` is
-- the type of a JSON value.
use icebergr.Prelude.{List, [], ◌∷◌, ◌++◌, All}
use icebergr.Prelude.Text.{Text}

mutual
  pub data Node (J : Type 0) : Type 0 where
    and or : Nodes J → Node J
    not : Node J → Node J
    always_true always_false : Node J
    eq ne lt lte gt gte : Text → J → Node J
    starts_with not_starts_with : Text → J → Node J
    is_null is_not_null is_nan is_not_nan : Text → Node J
    in_set not_in : Text → List J → Node J

  pub data Nodes (J : Type 0) : Type 0 where
    nil : Nodes J
    cons : Node J → Nodes J → Nodes J

-- `referenced_columns`, which pushes onto `out`.
unfoldable mutual
  pub referenced_columns : {J : Type 0} → Node J → List Text → List Text
  referenced_columns (Node.and args) out = referenced_columns_all args out
  referenced_columns (Node.or args) out = referenced_columns_all args out
  referenced_columns (Node.not arg) out = referenced_columns arg out
  referenced_columns Node.always_true out = out
  referenced_columns Node.always_false out = out
  referenced_columns (Node.eq col v) out = out ++ col ∷ []
  referenced_columns (Node.ne col v) out = out ++ col ∷ []
  referenced_columns (Node.lt col v) out = out ++ col ∷ []
  referenced_columns (Node.lte col v) out = out ++ col ∷ []
  referenced_columns (Node.gt col v) out = out ++ col ∷ []
  referenced_columns (Node.gte col v) out = out ++ col ∷ []
  referenced_columns (Node.starts_with col v) out = out ++ col ∷ []
  referenced_columns (Node.not_starts_with col v) out = out ++ col ∷ []
  referenced_columns (Node.is_null col) out = out ++ col ∷ []
  referenced_columns (Node.is_not_null col) out = out ++ col ∷ []
  referenced_columns (Node.is_nan col) out = out ++ col ∷ []
  referenced_columns (Node.is_not_nan col) out = out ++ col ∷ []
  referenced_columns (Node.in_set col vs) out = out ++ col ∷ []
  referenced_columns (Node.not_in col vs) out = out ++ col ∷ []

  pub referenced_columns_all : {J : Type 0} → Nodes J → List Text → List Text
  referenced_columns_all Nodes.nil out = out
  referenced_columns_all (Nodes.cons n ns) out =
      referenced_columns_all ns (referenced_columns n out)

-- what holds of every literal that a column is compared with, at any depth
module _ {J : Type 0} (P : Text → J → Type 0) where
  unfoldable mutual
    pub AllTests : Node J → Type 0
    AllTests (Node.and args) = AllTestsOf args
    AllTests (Node.or args) = AllTestsOf args
    AllTests (Node.not arg) = AllTests arg
    AllTests Node.always_true = Unit
    AllTests Node.always_false = Unit
    AllTests (Node.eq col j) = P col j
    AllTests (Node.ne col j) = P col j
    AllTests (Node.lt col j) = P col j
    AllTests (Node.lte col j) = P col j
    AllTests (Node.gt col j) = P col j
    AllTests (Node.gte col j) = P col j
    AllTests (Node.starts_with col j) = Unit
    AllTests (Node.not_starts_with col j) = Unit
    AllTests (Node.is_null col) = Unit
    AllTests (Node.is_not_null col) = Unit
    AllTests (Node.is_nan col) = Unit
    AllTests (Node.is_not_nan col) = Unit
    AllTests (Node.in_set col js) = All (P col) js
    AllTests (Node.not_in col js) = All (P col) js

    pub AllTestsOf : Nodes J → Type 0
    AllTestsOf Nodes.nil = Unit
    AllTestsOf (Nodes.cons n ns) = AllTests n × AllTestsOf ns
