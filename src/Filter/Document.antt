-- ===== src/Filter/Document.antt =====
-- JSON documents, and the one that stands for a tree of nodes: `enum Node` of src/rust/src/predicate.rs
-- with its serde tags.
use icebergr.Prelude.{ℕ, ◌≤◌, List, [], ◌∷◌, ◌++◌, All, Bool, true, false}
use icebergr.Prelude.Text.{Text, codes}
use icebergr.Predicate.Node.{Node, Nodes}
use icebergr.Filter.Json.Written.{Writes}

-- A number stands as its text.
mutual
  pub data Json : Type 0 where
    string : Text → Json
    number : Text → Json
    flag : Bool → Json
    array : Items → Json
    object : Members → Json

  pub data Items : Type 0 where
    nil : Items
    cons : Json → Items → Items

  pub data Members : Type 0 where
    empty : Members
    member : Text → Json → Members → Members

abbrev pub IsDigit : ℕ → Type 0
IsDigit c = (b'0' ≤ c) × (c ≤ b'9')

pub data IsWhole : Text → Type 0 where
  zero : IsWhole (b'0' ∷ [])
  positive : {d : ℕ} {ds : Text} → b'1' ≤ d → d ≤ b'9' → All IsDigit ds → IsWhole (d ∷ ds)

pub data IsUnsigned : Text → Type 0 where
  integral : {s : Text} → IsWhole s → IsUnsigned s
  fractional :
      (s ds : Text) (d : ℕ) → IsWhole s → All IsDigit (d ∷ ds) → IsUnsigned (s ++ b'.' ∷ d ∷ ds)

-- the numbers of RFC 8259 without an exponent
pub data IsNumber : Text → Type 0 where
  plain : {s : Text} → IsUnsigned s → IsNumber s
  negative : {s : Text} → IsUnsigned s → IsNumber (b'-' ∷ s)

-- How RFC 8259 writes a document without spaces.
mutual
  pub data Encodes : Text → Json → Type 0 where
    string : {s t : Text} → Writes s t → Encodes (b'"' ∷ (s ++ b'"' ∷ [])) (Json.string t)
    number : {s : Text} → IsNumber s → Encodes s (Json.number s)
    yes : Encodes (codes "true") (Json.flag true)
    no : Encodes (codes "false") (Json.flag false)
    array :
        {s : Text} {js : Items}
        → EncodesItems s js
        → Encodes (b'[' ∷ (s ++ b']' ∷ [])) (Json.array js)
    object :
        {s : Text} {ms : Members}
        → EncodesMembers s ms
        → Encodes (b'{' ∷ (s ++ b'}' ∷ [])) (Json.object ms)

  pub data EncodesItems : Text → Items → Type 0 where
    none : EncodesItems [] Items.nil
    last : {s : Text} {j : Json} → Encodes s j → EncodesItems s (Items.cons j Items.nil)
    more :
        {s t : Text} {j k : Json} {js : Items}
        → Encodes s j
        → EncodesItems t (Items.cons k js)
        → EncodesItems (s ++ b',' ∷ t) (Items.cons j (Items.cons k js))

  pub data EncodesMembers : Text → Members → Type 0 where
    no_members : EncodesMembers [] Members.empty
    only :
        {k s name : Text} {j : Json}
        → Encodes k (Json.string name)
        → Encodes s j
        → EncodesMembers (k ++ b':' ∷ s) (Members.member name j Members.empty)
    several :
        {k s t name next : Text} {j i : Json} {ms : Members}
        → Encodes k (Json.string name)
        → Encodes s j
        → EncodesMembers t (Members.member next i ms)
        → EncodesMembers
            ((k ++ b':' ∷ s) ++ b',' ∷ t)
            (Members.member name j (Members.member next i ms))

abbrev pub items : List Json → Items
items [] = Items.nil
items (j ∷ js) = Items.cons j (items js)

abbrev pub tagged : Text → Members → Json
tagged op ms = Json.object (Members.member (codes "op") (Json.string op) ms)

abbrev pub of_column : Text → Text → Members → Json
of_column op col ms = tagged op (Members.member (codes "col") (Json.string col) ms)

abbrev pub with_value : Text → Text → Json → Json
with_value op col j = of_column op col (Members.member (codes "value") j Members.empty)

abbrev pub with_values : Text → Text → List Json → Json
with_values op col js =
    of_column op col (Members.member (codes "values") (Json.array (items js)) Members.empty)

abbrev pub with_args : Text → Items → Json
with_args op js = tagged op (Members.member (codes "args") (Json.array js) Members.empty)

-- the document that serde reads as the tree
unfoldable mutual
  pub document : Node Json → Json
  document (Node.and args) = with_args (codes "and") (documents args)
  document (Node.or args) = with_args (codes "or") (documents args)
  document (Node.not arg) =
      tagged (codes "not") (Members.member (codes "arg") (document arg) Members.empty)
  document Node.always_true = tagged (codes "always_true") Members.empty
  document Node.always_false = tagged (codes "always_false") Members.empty
  document (Node.eq col v) = with_value (codes "eq") col v
  document (Node.ne col v) = with_value (codes "ne") col v
  document (Node.lt col v) = with_value (codes "lt") col v
  document (Node.lte col v) = with_value (codes "lte") col v
  document (Node.gt col v) = with_value (codes "gt") col v
  document (Node.gte col v) = with_value (codes "gte") col v
  document (Node.starts_with col v) = with_value (codes "starts_with") col v
  document (Node.not_starts_with col v) = with_value (codes "not_starts_with") col v
  document (Node.is_null col) = of_column (codes "is_null") col Members.empty
  document (Node.is_not_null col) = of_column (codes "is_not_null") col Members.empty
  document (Node.is_nan col) = of_column (codes "is_nan") col Members.empty
  document (Node.is_not_nan col) = of_column (codes "is_not_nan") col Members.empty
  document (Node.in_set col vs) = with_values (codes "in") col vs
  document (Node.not_in col vs) = with_values (codes "not_in") col vs

  pub documents : Nodes Json → Items
  documents Nodes.nil = Items.nil
  documents (Nodes.cons n ns) = Items.cons (document n) (documents ns)
