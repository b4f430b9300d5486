-- ===== src/Filter/Sending/Scalars.antt =====
-- The values that `json_scalar` writes.
use icebergr.Prelude.{
  List, [], ◌∷◌, map, Bool, true, false, ◌&&◌, ◌||◌, ◌≡◌, refl, inl, inr, arith, if◌then◌else◌,
  Result, ok, err, >>=-eq-ok, traverse, All, All-append, Bool-cases,
}
use icebergr.Prelude.Text.{Text, codes}
use icebergr.Predicate.Node.{Node, Nodes}
use icebergr.Filter.Lookup.{Language}
use icebergr.Filter.Json.{json_string}
use icebergr.Filter.Document.{Json, Items, IsNumber, Encodes, EncodesItems, items}
use icebergr.Filter.Sending.{
  Vectors, ScalarError, collapse, iso_utc, is_unbounded, scalar_text, json_scalar,
}
use icebergr.Filter.Sending.Encoded.{NoNul, json_string-Encodes}

module _ (L : Language) (W : Vectors L.V) where
  open L use {V}
  open W use {
    is_bare_double, is_nan, is_na, is_date, is_posixt, is_integer64, is_factor, is_logical,
    is_character, is_numeric, is_integer, is_unclassed, is_true, as_character, format_date,
    format_fixed, format_digits, is_exact_integer, format_utc, print_micros,
  }

  -- The JSON value that stands for a vector of length 1.
  unfoldable pub scalar_json : V → Json
  scalar_json v =
      if is_date v
      then Json.string (format_date v)
      else if is_posixt v
      then Json.string (iso_utc L W v)
      else if is_integer64 v
      then Json.string (format_fixed v)
      else if is_factor v
      then Json.string (as_character v)
      else if is_logical v
      then Json.flag (is_true v)
      else if is_character v
      then Json.string (as_character v)
      else Json.number
          (if is_integer v || is_exact_integer v then format_fixed v else format_digits v)

  -- What R's texts are: free of NUL, and, for a number without a class that is neither missing nor
  -- infinite, the digits of that number. What `format` makes of a number with a class is up to the class.
  pub record PrintsText : Type 0 where
    pub date : (v : V) → NoNul (format_date v)
    pub utc : (x : W.D) → NoNul (format_utc x)
    pub micros : (x : W.D) → NoNul (print_micros x)
    pub fixed : (v : V) → NoNul (format_fixed v)
    pub character : (v : V) → NoNul (as_character v)
    pub number :
        (v : V)
        → (is_bare_double v && is_nan v) ≡ false
        → is_na v ≡ false
        → is_unbounded L W v ≡ false
        → is_numeric v ≡ true
        → is_unclassed v ≡ true
        → IsNumber (format_fixed v) × IsNumber (format_digits v)

  -- A number has no class, unless it is an integer64, which is printed as a text.
  abbrev pub IsBare : V → Type 0
  IsBare v = is_integer64 v ≡ false → is_numeric v ≡ true → is_unclassed v ≡ true

  -- every text that is given encodes a document
  abbrev Gives : Result ScalarError Text → Json → Type 0
  Gives r j = (s : Text) → r ≡ ok s → Encodes s j

  if-Gives :
      (b : Bool) (q r : Result ScalarError Text) (j k : Json)
      → (b ≡ true → Gives q j)
      → (b ≡ false → Gives r k)
      → Gives (if b then q else r) (if b then j else k)
  if-Gives true q r j k hq hr = hq refl
  if-Gives false q r j k hq hr = hr refl

  text-Gives : (t : Text) → NoNul t → Gives (ok (json_string t)) (Json.string t)
  text-Gives t h s e = let same : json_string t ≡ s = cc in rw (← same) (json_string-Encodes t h)

  flag-Gives : (b : Bool) → Gives (ok (if b then codes "true" else codes "false")) (Json.flag b)
  flag-Gives true s e = let same : codes "true" ≡ s = cc in rw (← same) Encodes.yes
  flag-Gives false s e = let same : codes "false" ≡ s = cc in rw (← same) Encodes.no

  module _ (prints : PrintsText) where
    number-Gives :
        (v : V)
        → (is_bare_double v && is_nan v) ≡ false
        → is_na v ≡ false
        → is_unbounded L W v ≡ false
        → is_integer64 v ≡ false
        → IsBare v
        → Gives
            (if is_numeric v
              then ok
                  (if is_integer v || is_exact_integer v then format_fixed v else format_digits v)
              else err (ScalarError.unsupported_class (W.first_class v)))
            (Json.number
              (if is_integer v || is_exact_integer v then format_fixed v else format_digits v))
    number-Gives v h1 h2 h3 h4 bare s e = elim (Bool-cases (is_numeric v)) [
      | inl n ↦
          let (f, g) = prints.number v h1 h2 h3 n (bare h4 n) in
          elim (Bool-cases (is_integer v || is_exact_integer v)) [
            | inl i ↦
                let same : format_fixed v ≡ s = ground arith in rw (i, ← same) (Encodes.number f)
            | inr i ↦
                let same : format_digits v ≡ s = ground arith in rw (i, ← same) (Encodes.number g)
          ]
      | inr n ↦ absurd (ground arith)
    ]

    scalar_text-Gives :
        (v : V)
        → (is_bare_double v && is_nan v) ≡ false
        → is_na v ≡ false
        → is_unbounded L W v ≡ false
        → IsBare v
        → Gives (scalar_text L W v) (scalar_json v)
    unfolding scalar_text scalar_json
    scalar_text-Gives v h1 h2 h3 bare =
        if-Gives (is_date v) _ _ _ _ (λ _. text-Gives _ (prints.date v))
          (λ _.
            if-Gives (is_posixt v) _ _ _ _
              (λ _. text-Gives _ (All-append _ _ _ (prints.utc _) (prints.micros _)))
              (λ _.
                if-Gives (is_integer64 v) _ _ _ _ (λ _. text-Gives _ (prints.fixed v))
                  (λ big.
                    if-Gives (is_factor v) _ _ _ _ (λ _. text-Gives _ (prints.character v))
                      (λ _.
                        if-Gives (is_logical v) _ _ _ _ (λ _. flag-Gives (is_true v))
                          (λ _.
                            if-Gives (is_character v) _ _ _ _
                              (λ _. text-Gives _ (prints.character v))
                              (λ _. number-Gives v h1 h2 h3 big bare))))))

    -- A value that is accepted is written as the JSON value that stands for it.
    pub json_scalar-Encodes :
        (v : V) (s : Text) → IsBare v → json_scalar L W v ≡ ok s → Encodes s (scalar_json v)
    unfolding json_scalar
    json_scalar-Encodes v s bare h = elim (Bool-cases (is_bare_double v && is_nan v)) [
      | inl e ↦ absurd (ground arith)
      | inr h1 ↦ elim (Bool-cases (is_na v)) [
        | inl e ↦ absurd (ground arith)
        | inr h2 ↦ elim (Bool-cases (is_unbounded L W v)) [
          | inl e ↦ absurd (ground arith)
          | inr h3 ↦ scalar_text-Gives v h1 h2 h3 bare s (ground arith)
        ]
      ]
    ]

-- what holds of every value in a tree
module _ {V : Type 0} (P : V → Type 0) where
  unfoldable mutual
    pub AllValues : Node V → Type 0
    AllValues (Node.and args) = AllValuesOf args
    AllValues (Node.or args) = AllValuesOf args
    AllValues (Node.not arg) = AllValues arg
    AllValues Node.always_true = Unit
    AllValues Node.always_false = Unit
    AllValues (Node.eq col v) = P v
    AllValues (Node.ne col v) = P v
    AllValues (Node.lt col v) = P v
    AllValues (Node.lte col v) = P v
    AllValues (Node.gt col v) = P v
    AllValues (Node.gte col v) = P v
    AllValues (Node.starts_with col v) = P v
    AllValues (Node.not_starts_with col v) = P v
    AllValues (Node.is_null col) = Unit
    AllValues (Node.is_not_null col) = Unit
    AllValues (Node.is_nan col) = Unit
    AllValues (Node.is_not_nan col) = Unit
    AllValues (Node.in_set col vs) = All P vs
    AllValues (Node.not_in col vs) = All P vs

    pub AllValuesOf : Nodes V → Type 0
    AllValuesOf Nodes.nil = Unit
    AllValuesOf (Nodes.cons n ns) = AllValues n × AllValuesOf ns

-- each text of a list encodes its item
abbrev pub Each : List Text → Items → Type 0
Each [] Items.nil = Unit
Each [] (Items.cons j js) = ⊥
Each (s ∷ l) Items.nil = ⊥
Each (s ∷ l) (Items.cons j js) = Encodes s j × Each l js

pub collapse-EncodesItems : (l : List Text) (js : Items) → Each l js → EncodesItems (collapse l) js
collapse-EncodesItems [] Items.nil h = EncodesItems.none
collapse-EncodesItems [] (Items.cons j js) h = absurd h
collapse-EncodesItems (s ∷ l) Items.nil h = absurd h
collapse-EncodesItems (s ∷ []) (Items.cons j Items.nil) (h, _) = EncodesItems.last h
collapse-EncodesItems (s ∷ []) (Items.cons j (Items.cons k js)) (_, h) = absurd h
collapse-EncodesItems (s ∷ t ∷ l) (Items.cons j Items.nil) (_, h) = absurd h
collapse-EncodesItems (s ∷ t ∷ l) (Items.cons j (Items.cons k js)) (h, hs) =
    EncodesItems.more h (collapse-EncodesItems (t ∷ l) (Items.cons k js) hs)

pub traverse-Each :
    (L : Language) (W : Vectors L.V) (prints : PrintsText L W) (vs : List L.V) (l : List Text)
    → All (IsBare L W) vs
    → traverse (json_scalar L W) vs ≡ ok l
    → Each l (items (map (scalar_json L W) vs))
unfolding traverse
traverse-Each L W prints [] l b h = let same : [] ≡ l = cc in rw (← same) tt
traverse-Each L W prints (v ∷ vs) l (bare, b) h =
    let (s, hs, h1) = >>=-eq-ok (json_scalar L W v) _ h in
    let (rest, hr, h2) = >>=-eq-ok (traverse (json_scalar L W) vs) _ h1 in
    let same : s ∷ rest ≡ l = cc in
    rw (← same) (json_scalar-Encodes L W prints v s bare hs, traverse-Each L W prints vs rest b hr)
