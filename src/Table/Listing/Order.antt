-- ===== src/Table/Listing/Order.antt =====
-- Listings that come from a hash map do not show its order.
use icebergr.Prelude.{
  ◌≡◌, refl, ap, ap₂, List, [], ◌∷◌, true, Option, some, Result, ok, err, All, and_then, sym,
}
use icebergr.Prelude.Text.{Text, codes}
use icebergr.Prelude.Sort.{sort, text_le}
use icebergr.Prelude.Sort.Shuffle.{Shuffle, sort_by-Shuffle}
use icebergr.Prelude.Sort.Order.{All-sort_by}
use icebergr.Prelude.Sort.Texts.{text_le_total, text_le_trans, text_le_antisymm}
use icebergr.Table.Snapshots.{Snapshot, Metadata}
use icebergr.Table.Listing.{key_le, summary_json, values_of, rs_table_properties}

-- the value that the map holds under the key
abbrev pub IsEntry : (Text → Option Text) → Text × Text → Type 0
IsEntry get (k, v) = get k ≡ some v

-- The JSON of a snapshot's summary is the same in whatever order the summary's hash map gives its
-- entries.
pub summary_json-Shuffle :
    (to_string : List (Text × Text) → Result Text Text) (get : Text → Option Text) (s : Snapshot)
    (l : List (Text × Text))
    → All (IsEntry get) s.summary
    → Shuffle s.summary l
    → summary_json to_string s ≡ summary_json to_string (record s { summary = l })
unfolding summary_json
summary_json-Shuffle to_string get s l entries moved =
    ap
      (λ (sorted : List (Text × Text)). elim (to_string sorted) [
        | ok json ↦ json
        | err e ↦ codes "{}"
      ])
      (sort_by-Shuffle key_le (λ a b. text_le_total a.0 b.0) (λ a b c. text_le_trans a.0 b.0 c.0)
        (IsEntry get) same moved entries)
  where
    same :
        (a b : Text × Text)
        → IsEntry get a
        → IsEntry get b
        → key_le a b ≡ true
        → key_le b a ≡ true
        → a ≡ b
    same (k, v) (j, w) p q h g =
        let keys = text_le_antisymm k j h g in
        let values : v ≡ w = cc in ap₂ (λ (x y : Text). (x, y)) keys values

values_of-some :
    (get : Text → Option Text) (keys : List Text)
    → All (λ (k : Text). (v : Text) × (get k ≡ some v)) keys
    → (vs : List Text) × (values_of get keys ≡ some vs)
unfolding values_of
values_of-some get [] h = ([], refl)
values_of-some get (k ∷ keys) ((v, e), rest) =
    let (vs, f) = values_of-some get keys rest in (v ∷ vs, rw (values_of, e, f) refl)

-- The map holds a value under the key.
abbrev pub HasValue : (Text → Option Text) → Text → Type 0
HasValue get k = (v : Text) × (get k ≡ some v)

-- The properties, each key of which the hash map holds, are listed without a panic: the names in order
-- with the value of each, the same in whatever order the hash map gives its keys.
pub rs_table_properties-Shuffle :
    (m : Metadata) (l : List Text)
    → All (HasValue m.property) m.property_keys
    → Shuffle m.property_keys l
    → (values : List Text) × (values_of m.property (sort m.property_keys) ≡ some values)
      × (rs_table_properties m ≡ some (sort m.property_keys, values))
      × (rs_table_properties (record m { property_keys = l }) ≡ rs_table_properties m)
unfolding rs_table_properties
rs_table_properties-Shuffle m l held moved =
    let keys = sort m.property_keys in
    let (values, e) =
      values_of-some m.property keys
        (All-sort_by text_le (HasValue m.property) m.property_keys held) in
    let sorted =
      sort_by-Shuffle text_le text_le_total text_le_trans (HasValue m.property)
        (λ s t p q h k. text_le_antisymm s t h k) moved held in
    (
      values,
      e,
      rw e refl,
      ap
          (λ (ks : List Text).
            and_then (values_of m.property ks) (λ (vs : List Text). some (ks, vs)))
          (sym sorted),
    )
