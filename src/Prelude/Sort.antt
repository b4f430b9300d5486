-- ===== src/Prelude/Sort.antt =====
-- `sort` and `dedup` of a vector of texts, and of any vector under a Boolean order.
pub mod Order
pub mod Shuffle
pub mod Texts
use icebergr.Prelude.Tests.{ltb, ◌==◌, if◌then◌else◌}
use icebergr.Prelude.Text.{Text, text_eq}
use mathlib.Core.Bool.{Bool, true, false, ◌&&◌, ◌||◌}
use mathlib.Core.List.{List, [], ◌∷◌}

-- the order of `str`: UTF-8 keeps the order of the code points
abbrev pub text_le : Text → Text → Bool
text_le [] t = true
text_le (c ∷ s) [] = false
text_le (c ∷ s) (d ∷ t) = ltb c d || (c == d && text_le s t)

module _ {ℓ} {A : Type ℓ} (le : A → A → Bool) where
  unfoldable pub insert_sorted : A → List A → List A
  insert_sorted x [] = x ∷ []
  insert_sorted x (y ∷ ys) =
      let rest = insert_sorted x ys in if le x y then x ∷ y ∷ ys else y ∷ rest

  unfoldable pub sort_by : List A → List A
  unfolding insert_sorted
  sort_by [] = []
  sort_by (x ∷ xs) = insert_sorted x (sort_by xs)

unfoldable pub sort : List Text → List Text
sort = sort_by text_le

-- `dedup` drops an element equal to the one before it.
unfoldable pub dedup : List Text → List Text
dedup [] = []
dedup (x ∷ []) = x ∷ []
dedup (x ∷ y ∷ ys) = let rest = dedup (y ∷ ys) in if text_eq x y then rest else x ∷ rest
