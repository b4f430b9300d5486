-- ===== src/Prelude/Sort/Shuffle.antt =====
-- Sorting forgets the order of its input, where elements that the order does not tell apart are equal.
use mathlib.Core.Path.{◌≡◌, refl, sym, ap, ◌∙◌}
use mathlib.Core.Logic.{inl, inr}
use mathlib.Core.Bool.{Bool, true, false}
use mathlib.Core.List.{List, [], ◌∷◌}
use native.Mathlib.Omega.{arith}
use icebergr.Prelude.Tests.{Bool-cases}
use icebergr.Prelude.Lists.{All}
use icebergr.Prelude.Sort.{insert_sorted, sort_by}

-- Two lists of the same elements in some order.
pub data Shuffle {ℓ} {A : Type ℓ} : List A → List A → Type ℓ where
  none_left : Shuffle [] []
  keep_head : {x : A} {l r : List A} → Shuffle l r → Shuffle (x ∷ l) (x ∷ r)
  swap_heads : {x y : A} {l : List A} → Shuffle (x ∷ y ∷ l) (y ∷ x ∷ l)
  in_turn : {l m r : List A} → Shuffle l m → Shuffle m r → Shuffle l r

All-Shuffle {ℓ} : {A : Type ℓ} (P : A → Type ℓ) {l r : List A} → Shuffle l r → All P l → All P r
All-Shuffle P none_left h = h
All-Shuffle P (keep_head s) (h, k) = (h, All-Shuffle P s k)
All-Shuffle P swap_heads (h, (k, rest)) = (k, (h, rest))
All-Shuffle P (in_turn s t) h = All-Shuffle P t (All-Shuffle P s h)

module _ {ℓ} {A : Type ℓ} (le : A → A → Bool) (total : (a b : A) → le a b ≡ false → le b a ≡ true)
    (trans : (a b c : A) → le a b ≡ true → le b c ≡ true → le a c ≡ true) where
  -- `x` strictly before `y`
  insert_sorted_comm_lt :
      (x y : A) (l : List A)
      → le x y ≡ true
      → le y x ≡ false
      → insert_sorted le x (insert_sorted le y l) ≡ insert_sorted le y (insert_sorted le x l)
  unfolding insert_sorted
  insert_sorted_comm_lt x y [] h k = rw (h, k) refl
  insert_sorted_comm_lt x y (z ∷ l) h k = elim (Bool-cases (le x z)) [
    | inl a ↦ elim (Bool-cases (le y z)) [
      | inl b ↦ rw (a, b, h, k) refl
      | inr b ↦ rw (a, b, k, a) refl
    ]
    | inr a ↦ elim (Bool-cases (le y z)) [
      | inl b ↦ absurd (ground (arith, trans x y z h b))
      | inr b ↦ rw (a, b, a) (ap (λ (r : List A). z ∷ r) (insert_sorted_comm_lt x y l h k))
    ]
  ]

  insert_sorted_comm :
      (x y : A) (l : List A)
      → (le x y ≡ true → le y x ≡ true → x ≡ y)
      → insert_sorted le x (insert_sorted le y l) ≡ insert_sorted le y (insert_sorted le x l)
  insert_sorted_comm x y l same = elim (Bool-cases (le x y)) [
    | inl a ↦ elim (Bool-cases (le y x)) [
      | inl b ↦ rw (same a b) refl
      | inr b ↦ insert_sorted_comm_lt x y l a b
    ]
    | inr a ↦ sym (insert_sorted_comm_lt y x l (total x y a) a)
  ]

  -- Where the elements carry a property under which the order tells them apart, the order in which
  -- they come does not matter.
  pub sort_by-Shuffle :
      (P : A → Type ℓ)
      → ((a b : A) → P a → P b → le a b ≡ true → le b a ≡ true → a ≡ b)
      → {l r : List A} → Shuffle l r
      → All P l
      → sort_by le l ≡ sort_by le r
  unfolding sort_by
  sort_by-Shuffle P same none_left h = refl
  sort_by-Shuffle P same (keep_head {x} s) (h, k) =
      ap (insert_sorted le x) (sort_by-Shuffle P same s k)
  sort_by-Shuffle P same (swap_heads {x} {y} {l}) (h, (k, rest)) =
      insert_sorted_comm x y (sort_by le l) (same x y h k)
  sort_by-Shuffle P same (in_turn s t) h =
      sort_by-Shuffle P same s h ∙ sort_by-Shuffle P same t (All-Shuffle P s h)
