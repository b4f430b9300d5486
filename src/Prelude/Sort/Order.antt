-- ===== src/Prelude/Sort/Order.antt =====
-- What `sort_by` gives: the elements it was given, each at most the next.
use Prim.Native.Nat.{ℕ, ◌+◌}
use mathlib.Core.Path.{◌≡◌, refl}
use mathlib.Core.Logic.{inl, inr}
use mathlib.Core.Bool.{Bool, true, false}
use mathlib.Core.List.{List, [], ◌∷◌}
use native.Mathlib.Omega.{arith}
use icebergr.Prelude.Tests.{if◌then◌else◌, Bool-cases}
use icebergr.Prelude.Lists.{All}
use icebergr.Prelude.Sort.{insert_sorted, sort_by}

module _ {ℓ} {A : Type ℓ} where
  -- each element at most the next
  abbrev pub IsOrdered : (A → A → Bool) → List A → Type 0
  IsOrdered le [] = Unit
  IsOrdered le (x ∷ []) = Unit
  IsOrdered le (x ∷ y ∷ l) = (le x y ≡ true) × IsOrdered le (y ∷ l)

  abbrev pub count : (A → Bool) → List A → ℕ
  count p [] = 0
  count p (x ∷ l) = (if p x then 1 else 0) + count p l

module _ {ℓ} {A : Type ℓ} (le : A → A → Bool) where
  insert_sorted-count :
      (p : A → Bool) (x : A) (l : List A)
      → count p (insert_sorted le x l) ≡ (if p x then 1 else 0) + count p l
  unfolding insert_sorted
  insert_sorted-count p x [] = refl
  insert_sorted-count p x (y ∷ l) = ground (arith, insert_sorted-count p x l)

  pub sort_by-count : (p : A → Bool) (l : List A) → count p (sort_by le l) ≡ count p l
  unfolding sort_by
  sort_by-count p [] = refl
  sort_by-count p (x ∷ l) =
      ground (arith, insert_sorted-count p x (sort_by le l), sort_by-count p l)

  insert_sorted-All {κ} :
      (P : A → Type κ) (x : A) (l : List A) → All P (insert_sorted le x l) → P x × All P l
  unfolding insert_sorted
  insert_sorted-All P x [] = λ h. h
  insert_sorted-All P x (y ∷ l) = elim (Bool-cases (le x y)) [
    | inl e ↦ rw e (λ h. h)
    | inr e ↦ rw e (λ h. let ih = insert_sorted-All P x l h.1 in (ih.0, (h.0, ih.1)))
  ]

  -- What holds of everything sorted holds of everything.
  pub sort_by-All {κ} : (P : A → Type κ) (l : List A) → All P (sort_by le l) → All P l
  unfolding sort_by
  sort_by-All P [] h = h
  sort_by-All P (x ∷ l) h =
      let (k, rest) = insert_sorted-All P x (sort_by le l) h in (k, sort_by-All P l rest)

  All-insert_sorted {κ} :
      (P : A → Type κ) (x : A) (l : List A) → P x → All P l → All P (insert_sorted le x l)
  unfolding insert_sorted
  All-insert_sorted P x [] h k = (h, k)
  All-insert_sorted P x (y ∷ l) h k = elim (Bool-cases (le x y)) [
    | inl e ↦ rw e (h, k)
    | inr e ↦ rw e (k.0, All-insert_sorted P x l h k.1)
  ]

  -- What holds of everything holds of everything sorted.
  pub All-sort_by {κ} : (P : A → Type κ) (l : List A) → All P l → All P (sort_by le l)
  unfolding sort_by
  All-sort_by P [] h = h
  All-sort_by P (x ∷ l) (h, k) = All-insert_sorted P x (sort_by le l) h (All-sort_by P l k)

module _ {ℓ} {A : Type ℓ} (le : A → A → Bool)
    (total : (a b : A) → le a b ≡ false → le b a ≡ true) where
  -- an element at most both that may come next
  IsOrdered-behind :
      (x y z : A) (l : List A)
      → le y z ≡ true
      → le y x ≡ true
      → IsOrdered le (insert_sorted le x (z ∷ l))
      → IsOrdered le (y ∷ insert_sorted le x (z ∷ l))
  unfolding insert_sorted
  IsOrdered-behind x y z l h k = elim (Bool-cases (le x z)) [
    | inl e ↦ rw e (λ o. (k, o))
    | inr e ↦ rw e (λ o. (h, o))
  ]

  insert_sorted-IsOrdered :
      (x : A) (l : List A) → IsOrdered le l → IsOrdered le (insert_sorted le x l)
  unfolding insert_sorted
  insert_sorted-IsOrdered x [] h = record {}
  insert_sorted-IsOrdered x (y ∷ []) h = elim (Bool-cases (le x y)) [
    | inl e ↦ rw e (e, record {})
    | inr e ↦ rw e (total x y e, record {})
  ]
  insert_sorted-IsOrdered x (y ∷ z ∷ l) (h, k) =
      let ih = insert_sorted-IsOrdered x (z ∷ l) k in
      elim (Bool-cases (le x y)) [
        | inl e ↦ rw e (e, (h, k))
        | inr e ↦ rw e (IsOrdered-behind x y z l h (total x y e) ih)
      ]

  pub sort_by-IsOrdered : (l : List A) → IsOrdered le (sort_by le l)
  unfolding sort_by
  sort_by-IsOrdered [] = record {}
  sort_by-IsOrdered (x ∷ l) = insert_sorted-IsOrdered x (sort_by le l) (sort_by-IsOrdered l)
