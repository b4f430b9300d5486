-- ===== src/Errors/Redaction/Withheld.antt =====
-- What `scrub_params` puts out does not depend on what it cuts out.
use icebergr.Prelude.{
  ℕ, zero, suc, ◌+◌, ◌-◌, ◌≤◌, ◌<◌, ◌≡◌, refl, ◌∙◌, sym, ap, ◌⊎◌, inl, inr, List, [], ◌∷◌, Bool,
  true, false, ◌&&◌, arith, ltb, leb, if◌then◌else◌, Bool-cases, get_elem?, take, drop, All,
  is_empty,
}
use icebergr.Prelude.Sort.{sort_by}
use icebergr.Prelude.Sort.Order.{IsOrdered, sort_by-IsOrdered, sort_by-All, All-sort_by}
use icebergr.Errors.Redaction.Cuts.{InText, all_cuts-InText}
use icebergr.Prelude.Text.{Text}
use icebergr.Errors.Params.{secret_params, all_cuts, apply_cuts, cut_le, scrub_params}

abbrev pub IsOutside : ℕ → ℕ × ℕ → Type 0
IsOutside i (start, end) = (i < start) ⊎ (end ≤ i)

-- Every cut that starts inside another one ends inside it.
abbrev pub are_nested : ℕ → List (ℕ × ℕ) → Bool
are_nested at [] = true
are_nested at ((start, end) ∷ cuts) =
    if ltb start at then leb end at && are_nested at cuts else are_nested end cuts

-- The texts have the same characters from `at` on where no cut is.
abbrev AreAlike : ℕ → Text → Text → List (ℕ × ℕ) → Type 0
AreAlike at s t cuts = (i : ℕ) → at ≤ i → All (IsOutside i) cuts → get_elem? s i ≡ get_elem? t i

get_elem?_ext : (s t : Text) → ((i : ℕ) → get_elem? s i ≡ get_elem? t i) → s ≡ t
get_elem?_ext [] [] h = refl
get_elem?_ext [] (d ∷ t) h = absurd (let e = h 0 in cc)
get_elem?_ext (c ∷ s) [] h = absurd (let e = h 0 in cc)
get_elem?_ext (c ∷ s) (d ∷ t) h = let e = h 0 in let ih = get_elem?_ext s t (λ i. h (suc i)) in cc

suc_plus : (a b : ℕ) → suc (a + b) ≡ suc a + b
suc_plus a b = omega arith

get_elem?-drop : (at i : ℕ) (s : Text) → get_elem? (drop at s) i ≡ get_elem? s (at + i)
get_elem?-drop zero i s = ap (λ j. get_elem? s j) (omega arith)
get_elem?-drop (suc at) i [] = refl
get_elem?-drop (suc at) i (c ∷ s) =
    get_elem?-drop at i s ∙ ap (λ j. get_elem? (c ∷ s) j) (suc_plus at i)

take_ext :
    (n : ℕ) (s t : Text) → ((i : ℕ) → i < n → get_elem? s i ≡ get_elem? t i) → take n s ≡ take n t
take_ext zero s t h = refl
take_ext (suc n) [] [] h = refl
take_ext (suc n) [] (d ∷ t) h = absurd (let e = h 0 (omega arith) in cc)
take_ext (suc n) (c ∷ s) [] h = absurd (let e = h 0 (omega arith) in cc)
take_ext (suc n) (c ∷ s) (d ∷ t) h =
    let e = h 0 (omega arith) in let ih = take_ext n s t (λ i k. h (suc i) (omega arith)) in cc

-- the characters from `at` up to `start`
piece_ext :
    (at start : ℕ) (s t : Text)
    → ((i : ℕ) → at ≤ i → i < start → get_elem? s i ≡ get_elem? t i)
    → take (start - at) (drop at s) ≡ take (start - at) (drop at t)
piece_ext at start s t h = take_ext (start - at) (drop at s) (drop at t) (λ i k.
    get_elem?-drop at i s ∙ h (at + i) (omega arith) (omega arith) ∙ sym (get_elem?-drop at i t))

rest_ext :
    (at : ℕ) (s t : Text)
    → ((i : ℕ) → at ≤ i → get_elem? s i ≡ get_elem? t i)
    → drop at s ≡ drop at t
rest_ext at s t h =
    get_elem?_ext (drop at s) (drop at t)
      (λ i. get_elem?-drop at i s ∙ h (at + i) (omega arith) ∙ sym (get_elem?-drop at i t))

-- The first cut starts before none of the others.
IsOutside-before :
    (i start end : ℕ) (cuts : List (ℕ × ℕ))
    → IsOrdered cut_le ((start, end) ∷ cuts)
    → i < start
    → All (IsOutside i) cuts
IsOutside-before i start end [] o h = tt
IsOutside-before i start end ((s, e) ∷ cuts) (k, o) h =
    (inl (ground arith), IsOutside-before i s e cuts o (ground arith))

pub IsOrdered-rest :
    (cut : ℕ × ℕ) (cuts : List (ℕ × ℕ)) → IsOrdered cut_le (cut ∷ cuts) → IsOrdered cut_le cuts
IsOrdered-rest cut [] o = record {}
IsOrdered-rest cut (c ∷ cuts) o = o.1

apply_cuts-AreAlike :
    (s t : Text) (at : ℕ) (cuts : List (ℕ × ℕ))
    → All (InText s) cuts
    → IsOrdered cut_le cuts
    → are_nested at cuts ≡ true
    → AreAlike at s t cuts
    → apply_cuts s at cuts ≡ apply_cuts t at cuts
unfolding apply_cuts
apply_cuts-AreAlike s t at [] r o n h = rest_ext at s t (λ i k. h i k tt)
apply_cuts-AreAlike s t at ((start, end) ∷ cuts) (q, r) o n h = elim (Bool-cases (ltb start at)) [
  | inl e ↦ rw e (
      apply_cuts-AreAlike s t at cuts r (IsOrdered-rest (start, end) cuts o) (ground arith)
        (λ i k out. h i k (inr (ground arith), out)))
  | inr e ↦
      let piece =
        piece_ext at start s t (λ i k l. h i k (inl l, IsOutside-before i start end cuts o l)) in
      let rest =
        apply_cuts-AreAlike s t end cuts r (IsOrdered-rest (start, end) cuts o) (ground arith)
          (λ i k out. h i (ground arith) (inr k, out)) in
      rw (e, piece, rest) refl
]

scrub_params-apply_cuts :
    (text : Text)
    → scrub_params text ≡ apply_cuts text 0 (sort_by cut_le (all_cuts text secret_params))
unfolding scrub_params
scrub_params-apply_cuts text = same (all_cuts text secret_params)
  where
    same :
        (cuts : List (ℕ × ℕ))
        → (if is_empty cuts then text else apply_cuts text 0 (sort_by cut_le cuts))
          ≡ apply_cuts text 0 (sort_by cut_le cuts)
    same [] = refl
    same (c ∷ cuts) = refl

pub cut_le_total : (a b : ℕ × ℕ) → cut_le a b ≡ false → cut_le b a ≡ true
cut_le_total (s, e) (s', e') h = ground arith

-- Two texts in which values are found at the same places, each that starts inside another ending
-- there too, and which differ only within those values, are scrubbed to the same text.
pub scrub_params-withholds :
    (s t : Text)
    → all_cuts s secret_params ≡ all_cuts t secret_params
    → are_nested 0 (sort_by cut_le (all_cuts s secret_params)) ≡ true
    → ((i : ℕ) → All (IsOutside i) (all_cuts s secret_params) → get_elem? s i ≡ get_elem? t i)
    → scrub_params s ≡ scrub_params t
scrub_params-withholds s t same nested h =
    let cuts = all_cuts s secret_params in
    scrub_params-apply_cuts s
    ∙ apply_cuts-AreAlike s t 0 (sort_by cut_le cuts)
        (All-sort_by cut_le (InText s) cuts (all_cuts-InText s secret_params))
        (sort_by-IsOrdered cut_le cut_le_total cuts) nested
        (λ i k out. h i (sort_by-All cut_le (IsOutside i) cuts out))
    ∙ ap (λ (c : List (ℕ × ℕ)). apply_cuts t 0 (sort_by cut_le c)) same
    ∙ sym (scrub_params-apply_cuts t)
