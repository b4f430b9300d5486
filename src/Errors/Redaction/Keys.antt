-- ===== src/Errors/Redaction/Keys.antt =====
-- Where a key stands in a text, and what `find_key` finds.
use icebergr.Prelude.{
  ℕ, zero, suc, ◌+◌, ◌≤◌, ◌<◌, ◌≡◌, refl, ◌∙◌, sym, ap, inl, inr, [], ◌∷◌, Bool, true, false, ◌||◌,
  none, some, arith, leb, Bool-cases, Option-cases, length, drop, length-drop,
}
use icebergr.Prelude.Text.{Text, starts_with, strip_prefix, to_ascii_lowercase}
use icebergr.Errors.Params.{find_key}

-- No end of the key is its beginning, so no two places where it stands overlap.
abbrev pub begins_anew : Text → Text → Bool
begins_anew key [] = false
begins_anew key (c ∷ s) = starts_with (c ∷ s) key || begins_anew key s

starts_with-drop :
    (j : ℕ) (p s : Text) → starts_with p s ≡ true → starts_with (drop j p) (drop j s) ≡ true
starts_with-drop zero p s h = h
starts_with-drop (suc j) [] s h = refl
starts_with-drop (suc j) (c ∷ p) [] h = absurd cc
starts_with-drop (suc j) (c ∷ p) (d ∷ s) h = starts_with-drop j p s (ground arith)

starts_with-both :
    (p q s : Text)
    → starts_with p s ≡ true
    → starts_with q s ≡ true
    → length p ≤ length q
    → starts_with p q ≡ true
starts_with-both [] q s h k l = refl
starts_with-both (c ∷ p) [] s h k l = absurd (omega arith)
starts_with-both (c ∷ p) (e ∷ q) [] h k l = absurd cc
starts_with-both (c ∷ p) (e ∷ q) (d ∷ s) h k l = ground (arith, starts_with-both p q s)

pub length-starts_with : (p s : Text) → starts_with p s ≡ true → length p ≤ length s
length-starts_with [] s h = omega arith
length-starts_with (c ∷ p) [] h = absurd cc
length-starts_with (c ∷ p) (d ∷ s) h = ground (arith, length-starts_with p s)

begins_anew-drop :
    (key t : Text) (j : ℕ)
    → j < length t
    → starts_with (drop j t) key ≡ true
    → begins_anew key t ≡ true
begins_anew-drop key [] j l h = absurd (omega arith)
begins_anew-drop key (c ∷ t) zero l h = rw h refl
begins_anew-drop key (c ∷ t) (suc j) l h =
    let ih = begins_anew-drop key t j (omega arith) h in ground arith

drop-nil : (n : ℕ) → drop {A = ℕ} n [] ≡ []
drop-nil zero = refl
drop-nil (suc n) = refl

pub drop-drop : (i j : ℕ) (s : Text) → drop i (drop j s) ≡ drop (j + i) s
drop-drop i zero s = ap (λ n. drop n s) (omega arith)
drop-drop i (suc j) [] = drop-nil i ∙ sym (drop-nil (suc j + i))
drop-drop i (suc j) (c ∷ s) = drop-drop i j s ∙ ap (λ n. drop n (c ∷ s)) (suc_plus j i)
  where
    suc_plus : (a b : ℕ) → suc (a + b) ≡ suc a + b
    suc_plus a b = omega arith

strip_prefix-starts_with : (p s : Text) → strip_prefix p s ≡ none → starts_with p s ≡ false
strip_prefix-starts_with [] s h = absurd cc
strip_prefix-starts_with (c ∷ p) [] h = refl
strip_prefix-starts_with (c ∷ p) (d ∷ s) h = ground (arith, strip_prefix-starts_with p s)

starts_with-strip_prefix : (p s r : Text) → strip_prefix p s ≡ some r → starts_with p s ≡ true
starts_with-strip_prefix [] s r h = refl
starts_with-strip_prefix (c ∷ p) [] r h = absurd cc
starts_with-strip_prefix (c ∷ p) (d ∷ s) r h = ground (arith, starts_with-strip_prefix p s r)

-- The key is found where it first stands.
pub find_key-first :
    (key s : Text) (j : ℕ)
    → 0 < length key
    → starts_with key (drop j s) ≡ true
    → (r : ℕ) × (find_key key s ≡ some r) × (r ≤ j) × (starts_with key (drop r s) ≡ true)
unfolding find_key
find_key-first key [] j l k =
    absurd (omega (arith, length-starts_with key (drop j []) k, length-drop {A = ℕ} j []))
find_key-first key (c ∷ s) zero l k = elim (Option-cases (strip_prefix key (c ∷ s))) [
  | inl e ↦ absurd (let q = strip_prefix-starts_with key (c ∷ s) e in cc)
  | inr (r, e) ↦ (0, rw (find_key, e) refl, omega arith, k)
]
find_key-first key (c ∷ s) (suc j) l k =
    let (r, f, le, at) = find_key-first key s j l k in
    elim (Option-cases (strip_prefix key (c ∷ s))) [
      | inl e ↦ (suc r, rw (find_key, e, f) refl, omega arith, at)
      | inr (q, e) ↦
          (0, rw (find_key, e) refl, omega arith, starts_with-strip_prefix key (c ∷ s) q e)
    ]

drop-past : (n : ℕ) (s : Text) → length s ≤ n → drop n s ≡ []
drop-past zero [] h = refl
drop-past zero (c ∷ s) h = absurd (omega arith)
drop-past (suc n) [] h = refl
drop-past (suc n) (c ∷ s) h = drop-past n s (omega arith)

pub find_key-past : (key s : Text) (from : ℕ) → length s ≤ from → find_key key (drop from s) ≡ none
unfolding find_key
find_key-past key s from h = rw (drop-past from s h) refl

one_plus : (j : ℕ) → 1 + j ≡ suc j
one_plus j = omega arith

-- Where the key stands twice, it does not overlap itself.
pub starts_with-apart :
    (key s : Text) (j : ℕ)
    → begins_anew key (drop 1 key) ≡ false
    → 0 < j
    → starts_with key s ≡ true
    → starts_with key (drop j s) ≡ true
    → length key ≤ j
starts_with-apart key s zero b h k l = absurd (omega arith)
starts_with-apart key s (suc j) b h k l = elim (Bool-cases (leb (length key) (suc j))) [
  | inl e ↦ ground arith
  | inr e ↦ absurd (
      let border =
        starts_with-both (drop (suc j) key) key (drop (suc j) s) (starts_with-drop (suc j) key s k)
          l (ground (arith, length-drop (suc j) key)) in
      let q =
        begins_anew-drop key (drop 1 key) j (ground (arith, length-drop 1 key))
          (rw (drop-drop j 1 key, one_plus j) border) in
      cc)
]

pub length-to_ascii_lowercase : (s : Text) → length (to_ascii_lowercase s) ≡ length s
length-to_ascii_lowercase [] = refl
length-to_ascii_lowercase (c ∷ s) = ap suc (length-to_ascii_lowercase s)
