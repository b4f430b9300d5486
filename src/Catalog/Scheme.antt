-- ===== src/Catalog/Scheme.antt =====
-- When a location counts as one of a scheme, whatever its case.
use icebergr.Prelude.{
  ℕ, suc, ◌+◌, ◌<◌, [], ◌∷◌, ◌++◌, ◌≡◌, refl, sym, ap, ◌∙◌, ◌↔◌, true, arith, length, take, drop,
  take-append-drop, length-append, length-drop, ltb, lt→ltb, ltb→lt,
}
use icebergr.Prelude.Text.{
  Text, codes, text_eq, text_eq→eq, text_eq_refl, to_ascii_lowercase, starts_with,
}
use icebergr.Catalog.{has_scheme}

abbrev pub separator : Text
separator = codes "://"

-- `scheme` in some case, `://`, and something after it
abbrev pub IsLocation : Text → Text → Type 0
IsLocation w scheme =
    (s : Text) × (c : ℕ) × (rest : Text) × (w ≡ s ++ (separator ++ c ∷ rest))
    × (to_ascii_lowercase s ≡ to_ascii_lowercase scheme)

length-to_ascii_lowercase : (s : Text) → length (to_ascii_lowercase s) ≡ length s
length-to_ascii_lowercase [] = refl
length-to_ascii_lowercase (c ∷ s) = ap suc (length-to_ascii_lowercase s)

take-length : (s t : Text) → take (length s) (s ++ t) ≡ s
take-length [] t = refl
take-length (c ∷ s) t = ap (λ (x : Text). c ∷ x) (take-length s t)

drop-length : (s t : Text) → drop (length s) (s ++ t) ≡ t
drop-length [] t = refl
drop-length (c ∷ s) t = drop-length s t

-- a text that starts with the separator and is longer
after_separator :
    (t : Text)
    → starts_with separator t ≡ true
    → 3 < length t
    → (c : ℕ) × (rest : Text) × (t ≡ separator ++ c ∷ rest)
after_separator [] h k = cc
after_separator (a ∷ []) h k = absurd (omega (arith, k))
after_separator (a ∷ b ∷ []) h k = absurd (omega (arith, k))
after_separator (a ∷ b ∷ c ∷ []) h k = absurd (omega (arith, k))
after_separator (a ∷ b ∷ c ∷ d ∷ t) h k = (d, t, ground arith)

has_scheme→ : (w scheme : Text) → has_scheme w scheme ≡ true → IsLocation w scheme
unfolding has_scheme
has_scheme→ w scheme h =
    let n : ℕ = length scheme in
    let long : ltb (n + 3) (length w) ≡ true = ground arith in
    let low : text_eq (to_ascii_lowercase (take n w)) (to_ascii_lowercase scheme) ≡ true =
      ground arith in
    let after : starts_with separator (drop n w) ≡ true = ground arith in
    let more : n + 3 < length w = ltb→lt (n + 3) (length w) long in
    let (c, rest, e) = after_separator (drop n w) after (omega (arith, more, length-drop n w)) in
    (
      take n w,
      c,
      rest,
      sym (take-append-drop n w) ∙ ap (λ (x : Text). take n w ++ x) e,
      text_eq→eq (to_ascii_lowercase (take n w)) (to_ascii_lowercase scheme) low,
    )

has_scheme← : (w scheme : Text) → IsLocation w scheme → has_scheme w scheme ≡ true
unfolding has_scheme
has_scheme← w scheme (s, c, rest, e, low) =
    let t : Text = separator ++ c ∷ rest in
    let n : length scheme ≡ length s =
      sym (length-to_ascii_lowercase scheme)
      ∙ (ap (λ (x : Text). length x) (sym low) ∙ length-to_ascii_lowercase s) in
    let long : ltb (length s + 3) (length (s ++ t)) ≡ true =
      lt→ltb (length s + 3) (length (s ++ t)) (omega (arith, length-append s t)) in
    rw (e, n, take-length s t, drop-length s t, low, long, text_eq_refl (to_ascii_lowercase scheme))
      refl

-- A location is of a scheme exactly when it is the scheme, in whatever case, then `://`, then at least
-- one more character.
pub has_scheme_iff : (w scheme : Text) → (has_scheme w scheme ≡ true) ↔ IsLocation w scheme
has_scheme_iff w scheme = (has_scheme→ w scheme, has_scheme← w scheme)
