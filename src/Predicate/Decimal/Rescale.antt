-- ===== src/Predicate/Decimal/Rescale.antt =====
-- The text that `rescale` gives denotes the same number, with exactly the places asked for.
use mathlib.Core.Path.{subst}
use icebergr.Prelude.{
  ℕ, ◌*◌, ◌^◌, ◌≡◌, refl, [], ◌∷◌, ◌++◌, true, none, some, arith, ◌==◌, if◌then◌else◌, length,
  is_empty, ok, ap, unwrap_or, Result-cases, inl, inr, ◌⊎◌,
}
use icebergr.Prelude.Text.{Text, is_ascii_digit, split_once}
use icebergr.Predicate.Decimal.{
  split_sign, split_point, fit_fraction, digits_only, print_decimal, rescale,
}
use icebergr.Predicate.Decimal.Value.{
  digits_number, digits_number-append, IsFitted, fit_fraction-IsFitted,
}

-- A decimal text taken apart: its sign, and the digits before and after the point.
pub record Parts : Type 0 where
  pub sign : Text
  pub whole : Text
  pub frac : Text

-- a sign in front of a number, and what follows it: a plus is no sign of its own
abbrev pub signed : Text → Text × Text
signed [] = ([], [])
signed (c ∷ s) = if c == b'-' then (b'-' ∷ [], s) else if c == b'+' then ([], s) else ([], c ∷ s)

-- what stands before the first point, and behind it
abbrev pub before_point : Text → Text
before_point [] = []
before_point (c ∷ s) = let rest = before_point s in if c == b'.' then [] else c ∷ rest

abbrev pub behind_point : Text → Text
behind_point [] = []
behind_point (c ∷ s) = let rest = behind_point s in if c == b'.' then s else rest

unfoldable pub parts : Text → Parts
parts s =
    let (sign, rest) = signed s in
    record { sign = sign; whole = before_point rest; frac = behind_point rest }

split_sign-signed : (s : Text) → split_sign s ≡ signed s
unfolding split_sign
split_sign-signed [] = refl
split_sign-signed (c ∷ s) = ground arith

split_once-point :
    (s : Text)
    → unwrap_or (split_once (λ c. c == b'.') s) (s, []) ≡ (before_point s, behind_point s)
split_once-point [] = refl
split_once-point (c ∷ s) = ground (arith, split_once-point s)

split_point-parts : (s : Text) → split_point s ≡ (before_point s, behind_point s)
unfolding split_point
split_point-parts s = split_once-point s

-- the parts are those that the program takes a text apart into
parts-split :
    (s : Text)
    → parts s ≡ record {
      sign = (split_sign s).0;
      whole = (split_point (split_sign s).1).0;
      frac = (split_point (split_sign s).1).1;
    }
unfolding parts
parts-split s = rw (split_sign-signed s, split_point-parts (signed s).1) refl

-- the number without its point
abbrev pub unscaled : Parts → ℕ
unscaled p = digits_number 0 (p.whole ++ p.frac)

split_point-digits :
    (whole : Text) → digits_only whole ≡ true → split_once (λ c. c == b'.') whole ≡ none
split_point-digits [] h = refl
split_point-digits (c ∷ s) h = ground (arith, split_point-digits s)

split_point-print :
    (whole frac : Text)
    → digits_only whole ≡ true
    → split_once (λ c. c == b'.') (whole ++ b'.' ∷ frac) ≡ some (whole, frac)
split_point-print [] frac h = refl
split_point-print (c ∷ s) frac h = ground (arith, split_point-print s frac)

-- a text that begins with a digit has no sign
split_sign-digit : (c : ℕ) (s : Text) → is_ascii_digit c ≡ true → split_sign (c ∷ s) ≡ ([], c ∷ s)
unfolding split_sign
split_sign-digit c s h = ground arith

-- the sign that `split_sign` gives
abbrev IsSign : Text → Type 0
IsSign s = (s ≡ []) ⊎ (s ≡ b'-' ∷ [])

split_sign-IsSign : (s : Text) → IsSign (split_sign s).0
unfolding split_sign
split_sign-IsSign s = ground arith

parts-IsSign : (s : Text) → IsSign (parts s).sign
parts-IsSign s = rw (parts-split s) (split_sign-IsSign s)

parts-of :
    (t sign rest whole frac : Text)
    → split_sign t ≡ (sign, rest)
    → split_point rest ≡ (whole, frac)
    → parts t ≡ record { sign = sign; whole = whole; frac = frac }
parts-of t sign rest whole frac e f = rw (parts-split t, e, f)

-- what follows the sign of a printed decimal
abbrev body : Text → Text → Text
body whole frac = if is_empty frac then whole else whole ++ b'.' ∷ frac

split_point-body :
    (whole frac : Text) → digits_only whole ≡ true → split_point (body whole frac) ≡ (whole, frac)
unfolding split_point
split_point-body whole [] d = rw (split_point-digits whole d)
split_point-body whole (f ∷ fs) d = rw (split_point-print whole (f ∷ fs) d)

split_sign-print :
    (sign frac : Text) (c : ℕ) (s : Text)
    → IsSign sign
    → is_ascii_digit c ≡ true
    → split_sign (print_decimal sign (c ∷ s) frac) ≡ (sign, body (c ∷ s) frac)
unfolding split_sign
split_sign-print sign [] c s (inl e) d = rw e (ground arith)
split_sign-print sign [] c s (inr e) d = rw e
split_sign-print sign (f ∷ fs) c s (inl e) d = rw e (ground arith)
split_sign-print sign (f ∷ fs) c s (inr e) d = rw e

parts-print :
    (sign frac : Text) (c : ℕ) (s : Text)
    → IsSign sign
    → digits_only (c ∷ s) ≡ true
    → parts (print_decimal sign (c ∷ s) frac) ≡ record { sign = sign; whole = c ∷ s; frac = frac }
parts-print sign frac c s h d =
    parts-of (print_decimal sign (c ∷ s) frac) sign (body (c ∷ s) frac) (c ∷ s) frac
      (split_sign-print sign frac c s h (ground arith)) (split_point-body (c ∷ s) frac d)

-- `q` has the sign and the number of `p`, and `scale` places.
pub record IsRescaled (p : Parts) (scale : ℕ) (q : Parts) : Type 0 where
  pub sign : q.sign ≡ p.sign
  pub whole_digits : digits_only q.whole ≡ true
  pub frac_digits : digits_only q.frac ≡ true
  pub places : length q.frac ≡ scale
  pub number : unscaled q * 10 ^ length p.frac ≡ unscaled p * 10 ^ scale

-- An integer part that may be left out, as `.5` does.
abbrev whole_or_zero : Text → Text
whole_or_zero w = if is_empty w then b'0' ∷ [] else w

unscaled-append :
    (sign whole frac : Text)
    → unscaled (record { sign = sign; whole = whole; frac = frac })
      ≡ digits_number (digits_number 0 whole) frac
unscaled-append sign whole frac = digits_number-append 0 whole frac

printed-IsRescaled :
    (sign whole places : Text) (scale : ℕ) (frac : Text)
    → IsSign sign
    → digits_only whole ≡ true
    → IsFitted places scale frac
    → IsRescaled
        (record { sign = sign; whole = whole; frac = places })
        scale
        (parts (print_decimal sign (whole_or_zero whole) frac))
printed-IsRescaled sign [] places scale frac h d f =
    rw (parts-print sign frac b'0' [] h refl) (record {
      sign = refl;
      whole_digits = refl;
      frac_digits = f.digits;
      places = f.places;
      number = unfold digits_number in f.number 0;
    })
printed-IsRescaled sign (c ∷ s) places scale frac h d f =
    rw (parts-print sign frac c s h d) (record {
      sign = refl;
      whole_digits = d;
      frac_digits = f.digits;
      places = f.places;
      number =
          rw (unscaled-append sign (c ∷ s) frac, unscaled-append sign (c ∷ s) places)
            (f.number (digits_number 0 (c ∷ s)));
    })

-- What an accepted text went through.
record Accepted (s : Text) (scale : ℕ) (t : Text) : Type 0 where
  whole_digits : digits_only (parts s).whole ≡ true
  frac_digits : digits_only (parts s).frac ≡ true
  frac : Text
  fitted : fit_fraction (parts s).frac scale ≡ ok frac
  printed : print_decimal (parts s).sign (whole_or_zero (parts s).whole) frac ≡ t

rescale-Accepted : (s : Text) (scale : ℕ) (t : Text) → rescale s scale ≡ ok t → Accepted s scale t
unfolding rescale
rescale-Accepted s scale t h =
    let sign : (parts s).sign ≡ (split_sign s).0 = ap (λ (p : Parts). p.sign) (parts-split s) in
    let whole : (parts s).whole ≡ (split_point (split_sign s).1).0 =
      ap (λ (p : Parts). p.whole) (parts-split s) in
    let behind : (parts s).frac ≡ (split_point (split_sign s).1).1 =
      ap (λ (p : Parts). p.frac) (parts-split s) in
    elim (Result-cases (fit_fraction (parts s).frac scale)) [
      | inl (why, e) ↦ absurd (ground arith)
      | inr (f, e) ↦ record {
        whole_digits = ground arith;
        frac_digits = ground arith;
        frac = f;
        fitted = e;
        printed = ground arith;
      }
    ]

-- When `rescale` accepts a text, what it gives parses to the same sign and the same number, in digits
-- only, with exactly `scale` digits behind the point.
pub rescale-IsRescaled :
    (s : Text) (scale : ℕ) (t : Text)
    → rescale s scale ≡ ok t
    → IsRescaled (parts s) scale (parts t)
rescale-IsRescaled s scale t h =
    let a = rescale-Accepted s scale t h in
    subst (λ x. IsRescaled (parts s) scale (parts x)) a.printed
      (printed-IsRescaled (parts s).sign (parts s).whole (parts s).frac scale a.frac
        (parts-IsSign s) a.whole_digits
        (fit_fraction-IsFitted (parts s).frac scale a.frac a.frac_digits a.fitted))
