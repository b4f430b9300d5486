-- ===== src/Predicate/Decimal/Value.antt =====
-- The number that a run of decimal digits stands for, and what fitting a fraction does to it.
use icebergr.Prelude.{
  ℕ, zero, suc, ◌+◌, ◌-◌, ◌*◌, ◌^◌, ◌≤◌, ◌≡◌, refl, sym, ap, ◌∙◌, ◌<◌, [], ◌∷◌, ◌++◌, true, false,
  not, arith, ltb, ◌==◌, length, take, drop, replicate, any, ok, Bool-cases, inl, inr,
  length-append, length-replicate, take-append-drop, ltb→lt, length-take, length-drop,
}
use mathlib.Core.Path.{subst}
use native.Mathlib.Nat.{pow-suc}
use icebergr.Prelude.Text.{Text}
use icebergr.Predicate.Decimal.{fit_fraction, digits_only}

-- The number read so far times ten, plus each digit.
unfoldable pub digits_number : ℕ → Text → ℕ
digits_number acc [] = acc
digits_number acc (c ∷ s) = digits_number (acc * 10 + (c - 48)) s

pub digits_number-append :
    (acc : ℕ) (s t : Text) → digits_number acc (s ++ t) ≡ digits_number (digits_number acc s) t
unfolding digits_number
digits_number-append acc [] t = refl
digits_number-append acc (c ∷ s) t = digits_number-append (acc * 10 + (c - 48)) s t

regroup : (p q : ℕ) → p * q * 10 ≡ p * 10 * q
regroup p q = omega arith

pow_ten : (a b c : ℕ) → a + b ≡ c → 10 ^ c ≡ 10 ^ a * 10 ^ b
pow_ten zero b c h = let e : b ≡ c = omega arith in rw e (omega arith)
pow_ten (suc a) b zero h = absurd (omega arith)
pow_ten (suc a) b (suc c) h =
    pow-suc 10 c
    ∙ ap (λ (t : ℕ). t * 10) (pow_ten a b c (omega arith))
    ∙ regroup (10 ^ a) (10 ^ b)
    ∙ ap (λ (t : ℕ). t * 10 ^ b) (sym (pow-suc 10 a))

-- Zeros multiply by a power of ten.
digits_number-zeros :
    (acc : ℕ) (s : Text)
    → any (λ b. not (b == b'0')) s ≡ false
    → digits_number acc s ≡ acc * 10 ^ length s
unfolding digits_number
digits_number-zeros acc [] h = omega arith
digits_number-zeros acc (c ∷ s) h =
    let z : acc * 10 + (c - 48) ≡ acc * 10 = ground arith in
    rw (z, pow-suc) (omega (arith, digits_number-zeros (acc * 10) s (ground arith)))

any-replicate : (n : ℕ) → any (λ b. not (b == b'0')) (replicate n b'0') ≡ false
any-replicate zero = refl
any-replicate (suc n) = any-replicate n

all-replicate : (n : ℕ) → digits_only (replicate n b'0') ≡ true
all-replicate zero = refl
all-replicate (suc n) = all-replicate n

all-append :
    (s t : Text) → digits_only s ≡ true → digits_only t ≡ true → digits_only (s ++ t) ≡ true
all-append [] t hs ht = ht
all-append (c ∷ s) t hs ht = ground (arith, all-append s t)

all-take : (n : ℕ) (s : Text) → digits_only s ≡ true → digits_only (take n s) ≡ true
all-take zero s h = refl
all-take (suc n) [] h = refl
all-take (suc n) (c ∷ s) h = ground (arith, all-take n s)

pub record IsFitted (frac : Text) (scale : ℕ) (fitted : Text) : Type 0 where
  pub digits : digits_only fitted ≡ true
  pub places : length fitted ≡ scale
  pub number :
      (acc : ℕ) → digits_number acc fitted * 10 ^ length frac ≡ digits_number acc frac * 10 ^ scale

-- Cutting a fraction behind which only zeros stand.
cut-IsFitted :
    (frac : Text) (scale : ℕ)
    → digits_only frac ≡ true
    → scale < length frac
    → any (λ b. not (b == b'0')) (drop scale frac) ≡ false
    → IsFitted frac scale (take scale frac)
cut-IsFitted frac scale h long zeros = record {
  digits = all-take scale frac h;
  places = omega (arith, length-take scale frac);
  number = λ acc.
      let kept = digits_number acc (take scale frac) in
      let whole : digits_number acc frac ≡ kept * 10 ^ (length frac - scale) =
        ap (digits_number acc) (sym (take-append-drop scale frac))
        ∙ digits_number-append acc (take scale frac) (drop scale frac)
        ∙ digits_number-zeros kept (drop scale frac) zeros
        ∙ ap (λ (n : ℕ). kept * 10 ^ n) (length-drop scale frac) in
      rw whole (
        omega (
          arith,
          ap (λ (t : ℕ). kept * t)
              (pow_ten (length frac - scale) scale (length frac) (omega arith)),
        ));
}

-- Padding with zeros.
pad-IsFitted :
    (frac : Text) (scale : ℕ)
    → digits_only frac ≡ true
    → length frac ≤ scale
    → IsFitted frac scale (frac ++ replicate (scale - length frac) b'0')
pad-IsFitted frac scale h short = record {
  digits =
      all-append frac (replicate (scale - length frac) b'0') h
        (all-replicate (scale - length frac));
  places = omega (
    arith,
    length-append frac (replicate (scale - length frac) b'0'),
    length-replicate {A = ℕ} (scale - length frac) b'0',
  );
  number = λ acc.
      let pad = replicate (scale - length frac) b'0' in
      let read = digits_number acc frac in
      let whole : digits_number acc (frac ++ pad) ≡ read * 10 ^ (scale - length frac) =
        digits_number-append acc frac pad
        ∙ digits_number-zeros read pad (any-replicate (scale - length frac))
        ∙ ap (λ (n : ℕ). read * 10 ^ n) (length-replicate {A = ℕ} (scale - length frac) b'0') in
      rw whole (
        omega (
          arith,
          ap (λ (t : ℕ). read * t)
              (pow_ten (scale - length frac) (length frac) scale (omega arith)),
        ));
}

pub fit_fraction-IsFitted :
    (frac : Text) (scale : ℕ) (fitted : Text)
    → digits_only frac ≡ true
    → fit_fraction frac scale ≡ ok fitted
    → IsFitted frac scale fitted
unfolding fit_fraction
fit_fraction-IsFitted frac scale fitted h e = elim (Bool-cases (ltb scale (length frac))) [
  | inl long ↦ elim (Bool-cases (any (λ b. not (b == b'0')) (drop scale frac))) [
    | inl lost ↦ absurd (ground arith)
    | inr zeros ↦
        let q : take scale frac ≡ fitted = ground arith in
        subst (IsFitted frac scale) q (cut-IsFitted frac scale h (ltb→lt _ _ long) zeros)
  ]
  | inr short ↦
      let q : frac ++ replicate (scale - length frac) b'0' ≡ fitted = ground arith in
      subst (IsFitted frac scale) q (pad-IsFitted frac scale h (ground arith))
]
