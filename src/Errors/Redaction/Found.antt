-- ===== src/Errors/Redaction/Found.antt =====
-- `scrub_params` finds every value of a secret key.
use icebergr.Prelude.{
  ℕ, zero, suc, ◌+◌, ◌-◌, ◌≤◌, ◌<◌, ◌≡◌, refl, sym, inl, inr, List, [], ◌∷◌, true, false, Option,
  none, some, arith, ◌==◌, ==_iff, Bool-cases, length, drop, length-drop, All,
}
use mathlib.Core.List.{Memᴰ}
use mathlib.Core.List.Memᴰ.{head, tail, append_left, append_right}
use icebergr.Prelude.Text.{Text, starts_with, to_ascii_lowercase}
use icebergr.Errors.Params.{key_cut, key_cuts, all_cuts, secret_params}
use icebergr.Errors.Redaction.Keys.{
  begins_anew, length-starts_with, drop-drop, find_key-first, starts_with-apart,
  length-to_ascii_lowercase,
}

plus_minus : (a b : ℕ) → a ≤ b → a + (b - a) ≡ b
plus_minus a b h = omega arith

unless_none :
    {cut : ℕ × ℕ} (o : Option (ℕ × ℕ)) (rest : List (ℕ × ℕ))
    → Memᴰ cut rest
    → Memᴰ cut (elim o [ none ↦ rest | some c ↦ c ∷ rest ])
unless_none none rest h = h
unless_none (some c) rest h = tail h

-- Enough rounds reach every place where the key stands.
key_cuts-Memᴰ :
    (fuel : ℕ) (text lower key : Text) (from start : ℕ) (cut : ℕ × ℕ)
    → begins_anew key (drop 1 key) ≡ false
    → 0 < length key
    → length lower < fuel + from
    → from ≤ start
    → starts_with key (drop start lower) ≡ true
    → key_cut text start (start + length key) ≡ some cut
    → Memᴰ cut (key_cuts fuel text lower key from)
unfolding key_cuts
key_cuts-Memᴰ zero text lower key from start cut b n l g s k =
    absurd (omega (arith, length-starts_with key (drop start lower) s, length-drop start lower))
key_cuts-Memᴰ (suc fuel) text lower key from start cut b n l g s k =
    let there : starts_with key (drop (start - from) (drop from lower)) ≡ true =
      rw (drop-drop (start - from) from lower, plus_minus from start g) s in
    let (r, f, le, at) = find_key-first key (drop from lower) (start - from) n there in
    let here : starts_with key (drop (from + r) lower) ≡ true =
      rw (sym (drop-drop r from lower)) at in
    elim (Bool-cases (from + r == start)) [
      | inl e ↦ let q = (==_iff (from + r) start).0 e in rw (key_cuts, f, q, k) (head refl)
      | inr e ↦
          let apart =
            starts_with-apart key (drop (from + r) lower) (start - (from + r)) b (ground arith) here
              (rw
                (
                  drop-drop (start - (from + r)) (from + r) lower,
                  plus_minus (from + r) start (omega arith),
                )
                s) in
          rw (key_cuts, f)
            (unless_none (key_cut text (from + r) (from + r + length key)) _ (
              key_cuts-Memᴰ fuel text lower key (from + r + length key) start cut b n (omega arith)
                (omega arith) s k))
    ]

-- a key that is not empty and does not overlap itself
abbrev IsProper : Text → Type 0
IsProper key = (0 < length key) × (begins_anew key (drop 1 key) ≡ false)

all_cuts-Memᴰ :
    (text : Text) (keys : List Text) (key : Text) (start : ℕ) (cut : ℕ × ℕ)
    → All IsProper keys
    → Memᴰ key keys
    → starts_with key (drop start (to_ascii_lowercase text)) ≡ true
    → key_cut text start (start + length key) ≡ some cut
    → Memᴰ cut (all_cuts text keys)
unfolding all_cuts
all_cuts-Memᴰ text [] key start cut p m s k = elim m [ ]
all_cuts-Memᴰ text (first ∷ keys) key start cut ((n, b), p) (head e) s k =
    append_left (all_cuts text keys) (
      key_cuts-Memᴰ (suc (length text)) text (to_ascii_lowercase text) first 0 start cut b n
        (omega (arith, length-to_ascii_lowercase text)) (omega arith) (rw (sym e) s) (rw (sym e) k))
all_cuts-Memᴰ text (first ∷ keys) key start cut (q, p) (tail m) s k =
    append_right (key_cuts (suc (length text)) text (to_ascii_lowercase text) first 0)
      (all_cuts-Memᴰ text keys key start cut p m s k)

-- Wherever a secret key stands in the text, in any case, and is followed by a value to cut, that value
-- is among the cuts.
pub all_cuts-key_cut :
    (text key : Text) (start : ℕ) (cut : ℕ × ℕ)
    → Memᴰ key secret_params
    → starts_with key (drop start (to_ascii_lowercase text)) ≡ true
    → key_cut text start (start + length key) ≡ some cut
    → Memᴰ cut (all_cuts text secret_params)
all_cuts-key_cut text key start cut m s k =
    all_cuts-Memᴰ text secret_params key start cut proper m s k
  where
    proper : All IsProper secret_params
    proper = (
      (omega arith, refl),
      (
        (omega arith, refl),
        (
          (omega arith, refl),
          (
            (omega arith, refl),
            (
              (omega arith, refl),
              (
                (omega arith, refl),
                (
                  (omega arith, refl),
                  (
                    (omega arith, refl),
                    ((omega arith, refl), ((omega arith, refl), ((omega arith, refl), tt))),
                  ),
                ),
              ),
            ),
          ),
        ),
      ),
    )
