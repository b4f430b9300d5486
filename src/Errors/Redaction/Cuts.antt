-- ===== src/Errors/Redaction/Cuts.antt =====
-- Every cut that `scrub_params` makes is a range of the text.
use icebergr.Prelude.{
  ℕ, zero, suc, ◌+◌, ◌≤◌, ◌<◌, ◌≡◌, refl, List, [], ◌∷◌, Bool, true, false, Option, none, some,
  arith, if◌then◌else◌, length, drop, length-drop, All, All-append,
}
use icebergr.Prelude.Text.{Text, to_ascii_lowercase}
use icebergr.Errors.Params.{
  quoted_len, unquoted_len, value_len, cut_at, find_key, value_cut, key_cut, key_cuts, all_cuts,
}

quoted_len-le : (s : Text) (q : ℕ) → quoted_len s q ≤ length s
unfolding quoted_len
quoted_len-le [] q = omega arith
quoted_len-le (c ∷ []) q = ground arith
quoted_len-le (c ∷ d ∷ s) q = ground (arith, quoted_len-le s q, quoted_len-le (d ∷ s) q)

unquoted_len-le : (s : Text) → unquoted_len s ≤ length s
unfolding unquoted_len
unquoted_len-le [] = omega arith
unquoted_len-le (c ∷ s) = ground (arith, unquoted_len-le s)

value_len-le : (q : Option ℕ) (s : Text) → value_len q s ≤ length s
unfolding value_len
value_len-le none s = unquoted_len-le s
value_len-le (some q) s = quoted_len-le s q

-- not empty, and inside the text
abbrev pub InText : Text → ℕ × ℕ → Type 0
InText text (start, end) = (start < end) × (end ≤ length text)

cut_at-InText :
    (text : Text) (quote : Option ℕ) (vstart : ℕ) (cut : ℕ × ℕ)
    → cut_at text quote vstart ≡ some cut
    → InText text cut
unfolding cut_at
cut_at-InText text quote vstart (start, end) h =
    ground (arith, value_len-le quote (drop vstart text), length-drop vstart text)

value_cut-InText :
    (text : Text) (skip : Bool) (i : ℕ) (cut : ℕ × ℕ)
    → value_cut text skip i ≡ some cut
    → InText text cut
unfolding value_cut
value_cut-InText text skip i cut h =
    pick _ _ _ (cut_at-InText text _ _ cut) (cut_at-InText text _ _ cut) h
  where
    pick :
        (b : Bool) (x y : Option (ℕ × ℕ))
        → (x ≡ some cut → InText text cut)
        → (y ≡ some cut → InText text cut)
        → (if b then x else y) ≡ some cut
        → InText text cut
    pick true x y f g e = f e
    pick false x y f g e = g e

key_cut-InText :
    (text : Text) (start from : ℕ) (cut : ℕ × ℕ)
    → key_cut text start from ≡ some cut
    → InText text cut
unfolding key_cut
key_cut-InText text start from cut h =
    value_cut-InText text _ _ cut (unless _ _ cut (unless _ _ cut h))
  where
    unless :
        (b : Bool) (x : Option (ℕ × ℕ)) (cut : ℕ × ℕ)
        → (if b then none else x) ≡ some cut
        → x ≡ some cut
    unless true x cut e = cc
    unless false x cut e = e

-- What holds of every cut that `key_cut` makes holds of all cuts.
module _ (P : ℕ × ℕ → Type 0) (text : Text)
    (each : (start from : ℕ) (cut : ℕ × ℕ) → key_cut text start from ≡ some cut → P cut) where
  key_cuts-All :
      (fuel : ℕ) (lower key : Text) (from : ℕ) → All P (key_cuts fuel text lower key from)
  unfolding key_cuts
  key_cuts-All zero lower key from = tt
  key_cuts-All (suc fuel) lower key from =
      round (find_key key (drop from lower)) (λ next. key_cuts-All fuel lower key next)
    where
      put :
          (o : Option (ℕ × ℕ)) (rest : List (ℕ × ℕ))
          → ((cut : ℕ × ℕ) → o ≡ some cut → P cut)
          → All P rest
          → All P (elim o [ none ↦ rest | some cut ↦ cut ∷ rest ])
      put none rest f h = h
      put (some cut) rest f h = (f cut refl, h)

      round :
          (o : Option ℕ)
          → ((next : ℕ) → All P (key_cuts fuel text lower key next))
          → All P (elim o [
            | none ↦ []
            | some rel ↦
                let start = from + rel in
                let next = start + length key in
                let rest = key_cuts fuel text lower key next in
                elim (key_cut text start next) [ none ↦ rest | some cut ↦ cut ∷ rest ]
          ])
      round none ih = tt
      round (some rel) ih =
          let next = from + rel + length key in
          put (key_cut text (from + rel) next) (key_cuts fuel text lower key next)
            (each (from + rel) next) (ih next)

  pub all_cuts-All : (keys : List Text) → All P (all_cuts text keys)
  unfolding all_cuts
  all_cuts-All [] = tt
  all_cuts-All (key ∷ keys) =
      All-append P (key_cuts (suc (length text)) text (to_ascii_lowercase text) key 0)
        (all_cuts text keys) (key_cuts-All (suc (length text)) (to_ascii_lowercase text) key 0)
        (all_cuts-All keys)

-- Each cut, for each key, is a range of the text that is not empty.
pub all_cuts-InText : (text : Text) (keys : List Text) → All (InText text) (all_cuts text keys)
all_cuts-InText text = all_cuts-All (InText text) text (key_cut-InText text)
