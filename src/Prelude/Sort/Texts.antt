-- ===== src/Prelude/Sort/Texts.antt =====
-- The order of texts is total, and tells any two texts apart.
use mathlib.Core.Path.{◌≡◌, refl}
use mathlib.Core.Bool.{true, false}
use mathlib.Core.List.{[], ◌∷◌}
use native.Mathlib.Omega.{arith}
use icebergr.Prelude.Text.{Text}
use icebergr.Prelude.Sort.{text_le}

pub text_le_total : (s t : Text) → text_le s t ≡ false → text_le t s ≡ true
text_le_total [] t h = absurd cc
text_le_total (c ∷ s) [] h = refl
text_le_total (c ∷ s) (d ∷ t) h = ground (arith, text_le_total s t)

pub text_le_trans : (s t u : Text) → text_le s t ≡ true → text_le t u ≡ true → text_le s u ≡ true
text_le_trans [] t u h k = refl
text_le_trans (c ∷ s) [] u h k = absurd cc
text_le_trans (c ∷ s) (d ∷ t) [] h k = absurd cc
text_le_trans (c ∷ s) (d ∷ t) (e ∷ u) h k = ground (arith, text_le_trans s t u)

pub text_le_antisymm : (s t : Text) → text_le s t ≡ true → text_le t s ≡ true → s ≡ t
text_le_antisymm [] [] h k = refl
text_le_antisymm [] (d ∷ t) h k = absurd cc
text_le_antisymm (c ∷ s) [] h k = absurd cc
text_le_antisymm (c ∷ s) (d ∷ t) h k =
    let same : c ≡ d = ground arith in
    let tails = text_le_antisymm s t (ground arith) (ground arith) in cc
