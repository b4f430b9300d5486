-- ===== src/Prelude/Results.antt =====
-- Rust's `Result<T, E>`, its `?` as a bind, and `Option`'s `?` under another name.
use mathlib.Core.Path.{◌≡◌, refl}
use mathlib.Core.Logic.{◌⊎◌, inl, inr}
use mathlib.Core.Option.{Option, none, some}
use mathlib.Core.List.{List, [], ◌∷◌}

pub data Result {ℓ κ} (E : Type ℓ) (A : Type κ) : Type (ℓ ⊔ κ) where
  ok : A → Result E A
  err : E → Result E A

module _ {ℓ κ ι} {E : Type ℓ} {A : Type κ} {B : Type ι} where
  infixl 5 ◌>>=◌
  abbrev pub ◌>>=◌ : Result E A → (A → Result E B) → Result E B
  err why >>= next = err why
  ok value >>= next = next value

-- `map_err`, `ok_or`, `or_else` and `Option::map`
abbrev pub map_err {ℓ κ ι} :
    {E : Type ℓ} {F : Type κ} {A : Type ι} → (E → F) → Result E A → Result F A
map_err f (ok a) = ok a
map_err f (err e) = err (f e)

abbrev pub ok_or {ℓ κ} : {E : Type ℓ} {A : Type κ} → Option A → E → Result E A
ok_or none e = err e
ok_or (some a) e = ok a

abbrev pub or_else {ℓ κ} : {E : Type ℓ} {A : Type κ} → Result E A → Result E A → Result E A
or_else (ok a) other = ok a
or_else (err e) other = other

abbrev pub or_else? {ℓ} : {A : Type ℓ} → Option A → Option A → Option A
or_else? none other = other
or_else? (some a) other = some a

abbrev pub and_then {ℓ κ} : {A : Type ℓ} {B : Type κ} → Option A → (A → Option B) → Option B
and_then none f = none
and_then (some a) f = f a

abbrev pub unwrap_or {ℓ} : {A : Type ℓ} → Option A → A → A
unwrap_or none d = d
unwrap_or (some a) d = a

-- `collect::<Result<Vec<_>, _>>()`: the first error, or every value in order.
unfoldable pub traverse {ℓ κ ι} :
    {E : Type ℓ} {A : Type κ} {B : Type ι} → (A → Result E B) → List A → Result E (List B)
traverse f [] = ok []
traverse f (x ∷ xs) = let rest = traverse f xs in f x >>= λ b. rest >>= λ bs. ok (b ∷ bs)

-- Inversion of a successful bind, for proofs where the parts stay shut.
pub >>=-eq-ok {ℓ κ ι} :
    {E : Type ℓ} {A : Type κ} {B : Type ι} (first : Result E A) (next : A → Result E B) {out : B}
    → (first >>= next) ≡ ok out
    → (mid : A) × (first ≡ ok mid) × (next mid ≡ ok out)
>>=-eq-ok (err why) next e = cc
>>=-eq-ok (ok mid) next e = (mid, refl, e)

pub Result-cases {ℓ κ} :
    {E : Type ℓ} {A : Type κ} (m : Result E A) → ((e : E) × (m ≡ err e)) ⊎ ((a : A) × (m ≡ ok a))
Result-cases (ok a) = inr (a, refl)
Result-cases (err e) = inl (e, refl)
