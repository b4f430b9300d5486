-- ===== src/Predicate/Typing/Leaves.antt =====
-- The pair of predicates of each leaf binds, for a column of the schema and literals of its type.
use icebergr.Prelude.{
  List, [], ◌∷◌, Bool, true, false, not, ◌&&◌, ◌≡◌, if◌then◌else◌, keep, All, is_empty, Bool-cases,
  List-cases, inl, inr, refl, arith,
}
use icebergr.Prelude.Text.{Text}
use icebergr.Iceberg.{PrimitiveType, Schema}
use icebergr.Predicate.Float.{binary32, binary64}
use icebergr.Predicate.Engine.{Engine}
use icebergr.Predicate.Cmp.{Cmp, negate}
use icebergr.Predicate.Build.{
  Truth, truth_not, is_float, is_string, apply, is_zero, zeros, zero_compare, float_compare,
  comparable, compare_truth, missing_truth, membership_truth, prefix_truth,
}
use icebergr.Predicate.Typing.{DatumTypes, IsColumn, Binding}
use icebergr.Predicate.Typing.Literals.{All-same}

module _ (E : Engine) (T : DatumTypes E) (schema : Schema) (B : Binding E schema T) where
  open E use {
    Datum, Predicate, reference_new, p_and, p_or, always_false, always_true, is_in, is_not_in,
  }
  open T use {type_of}
  open B use {Binds}

  -- both predicates of a pair bind
  abbrev pub BindsBoth : Truth Predicate → Type 0
  BindsBoth x = Binds x.t × Binds x.f

  pub truth_not-BindsBoth : (x : Truth Predicate) → BindsBoth x → BindsBoth (truth_not x)
  truth_not-BindsBoth x (bt, bf) = (bf, bt)

  if-Binds :
      (b : Bool) (p q : Predicate)
      → (b ≡ true → Binds p)
      → (b ≡ false → Binds q)
      → Binds (if b then p else q)
  if-Binds true p q h k = h refl
  if-Binds false p q h k = k refl

  if-BindsBoth :
      (b : Bool) (x y : Truth Predicate)
      → (b ≡ true → BindsBoth x)
      → (b ≡ false → BindsBoth y)
      → BindsBoth (if b then x else y)
  if-BindsBoth true x y h k = h refl
  if-BindsBoth false x y h k = k refl

  -- a comparison of the column `c` with a literal of its type
  apply-Binds :
      (op : Cmp) (c : Text) (d : Datum)
      → IsColumn E schema c (type_of d)
      → Binds (apply E op (reference_new c) d)
  unfolding apply
  apply-Binds Cmp.eq c d h = B.binds-equal_to c d h
  apply-Binds Cmp.ne c d h = B.binds-not_equal_to c d h
  apply-Binds Cmp.lt c d h = B.binds-less_than c d h
  apply-Binds Cmp.lte c d h = B.binds-less_than_or_equal_to c d h
  apply-Binds Cmp.gt c d h = B.binds-greater_than c d h
  apply-Binds Cmp.gte c d h = B.binds-greater_than_or_equal_to c d h

  zero_compare-Binds :
      (op : Cmp) (c : Text) (neg pos : Datum)
      → IsColumn E schema c (type_of neg)
      → IsColumn E schema c (type_of pos)
      → Binds (zero_compare E op (reference_new c) (neg, pos))
  unfolding zero_compare
  zero_compare-Binds Cmp.eq c neg pos h k =
      B.binds-and _ _ (B.binds-greater_than_or_equal_to c neg h)
        (B.binds-less_than_or_equal_to c pos k)
  zero_compare-Binds Cmp.ne c neg pos h k =
      B.binds-or _ _ (B.binds-less_than c neg h) (B.binds-greater_than c pos k)
  zero_compare-Binds Cmp.lt c neg pos h k = B.binds-less_than c neg h
  zero_compare-Binds Cmp.lte c neg pos h k = B.binds-less_than_or_equal_to c pos k
  zero_compare-Binds Cmp.gt c neg pos h k = B.binds-greater_than c pos k
  zero_compare-Binds Cmp.gte c neg pos h k = B.binds-greater_than_or_equal_to c neg h

  zeros-type_of :
      (ty : PrimitiveType)
      → is_float ty ≡ true
      → (type_of (zeros E ty).0 ≡ ty) × (type_of (zeros E ty).1 ≡ ty)
  unfolding zeros
  zeros-type_of PrimitiveType.float h = (T.type-float binary32.sign, T.type-float 0)
  zeros-type_of PrimitiveType.double h = (T.type-double binary64.sign, T.type-double 0)
  zeros-type_of _ h = absurd cc

  -- a column of the type of a literal
  typed_as :
      (c : Text) (d : Datum) (ty : PrimitiveType)
      → type_of d ≡ ty
      → IsColumn E schema c ty
      → IsColumn E schema c (type_of d)
  typed_as c d ty e h = rw e h

  float_compare-Binds :
      (op : Cmp) (c : Text) (d : Datum) (ty : PrimitiveType)
      → is_float ty ≡ true
      → type_of d ≡ ty
      → IsColumn E schema c ty
      → Binds (float_compare E op (reference_new c) d ty)
  unfolding float_compare
  float_compare-Binds op c d ty fl e h =
      let (eneg, epos) = zeros-type_of ty fl in
      if-Binds (is_zero E d) _ _
        (λ z.
          zero_compare-Binds op c (zeros E ty).0 (zeros E ty).1 (typed_as c _ ty eneg h)
            (typed_as c _ ty epos h))
        (λ z. apply-Binds op c d (typed_as c d ty e h))

  comparable-Binds :
      (c : Text) (ty : PrimitiveType)
      → IsColumn E schema c ty
      → Binds (comparable E (reference_new c) ty)
  unfolding comparable
  comparable-Binds c ty h =
      if-Binds (is_float ty) _ _
        (λ fl. B.binds-and _ _ (B.binds-is_not_null c ty h) (B.binds-is_not_nan c ty h fl))
        (λ nf. B.binds-is_not_null c ty h)

  pub compare_truth-BindsBoth :
      (op : Cmp) (c : Text) (ty : PrimitiveType) (d : Datum)
      → IsColumn E schema c ty
      → type_of d ≡ ty
      → BindsBoth (compare_truth E op (reference_new c) ty d)
  unfolding compare_truth
  compare_truth-BindsBoth op c ty d h e =
      let guard = comparable-Binds c ty h in
      let here = typed_as c d ty e h in
      if-BindsBoth (not (is_float ty)) _ _
        (λ nf. (
          B.binds-and _ _ (apply-Binds op c d here) guard,
          B.binds-and _ _ (apply-Binds (negate op) c d here) guard,
        ))
        (λ n.
          let fl : is_float ty ≡ true = ground arith in
          (
            B.binds-and _ _ (float_compare-Binds op c d ty fl e h) guard,
            B.binds-and _ _ (float_compare-Binds (negate op) c d ty fl e h) guard,
          ))

  pub missing_truth-BindsBoth :
      (c : Text) (ty : PrimitiveType)
      → IsColumn E schema c ty
      → BindsBoth (missing_truth E (reference_new c) ty)
  unfolding missing_truth
  missing_truth-BindsBoth c ty h =
      if-BindsBoth (is_float ty) _ _
        (λ fl. (
          B.binds-or _ _ (B.binds-is_null c ty h) (B.binds-is_nan c ty h fl),
          B.binds-and _ _ (B.binds-is_not_null c ty h) (B.binds-is_not_nan c ty h fl),
        ))
        (λ nf. (B.binds-is_null c ty h, B.binds-is_not_null c ty h))

  pub prefix_truth-BindsBoth :
      (c : Text) (ty : PrimitiveType) (d : Datum)
      → IsColumn E schema c ty
      → is_string ty ≡ true
      → type_of d ≡ ty
      → BindsBoth (prefix_truth E (reference_new c) ty d)
  unfolding prefix_truth
  prefix_truth-BindsBoth c PrimitiveType.string d h s e =
      let guard = comparable-Binds c PrimitiveType.string h in
      (
        B.binds-and _ _ (B.binds-starts_with c d h e) guard,
        B.binds-and _ _ (B.binds-not_starts_with c d h e) guard,
      )
  prefix_truth-BindsBoth c _ d h s e = absurd cc

  keep-type_of :
      (keeps : Datum → Bool) (ty : PrimitiveType) (ds : List Datum)
      → All (λ d. type_of d ≡ ty) ds
      → All (λ d. type_of d ≡ ty) (keep keeps ds)
  keep-type_of keeps ty [] h = tt
  keep-type_of keeps ty (d ∷ ds) (hd, h) = elim (Bool-cases (keeps d)) [
    | inl e ↦ rw e (hd, keep-type_of keeps ty ds h)
    | inr e ↦ rw e (keep-type_of keeps ty ds h)
  ]

  -- the literals that a set keeps as zeros are those of a float column
  keep-is_float :
      (p : Datum → Bool) (float : Bool) (ds : List Datum) (z : Datum) (zs : List Datum)
      → keep (λ d. float && p d) ds ≡ z ∷ zs
      → float ≡ true
  keep-is_float p true ds z zs h = refl
  keep-is_float p false [] z zs h = cc
  keep-is_float p false (d ∷ ds) z zs h = keep-is_float p false ds z zs h

  absent-Binds :
      (c : Text) (ty : PrimitiveType)
      → IsColumn E schema c ty
      → Binds (
          if is_float ty
          then p_or (E.is_null (reference_new c)) (E.is_nan (reference_new c))
          else E.is_null (reference_new c))
  absent-Binds c ty h =
      if-Binds (is_float ty) _ _
        (λ fl. B.binds-or _ _ (B.binds-is_null c ty h) (B.binds-is_nan c ty h fl))
        (λ nf. B.binds-is_null c ty h)

  pub membership_truth-BindsBoth :
      (c : Text) (ty : PrimitiveType) (ds : List Datum)
      → IsColumn E schema c ty
      → All (λ d. type_of d ≡ ty) ds
      → BindsBoth (membership_truth E (reference_new c) ty ds)
  unfolding membership_truth
  membership_truth-BindsBoth c ty ds h hs =
      let float = is_float ty in
      let rest = keep (λ d. not (float && is_zero E d)) ds in
      let hr = keep-type_of (λ d. not (float && is_zero E d)) ty ds hs in
      let t0 =
        if-Binds (is_empty rest) always_false (is_in (reference_new c) rest) (λ e. B.binds-false)
          (λ e. B.binds-is_in c ty rest h hr) in
      let f0 =
        if-Binds (is_empty rest) always_true (is_not_in (reference_new c) rest) (λ e. B.binds-true)
          (λ e. B.binds-is_not_in c ty rest h hr) in
      let absent = absent-Binds c ty h in
      let hz = keep-type_of (λ d. float && is_zero E d) ty ds hs in
      elim (List-cases (keep (λ d. float && is_zero E d) ds)) [
        | inl e ↦ rw (membership_truth, e) (t0, B.binds-or _ _ f0 absent)
        | inr (z, zs, e) ↦
            let fl = keep-is_float (is_zero E) float ds z zs e in
            let (typed, _) = All-same E T ty _ (z ∷ zs) e hz in
            rw (membership_truth, e)
              (
                B.binds-or _ _ t0 (float_compare-Binds Cmp.eq c z ty fl typed h),
                B.binds-or _ _ (B.binds-and _ _ f0 (float_compare-Binds Cmp.ne c z ty fl typed h))
                    absent,
              )
      ]
