-- ===== src/Build/Reported.antt =====
-- What a build reports is what it does.
use icebergr.Prelude.{
  ◌≡◌, Bool, true, false, any, some, Result, ok, err, arith, Bool-cases, inl, inr,
}
use icebergr.Prelude.Text.{Text, codes, text_eq}
use icebergr.Catalog.{Features, Properties, StorageFactory, by_kind, connect_glue}
use icebergr.Build.{catalogs}

abbrev pub is_ok {ℓ κ} : {E : Type ℓ} {A : Type κ} → Result E A → Bool
is_ok (ok a) = true
is_ok (err e) = false

-- The catalog types that a build lists are those that it opens, given a storage backend.
pub catalogs-by_kind :
    (f : Features) (kind name : Text) (props : Properties) (s : StorageFactory)
    → any (text_eq kind) (catalogs f) ≡ is_ok (by_kind f kind name props (some s))
unfolding catalogs by_kind
catalogs-by_kind f kind name props s = elim (Bool-cases (text_eq kind (codes "memory"))) [
  | inl a ↦ ground (arith, a)
  | inr a ↦ elim (Bool-cases (text_eq kind (codes "rest"))) [
    | inl b ↦ ground (arith, a, b)
    | inr b ↦ elim (Bool-cases (text_eq kind (codes "glue"))) [
      | inl c ↦ elim (Bool-cases f.glue) [
        | inl d ↦ rw (by_kind, connect_glue, a, b, c, d) (ground (arith, c))
        | inr d ↦ rw (by_kind, connect_glue, a, b, c, d) (ground (arith, c))
      ]
      | inr c ↦ elim (Bool-cases f.glue) [
        | inl d ↦ rw (by_kind, connect_glue, a, b, c, d) (ground (arith, c))
        | inr d ↦ rw (by_kind, connect_glue, a, b, c, d) (ground (arith, c))
      ]
    ]
  ]
]
