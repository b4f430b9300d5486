-- ===== src/Catalog/Connect.antt =====
-- What a connection is made with, and what its errors can say.
use mathlib.Core.Path.{subst}
use icebergr.Prelude.{
  List, ◌≡◌, refl, ◌⊎◌, inl, inr, Option, none, some, arith, length, ◌==◌, ◌||◌, ok, err,
  Bool-cases, Option-cases, Result-cases, unwrap_or,
}
use icebergr.Prelude.Text.{Text, codes, text_eq}
use icebergr.Errors.{RError, not_compiled_in, message}
use icebergr.Catalog.{
  has_scheme, looks_like_local_path, resolve_storage, StorageFactory, local_fs, Message,
  lengths_differ, unknown_storage, unknown_kind, Features, s3_factory, storage_factory, Properties,
  collect, Kind, Request, connect_glue, by_kind, request,
}

-- The refusals that a connection can meet before a catalog is asked.
pub data IsRefusal (kind storage : Text) : RError Message → Type 0 where
  lengths : IsRefusal kind storage (message lengths_differ)
  backend : IsRefusal kind storage (message (unknown_storage storage))
  no_s3 : IsRefusal kind storage (not_compiled_in (codes "Object storage (S3) access") (codes "s3"))
  no_glue : IsRefusal kind storage (not_compiled_in (codes "The AWS Glue catalog") (codes "glue"))
  catalog : IsRefusal kind storage (message (unknown_kind kind))

-- what `auto` can resolve to, or the choice itself
resolve_storage-cases :
    (storage : Text) (warehouse : Option Text)
    → (resolve_storage storage warehouse ≡ storage)
      ⊎ ((resolve_storage storage warehouse ≡ codes "s3")
          ⊎ ((resolve_storage storage warehouse ≡ codes "local")
              ⊎ (resolve_storage storage warehouse ≡ codes "default")))
unfolding resolve_storage
resolve_storage-cases storage none = elim (Bool-cases (text_eq storage (codes "auto"))) [
  | inl e ↦ rw e (inr (inr (inr refl)))
  | inr e ↦ rw e (inl refl)
]
resolve_storage-cases storage (some w) = elim (Bool-cases (text_eq storage (codes "auto"))) [
  | inl e ↦ elim (Bool-cases (has_scheme w (codes "s3") || has_scheme w (codes "s3a"))) [
    | inl k ↦ rw (e, k) (inr (inl refl))
    | inr k ↦ elim (Bool-cases (looks_like_local_path w)) [
      | inl l ↦ rw (e, k, l) (inr (inr (inl refl)))
      | inr l ↦ rw (e, k, l) (inr (inr (inr refl)))
    ]
  ]
  | inr e ↦ rw e (inl refl)
]

s3_factory-IsRefusal :
    (kind storage : Text) (f : Features) (e : RError Message)
    → s3_factory f ≡ err e
    → IsRefusal kind storage e
unfolding s3_factory
s3_factory-IsRefusal kind storage f e h = elim (Bool-cases f.s3) [
  | inl k ↦ absurd (ground arith)
  | inr k ↦ subst (IsRefusal kind storage) (ground arith) no_s3
]

storage_factory-IsRefusal :
    (kind storage : Text) (warehouse : Option Text) (f : Features) (e : RError Message)
    → storage_factory f storage warehouse ≡ err e
    → IsRefusal kind storage e
unfolding storage_factory
storage_factory-IsRefusal kind storage warehouse f e h =
    elim (resolve_storage-cases storage warehouse) [
      | inl k ↦ elim (Bool-cases (text_eq storage (codes "local"))) [
        | inl l ↦ absurd (ground arith)
        | inr l ↦ elim (Bool-cases (text_eq storage (codes "s3"))) [
          | inl m ↦ elim (Result-cases (s3_factory f)) [
            | inl (d, hd) ↦
                subst (IsRefusal kind storage) (ground arith)
                  (s3_factory-IsRefusal kind storage f d hd)
            | inr (d, hd) ↦ absurd (ground arith)
          ]
          | inr m ↦ elim (Bool-cases (text_eq storage (codes "default"))) [
            | inl n ↦ absurd (ground arith)
            | inr n ↦ subst (IsRefusal kind storage) (ground arith) backend
          ]
        ]
      ]
      | inr (inl k) ↦ elim (Result-cases (s3_factory f)) [
        | inl (d, hd) ↦
            subst (IsRefusal kind storage) (ground arith) (s3_factory-IsRefusal kind storage f d hd)
        | inr (d, hd) ↦ absurd (ground arith)
      ]
      | inr (inr (inl k)) ↦ absurd (ground arith)
      | inr (inr (inr k)) ↦ absurd (ground arith)
    ]

by_kind-IsRefusal :
    (kind name storage : Text) (props : Properties) (factory : Option StorageFactory) (f : Features)
    (e : RError Message)
    → by_kind f kind name props factory ≡ err e
    → IsRefusal kind storage e
unfolding by_kind connect_glue
by_kind-IsRefusal kind name storage props factory f e h =
    elim (Bool-cases (text_eq kind (codes "memory"))) [
      | inl a ↦ absurd (ground arith)
      | inr a ↦ elim (Bool-cases (text_eq kind (codes "rest"))) [
        | inl b ↦ absurd (ground arith)
        | inr b ↦ elim (Bool-cases (text_eq kind (codes "glue"))) [
          | inr c ↦ subst (IsRefusal kind storage) (ground arith) catalog
          | inl c ↦ elim (Bool-cases f.glue) [
            | inr d ↦ subst (IsRefusal kind storage) (ground arith) no_glue
            | inl d ↦ elim (Option-cases factory) [
              | inr (x, hx) ↦ absurd (ground arith)
              | inl n ↦ elim (Result-cases (s3_factory f)) [
                | inl (y, hy) ↦
                    subst (IsRefusal kind storage) (ground arith)
                      (s3_factory-IsRefusal kind storage f y hy)
                | inr (y, hy) ↦ absurd (ground arith)
              ]
            ]
          ]
        ]
      ]
    ]

-- Whatever properties are given, a connection that is refused before the catalog is asked is refused
-- with one of five messages, which quote the storage or the catalog kind at most: no property value.
pub request-IsRefusal :
    (f : Features) (kind name storage : Text) (keys values : List Text) (e : RError Message)
    → request f kind name storage keys values ≡ err e
    → IsRefusal kind storage e
unfolding request
request-IsRefusal f kind name storage keys values e h =
    let props = collect (λ (t : Text). none) keys values in
    elim (Bool-cases (length keys == length values)) [
      | inr l ↦ subst (IsRefusal kind storage) (ground arith) lengths
      | inl l ↦ elim (Result-cases (storage_factory f storage (props (codes "warehouse")))) [
        | inl (d, hd) ↦
            subst (IsRefusal kind storage) (ground arith)
              (storage_factory-IsRefusal kind storage (props (codes "warehouse")) f d hd)
        | inr (d, hd) ↦ by_kind-IsRefusal kind name storage props d f e (ground arith)
      ]
    ]

by_kind-storage :
    (kind name : Text) (props : Properties) (factory : Option StorageFactory) (f : Features)
    (r : Request)
    → by_kind f kind name props factory ≡ ok r
    → (r.kind ≡ Kind.rest) ⊎ ((s : StorageFactory) × (r.storage ≡ some s))
unfolding by_kind connect_glue
by_kind-storage kind name props factory f r h = elim (Bool-cases (text_eq kind (codes "memory"))) [
  | inl a ↦ inr (unwrap_or factory local_fs, ground arith)
  | inr a ↦ elim (Bool-cases (text_eq kind (codes "rest"))) [
    | inl b ↦ inl (ground arith)
    | inr b ↦ elim (Bool-cases (text_eq kind (codes "glue"))) [
      | inr c ↦ absurd (ground arith)
      | inl c ↦ elim (Option-cases factory) [
        | inr (x, hx) ↦ inr (x, ground arith)
        | inl n ↦ elim (Result-cases (s3_factory f)) [
          | inl (y, hy) ↦ absurd (ground arith)
          | inr (y, hy) ↦ inr (y, ground arith)
        ]
      ]
    ]
  ]
]

-- A memory or a Glue catalog is always opened with a storage backend chosen: never with the builder's
-- default, which for a memory catalog would keep the warehouse in memory only.
pub request-storage :
    (f : Features) (kind name storage : Text) (keys values : List Text) (r : Request)
    → request f kind name storage keys values ≡ ok r
    → (r.kind ≡ Kind.rest) ⊎ ((s : StorageFactory) × (r.storage ≡ some s))
unfolding request
request-storage f kind name storage keys values r h =
    let props = collect (λ (t : Text). none) keys values in
    elim (Bool-cases (length keys == length values)) [
      | inr l ↦ absurd (ground arith)
      | inl l ↦ elim (Result-cases (storage_factory f storage (props (codes "warehouse")))) [
        | inl (d, hd) ↦ absurd (ground arith)
        | inr (d, hd) ↦ by_kind-storage kind name props d f r (ground arith)
      ]
    ]
