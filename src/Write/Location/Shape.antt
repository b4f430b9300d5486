-- ===== src/Write/Location/Shape.antt =====
-- A location that passes the check has the shape <dir>/metadata/<version>-<uuid>[.gz].metadata.json.
use icebergr.Prelude.{
  ℕ, [], ◌∷◌, ◌++◌, append-nil, Bool, true, none, some, ◌≡◌, refl, sym, ap, ◌∙◌, ◌⊎◌, inl, inr,
  arith, ◌==◌, Option-cases, Bool-cases,
}
use icebergr.Prelude.Int.{ℤ, parse_signed}
use icebergr.Prelude.Text.{
  Text, codes, text_eq, text_eq→eq, strip_suffix, split_once, rsplit_once, ends_with,
}
use icebergr.Write.Location.{is_versioned_uuid, metadata_name_is_committable, uncommittable_because}

strip_suffix-append : (p s r : Text) → strip_suffix p s ≡ some r → s ≡ r ++ p
strip_suffix-append p [] r h = elim (Bool-cases (text_eq p [])) [
  | inl e ↦ let q : ◌≡◌ {A = Text} [] r = ground arith in rw (← q) (sym (text_eq→eq p [] e))
  | inr e ↦ absurd (ground arith)
]
strip_suffix-append p (c ∷ s) r h = elim (Bool-cases (text_eq p (c ∷ s))) [
  | inl e ↦ let q : ◌≡◌ {A = Text} [] r = ground arith in rw (← q) (sym (text_eq→eq p (c ∷ s) e))
  | inr e ↦ elim (Option-cases (strip_suffix p s)) [
    | inl n ↦ absurd (ground arith)
    | inr (r', e') ↦
        let q : ◌≡◌ {A = Text} (c ∷ r') r = ground arith in
        rw (← q) (ap (λ (t : Text). c ∷ t) (strip_suffix-append p s r' e'))
  ]
]

split_once-append :
    (d : ℕ) (s a b : Text) → split_once (λ c. c == d) s ≡ some (a, b) → s ≡ a ++ d ∷ b
split_once-append d [] a b h = cc
split_once-append d (c ∷ s) a b h = elim (Option-cases (split_once (λ c. c == d) s)) [
  | inl n ↦ ground arith
  | inr ((a', b'), e) ↦ ground (arith, split_once-append d s a' b' e)
]

rsplit_once-append :
    (d : ℕ) (s a b : Text) → rsplit_once (λ c. c == d) s ≡ some (a, b) → s ≡ a ++ d ∷ b
rsplit_once-append d [] a b h = cc
rsplit_once-append d (c ∷ s) a b h = elim (Option-cases (rsplit_once (λ c. c == d) s)) [
  | inl n ↦ ground arith
  | inr ((a', b'), e) ↦ ground (arith, rsplit_once-append d s a' b' e)
]

ends_with-append : (p s : Text) → ends_with p s ≡ true → (r : Text) × (s ≡ r ++ p)
ends_with-append p [] h = ([], sym (text_eq→eq p [] h))
ends_with-append p (c ∷ s) h = elim (Bool-cases (text_eq p (c ∷ s))) [
  | inl e ↦ ([], sym (text_eq→eq p (c ∷ s) e))
  | inr e ↦ let (r, q) = ends_with-append p s (ground arith) in (c ∷ r, ap (λ (t : Text). c ∷ t) q)
]

-- A conventional name, taken apart.
pub record IsConventional (is_uuid : Text → Bool) (file : Text) : Type 0 where
  pub version : Text
  pub number : ℤ
  pub id : Text
  pub gz : Text
  pub reads : parse_signed 32 version ≡ some number
  pub uuid : is_uuid id ≡ true
  pub compressed : (gz ≡ []) ⊎ (gz ≡ codes ".gz")
  pub spelled : file ≡ ((version ++ b'-' ∷ id) ++ gz) ++ codes ".metadata.json"

module _ (is_uuid : Text → Bool) where
  abbrev VersionedUuid : Text → Type 0
  VersionedUuid s =
      (version : Text) × (id : Text) × (number : ℤ) × (parse_signed 32 version ≡ some number)
      × (is_uuid id ≡ true)
      × (s ≡ version ++ b'-' ∷ id)

  versioned : (s : Text) → is_versioned_uuid is_uuid s ≡ true → VersionedUuid s
  unfolding is_versioned_uuid
  versioned s h = elim (Option-cases (split_once (λ c. c == b'-') s)) [
    | inl n ↦ absurd (ground arith)
    | inr ((version, id), e) ↦ elim (Option-cases (parse_signed 32 version)) [
      | inl n ↦ absurd (ground arith)
      | inr (number, r) ↦
          (version, id, number, r, ground arith, split_once-append b'-' s version id e)
    ]
  ]

  conventional :
      (file : Text) → metadata_name_is_committable is_uuid file ≡ true → IsConventional is_uuid file
  unfolding metadata_name_is_committable
  conventional file h = elim (Option-cases (strip_suffix (codes ".metadata.json") file)) [
    | inl n ↦ absurd (ground arith)
    | inr (stripped, e) ↦ elim (Option-cases (strip_suffix (codes ".gz") stripped)) [
      | inl n ↦
          let (version, id, number, r, u, sp) = versioned stripped (ground arith) in
          record {
            version = version;
            number = number;
            id = id;
            gz = [];
            reads = r;
            uuid = u;
            compressed = inl refl;
            spelled =
                strip_suffix-append (codes ".metadata.json") file stripped e
                ∙ ap (λ (t : Text). t ++ codes ".metadata.json")
                    (sp ∙ sym (append-nil (version ++ b'-' ∷ id)));
          }
      | inr (bare, g) ↦
          let (version, id, number, r, u, sp) = versioned bare (ground arith) in
          record {
            version = version;
            number = number;
            id = id;
            gz = codes ".gz";
            reads = r;
            uuid = u;
            compressed = inr refl;
            spelled =
                strip_suffix-append (codes ".metadata.json") file stripped e
                ∙ ap (λ (t : Text). t ++ codes ".metadata.json")
                    (strip_suffix-append (codes ".gz") stripped bare g
                      ∙ ap (λ (t : Text). t ++ codes ".gz") sp);
          }
    ]
  ]

-- When the check finds nothing wrong with a location, it is a file named
-- `<version>-<uuid>.metadata.json`, or the same with `.gz` in front of `.metadata.json`, in a directory
-- whose path ends in `/metadata`; the version reads as an `i32` and the id as a uuid.
pub uncommittable_because-none :
    (is_uuid : Text → Bool) (location : Text)
    → uncommittable_because is_uuid location ≡ none
    → (above : Text) × (file : Text) × (location ≡ (above ++ codes "/metadata") ++ b'/' ∷ file)
      × IsConventional is_uuid file
unfolding uncommittable_because
uncommittable_because-none is_uuid location h =
    elim (Option-cases (rsplit_once (λ c. c == b'/') location)) [
      | inl n ↦ absurd (ground arith)
      | inr ((dir, file), e) ↦
          let (above, d) = ends_with-append (codes "/metadata") dir (ground arith) in
          (
            above,
            file,
            rsplit_once-append b'/' location dir file e ∙ ap (λ (t : Text). t ++ b'/' ∷ file) d,
            conventional is_uuid file (ground arith),
          )
    ]
