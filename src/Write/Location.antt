-- ===== src/Write/Location.antt =====
-- The checks of src/rust/src/write.rs on the location of a table's metadata, and the choice of a
-- compression. `uuid::Uuid::parse_str` is a parameter.
pub mod Shape
use icebergr.Prelude.{
  ℕ, List, [], ◌∷◌, Bool, true, false, not, ◌&&◌, ◌||◌, Option, none, some, ◌==◌, if◌then◌else◌,
  Result, ok, err, unwrap_or,
}
use icebergr.Prelude.Int.{parse_signed}
use icebergr.Prelude.Text.{
  Text, codes, text_eq, strip_suffix, split_once, rsplit_once, ends_with, to_ascii_lowercase,
}

abbrev is_some : {A : Type 0} → Option A → Bool
is_some none = false
is_some (some a) = true

-- Why a successor cannot be committed.
pub data Why : Type 0 where
  not_slash_separated not_in_metadata not_conventional_name : Why

module _ (is_uuid : Text → Bool) where
  -- `<version>-<uuid>`
  unfoldable pub is_versioned_uuid : Text → Bool
  is_versioned_uuid stripped = elim (split_once (λ c. c == b'-') stripped) [
    | none ↦ false
    | some (version, id) ↦ is_some (parse_signed 32 version) && is_uuid id
  ]

  unfoldable pub metadata_name_is_committable : Text → Bool
  metadata_name_is_committable file_name = elim (strip_suffix (codes ".metadata.json") file_name) [
    | none ↦ false
    | some stripped ↦ is_versioned_uuid (unwrap_or (strip_suffix (codes ".gz") stripped) stripped)
  ]

  unfoldable pub uncommittable_because : Text → Option Why
  uncommittable_because location = elim (rsplit_once (λ c. c == b'/') location) [
    | none ↦ some Why.not_slash_separated
    | some (dir, file) ↦
        if not (ends_with (codes "/metadata") dir)
        then some Why.not_in_metadata
        else if not (metadata_name_is_committable file)
        then some Why.not_conventional_name
        else none
  ]

pub data Compression : Type 0 where
  zstd snappy gzip lz4_raw uncompressed : Compression

-- The unknown name is the error.
unfoldable pub compression_from : Text → Result Text Compression
compression_from name =
    let lower = to_ascii_lowercase name in
    if text_eq lower (codes "zstd")
    then ok Compression.zstd
    else if text_eq lower (codes "snappy")
    then ok Compression.snappy
    else if text_eq lower (codes "gzip")
    then ok Compression.gzip
    else if text_eq lower (codes "lz4")
    then ok Compression.lz4_raw
    else if text_eq lower (codes "uncompressed") || text_eq lower (codes "none")
    then ok Compression.uncompressed
    else err lower

unfoldable pub derives_next_metadata_location : Text → Bool
derives_next_metadata_location kind = text_eq kind (codes "memory") || text_eq kind (codes "glue")
