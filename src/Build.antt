-- ===== src/Build.antt =====
-- src/rust/src/lib.rs and src/rust/build.rs: what a build reports about itself. The features that Cargo
-- compiled in are a record, the same that the choice of a catalog reads.
mod Tests
pub mod Lock
pub mod Reported
use icebergr.Prelude.{List, [], ◌∷◌, ◌++◌, Bool, true, false, if◌then◌else◌, ℕ, ◌==◌}
use icebergr.Prelude.Text.{Text, codes}
use icebergr.Catalog.{Features}

unfoldable pub enabled_features : Features → List Text
enabled_features f =
    (if f.s3 then codes "s3" ∷ [] else []) ++ (if f.glue then codes "glue" ∷ [] else [])

-- the catalog types of `rs_build_info`
unfoldable pub catalogs : Features → List Text
catalogs f = (codes "rest" ∷ codes "memory" ∷ []) ++ (if f.glue then codes "glue" ∷ [] else [])

pub record BuildInfo : Type 0 where
  pub iceberg_rust_version : Text
  pub arrow_version : Text
  pub features : List Text
  pub catalogs : List Text
  pub object_storage : Bool

-- The versions are what build.rs put into the environment.
unfoldable pub rs_build_info : Text → Text → Features → BuildInfo
unfolding enabled_features catalogs
rs_build_info iceberg arrow f = record {
  iceberg_rust_version = iceberg;
  arrow_version = arrow;
  features = enabled_features f;
  catalogs = catalogs f;
  object_storage = f.s3;
}

-- `Robj`: an external pointer's address, or another type.
pub data Robj : Type 0 where
  external_ptr : ℕ → Robj
  other : Robj

unfoldable pub rs_ptr_is_null : Robj → Bool
rs_ptr_is_null (external_ptr addr) = addr == 0
rs_ptr_is_null other = true
