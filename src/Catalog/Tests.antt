-- ===== src/Catalog/Tests.antt =====
-- The unit tests of src/rust/src/catalog.rs, and the theorems at concrete inputs.
use icebergr.Prelude.{◌↔◌, ◌≡◌, refl, [], ◌∷◌, true, false, none, some}
use icebergr.Prelude.Text.{Text, codes}
use icebergr.Errors.{message}
use icebergr.Catalog.{
  has_scheme, resolve_storage, Features, Kind, Request, StorageFactory, request, unknown_storage,
  collect,
}
use icebergr.Catalog.Scheme.{IsLocation, has_scheme_iff}
use icebergr.Catalog.Connect.{IsRefusal, request-IsRefusal}

upper_case_scheme : has_scheme (codes "S3://bucket/wh") (codes "s3") ≡ true
unfolding has_scheme
upper_case_scheme = refl

nothing_after_scheme : has_scheme (codes "s3://") (codes "s3") ≡ false
unfolding has_scheme
nothing_after_scheme = refl

auto_reads_the_warehouse :
    resolve_storage (codes "auto") (some (codes "C:/data/wh")) ≡ codes "local"
unfolding resolve_storage
auto_reads_the_warehouse = refl

name_leaves_the_default :
    resolve_storage (codes "auto") (some (codes "analytics")) ≡ codes "default"
unfolding resolve_storage
name_leaves_the_default = refl

choice_is_kept : resolve_storage (codes "local") (some (codes "s3://bucket/wh")) ≡ codes "local"
unfolding resolve_storage
choice_is_kept = refl

has_scheme_iff_example :
    (has_scheme (codes "S3://b") (codes "s3") ≡ true) ↔ IsLocation (codes "S3://b") (codes "s3")
has_scheme_iff_example = has_scheme_iff (codes "S3://b") (codes "s3")

abbrev small : Features
small = record { s3 = false; glue = false }

request-IsRefusal_example :
    IsRefusal (codes "memory") (codes "ftp") (message (unknown_storage (codes "ftp")))
unfolding request
request-IsRefusal_example =
    request-IsRefusal small (codes "memory") (codes "c") (codes "ftp") (codes "secret" ∷ [])
      (codes "hunter2" ∷ []) (message (unknown_storage (codes "ftp"))) refl

abbrev in_memory : Request
in_memory = record {
  kind = Kind.memory;
  name = codes "c";
  props = collect (λ (t : Text). none) [] [];
  storage = some StorageFactory.local_fs;
}
