-- ===== src/Catalog.antt =====
-- src/rust/src/catalog.rs: the choice of a storage backend, and the connection to a catalog. A build's
-- features are a record, and opening a catalog, which iceberg-rust's builders do, is a parameter.
pub mod Scheme
pub mod Connect
pub mod Namespaces
mod Tests
use icebergr.Prelude.{
  ℕ, ◌+◌, List, [], ◌∷◌, Bool, true, false, not, ◌&&◌, ◌||◌, Option, none, some, ◌==◌, ltb,
  if◌then◌else◌, length, take, drop, Result, ok, err, ◌>>=◌, map_err, unwrap_or, get_elem?,
}
use icebergr.Prelude.Text.{
  Text, codes, text_eq, to_ascii_lowercase, starts_with, is_ascii_alphabetic,
}
use icebergr.Errors.{RError, ctx, config_err, not_compiled_in, message}

unfoldable pub has_scheme : Text → Text → Bool
has_scheme w scheme =
    ltb (length scheme + 3) (length w)
    && text_eq (to_ascii_lowercase (take (length scheme) w)) (to_ascii_lowercase scheme)
    && starts_with (codes "://") (drop (length scheme) w)

-- `b.len() > 2` and the three tests of the leading bytes
abbrev has_drive_letter : Text → Bool
has_drive_letter (b0 ∷ b1 ∷ b2 ∷ rest) =
    is_ascii_alphabetic b0 && b1 == b':' && (b2 == b'\\' || b2 == b'/')
has_drive_letter w = false

unfoldable pub looks_like_local_path : Text → Bool
unfolding has_scheme
looks_like_local_path w =
    has_scheme w (codes "file") || starts_with (codes "/") w || has_drive_letter w

unfoldable pub resolve_storage : Text → Option Text → Text
unfolding has_scheme looks_like_local_path
resolve_storage storage warehouse =
    if not (text_eq storage (codes "auto")) then storage else elim warehouse [
      | some w ↦
          if has_scheme w (codes "s3") || has_scheme w (codes "s3a")
          then codes "s3"
          else if looks_like_local_path w
          then codes "local"
          else codes "default"
      | none ↦ codes "default"
    ]

pub data StorageFactory : Type 0 where
  local_fs s3 : StorageFactory

pub data Message : Type 0 where
  lengths_differ : Message
  unknown_storage unknown_kind : Text → Message

-- The Cargo features that the module tests.
pub record Features : Type 0 where
  pub s3 : Bool
  pub glue : Bool

unfoldable pub s3_factory : Features → Result (RError Message) StorageFactory
s3_factory f =
    if f.s3
    then ok StorageFactory.s3
    else err (not_compiled_in (codes "Object storage (S3) access") (codes "s3"))

unfoldable pub storage_factory :
    Features → Text → Option Text → Result (RError Message) (Option StorageFactory)
unfolding resolve_storage s3_factory
storage_factory f storage warehouse =
    let chosen = resolve_storage storage warehouse in
    if text_eq chosen (codes "local")
    then ok (some StorageFactory.local_fs)
    else if text_eq chosen (codes "s3")
    then (s3_factory f >>= λ s. ok (some s))
    else if text_eq chosen (codes "default")
    then ok none
    else err (message (unknown_storage chosen))

-- A `HashMap<String, String>`, as what `get` answers.
abbrev pub Properties : Type 0
Properties = Text → Option Text

-- `keys.zip(values).collect()`: of two equal keys the later wins.
abbrev pub collect : Properties → List Text → List Text → Properties
collect m [] values = m
collect m (k ∷ keys) [] = m
collect m (k ∷ keys) (v ∷ values) =
    collect (λ (t : Text). if text_eq t k then some v else m t) keys values

pub data Kind : Type 0 where
  memory rest glue : Kind

-- What a builder is loaded with; no storage is the builder's own default.
pub record Request : Type 0 where
  pub kind : Kind
  pub name : Text
  pub props : Properties
  pub storage : Option StorageFactory

unfoldable pub connect_glue :
    Features → Text → Properties → Option StorageFactory → Result (RError Message) Request
unfolding s3_factory
connect_glue f name props factory =
    if f.glue
    then elim factory [
      | some s ↦ ok (record { kind = Kind.glue; name = name; props = props; storage = some s })
      | none ↦ s3_factory f >>= λ s.
          ok (record { kind = Kind.glue; name = name; props = props; storage = some s })
    ]
    else err (not_compiled_in (codes "The AWS Glue catalog") (codes "glue"))

unfoldable pub by_kind :
    Features → Text → Text → Properties → Option StorageFactory → Result (RError Message) Request
unfolding connect_glue
by_kind f kind name props factory =
    if text_eq kind (codes "memory")
    then ok (record {
      kind = Kind.memory;
      name = name;
      props = props;
      storage = some (unwrap_or factory StorageFactory.local_fs);
    })
    else if text_eq kind (codes "rest")
    then ok (record { kind = Kind.rest; name = name; props = props; storage = factory })
    else if text_eq kind (codes "glue")
    then connect_glue f name props factory
    else err (message (unknown_kind kind))

-- `rs_catalog_connect` up to the builder.
unfoldable pub request :
    Features → Text → Text → Text → List Text → List Text → Result (RError Message) Request
unfolding storage_factory by_kind
request f kind name storage keys values =
    if not (length keys == length values)
    then err (message lengths_differ)
    else let props = collect (λ (t : Text). none) keys values in
      storage_factory f storage (props (codes "warehouse")) >>= λ factory.
      by_kind f kind name props factory

abbrev pub failure : Kind → Text
failure Kind.memory = codes "could not open the memory catalog"
failure Kind.rest = codes "could not connect to the REST catalog"
failure Kind.glue = codes "could not connect to the AWS Glue catalog"

-- `load` is what `block_on(builder.load(..))` gives: the catalog, or the upstream error's text.
unfoldable pub rs_catalog_connect :
    {C : Type 0}
    → (Request → Result Text C)
    → Features
    → Text
    → Text
    → Text
    → List Text
    → List Text
    → Result (RError Message) C
unfolding request
rs_catalog_connect load f kind name storage keys values =
    request f kind name storage keys values >>= λ r.
    map_err (config_err (failure r.kind) keys) (load r)
