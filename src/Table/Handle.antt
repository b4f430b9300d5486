-- ===== src/Table/Handle.antt =====
-- The table handles of src/rust/src/table.rs: opening, reloading, creating and registering a table. The
-- catalog is iceberg-rust's, the interface `CatalogApi`; how a text prints with `{:?}` and the
-- conversion of an Arrow schema are parameters.
pub mod Reload
use icebergr.Prelude.{List, [], ◌∷◌, ◌++◌, Option, Result, ok, err, ◌>>=◌, map_err}
use icebergr.Prelude.Text.{Text, codes, join}
use icebergr.Iceberg.{Schema}
use icebergr.Iceberg.Catalog.{TableIdent, TableCreation, CatalogApi}
use icebergr.Errors.{RError, ctx}
use icebergr.Reader as Reader
use icebergr.Reader.Exchange.{Memory, import_schema}

-- an open table, with the catalog that it came from
pub record RTable (Handle Table : Type 0) : Type 0 where
  pub catalog : Handle
  pub table : Table

module _ {Ns Handle Table World : Type 0} (api : CatalogApi Ns Handle Table World) where
  open api use {from_vec, parts, identifier, load_table, register_table}

  unfoldable pub namespace_ident : {M : Type 0} → List Text → Result (RError M) Ns
  namespace_ident namespace = map_err (ctx (codes "invalid namespace")) (from_vec namespace)

  unfoldable pub ident_of : {M : Type 0} → List Text → Text → Result (RError M) (TableIdent Ns)
  unfolding namespace_ident
  ident_of namespace name =
      namespace_ident namespace >>= λ ns. ok (record { namespace = ns; name = name })

  unfoldable pub ident_label : Ns → Text → Text
  ident_label namespace name = join (codes ".") (parts namespace) ++ codes "." ++ name

  unfoldable pub rs_table_identifier : RTable Handle Table → List Text
  rs_table_identifier tbl =
      parts (identifier tbl.table).namespace ++ (identifier tbl.table).name ∷ []

  -- the handle of what the catalog answered, or its error in context
  abbrev pub opened :
      {M : Type 0}
      → Handle
      → Text
      → Result Text Table × World
      → Result (RError M) (RTable Handle Table) × World
  opened handle what (answer, world) = (
    map_err (ctx what) answer >>= λ table. ok (record { catalog = handle; table = table }),
    world,
  )

  unfoldable pub rs_table_open :
      {M : Type 0}
      → Handle
      → List Text
      → Text
      → World
      → Result (RError M) (RTable Handle Table) × World
  unfolding ident_of ident_label
  rs_table_open cat namespace name world = elim (ident_of namespace name) [
    | err e ↦ (err e, world)
    | ok ident ↦
        opened cat (codes "could not open table " ++ ident_label ident.namespace name)
          (load_table cat ident world)
  ]

  unfoldable pub rs_table_reload :
      {M : Type 0} → RTable Handle Table → World → Result (RError M) (RTable Handle Table) × World
  rs_table_reload tbl world =
      opened tbl.catalog (codes "could not reload the table")
        (load_table tbl.catalog (identifier tbl.table) world)

  unfoldable pub rs_register_table :
      {M : Type 0}
      → (Text → Text)
      → Handle
      → List Text
      → Text
      → Text
      → World
      → Result (RError M) (RTable Handle Table) × World
  unfolding ident_of ident_label
  rs_register_table debug cat namespace name metadata_location world =
      elim (ident_of namespace name) [
        | err e ↦ (err e, world)
        | ok ident ↦
            opened cat
              (codes "could not register table " ++ debug (ident_label ident.namespace name))
              (register_table cat ident metadata_location world)
      ]

module _ {Ns Handle Table World ArrowSchema Slot : Type 0} (api : CatalogApi Ns Handle Table World)
    (debug why : Text → Text) (try_from : Slot → Result Text ArrowSchema)
    (auto_assign_ids : ArrowSchema → Result Text Schema) where
  open api use {create_table}

  -- What is to be created, and where.
  unfoldable pub creation_of :
      List Text
      → Text
      → Text
      → Option Text
      → Memory Slot
      → Result (RError Reader.Message) (Ns × TableCreation)
  unfolding import_schema namespace_ident
  creation_of namespace name schema_addr location memory = do
    arrow_schema ← import_schema debug why try_from schema_addr memory
    schema ←
        map_err (ctx (codes "could not convert the R schema to an Iceberg schema"))
          (auto_assign_ids arrow_schema)
    ns ← namespace_ident api namespace
    ok (ns, record { name = name; schema = schema; location = location })

  unfoldable pub rs_create_table :
      Handle
      → List Text
      → Text
      → Text
      → Option Text
      → Memory Slot
      → World
      → Result (RError Reader.Message) (RTable Handle Table) × World
  unfolding creation_of ident_label
  rs_create_table cat namespace name schema_addr location memory world =
      elim (creation_of namespace name schema_addr location memory) [
        | err e ↦ (err e, world)
        | ok (ns, creation) ↦
            opened api cat (codes "could not create table " ++ debug (ident_label api ns name))
              (create_table cat ns creation world)
      ]
