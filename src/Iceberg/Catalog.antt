-- ===== src/Iceberg/Catalog.antt =====
-- What the program asks of iceberg-rust's `Catalog` trait and its identifiers. Each call takes the state
-- of the world, the catalog service in it, and leaves another.
use icebergr.Prelude.{List, Bool, Option, Result}
use icebergr.Prelude.Text.{Text}
use icebergr.Iceberg.{Schema}

-- `TableIdent`, over a type of namespaces
pub record TableIdent (Ns : Type 0) : Type 0 where
  pub namespace : Ns
  pub name : Text

-- `TableCreation`, as far as the program sets it
pub record TableCreation : Type 0 where
  pub name : Text
  pub schema : Schema
  pub location : Option Text

-- `NamespaceIdent` and its parts, and the methods on a handle
pub record CatalogApi (Ns Handle Table World : Type 0) : Type 0 where
  pub from_vec : List Text → Result Text Ns
  pub parts : Ns → List Text
  pub identifier : Table → TableIdent Ns
  pub load_table : Handle → TableIdent Ns → World → Result Text Table × World
  pub create_table : Handle → Ns → TableCreation → World → Result Text Table × World
  pub register_table : Handle → TableIdent Ns → Text → World → Result Text Table × World
  pub list_namespaces : Handle → Option Ns → World → Result Text (List Ns) × World
  pub list_tables : Handle → Ns → World → Result Text (List (TableIdent Ns)) × World
  pub namespace_exists : Handle → Ns → World → Result Text Bool × World
  pub create_namespace : Handle → Ns → World → Result Text Ns × World
