-- ===== src/Catalog/Namespaces.antt =====
-- The operations on namespaces of src/rust/src/catalog.rs. The catalog is iceberg-rust's, the interface
-- `CatalogApi`.
use icebergr.Prelude.{List, [], ◌∷◌, map, Bool, Option, none, some, Result, ok, err, ◌>>=◌, map_err}
use icebergr.Prelude.Text.{Text, codes, join}
use icebergr.Iceberg.Catalog.{TableIdent, CatalogApi}
use icebergr.Errors.{RError, ctx}

module _ {Ns Handle Table World M : Type 0} (api : CatalogApi Ns Handle Table World) where
  open api use {from_vec, parts, list_namespaces, list_tables, namespace_exists, create_namespace}

  abbrev invalid : List Text → Result (RError M) Ns
  invalid namespace = map_err (ctx (codes "invalid namespace")) (from_vec namespace)

  -- no parent for the top level
  unfoldable pub parent_of : List Text → Result (RError M) (Option Ns)
  parent_of [] = ok none
  parent_of (part ∷ parts) = invalid (part ∷ parts) >>= λ ns. ok (some ns)

  -- each as a text, its parts joined by dots
  unfoldable pub rs_list_namespaces :
      Handle → List Text → World → Result (RError M) (List Text) × World
  unfolding parent_of
  rs_list_namespaces cat parent world = elim (parent_of parent) [
    | err e ↦ (err e, world)
    | ok p ↦
        let (found, after) = list_namespaces cat p world in
        (
          map_err (ctx (codes "could not list namespaces")) found >>= λ namespaces.
              ok (map (λ (n : Ns). join (codes ".") (parts n)) namespaces),
          after,
        )
  ]

  unfoldable pub rs_list_tables : Handle → List Text → World → Result (RError M) (List Text) × World
  rs_list_tables cat namespace world = elim (invalid namespace) [
    | err e ↦ (err e, world)
    | ok ns ↦
        let (found, after) = list_tables cat ns world in
        (
          map_err (ctx (codes "could not list tables")) found >>= λ tables.
              ok (map (λ (t : TableIdent Ns). t.name) tables),
          after,
        )
  ]

  unfoldable pub rs_namespace_exists : Handle → List Text → World → Result (RError M) Bool × World
  rs_namespace_exists cat namespace world = elim (invalid namespace) [
    | err e ↦ (err e, world)
    | ok ns ↦
        let (found, after) = namespace_exists cat ns world in
        (map_err (ctx (codes "could not check namespace")) found, after)
  ]

  unfoldable pub rs_create_namespace :
      Handle → List Text → World → Result {0, 0} (RError M) Unit × World
  rs_create_namespace cat namespace world = elim (invalid namespace) [
    | err e ↦ (err e, world)
    | ok ns ↦
        let (made, after) = create_namespace cat ns world in
        (map_err (ctx (codes "could not create namespace")) made >>= λ n. ok tt, after)
  ]
