-- ===== src/Table/Existence.antt =====
-- `rs_table_exists` of src/rust/src/table.rs. The making of an identifier, and the catalog's answer,
-- are iceberg-rust's: parameters.
use icebergr.Prelude.{
  ◌≡◌, ◌⊎◌, inl, inr, List, Bool, true, false, arith, Result, ok, err, ◌>>=◌, map_err,
  if◌then◌else◌, Result-cases, Bool-cases,
}
use icebergr.Prelude.Text.{Text, codes}
use icebergr.Errors.{RError, ctx}

-- `iceberg::Error`: whether its kind is `NamespaceNotFound`, and how it prints.
pub record CatalogError : Type 0 where
  pub namespace_not_found : Bool
  pub display : Text

module _ {M I : Type 0} (ident : List Text → Text → Result Text I)
    (exists : I → Result CatalogError Bool) where
  unfoldable pub table_ident : List Text → Text → Result (RError M) I
  table_ident namespace name = map_err (ctx (codes "invalid namespace")) (ident namespace name)

  unfoldable pub answered : Result CatalogError Bool → Result (RError M) Bool
  answered (ok found) = ok found
  answered (err e) =
      if e.namespace_not_found
      then ok false
      else err (ctx (codes "could not check whether the table exists") e.display)

  unfoldable pub rs_table_exists : List Text → Text → Result (RError M) Bool
  unfolding table_ident answered
  rs_table_exists namespace name = table_ident namespace name >>= λ i. answered (exists i)

  -- An answer is the catalog's own, or it is "no" and the catalog found no such namespace: no other
  -- failure is reported as an answer.
  pub rs_table_exists-ok :
      (namespace : List Text) (name : Text) (b : Bool)
      → rs_table_exists namespace name ≡ ok b
      → (i : I) × (ident namespace name ≡ ok i)
        × ((exists i ≡ ok b)
            ⊎ ((e : CatalogError) × (exists i ≡ err e)
                × (e.namespace_not_found ≡ true)
                × (b ≡ false)))
  unfolding rs_table_exists
  rs_table_exists-ok namespace name b h = elim (Result-cases (ident namespace name)) [
    | inl (t, ht) ↦ absurd (ground arith)
    | inr (i, hi) ↦ elim (Result-cases (exists i)) [
      | inr (found, hf) ↦ (i, hi, inl (ground arith))
      | inl (e, he) ↦ elim (Bool-cases e.namespace_not_found) [
        | inl n ↦ (i, hi, inr (e, he, n, ground arith))
        | inr n ↦ absurd (ground arith)
      ]
    ]
  ]
