-- ===== src/Table/Handle/Reload.antt =====
-- A handle keeps the name under which its table was opened.
use icebergr.Prelude.{
  ◌≡◌, refl, ap, sym, ◌∙◌, ◌↔◌, List, [], ◌∷◌, ◌++◌, Result, ok, err, Result-cases, inl, inr,
}
use icebergr.Prelude.Text.{Text, codes}
use icebergr.Iceberg.Catalog.{TableIdent, CatalogApi}
use icebergr.Errors.{ctx}
use icebergr.Table.Handle.{
  RTable, namespace_ident, ident_of, ident_label, opened, rs_table_open, rs_table_reload,
  rs_table_identifier,
}

module _ {Ns Handle Table World : Type 0} (api : CatalogApi Ns Handle Table World) where
  open api use {from_vec, parts, identifier, load_table}

  -- The parts of a namespace are those it was made of, and a table that is loaded has the identifier
  -- that was asked for.
  pub record HandleLaws : Type 0 where
    pub spelled : (v : List Text) (ns : Ns) → from_vec v ≡ ok ns → parts ns ≡ v
    pub named :
        (h : Handle) (i : TableIdent Ns) (t : Table) (before after : World)
        → load_table h i before ≡ (ok t, after)
        → identifier t ≡ i

  -- What is opened does not depend on how its error would be introduced.
  opened-ok :
      {M : Type 0} (h : Handle) (what other : Text) (r : Result Text Table × World)
      (t : RTable Handle Table) (after : World)
      → opened api {M = M} h what r ≡ (ok t, after)
      → opened api {M = M} h other r ≡ (ok t, after)
  opened-ok h what other (ok t0, w) t after e = e
  opened-ok h what other (err m, w) t after e = absurd (let q = ap (λ x. x.0) e in cc)

  -- what an open handle was made of
  opened-eq-ok :
      {M : Type 0} (h : Handle) (what : Text) (r : Result Text Table × World)
      (t : RTable Handle Table) (after : World)
      → opened api {M = M} h what r ≡ (ok t, after)
      → (r ≡ (ok t.table, after)) × (t.catalog ≡ h)
  opened-eq-ok h what (ok t0, w) t after e =
      let p = ap (λ x. x.0) e in
      let q = ap (λ x. x.1) e in
      let same : record { catalog = h; table = t0 } ≡ t = cc in
      let table = ap (λ (r : RTable Handle Table). r.table) same in
      let catalog = ap (λ (r : RTable Handle Table). r.catalog) same in (cc, sym catalog)
  opened-eq-ok h what (err m, w) t after e = absurd (let q = ap (λ x. x.0) e in cc)

  rs_table_open-opened :
      {M : Type 0} (cat : Handle) (namespace : List Text) (name : Text) (w : World) (ns : Ns)
      → from_vec namespace ≡ ok ns
      → rs_table_open api {M = M} cat namespace name w
        ≡ opened api cat
            (codes "could not open table " ++ ident_label api ns name)
            (load_table cat (record { namespace = ns; name = name }) w)
  unfolding rs_table_open
  rs_table_open-opened cat namespace name w ns e =
      rw (rs_table_open, ident_of, namespace_ident, e) refl

  module _ (laws : HandleLaws) {M : Type 0} where
    open laws use {spelled, named}

    -- With a catalog that keeps `HandleLaws`, a table that was opened is called as R spelled it, and in
    -- whatever state the catalog is later, reloading its handle succeeds with a table exactly if opening
    -- it again by that name does.
    pub rs_table_open-rs_table_reload :
        (cat : Handle) (namespace : List Text) (name : Text) (before after now next : World)
        (t fresh : RTable Handle Table)
        → rs_table_open api {M = M} cat namespace name before ≡ (ok t, after)
        → (rs_table_identifier api t ≡ namespace ++ name ∷ [])
          × ((rs_table_reload api {M = M} t now ≡ (ok fresh, next))
              ↔ (rs_table_open api {M = M} cat namespace name now ≡ (ok fresh, next)))
    unfolding rs_table_open rs_table_reload rs_table_identifier ident_of
    rs_table_open-rs_table_reload cat namespace name before after now next t fresh h =
        elim (Result-cases (from_vec namespace)) [
          | inl (w, e) ↦ absurd (
              let q : (rs_table_open api {M = M} cat namespace name before).0
                  ≡ err (ctx (codes "invalid namespace") w) =
                rw (rs_table_open, ident_of, namespace_ident, e) refl in
              let p = ap (λ x. x.0) h in cc)
          | inr (ns, e) ↦
              let what = codes "could not open table " ++ ident_label api ns name in
              let asked : TableIdent Ns = record { namespace = ns; name = name } in
              let made =
                opened-eq-ok {M = M} cat what (load_table cat asked before) t after
                  (sym (rs_table_open-opened cat namespace name before ns e) ∙ h) in
              let same : identifier t.table ≡ asked = named cat asked t.table before after made.0 in
              let reload = codes "could not reload the table" in
              let again : rs_table_reload api {M = M} t now
                  ≡ opened api cat reload (load_table cat asked now) =
                rw (rs_table_reload, made.1, same) refl in
              let fresh_open = rs_table_open-opened {M = M} cat namespace name now ns e in
              (
                rw (rs_table_identifier, same, spelled namespace ns e) refl,
                (
                  λ r.
                      fresh_open
                      ∙ opened-ok cat reload what (load_table cat asked now) fresh next
                          (sym again ∙ r),
                  λ o.
                      again
                      ∙ opened-ok cat what reload (load_table cat asked now) fresh next
                          (sym fresh_open ∙ o),
                ),
              )
        ]
