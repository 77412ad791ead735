-- ===== src/Mgmt/Tool/Listing/Zones.antt =====
-- The columns of listAllZones (src/mgmt/management-tool.cpp).
use Prim.Native.String.{len}
use ndns.Prelude.{
  ℕ, ◌+◌, ◌≤◌, ◌≡◌, inl, inr, sym, ap, ◌∙◌, subst, List, [], ◌∷◌, ◌++◌, arith, Result, ok, err, All,
  Result-cases, bind-ok,
}
use ndns.Ndn.{Ndn}
use ndns.Label.{ndns_iterative_query}
use ndns.Daemon.Zone.{Zone}
use ndns.Daemon.Sqlite.{Db}
use ndns.Daemon.DbMgr.Zones.{list_zones}
use ndns.Daemon.DbMgr.Reads.{list_zones_same}
use ndns.Mgmt.CertHelper.{
  Pib, get_default_key_name_of_identity, get_default_certificate_name_of_identity,
}
use ndns.Mgmt.Tool.Listing.Columns.{width_from-all}
use ndns.Mgmt.Tool.Listing.{
  Texts, Out, put, padded, bytes, base64, out_of_range, newline, width_from, zone_lines,
  list_all_zones,
}

module _ ⦃ndn : Ndn⦄ where
  -- A padded text leaves two columns free at least.
  abbrev pub Fits : Out → Type 0
  Fits (padded w s) = len s + 2 ≤ w
  Fits (put s) = Unit
  Fits (bytes b) = Unit
  Fits (base64 b) = Unit
  Fits out_of_range = Unit
  Fits newline = Unit

  module _ (t : Texts) where
    zone_lines-Fits :
        (pib : Pib) (w : ℕ) (zs : List Zone) (out : List Out)
        → All (λ (z : Zone). len (t.name_uri z.name) ≤ w) zs
        → zone_lines t pib w zs ≡ ok out
        → All Fits out
    unfolding zone_lines
    zone_lines-Fits pib w [] out h e =
        subst (λ (x : Result (List Out)). elim x [ ok o ↦ All Fits o | err e ↦ Unit ]) e tt
    zone_lines-Fits pib w (z ∷ zs) out h e =
        elim (Result-cases
          (get_default_key_name_of_identity pib (z.name ++ ndns_iterative_query ∷ []))) [
            | inr (x, k) ↦ absurd (ground (arith, e, k))
            | inl (key, k) ↦
                elim (Result-cases (
                  get_default_certificate_name_of_identity pib
                    (z.name ++ ndns_iterative_query ∷ []))) [
                      | inr (x, c) ↦ absurd (ground (arith, e, k, c))
                      | inl (cert, c) ↦ elim (Result-cases (zone_lines t pib w zs)) [
                        | inr (x, r) ↦ absurd (ground (arith, e, k, c, r))
                        | inl (rest, r) ↦
                            let lines : List Out =
                              padded (w + 2) (t.name_uri z.name)
                              ∷ put "; default-ttl="
                              ∷ put (t.decimal z.ttl)
                              ∷ put " default-key="
                              ∷ put (t.name_uri key)
                              ∷ put " default-certificate="
                              ∷ put (t.name_uri cert)
                              ∷ newline
                              ∷ rest in
                            let same : lines ≡ out = ground (arith, e, k, c, r) in
                            subst (All Fits) same (
                              omega (arith, h.0),
                              (
                                tt,
                                (
                                  tt,
                                  (tt, (tt, (tt, (tt, (tt, zone_lines-Fits pib w zs rest h.1 r))))),
                                ),
                              ),
                            )
                      ]
                    ]
          ]

    -- A listing of all zones that goes through writes nothing to the database, and each zone's name stands in
    -- a column that is two characters wider at least.
    pub list_all_zones-Fits :
        (pib : Pib) (out : List Out) (db db' : Db)
        → list_all_zones t pib db ≡ (ok out, db')
        → (db' ≡ db) × All Fits out
    unfolding list_all_zones
    list_all_zones-Fits pib out db db' h =
        let (zones, db1, e, k) = bind-ok list_zones _ db db' out h in
        let same : db1 ≡ db = sym (ap (λ x. x.1) e) ∙ list_zones_same db in
        (
          sym (ap (λ x. x.1) k) ∙ same,
          zone_lines-Fits pib (width_from (λ (z : Zone). len (t.name_uri z.name)) 0 zones) zones out
              (width_from-all (λ (z : Zone). len (t.name_uri z.name)) 0 zones) (ap (λ x. x.0) k),
        )
