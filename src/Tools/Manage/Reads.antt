-- ===== src/Tools/Manage/Reads.antt =====
-- The tools of Tools.Manage that print.
use ndns.Prelude.{
  ◌≡◌, refl, ◌∙◌, Bool, Option, none, some, List, String, arith, Exec, Keeps, Keeps-bind, Keeps-if,
  lift, raise, ◌>>=◌, not_a_cert_name,
}
use ndns.Ndn.{Ndn}
use ndns.Packets.{Name, Component, Data}
use ndns.Daemon.Rrset.{Rrset}
use ndns.Daemon.Sqlite.{Db}
use ndns.Daemon.DbMgr.Zones.{find_zone, list_zones}
use ndns.Daemon.DbMgr.Rrsets.{find_rrset, find_rrsets}
use ndns.Daemon.DbMgr.Rrsets.Laws.{db-find_rrset}
use ndns.Mgmt.Tool.{get_rr_set}
use ndns.Daemon.DbMgr.Reads.{db-find_zone}
use ndns.Mgmt.Tool.Export.{export_certificate, export_labelled}
use ndns.Mgmt.Tool.Listing.{Texts, Out, list_zone, list_all_zones, read_listed}
use ndns.Daemon.DbMgr.Reads.{find_rrsets_same, list_zones_same}
use ndns.Tools.Manage.{
  Context, ReadTool, get_rr, list_one, list_all, export, required, print_rr, print_certificate,
  run_read,
}

module _ ⦃ndn : Ndn⦄ where
  module _ (db : Db) where
    abbrev Same : Db → Type 0
    Same d = d ≡ db

    find_rrset-Same : (rrset : Rrset) → Keeps Same (find_rrset rrset)
    find_rrset-Same rrset d h = db-find_rrset rrset d ∙ h

    print_rr-Same :
        (c : Context) (zone_name label : Name) (type : Component)
        → Keeps Same (print_rr c zone_name label type)
    unfolding print_rr get_rr_set
    print_rr-Same c zone_name label type =
        Keeps-bind Same (get_rr_set zone_name label type) _
          (Keeps-bind Same (find_rrset _) _ (find_rrset-Same _) (λ found d h. h)) (λ block d h. h)

    export_labelled-Same :
        (is_certificate : Data → Bool) (zone_name label : Name)
        → Keeps Same (export_labelled is_certificate zone_name label)
    unfolding export_labelled
    export_labelled-Same is_certificate zone_name label =
        Keeps-bind Same (find_rrset _) _ (find_rrset-Same _)
          (λ found. Keeps-if Same found.1 _ _ (λ d h. ground (arith, h)) (λ d h. h))

    export_certificate-Same :
        (match : Name → Option (Name × Name)) (is_certificate : Data → Bool) (cert_name : Name)
        → Keeps Same (export_certificate match is_certificate cert_name)
    unfolding export_certificate
    export_certificate-Same match is_certificate cert_name =
        elim (match cert_name)
          as (λ m. Keeps Same {A = Data} (elim m [
            | none ↦ raise not_a_cert_name
            | some (zone_name, label) ↦ export_labelled is_certificate zone_name label
          ])) [
            | none ↦ λ d h. h
            | some (zone_name, label) ↦ export_labelled-Same is_certificate zone_name label
          ]

    list_zone-Same :
        (t : Texts) (zone_name : Name) (print_raw : Bool)
        → Keeps Same (list_zone t zone_name print_raw)
    unfolding list_zone
    list_zone-Same t zone_name print_raw =
        Keeps-bind Same (find_zone _) _ (λ d h. db-find_zone _ d ∙ h)
          (λ found.
            Keeps-if Same found.1 _ _
              (Keeps-bind Same (find_rrsets found.0) _ (find_rrsets_same found.0 db) (λ records.
                Keeps-bind Same (lift (read_listed zone_name records.1)) _ (λ d h. h)
                  (λ listed d h. h)))
              (λ d h. h))

    list_all_zones-Same : (c : Context) → Keeps Same (list_all_zones c.texts c.pib)
    unfolding list_all_zones
    list_all_zones-Same c =
        Keeps-bind Same list_zones _ (λ d h. list_zones_same d ∙ h) (λ zones d h. h)

    -- Three options of a record, read before anything else is done.
    named-Same :
        (c : Context) (zone label type : Option String)
        (m : Name → Name → Component → Exec Db (List Out))
        → ((z l : Name) (y : Component) → Keeps Same (m z l y))
        → Keeps Same (
            lift (required zone) >>= λ zs. lift (required label) >>= λ ls.
            lift (required type) >>= λ ts. lift (c.parse_name zs) >>= λ z.
            lift (c.parse_name ls) >>= λ l. lift (c.parse_component ts) >>= λ y. m z l y)
    named-Same c zone label type m k =
        Keeps-bind Same (lift (required zone)) _ (λ d h. h)
          (λ zs.
            Keeps-bind Same (lift (required label)) _ (λ d h. h)
              (λ ls.
                Keeps-bind Same (lift (required type)) _ (λ d h. h)
                  (λ ts.
                    Keeps-bind Same (lift (c.parse_name zs)) _ (λ d h. h)
                      (λ z.
                        Keeps-bind Same (lift (c.parse_name ls)) _ (λ d h. h)
                          (λ l.
                            Keeps-bind Same (lift (c.parse_component ts)) _ (λ d h. h)
                              (λ y. k z l y))))))

    one_name-Same :
        (c : Context) (o : Option String) (m : Name → Exec Db (List Out))
        → ((n : Name) → Keeps Same (m n))
        → Keeps Same (lift (required o) >>= λ s. lift (c.parse_name s) >>= λ n. m n)
    one_name-Same c o m k =
        Keeps-bind Same (lift (required o)) _ (λ d h. h)
          (λ s. Keeps-bind Same (lift (c.parse_name s)) _ (λ d h. h) (λ n. k n))

    run_read-Same : (c : Context) (tool : ReadTool) → Keeps Same (run_read c tool)
    unfolding run_read
    run_read-Same c (get_rr zone label type) =
        named-Same c zone label type (print_rr c) (print_rr-Same c)
    run_read-Same c (list_one zone print_raw) =
        one_name-Same c zone (λ n. list_zone c.texts n print_raw)
          (λ n. list_zone-Same c.texts n print_raw)
    run_read-Same c list_all = list_all_zones-Same c
    run_read-Same c (export cert_name) = one_name-Same c cert_name (print_certificate c) (λ n d h.
        Keeps-bind Same (export_certificate c.match c.is_certificate n) _
          (export_certificate-Same c.match c.is_certificate n) (λ cert e k. k) d h)

  -- The tools that print leave the database as it was, whatever their options, and whether they go through
  -- or throw.
  pub run_read_same : (c : Context) (tool : ReadTool) (db : Db) → (run_read c tool db).1 ≡ db
  run_read_same c tool db = run_read-Same db c tool db refl
