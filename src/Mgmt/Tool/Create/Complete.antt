-- ===== src/Mgmt/Tool/Create/Complete.antt =====
-- A createZone (src/mgmt/management-tool.cpp) that goes through, from its checks to the database.
use ndns.Prelude.{ℕ, ◌≡◌, ◌≢◌, sym, ap, ap₂, ◌∙◌, subst, true, arith, ok, bind-ok, none, pure, ◌>>◌}
use ndns.Ndn.{Ndn}
use ndns.Packets.{Component}
use ndns.Label.{cert_rr_type, doe_rr_type}
use ndns.Daemon.Zone.{Zone, make_zone}
use ndns.Daemon.Rrset.{Rrset}
use ndns.Daemon.Sqlite.{Sqlite, Db}
use ndns.Daemon.DbMgr.Zones.{zone_row, set_zone_info, bind_int}
use ndns.Daemon.DbMgr.Sound.{Sound}
use ndns.Mgmt.CertHelper.{Pib}
use ndns.Mgmt.Doe.{generate_doe}
use ndns.Mgmt.Tool.{add_zone, add_id_cert}
use ndns.Mgmt.Tool.Create.{
  KeyChain, ZoneArgs, ZoneCerts, Site, check_preconditions, make_certificates, store_zone,
  create_zone,
}
use ndns.Mgmt.Tool.Create.Checks.{checked_zone, check_preconditions_iff, Preconditions}
use ndns.Mgmt.Tool.Create.Keys.{make_certificates-Keeps}
use ndns.Mgmt.Tool.Create.Stored.{
  IsStored, stored, informed_lem, new_zone, added, new_zone_id, zone_infos,
}

module _ ⦃ndn : Ndn⦄ ⦃sqlite : Sqlite⦄ ⦃chain : KeyChain⦄ where
  store_zone-IsStored :
      (pib : Pib) (doe_now : ℕ → Component) (a : ZoneArgs) (certs : ZoneCerts) (z : Zone)
      (db db' : Db)
      → cert_rr_type ≢ doe_rr_type
      → Sound db
      → db.prepares ≡ true
      → zone_row a.zone_name db ≡ none
      → store_zone pib doe_now a certs (make_zone a.zone_name a.cache_ttl) db ≡ (ok z, db')
      → IsStored a certs db z db'
  unfolding store_zone
  store_zone-IsStored pib doe_now a certs z db db' apart sound ready new h =
      let zone = make_zone a.zone_name a.cache_ttl in
      let (z1, d1, e1, k1) = bind-ok (add_zone zone) _ db db' z h in
      let (r2, d2, e2, k2) = bind-ok (add_id_cert z1 certs.ksk_cert a.cache_ttl) _ d1 db' z k1 in
      let (r3, d3, e3, k3) = bind-ok (add_id_cert z1 certs.dsk_cert a.cache_ttl) _ d2 db' z k2 in
      rest z1 r2 r3 d1 d2 d3 e1 e2 e3 k3
    where
      rest :
          (z1 : Zone) (r2 r3 : Rrset) (d1 d2 d3 : Db)
          → add_zone (make_zone a.zone_name a.cache_ttl) db ≡ (ok z1, d1)
          → add_id_cert z1 certs.ksk_cert a.cache_ttl d1 ≡ (ok r2, d2)
          → add_id_cert z1 certs.dsk_cert a.cache_ttl d2 ≡ (ok r3, d3)
          → (set_zone_info z1 "ksk" (ndn.data_block certs.ksk_cert)
                >> (set_zone_info z1 "dsk" (ndn.data_block certs.dsk_cert)
                    >> (set_zone_info z1 "dkey" (ndn.data_block certs.dkey_cert)
                        >> (generate_doe pib doe_now z1 >> pure z1))))
              d3
            ≡ (ok z, db')
          → IsStored a certs db z db'
      rest z1 r2 r3 d1 d2 d3 e1 e2 e3 k3 =
          let (u4, d4, e4, k4) =
            bind-ok (set_zone_info z1 "ksk" (ndn.data_block certs.ksk_cert)) _ d3 db' z k3 in
          let (u5, d5, e5, k5) =
            bind-ok (set_zone_info z1 "dsk" (ndn.data_block certs.dsk_cert)) _ d4 db' z k4 in
          let (u6, d6, e6, k6) =
            bind-ok (set_zone_info z1 "dkey" (ndn.data_block certs.dkey_cert)) _ d5 db' z k5 in
          let (u7, d7, e7, k7) = bind-ok (generate_doe pib doe_now z1) _ d6 db' z k6 in
          let informed : d6 ≡ record d3 {
            zone_info = zone_infos certs (bind_int (new_zone_id db)) db.zone_info;
          } =
            informed_lem certs z1 d3 d4 d5 d6 e4 e5 e6
            ∙ ap₂ (λ i rows. record d3 { zone_info = zone_infos certs (bind_int i) rows })
                (ap (λ (x : Zone). x.id)
                  (new_zone a certs db sound ready new z1 r2 r3 d1 d2 d3 e1 e2 e3).0)
                (ap (λ (x : Db). x.zone_info)
                  (added a certs db sound ready new z1 r2 r3 d1 d2 d3 e1 e2 e3)) in
          let done : IsStored a certs db z1 d7 =
            stored a certs db sound ready new z1 r2 r3 d1 d2 d3 e1 e2 e3 pib doe_now apart d6 d7
              informed e7 in
          subst (λ (x : Zone × Db). IsStored a certs db x.0 x.1)
            (let same : (z1, d7) ≡ (z, db') = ground (arith, k7) in same) done

  -- A `createZone` that goes through on a sound and readable database: its preconditions held, and next to
  -- DoE records of the zone the database has the zone's row and two record sets more, those of the KSK and
  -- DSK certificates made or given, and the three certificates as the zone's information; the other tables'
  -- rows and the record sets of other zones are as they were.
  pub create_zone-IsStored :
      (now doe_now : ℕ → Component) (a : ZoneArgs) (s t : Site) (z : Zone)
      → cert_rr_type ≢ doe_rr_type
      → Sound s.db
      → s.db.prepares ≡ true
      → create_zone now doe_now a s ≡ (ok z, t)
      → Preconditions a s
        × (certs : ZoneCerts) × (u : Site) × (make_certificates a now s ≡ (ok certs, u))
        × IsStored a certs s.db z t.db
  unfolding create_zone
  create_zone-IsStored now doe_now a s t z apart sound ready h =
      let (z0, s1, e1, k1) = bind-ok (check_preconditions a) _ s t z h in
      let (fresh, same) = checked_zone a s sound ready z0 s1 e1 in
      let held =
        (check_preconditions_iff a s sound ready).0 (e1 ∙ ap₂ (λ x y. (ok x, y)) fresh same) in
      let (certs, s2, e2, k2) = bind-ok (make_certificates a now) _ s1 t z k1 in
      let db2 : s2.db ≡ s.db =
        ap (λ x. x.1.db) (sym e2)
        ∙ make_certificates-Keeps (λ d. d ≡ s.db) a now s1 (ap (λ (x : Site). x.db) same) in
      (
        held,
        certs,
        s2,
        subst (λ x. make_certificates a now x ≡ (ok certs, s2)) same e2,
        store_zone-IsStored (chain.pib s2.store) doe_now a certs z s.db t.db apart sound ready
            held.unknown
            (subst
              (λ d.
                store_zone (chain.pib s2.store) doe_now a certs (make_zone a.zone_name a.cache_ttl)
                  d
                ≡ (ok z, t.db))
              db2
              (subst (λ w. store_zone (chain.pib s2.store) doe_now a certs w s2.db ≡ (ok z, t.db))
                fresh (ap (λ x. (x.0, x.1.db)) k2))),
      )
