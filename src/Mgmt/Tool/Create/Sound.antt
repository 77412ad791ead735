-- ===== src/Mgmt/Tool/Create/Sound.antt =====
-- createZone (src/mgmt/management-tool.cpp) on a sound database.
use ndns.Prelude.{ℕ, subst, sym, Keeps, Keeps-bind, Keeps-if}
use ndns.Ndn.{Ndn}
use ndns.Packets.{Component, Data}
use ndns.Daemon.Zone.{Zone}
use ndns.Daemon.Sqlite.{Sqlite}
use ndns.Daemon.DbMgr.Zones.{find_zone, set_zone_info}
use ndns.Daemon.DbMgr.Rrsets.{find_rrset}
use ndns.Daemon.DbMgr.Sound.{Sound}
use ndns.Daemon.DbMgr.Sound.Operations.{
  find_zone-Sound, insert_zone-Sound, set_zone_info-Sound, insert_rrset-Sound, find_rrset-Sound,
}
use ndns.Mgmt.CertHelper.{Pib}
use ndns.Mgmt.Doe.{generate_doe}
use ndns.Mgmt.Doe.Sound.{generate_doe-Sound}
use ndns.Mgmt.Tool.{add_id_cert, add_zone}
use ndns.Mgmt.Tool.Create.Checks.{check_preconditions_same}
use ndns.Mgmt.Tool.Create.Keys.{On, make_certificates-Keeps}
use ndns.Mgmt.Tool.Create.{
  KeyChain, ZoneArgs, ZoneCerts, check_preconditions, make_certificates, store_zone, create_zone,
}

module _ ⦃ndn : Ndn⦄ ⦃sqlite : Sqlite⦄ where
  pub add_zone-Sound : (zone : Zone) → Keeps Sound (add_zone zone)
  unfolding add_zone
  add_zone-Sound zone =
      Keeps-bind Sound (find_zone zone) _ (find_zone-Sound zone)
        (λ found. Keeps-if Sound found.1 _ _ (λ db h. h) (insert_zone-Sound found.0))

  pub add_id_cert-Sound :
      (zone : Zone) (cert : Data) (ttl : ℕ) → Keeps Sound (add_id_cert zone cert ttl)
  unfolding add_id_cert
  add_id_cert-Sound zone cert ttl =
      Keeps-bind Sound (find_rrset _) _ (find_rrset-Sound _)
        (λ found. Keeps-if Sound found.1 _ _ (λ db h. h) (insert_rrset-Sound found.0))

module _ ⦃ndn : Ndn⦄ ⦃sqlite : Sqlite⦄ ⦃chain : KeyChain⦄ where
  store_zone-Sound :
      (pib : Pib) (doe_now : ℕ → Component) (a : ZoneArgs) (certs : ZoneCerts) (zone : Zone)
      → Keeps Sound (store_zone pib doe_now a certs zone)
  unfolding store_zone
  store_zone-Sound pib doe_now a certs zone =
      Keeps-bind Sound (add_zone zone) _ (add_zone-Sound zone) (λ stored.
        Keeps-bind Sound (add_id_cert stored certs.ksk_cert a.cache_ttl) _
          (add_id_cert-Sound stored certs.ksk_cert a.cache_ttl)
          (λ x.
            Keeps-bind Sound (add_id_cert stored certs.dsk_cert a.cache_ttl) _
              (add_id_cert-Sound stored certs.dsk_cert a.cache_ttl)
              (λ y.
                Keeps-bind Sound (set_zone_info stored "ksk" _) _
                  (set_zone_info-Sound stored "ksk" _)
                  (λ u.
                    Keeps-bind Sound (set_zone_info stored "dsk" _) _
                      (set_zone_info-Sound stored "dsk" _)
                      (λ v.
                        Keeps-bind Sound (set_zone_info stored "dkey" _) _
                          (set_zone_info-Sound stored "dkey" _)
                          (λ w.
                            Keeps-bind Sound (generate_doe pib doe_now stored) _
                              (generate_doe-Sound pib doe_now stored) (λ z db h. h)))))))

  pub create_zone-Sound :
      (now doe_now : ℕ → Component) (a : ZoneArgs) → Keeps (On Sound) (create_zone now doe_now a)
  unfolding create_zone
  create_zone-Sound now doe_now a =
      Keeps-bind (On Sound) (check_preconditions a) _
        (λ s h. subst (On Sound) (sym (check_preconditions_same a s)) h)
        (λ zone.
          Keeps-bind (On Sound) (make_certificates a now) _ (make_certificates-Keeps Sound a now)
            (λ certs s h. store_zone-Sound (chain.pib s.store) doe_now a certs zone s.db h))
