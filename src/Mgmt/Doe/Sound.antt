-- ===== src/Mgmt/Doe/Sound.antt =====
-- generateDoe (src/mgmt/management-tool.cpp) on a sound database.
use ndns.Prelude.{ℕ, suc, List, [], ◌∷◌, Keeps, Keeps-bind, Keeps-if, lift, Result, ◌==◌, map}
use ndns.Ndn.{Ndn}
use ndns.Packets.{Component, name_eq}
use ndns.Daemon.Zone.{Zone}
use ndns.Daemon.Rrset.{Rrset}
use ndns.Daemon.Sqlite.{Sqlite, prepare}
use ndns.Label.{doe_rr_type}
use ndns.Daemon.DbMgr.Zones.{find_zone, resolve}
use ndns.Daemon.DbMgr.Rrsets.{find_rrsets, insert_rrset, remove_rrsets_of_zone_by_type}
use ndns.Daemon.DbMgr.Sound.{Sound}
use ndns.Daemon.DbMgr.Sound.Operations.{
  prepare-Sound, find_zone-Sound, resolve-Sound, insert_rrset-Sound,
  remove_rrsets_of_zone_by_type-Sound,
}
use ndns.Daemon.RrsetFactory.{
  RrsetFactory, make_factory, check_zone_key, only_check_zone, default_cert,
}
use ndns.Mgmt.CertHelper.{Pib}
use ndns.Mgmt.Doe.{Range, insert_does, regenerate, generate_doe, doe_ranges, doe_name, sort_rrsets}

module _ ⦃ndn : Ndn⦄ where
  pub lift-Sound : {A : Type 0} (r : Result A) → Keeps Sound (lift r)
  lift-Sound r db h = h

  pub find_rrsets-Sound : (zone : Zone) → Keeps Sound (find_rrsets zone)
  unfolding find_rrsets
  find_rrsets-Sound zone = Keeps-bind Sound (resolve zone) _ (resolve-Sound zone) (λ zone'.
      Keeps-if Sound (zone'.id == 0) _ _ (λ db h. h)
        (Keeps-bind Sound prepare _ prepare-Sound
          (λ u db h. Keeps-bind Sound (lift _) _ (λ db h. h) (λ rrsets db' k. k) db h)))

  pub check_zone_key-Sound :
      (pib : Pib) (factory : RrsetFactory) → Keeps Sound (check_zone_key pib factory)
  unfolding check_zone_key only_check_zone
  check_zone_key-Sound pib factory =
      Keeps-bind Sound (only_check_zone factory) _
        (Keeps-if Sound factory.checked _ _ (λ db h. h)
          (Keeps-bind Sound (find_zone factory.zone) _ (find_zone-Sound factory.zone)
            (λ found. Keeps-if Sound found.1 _ _ (λ db h. h) (λ db h. h))))
        (λ factory'.
          Keeps-if Sound (name_eq factory'.dsk_cert_name default_cert) _ _ (λ db h. h)
            (Keeps-bind Sound (lift _) _ (λ db h. h)
              (λ matches. Keeps-if Sound matches _ _ (λ db h. h) (λ db h. h))))

  module _ ⦃sqlite : Sqlite⦄ where
    insert_does-Sound :
        (factory : RrsetFactory) (now : ℕ → Component) (i : ℕ) (rs : List Range)
        → Keeps Sound (insert_does factory now i rs)
    unfolding insert_does
    insert_does-Sound factory now i [] = λ db h. h
    insert_does-Sound factory now i (r ∷ rs) =
        Keeps-bind Sound (lift _) _ (λ db h. h)
          (λ doe.
            Keeps-bind Sound (insert_rrset doe) _ (insert_rrset-Sound doe)
              (λ added. insert_does-Sound factory now (suc i) rs))

    regenerate-Sound :
        (factory : RrsetFactory) (now : ℕ → Component) (rs : List Rrset)
        → Keeps Sound (regenerate factory now rs)
    unfolding regenerate
    regenerate-Sound factory now [] = λ db h. h
    regenerate-Sound factory now (r ∷ rs) =
        insert_does-Sound factory now 0 (doe_ranges (doe_name r) (map doe_name rs))

    pub generate_doe-Sound :
        (pib : Pib) (now : ℕ → Component) (zone : Zone) → Keeps Sound (generate_doe pib now zone)
    unfolding generate_doe
    generate_doe-Sound pib now zone =
        Keeps-bind Sound (find_zone zone) _ (find_zone-Sound zone) (λ found.
          Keeps-if Sound found.1 _ _
            (Keeps-bind Sound (remove_rrsets_of_zone_by_type found.0 doe_rr_type) _
              (remove_rrsets_of_zone_by_type-Sound found.0 doe_rr_type)
              (λ zone'. Keeps-bind Sound (find_rrsets zone') _ (find_rrsets-Sound zone') (λ records.
                Keeps-bind Sound (lift (make_factory pib zone.name default_cert)) _
                  (lift-Sound (make_factory pib zone.name default_cert))
                  (λ factory.
                    Keeps-bind Sound (check_zone_key pib factory) _
                      (check_zone_key-Sound pib factory)
                      (λ factory'. regenerate-Sound factory' now (sort_rrsets records.1))))))
            (λ db h. h))
