-- ===== src/Daemon/DbMgr/Reads.antt =====
-- The operations of DbMgr that read, on whatever database.
use ndns.Prelude.{◌≡◌, ◌∙◌, true, false, none, arith, ok, lift, Keeps, Keeps-bind, Keeps-if, ◌==◌}
use ndns.Ndn.{Ndn}
use ndns.Daemon.Zone.{Zone}
use ndns.Daemon.Sqlite.{Db, prepare}
use ndns.Daemon.DbMgr.Zones.{find_zone, zone_row, resolve, list_zones}
use ndns.Daemon.DbMgr.Rrsets.{find_rrsets}

module _ ⦃ndn : Ndn⦄ where
  pub find_zone-none :
      (z : Zone) (db : Db)
      → zone_row z.name db ≡ none
      → db.prepares ≡ true
      → find_zone z db ≡ (ok (record z { id = 0 }, false), db)
  unfolding find_zone
  find_zone-none z db e p = ground arith

  pub db-find_zone : (z : Zone) (db : Db) → (find_zone z db).1 ≡ db
  unfolding find_zone
  db-find_zone z db = ground arith

  prepare_same : (db : Db) → (prepare db).1 ≡ db
  unfolding prepare
  prepare_same db = ground arith

  pub find_rrsets_same : (zone : Zone) (db : Db) → Keeps (λ d. d ≡ db) (find_rrsets zone)
  unfolding find_rrsets resolve prepare
  find_rrsets_same zone db d h =
      let P = λ (x : Db). x ≡ db in
      Keeps-bind P (resolve zone) _
        (Keeps-if P (zone.id == 0) _ _
          (Keeps-bind P (find_zone zone) _ (λ e k. db-find_zone zone e ∙ k) (λ found e k. k))
          (λ e k. k))
        (λ zone'.
          Keeps-if P (zone'.id == 0) _ _ (λ e k. k)
            (Keeps-bind P prepare _ (λ e k. prepare_same e ∙ k)
              (λ u e k. Keeps-bind P (lift _) _ (λ f l. l) (λ rrsets f l. l) e k)))
        d h

  pub list_zones_same : (db : Db) → (list_zones db).1 ≡ db
  unfolding list_zones prepare
  list_zones_same db = ground arith
