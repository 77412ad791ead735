-- ===== src/Tests/Tool.antt =====
-- The deletion of a concrete zone.
use ndns.Prelude.{◌≡◌, refl, [], ◌∷◌, arith, ok, blob_eq}
use ndns.Daemon.Zone.{empty_zone}
use ndns.Daemon.DbMgr.Names.{save_name}
use ndns.Daemon.DbMgr.Sound.{Sound}
use ndns.Mgmt.Tool.{delete_zone}
use ndns.Mgmt.Tool.Delete.Whole.{delete_zone-goes_through}
use ndns.Tests.Toy.{toy}
use ndns.Tests.Clients.{net, www}
use ndns.Tests.Daemon.{net_row, net_db}

delete_zone-goes_through_example :
    delete_zone (net ∷ []) net_db ≡ (ok empty_zone, record net_db { zones = []; rrsets = [] })
unfolding blob_eq save_name Sound
delete_zone-goes_through_example =
    delete_zone-goes_through (net ∷ []) net_row net_db refl
      (((omega arith, tt), (tt, tt)), ((omega arith, tt), (tt, tt))) ((www ∷ [], refl), tt)
      (ground arith) refl refl
