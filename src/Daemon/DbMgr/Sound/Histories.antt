-- ===== src/Daemon/DbMgr/Sound/Histories.antt =====
-- The writes of DbMgr (src/daemon/db-mgr.cpp) in any order.
use ndns.Prelude.{List, [], ◌∷◌, String}
use ndns.Ndn.{Ndn}
use ndns.Packets.{Component, Block}
use ndns.Daemon.Zone.{Zone}
use ndns.Daemon.Rrset.{Rrset}
use ndns.Daemon.Sqlite.{Sqlite, Db}
use ndns.Daemon.DbMgr.Zones.{clear_all_data, insert_zone, set_zone_info, remove_zone}
use ndns.Daemon.DbMgr.Rrsets.{
  insert_rrset, update_rrset, remove_rrset, remove_rrsets_of_zone_by_type,
}
use ndns.Daemon.DbMgr.Sound.{Sound}
use ndns.Daemon.DbMgr.Sound.Operations.{
  clear_all_data-Sound, insert_zone-Sound, remove_zone-Sound, set_zone_info-Sound,
  insert_rrset-Sound, update_rrset-Sound, remove_rrset-Sound, remove_rrsets_of_zone_by_type-Sound,
}

module _ ⦃ndn : Ndn⦄ ⦃sqlite : Sqlite⦄ where
  -- The methods of DbMgr that write, with their arguments.
  pub data Operation : Type 0 where
    clear : Operation
    add_zone : Zone → Operation
    delete_zone : Zone → Operation
    set_info : Zone → String → Block → Operation
    add_rrset : Rrset → Operation
    change_rrset : Rrset → Operation
    delete_rrset : Rrset → Operation
    delete_type : Zone → Component → Operation

  unfoldable pub perform : Operation → Db → Db
  perform clear db = (clear_all_data db).1
  perform (add_zone zone) db = (insert_zone zone db).1
  perform (delete_zone zone) db = (remove_zone zone db).1
  perform (set_info zone key value) db = (set_zone_info zone key value db).1
  perform (add_rrset rrset) db = (insert_rrset rrset db).1
  perform (change_rrset rrset) db = (update_rrset rrset db).1
  perform (delete_rrset rrset) db = (remove_rrset rrset db).1
  perform (delete_type zone type) db = (remove_rrsets_of_zone_by_type zone type db).1

  unfoldable pub perform_all : List Operation → Db → Db
  perform_all [] db = db
  perform_all (o ∷ os) db = perform_all os (perform o db)

  perform-Sound : (o : Operation) (db : Db) → Sound db → Sound (perform o db)
  unfolding perform
  perform-Sound clear = clear_all_data-Sound
  perform-Sound (add_zone zone) = insert_zone-Sound zone
  perform-Sound (delete_zone zone) = remove_zone-Sound zone
  perform-Sound (set_info zone key value) = set_zone_info-Sound zone key value
  perform-Sound (add_rrset rrset) = insert_rrset-Sound rrset
  perform-Sound (change_rrset rrset) = update_rrset-Sound rrset
  perform-Sound (delete_rrset rrset) = remove_rrset-Sound rrset
  perform-Sound (delete_type zone type) = remove_rrsets_of_zone_by_type-Sound zone type

  -- Every sequence of writes keeps the tables sound, whether each goes through or throws: ids are
  -- positive and differ, no two zones share a name, and no two record sets share zone, label, type
  -- and version.
  pub perform_all-Sound : (os : List Operation) (db : Db) → Sound db → Sound (perform_all os db)
  unfolding perform_all
  perform_all-Sound [] db h = h
  perform_all-Sound (o ∷ os) db h = perform_all-Sound os (perform o db) (perform-Sound o db h)
