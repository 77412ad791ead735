-- ===== src/Daemon/DbMgr/Rrsets.antt =====
-- The record set operations of DbMgr.
pub mod Laws
use ndns.Prelude.{
  ℕ, Bool, true, false, ◌&&◌, Option, none, some, List, [], ◌∷◌, ◌++◌, map, Blob, blob_eq, blob_lt,
  ◌==◌, ltb, if◌then◌else◌, Exec, pure, raise, lift, ◌>>=◌, ◌>>◌, Result, ok, err, not,
  rrset_without_zone, rrset_without_id, zone_not_in_db,
}
use ndns.Ndn.{Ndn}
use ndns.Packets.{Name, Component, Block, component_eq}
use ndns.Daemon.Zone.{Zone}
use ndns.Daemon.Rrset.{Rrset, make_rrset}
use ndns.Daemon.Sqlite.{
  Sqlite, RrsetRow, Db, first, any, select, delete, prepare, get_db, write, same_index, last_label,
  order_by_label,
}
use ndns.Daemon.DbMgr.Names.{save_name, restore_name}
use ndns.Daemon.DbMgr.Zones.{insert_zone, find_zone, resolve}

module _ ⦃ndn : Ndn⦄ where
  -- The row that an INSERT of `rrset` under `zone_id` adds.
  unfoldable pub to_row : ℕ → ℕ → Rrset → RrsetRow
  unfolding save_name
  to_row id zone_id rrset = record {
    id = id;
    zone_id = zone_id;
    label = save_name rrset.label;
    type = rrset.type;
    version = rrset.version;
    ttl = rrset.ttl;
    rr_data = rrset.rr_data;
  }

  -- the zone is inserted first if it has no id
  unfoldable pub zone_for_insert : ⦃sqlite : Sqlite⦄ → Zone → Exec Db Zone
  unfolding insert_zone
  zone_for_insert zone = if zone.id == 0 then insert_zone zone else pure zone

  unfoldable pub insert_row : ⦃sqlite : Sqlite⦄ → Rrset → Zone → Exec Db Rrset
  unfolding prepare write to_row same_index
  insert_row ⦃sqlite⦄ rrset zone = do
    prepare
    db ← get_db
    let id = sqlite.new_rowid (map (λ (r : RrsetRow). r.id) db.rrsets)
    let row = to_row id zone.id rrset
    write (any (same_index zone.id row.label row.type row.version) db.rrsets)
        (record db { rrsets = db.rrsets ++ row ∷ [] })
    pure (record rrset { id = id; zone = some zone })

  -- DbMgr::insert(Rrset&)
  unfoldable pub insert_rrset : ⦃sqlite : Sqlite⦄ → Rrset → Exec Db Rrset
  unfolding zone_for_insert insert_row
  insert_rrset rrset =
      if rrset.id == 0
      then (elim rrset.zone [
        | none ↦ raise rrset_without_zone
        | some zone ↦ do zone' ← zone_for_insert zone; insert_row rrset zone'
      ])
      else pure rrset

  unfoldable pub load_row : Option RrsetRow → Rrset → Rrset
  load_row none rrset = record rrset { id = 0 }
  load_row (some row) rrset = record rrset {
    id = row.id;
    ttl = row.ttl;
    version = row.version;
    rr_data = row.rr_data;
  }

  -- SELECT id, ttl, version, data, and the row that the statement returns first
  fetch : (List RrsetRow → Option RrsetRow) → Rrset → Exec Db (Rrset × Bool)
  unfolding prepare load_row
  fetch query rrset = do
    prepare
    db ← get_db
    let rrset' = load_row (query db.rrsets) rrset
    pure (rrset', not (rrset'.id == 0))

  -- The checks of `find` and `findLowerBound` before their statement, which is given the zone's id.
  in_zone : (ℕ → List RrsetRow → Option RrsetRow) → Rrset → Exec Db (Rrset × Bool)
  unfolding find_zone fetch
  in_zone query rrset = elim rrset.zone [
    | none ↦ raise rrset_without_zone
    | some zone ↦
        if zone.id == 0
        then (do
          found ← find_zone zone
          if found.1
              then fetch (query found.0.id) (record rrset { zone = some found.0 })
              else pure (record rrset { zone = some found.0 }, false))
        else fetch (query zone.id) rrset
  ]

  -- WHERE zone_id=? and label=? and type=?
  unfoldable pub has_key : ℕ → Blob → Component → RrsetRow → Bool
  has_key zone_id label type row =
      (row.zone_id == zone_id) && (blob_eq row.label label && component_eq row.type type)

  -- DbMgr::find(Rrset&)
  unfoldable pub find_rrset : Rrset → Exec Db (Rrset × Bool)
  unfolding in_zone has_key save_name
  find_rrset rrset =
      in_zone (λ zone_id. first (has_key zone_id (save_name rrset.label) rrset.type)) rrset

  -- WHERE zone_id=? and label<? and type=?
  unfoldable pub is_below : ℕ → Blob → Component → RrsetRow → Bool
  is_below zone_id label type row =
      (row.zone_id == zone_id) && (blob_lt row.label label && component_eq row.type type)

  -- DbMgr::findLowerBound
  unfoldable pub find_lower_bound : Rrset → Exec Db (Rrset × Bool)
  unfolding in_zone is_below last_label save_name
  find_lower_bound rrset =
      in_zone
        (λ zone_id rows.
          last_label (select (is_below zone_id (save_name rrset.label) rrset.type) rows))
        rrset

  unfoldable pub read_rrsets : Zone → List RrsetRow → Result (List Rrset)
  read_rrsets zone [] = ok []
  read_rrsets zone (r ∷ rs) = elim (restore_name r.label) [
    | err e ↦ err e
    | ok label ↦ elim (read_rrsets zone rs) [
      | err e ↦ err e
      | ok rrsets ↦ ok (
          record {
            id = r.id;
            zone = some zone;
            label = label;
            type = r.type;
            version = r.version;
            ttl = r.ttl;
            rr_data = r.rr_data;
          }
          ∷ rrsets)
    ]
  ]

  -- DbMgr::findRrsets, with the zone as it leaves it
  unfoldable pub find_rrsets : Zone → Exec Db (Zone × List Rrset)
  unfolding prepare resolve
  find_rrsets zone = do
    zone' ← resolve zone
    if zone'.id == 0 then raise zone_not_in_db else do
      prepare
      db ← get_db
      rrsets ← lift (
          read_rrsets zone'
            (order_by_label (select (λ (r : RrsetRow). r.zone_id == zone'.id) db.rrsets)))
      pure (zone', rrsets)

  -- WHERE zone_id = ? AND type = ?
  unfoldable pub has_type : ℕ → Component → RrsetRow → Bool
  has_type zone_id type row = (row.zone_id == zone_id) && component_eq row.type type

  unfoldable pub remove_rrsets_of_zone_by_type : Zone → Component → Exec Db Zone
  unfolding prepare write resolve has_type
  remove_rrsets_of_zone_by_type zone type = do
    zone' ← resolve zone
    if zone'.id == 0 then raise zone_not_in_db else do
      prepare
      db ← get_db
      write false (record db { rrsets = delete (has_type zone'.id type) db.rrsets })
      pure zone'

  -- DbMgr::remove(Rrset&): the record set becomes Rrset(zone).
  unfoldable pub remove_rrset : Rrset → Exec Db Rrset
  unfolding prepare write
  remove_rrset rrset = if rrset.id == 0 then raise rrset_without_id else do
    prepare
    db ← get_db
    write false (record db { rrsets = delete (λ (r : RrsetRow). r.id == rrset.id) db.rrsets })
    pure (make_rrset rrset.zone)

  -- UPDATE rrsets SET ttl=?, version=?, data=? WHERE id=?
  unfoldable pub set_row : Rrset → List RrsetRow → List RrsetRow
  set_row rrset [] = []
  set_row rrset (r ∷ rs) =
      (if r.id == rrset.id
        then record r { ttl = rrset.ttl; version = rrset.version; rr_data = rrset.rr_data }
        else r)
      ∷ set_row rrset rs

  -- Would the new version collide with another row of the unique index?
  unfoldable pub update_breaks : Rrset → List RrsetRow → Bool
  unfolding same_index
  update_breaks rrset rows = elim (first (λ (r : RrsetRow). r.id == rrset.id) rows) [
    | none ↦ false
    | some row ↦
        any
          (λ r. not (r.id == rrset.id) && same_index row.zone_id row.label row.type rrset.version r)
          rows
  ]

  -- DbMgr::update: the outcome of the step is not looked at.
  unfoldable pub update_rrset : Rrset → Exec Db (Unit {0})
  unfolding prepare set_row update_breaks
  update_rrset rrset = if rrset.id == 0 then raise rrset_without_id else elim rrset.zone [
    | none ↦ raise rrset_without_zone
    | some zone ↦ do
      prepare
      db ← get_db
      λ _. (
        ok tt,
        if db.writes && not (update_breaks rrset db.rrsets)
            then record db { rrsets = set_row rrset db.rrsets }
            else db,
      )
  ]
