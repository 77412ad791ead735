-- ===== src/Daemon/DbMgr/Zones.antt =====
-- The zone operations of DbMgr. `sqlite3_bind_int` and `sqlite3_column_int` carry 32 bits, signed:
-- a TTL is the 64-bit pattern of its signed count of seconds.
use Prim.Native.String.{len}
use ndns.Prelude.{
  ℕ, ◌+◌, ◌-◌, ◌%◌, ◌^◌, Bool, false, ◌&&◌, Option, none, some, List, [], ◌∷◌, ◌++◌, map, String,
  blob_eq, ◌==◌, ltb, if◌then◌else◌, Exec, pure, raise, lift, ◌>>=◌, ◌>>◌, Result, ok, err,
  zone_not_initialized, key_too_long, not,
}
use text.Mathlib.Text.{◌==◌ as str_eq}
use ndns.Ndn.{Ndn}
use ndns.Packets.{Name, Block}
use ndns.Daemon.Zone.{Zone, empty_zone}
use ndns.Daemon.Sqlite.{
  Sqlite, ZoneRow, InfoRow, Db, first, any, select, delete, prepare, get_db, write,
}
use ndns.Daemon.DbMgr.Names.{save_name, restore_name}

-- (int)n of a 64-bit pattern, and the sign extension of the int read back
unfoldable pub bind_int : ℕ → ℕ
bind_int n = n % 2 ^ 32

unfoldable pub column_int : ℕ → ℕ
column_int n = if ltb n (2 ^ 31) then n else n + (2 ^ 64 - 2 ^ 32)

module _ ⦃ndn : Ndn⦄ where
  -- DbMgr::clearAllData
  unfoldable pub clear_all_data : Exec Db (Unit {0})
  unfolding write
  clear_all_data db = write false (record db { zones = []; rrsets = [] }) db

  unfoldable pub insert_zone : ⦃sqlite : Sqlite⦄ → Zone → Exec Db Zone
  unfolding prepare write save_name bind_int
  insert_zone ⦃sqlite⦄ zone = if ltb 0 zone.id then pure zone else do
    prepare
    db ← get_db
    let id = sqlite.new_rowid (map (λ (r : ZoneRow). r.id) db.zones)
    let name = save_name zone.name
    write (any (λ (r : ZoneRow). blob_eq r.name name) db.zones) (record db {
      zones = db.zones ++ record { id = id; name = name; ttl = bind_int zone.ttl } ∷ [];
    })
    pure (record zone { id = id })

  -- SELECT id, ttl FROM zones WHERE name=?
  load_zone : Option ZoneRow → Zone → Zone
  unfolding column_int
  load_zone none zone = record zone { id = 0 }
  load_zone (some row) zone = record zone { id = row.id; ttl = column_int row.ttl }

  abbrev pub zone_row : Name → Db → Option ZoneRow
  zone_row name db = first (λ (r : ZoneRow). blob_eq r.name (save_name name)) db.zones

  -- DbMgr::find(Zone&)
  unfoldable pub find_zone : Zone → Exec Db (Zone × Bool)
  unfolding prepare load_zone
  find_zone zone = do
    prepare
    db ← get_db
    let zone' = load_zone (zone_row zone.name db) zone
    pure (zone', not (zone'.id == 0))

  -- The zone's own id if it has one, or else what `find` gives it.
  unfoldable pub resolve : Zone → Exec Db Zone
  unfolding find_zone
  resolve zone = if zone.id == 0 then (do found ← find_zone zone; pure found.0) else pure zone

  unfoldable pub same_info : ℕ → String → InfoRow → Bool
  same_info zone_id key row = (row.zone_id == zone_id) && str_eq row.key key

  -- INSERT OR REPLACE INTO zone_info
  unfoldable pub set_zone_info : Zone → String → Block → Exec Db (Unit {0})
  unfolding prepare write same_info bind_int
  set_zone_info zone key value =
      if zone.id == 0
      then raise zone_not_initialized
      else if ltb 10 (len key)
      then raise key_too_long
      else do
        prepare
        db ← get_db
        let id = bind_int zone.id
        write false (record db {
          zone_info =
              delete (same_info id key) db.zone_info
              ++ record { zone_id = id; key = key; value = value } ∷ [];
        })

  unfoldable pub get_zone_info : Zone → Exec Db (List (String × Block))
  unfolding prepare resolve bind_int
  get_zone_info zone = do
    zone' ← resolve zone
    if zone'.id == 0 then raise zone_not_initialized else do
      prepare
      db ← get_db
      pure (
          map (λ (r : InfoRow). (r.key, r.value))
            (select (λ (r : InfoRow). r.zone_id == bind_int zone'.id) db.zone_info))

  read_zones : List ZoneRow → Result (List Zone)
  unfolding column_int
  read_zones [] = ok []
  read_zones (r ∷ rs) = elim (restore_name r.name) [
    | err e ↦ err e
    | ok name ↦ elim (read_zones rs) [
      | err e ↦ err e
      | ok zones ↦ ok (record { id = r.id; name = name; ttl = column_int r.ttl } ∷ zones)
    ]
  ]

  unfoldable pub list_zones : Exec Db (List Zone)
  unfolding prepare read_zones
  list_zones = do prepare; db ← get_db; lift (read_zones db.zones)

  -- DbMgr::remove(Zone&): the zone becomes Zone().
  unfoldable pub remove_zone : Zone → Exec Db Zone
  unfolding prepare write
  remove_zone zone = if zone.id == 0 then pure zone else do
    prepare
    db ← get_db
    write false (record db { zones = delete (λ (r : ZoneRow). r.id == zone.id) db.zones })
    pure empty_zone
