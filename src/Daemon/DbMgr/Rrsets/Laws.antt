-- ===== src/Daemon/DbMgr/Rrsets/Laws.antt =====
-- The record set operations on a zone that has its id, over a database that answers.
use ndns.Prelude.{
  ℕ, ◌≡◌, ◌≢◌, Bool, true, not, Option, some, [], ◌∷◌, ◌++◌, map, arith, ◌==◌, ok, err,
  if◌then◌else◌, execute_error, ◌&&◌,
}
use ndns.Ndn.{Ndn}
use ndns.Daemon.Zone.{Zone}
use ndns.Daemon.Rrset.{Rrset}
use ndns.Daemon.Sqlite.{Sqlite, RrsetRow, Db, first, any, select, last_label, same_index}
use ndns.Daemon.DbMgr.Names.{save_name}
use ndns.Daemon.DbMgr.Rrsets.{
  load_row, fetch, has_key, is_below, find_rrset, find_lower_bound, insert_rrset, to_row,
  update_rrset, set_row, update_breaks,
}

module _ ⦃ndn : Ndn⦄ where
  abbrev pub result_of : Option RrsetRow → Rrset → Rrset × Bool
  result_of row rrset = let r = load_row row rrset in (r, not (r.id == 0))

  module _ (rrset : Rrset) (zone : Zone) (db : Db) (at : rrset.zone ≡ some zone)
      (stored : zone.id ≢ 0) (ready : db.prepares ≡ true) where
    pub find_rrset_lem : find_rrset rrset db ≡ (
      ok (result_of (first (has_key zone.id (save_name rrset.label) rrset.type) db.rrsets) rrset),
      db,
    )
    unfolding find_rrset fetch load_row
    find_rrset_lem = ground arith

    pub find_lower_bound_lem : find_lower_bound rrset db ≡ (
      ok (
          result_of
            (last_label (select (is_below zone.id (save_name rrset.label) rrset.type) db.rrsets))
            rrset),
      db,
    )
    unfolding find_lower_bound
    find_lower_bound_lem = ground arith

  -- A SELECT writes nothing, whatever its outcome.
  pub db-find_rrset : (rrset : Rrset) (db : Db) → (find_rrset rrset db).1 ≡ db
  unfolding find_rrset
  db-find_rrset rrset db = ground arith

  pub db-find_lower_bound : (rrset : Rrset) (db : Db) → (find_lower_bound rrset db).1 ≡ db
  unfolding find_lower_bound
  db-find_lower_bound rrset db = ground arith

  -- An UPDATE never throws once it is prepared, and what does not succeed changes nothing.
  pub update_rrset_lem :
      (rrset : Rrset) (zone : Zone) (db : Db)
      → rrset.zone ≡ some zone
      → db.prepares ≡ true
      → rrset.id ≢ 0
      → update_rrset rrset db ≡ (
        ok tt,
        if db.writes && not (update_breaks rrset db.rrsets)
            then record db { rrsets = set_row rrset db.rrsets }
            else db,
      )
  unfolding update_rrset
  update_rrset_lem rrset zone db e p i = ground arith

module _ ⦃ndn : Ndn⦄ ⦃sqlite : Sqlite⦄ where
  -- The row id that an INSERT into rrsets gets.
  abbrev pub next_id : Db → ℕ
  next_id db = sqlite.new_rowid (map (λ (r : RrsetRow). r.id) db.rrsets)

  -- A new record set of a stored zone is appended under a new id, unless its key is taken or the
  -- write fails: then the statement throws and the database stays.
  pub insert_rrset_lem :
      (rrset : Rrset) (zone : Zone) (db : Db)
      → rrset.zone ≡ some zone
      → zone.id ≢ 0
      → db.prepares ≡ true
      → rrset.id ≡ 0
      → insert_rrset rrset db ≡ (
          if db.writes
            && not (
                any (same_index zone.id (save_name rrset.label) rrset.type rrset.version) db.rrsets)
          then (
            ok (record rrset { id = next_id db }),
            record db { rrsets = db.rrsets ++ to_row (next_id db) zone.id rrset ∷ [] },
          )
          else (err execute_error, db))
  unfolding insert_rrset
  insert_rrset_lem rrset zone db e z p i = ground arith
