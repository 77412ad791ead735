-- ===== src/Daemon/DbMgr/Sound/Operations.antt =====
-- The operations of DbMgr (src/daemon/db-mgr.cpp) in any order, on any database.
use ndns.Prelude.{
  ℕ, ◌<◌, ◌≡◌, ◌≢◌, sym, ap, subst, Bool, false, not, ◌&&◌, arith, All, All-map, All-append_one,
  Pairwise-append_one, List, [], ◌∷◌, ◌++◌, map, Option, none, some, if◌then◌else◌, ◌==◌, ltb,
  Bool-cases, inl, inr, Keeps, Keeps-bind, Keeps-if, bind-at, pure, raise, ◌>>=◌, ◌>>◌, ok, String,
  blob_eq, blob_eq_iff, rrset_without_zone,
}
use text.Mathlib.Text.{◌==◌ as str_eq}
use ndns.Ndn.{Ndn}
use ndns.Packets.{Component, Block}
use ndns.Daemon.Zone.{Zone, empty_zone}
use ndns.Daemon.Rrset.{Rrset, make_rrset}
use ndns.Daemon.Sqlite.{Sqlite, Db, ZoneRow, InfoRow, RrsetRow, any, delete, prepare, write}
use ndns.Daemon.DbMgr.Zones.{
  clear_all_data, insert_zone, find_zone, resolve, bind_int, set_zone_info, remove_zone,
}
use ndns.Daemon.DbMgr.Rrsets.{
  find_rrset, find_lower_bound, to_row, zone_for_insert, insert_row, insert_rrset, update_rrset,
  set_row, update_breaks, remove_rrset, remove_rrsets_of_zone_by_type, has_type,
}
use ndns.Daemon.DbMgr.Rrsets.Laws.{db-find_rrset, db-find_lower_bound}
use ndns.Daemon.DbMgr.Sound.{Sound, ApartZones, SoundZones}
use ndns.Daemon.DbMgr.Sound.Rows.{
  All-delete, Pairwise-delete, All-any, All-of_map, All-both, SoundRows-insert, SoundRows-delete,
}
use ndns.Daemon.DbMgr.Sound.Change.{SoundRows-update}

module _ ⦃ndn : Ndn⦄ where
  pub prepare-Sound : Keeps Sound prepare
  unfolding prepare Sound
  prepare-Sound db h = elim (Bool-cases db.prepares) [ inl y ↦ rw y h | inr n ↦ rw n h ]

  write-Sound :
      (breaks : Bool) (new db : Db)
      → Sound db
      → (breaks ≡ false → Sound new)
      → Sound (write breaks new db).1
  unfolding write Sound
  write-Sound breaks new db h k = elim (Bool-cases db.writes) [
    | inr n ↦ rw n h
    | inl y ↦ elim (Bool-cases breaks) [ inl b ↦ rw (y, b) h | inr b ↦ rw (y, b) (k b) ]
  ]

  SoundZones-insert :
      (zones : List ZoneRow) (row : ZoneRow)
      → SoundZones zones
      → 0 < row.id
      → All (λ (i : ℕ). i ≢ row.id) (map (λ (r : ZoneRow). r.id) zones)
      → any (λ (r : ZoneRow). blob_eq r.name row.name) zones ≡ false
      → SoundZones (zones ++ row ∷ [])
  SoundZones-insert zones row (pos, apart) p fresh free = (
    All-append_one (λ (r : ZoneRow). 0 < r.id) zones row pos p,
    Pairwise-append_one ApartZones zones row apart (
        All-both (λ (x : ZoneRow). x.id ≢ row.id) (λ x. x.name ≢ row.name) zones
          (All-of_map (λ (i : ℕ). i ≢ row.id) (λ (r : ZoneRow). r.id) zones fresh)
          (All-map (λ (x : ZoneRow). blob_eq x.name row.name ≡ false) (λ x. x.name ≢ row.name) zones
            (λ x n k. absurd (ground (arith, blob_eq_iff x.name row.name)))
            (All-any (λ (r : ZoneRow). blob_eq r.name row.name) zones free))),
  )

  pub insert_zone-Sound : ⦃sqlite : Sqlite⦄ (zone : Zone) → Keeps Sound (insert_zone zone)
  unfolding insert_zone Sound
  insert_zone-Sound ⦃sqlite⦄ zone =
      Keeps-if Sound (ltb 0 zone.id) _ _ (λ db h. h)
        (Keeps-bind Sound prepare _ prepare-Sound (λ u db h.
          bind-at Sound (write _ _) _ db
            (write-Sound _ _ db h (λ free. (
              SoundZones-insert db.zones _ h.0 (sqlite.new_rowid_pos _) (sqlite.new_rowid_fresh _)
                  free,
              h.1,
            )))
            (λ v db' k. k)))

  without_zones :
      (p : ZoneRow → Bool) (db : Db) → Sound db → Sound (record db { zones = delete p db.zones })
  unfolding Sound
  without_zones p db h =
      ((All-delete _ p db.zones h.0.0, Pairwise-delete ApartZones p db.zones h.0.1), h.1)

  without_rows :
      (p : RrsetRow → Bool) (db : Db) → Sound db → Sound (record db { rrsets = delete p db.rrsets })
  unfolding Sound
  without_rows p db h = (h.0, SoundRows-delete p db.rrsets h.1)

  with_info : (rows : List InfoRow) (db : Db) → Sound db → Sound (record db { zone_info = rows })
  unfolding Sound
  with_info rows db h = h

  with_changed :
      (rrset : Rrset) (db : Db)
      → Sound db
      → update_breaks rrset db.rrsets ≡ false
      → Sound (record db { rrsets = set_row rrset db.rrsets })
  unfolding Sound
  with_changed rrset db h b = (h.0, SoundRows-update rrset db.rrsets h.1 b)

  delete_zones-Sound :
      {A : Type 0} (p : ZoneRow → Bool) (a : A)
      → (db : Db) → Sound db
      → Sound ((write false (record db { zones = delete p db.zones }) >> pure a) db).1
  delete_zones-Sound p a db h =
      bind-at Sound (write false (record db { zones = delete p db.zones })) (λ v. pure a) db
        (write-Sound false (record db { zones = delete p db.zones }) db h
          (λ free. without_zones p db h))
        (λ v t k. k)

  delete_rows-Sound :
      {A : Type 0} (p : RrsetRow → Bool) (a : A)
      → (db : Db) → Sound db
      → Sound ((write false (record db { rrsets = delete p db.rrsets }) >> pure a) db).1
  delete_rows-Sound p a db h =
      bind-at Sound (write false (record db { rrsets = delete p db.rrsets })) (λ v. pure a) db
        (write-Sound false (record db { rrsets = delete p db.rrsets }) db h
          (λ free. without_rows p db h))
        (λ v t k. k)

  pub clear_all_data-Sound : Keeps Sound clear_all_data
  unfolding clear_all_data Sound
  clear_all_data-Sound db h =
      write-Sound false (record db { zones = []; rrsets = [] }) db h (λ e. ((tt, tt), (tt, tt)))

  pub remove_zone-Sound : (zone : Zone) → Keeps Sound (remove_zone zone)
  unfolding remove_zone
  remove_zone-Sound zone =
      Keeps-if Sound (zone.id == 0) _ _ (λ db h. h)
        (Keeps-bind Sound prepare _ prepare-Sound
          (λ u. delete_zones-Sound (λ r. r.id == zone.id) empty_zone))

  pub find_zone-Sound : (zone : Zone) → Keeps Sound (find_zone zone)
  unfolding find_zone
  find_zone-Sound zone = Keeps-bind Sound prepare _ prepare-Sound (λ u db h. h)

  pub resolve-Sound : (zone : Zone) → Keeps Sound (resolve zone)
  unfolding resolve find_zone
  resolve-Sound zone =
      Keeps-if Sound (zone.id == 0) _ _
        (Keeps-bind Sound (find_zone zone) _
          (Keeps-bind Sound prepare _ prepare-Sound (λ u db h. h)) (λ v db h. h))
        (λ db h. h)

  pub set_zone_info-Sound :
      (zone : Zone) (key : String) (value : Block) → Keeps Sound (set_zone_info zone key value)
  unfolding set_zone_info
  set_zone_info-Sound zone key value =
      Keeps-if Sound (zone.id == 0) _ _ (λ db h. h)
        (Keeps-if Sound _ _ _ (λ db h. h)
          (Keeps-bind Sound prepare _ prepare-Sound (λ u db h.
            let rows =
              delete (λ row. (row.zone_id == bind_int zone.id) && str_eq row.key key) db.zone_info
              ++ record { zone_id = bind_int zone.id; key = key; value = value } ∷ [] in
            write-Sound false (record db { zone_info = rows }) db h (λ free. with_info rows db h))))

  insert_row-Sound :
      ⦃sqlite : Sqlite⦄ (rrset : Rrset) (zone : Zone) → Keeps Sound (insert_row rrset zone)
  unfolding insert_row to_row Sound
  insert_row-Sound ⦃sqlite⦄ rrset zone = Keeps-bind Sound prepare _ prepare-Sound (λ u db h.
      bind-at Sound (write _ _) _ db
        (write-Sound _ _ db h (λ free. (
          h.0,
          SoundRows-insert db.rrsets _ h.1 (sqlite.new_rowid_pos _) (sqlite.new_rowid_fresh _) free,
        )))
        (λ v db' k. k))

  pub insert_rrset-Sound : ⦃sqlite : Sqlite⦄ (rrset : Rrset) → Keeps Sound (insert_rrset rrset)
  unfolding insert_rrset zone_for_insert
  insert_rrset-Sound rrset = Keeps-if Sound (rrset.id == 0) _ _ (placed rrset.zone) (λ db h. h)
    where
      placed :
          (z : Option Zone)
          → Keeps Sound {A = Rrset} (elim z [
            | none ↦ raise rrset_without_zone
            | some zone ↦ zone_for_insert zone >>= insert_row rrset
          ])
      placed none = λ db h. h
      placed (some zone) =
          Keeps-bind Sound (zone_for_insert zone) _
            (Keeps-if Sound (zone.id == 0) _ _ (insert_zone-Sound zone) (λ db h. h))
            (insert_row-Sound rrset)

  pub update_rrset-Sound : (rrset : Rrset) → Keeps Sound (update_rrset rrset)
  unfolding update_rrset
  update_rrset-Sound rrset = Keeps-if Sound (rrset.id == 0) _ _ (λ db h. h) (placed rrset.zone)
    where
      stepped :
          (u : Unit {0})
          → Keeps Sound (λ (db : Db). (
            ok (tt {0}),
            if db.writes && not (update_breaks rrset db.rrsets)
                then record db { rrsets = set_row rrset db.rrsets }
                else db,
          ))
      stepped u db h = elim (Bool-cases (db.writes && not (update_breaks rrset db.rrsets))) [
        | inl y ↦
            subst Sound
              (sym (ap (λ b. if b then record db { rrsets = set_row rrset db.rrsets } else db) y))
              (with_changed rrset db h (ground arith))
        | inr n ↦
            subst Sound
              (sym (ap (λ b. if b then record db { rrsets = set_row rrset db.rrsets } else db) n)) h
      ]

      placed :
          (z : Option Zone)
          → Keeps Sound {A = Unit {0}} (elim z [
            | none ↦ raise rrset_without_zone
            | some zone ↦ prepare >>= λ u db. (
              ok (tt {0}),
              if db.writes && not (update_breaks rrset db.rrsets)
                  then record db { rrsets = set_row rrset db.rrsets }
                  else db,
            )
          ])
      placed none = λ db h. h
      placed (some zone) = Keeps-bind Sound prepare _ prepare-Sound stepped

  pub remove_rrset-Sound : (rrset : Rrset) → Keeps Sound (remove_rrset rrset)
  unfolding remove_rrset
  remove_rrset-Sound rrset =
      Keeps-if Sound (rrset.id == 0) _ _ (λ db h. h)
        (Keeps-bind Sound prepare _ prepare-Sound
          (λ u. delete_rows-Sound (λ r. r.id == rrset.id) (make_rrset rrset.zone)))

  pub remove_rrsets_of_zone_by_type-Sound :
      (zone : Zone) (type : Component) → Keeps Sound (remove_rrsets_of_zone_by_type zone type)
  unfolding remove_rrsets_of_zone_by_type
  remove_rrsets_of_zone_by_type-Sound zone type =
      Keeps-bind Sound (resolve zone) _ (resolve-Sound zone) (λ zone'.
        Keeps-if Sound (zone'.id == 0) _ _ (λ db h. h)
          (Keeps-bind Sound prepare _ prepare-Sound
            (λ u. delete_rows-Sound (has_type zone'.id type) zone')))

  pub find_rrset-Sound : (rrset : Rrset) → Keeps Sound (find_rrset rrset)
  find_rrset-Sound rrset db h = subst Sound (sym (db-find_rrset rrset db)) h

  pub find_lower_bound-Sound : (rrset : Rrset) → Keeps Sound (find_lower_bound rrset)
  find_lower_bound-Sound rrset db h = subst Sound (sym (db-find_lower_bound rrset db)) h
