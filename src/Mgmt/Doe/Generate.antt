-- ===== src/Mgmt/Doe/Generate.antt =====
-- What generateDoe leaves in the database when it goes through.
use ndns.Prelude.{
  ℕ, ◌≡◌, ◌≢◌, refl, sym, ap, ap₂, ◌∙◌, true, some, List, [], ◌∷◌, ◌++◌, map, arith, Result, ok,
  lift, ◌==◌, append-nil, bind-ok,
}
use ndns.Ndn.{Ndn}
use ndns.Packets.{Component}
use ndns.Label.{doe_rr_type}
use ndns.Daemon.Zone.{Zone}
use ndns.Daemon.Rrset.{Rrset}
use ndns.Daemon.Sqlite.{Sqlite, ZoneRow, RrsetRow, Db, order_by_label, select, delete}
use ndns.Daemon.Sqlite.Select.{
  select-append, select-delete, select-all, delete-append, delete-delete, delete-all,
}
use ndns.Daemon.DbMgr.Zones.{zone_row}
use ndns.Daemon.DbMgr.Rrsets.{find_rrsets, read_rrsets, remove_rrsets_of_zone_by_type, has_type}
use ndns.Daemon.RrsetFactory.{make_factory, check_zone_key, default_cert, RrsetFactory}
use ndns.Mgmt.Doe.{doe_ranges, regenerate, generate_doe, sort_rrsets, doe_name}
use ndns.Mgmt.Doe.Store.{insert_does-rows}
use ndns.Mgmt.CertHelper.{Pib}
use ndns.Mgmt.Doe.Denial.{DoeRows}
use ndns.Mgmt.Doe.Stages.{
  found, find_zone-found, make_factory_lem, check_zone_key-found, remove-loaded, find_rrsets-loaded,
}

module _ ⦃ndn : Ndn⦄ ⦃sqlite : Sqlite⦄ where
  -- The steps of a `generateDoe` that goes through, with the state after each.
  record Steps (pib : Pib) (now : ℕ → Component) (zone : Zone) (db db' : Db) (row : ZoneRow)
      : Type 0 where
    zone' : Zone
    db1 : Db
    db2 : Db
    db3 : Db
    db4 : Db
    records : Zone × List Rrset
    factory : RrsetFactory
    factory' : RrsetFactory
    removed : remove_rrsets_of_zone_by_type (found row zone) doe_rr_type db ≡ (ok zone', db1)
    read : find_rrsets zone' db1 ≡ (ok records, db2)
    made : lift (make_factory pib zone.name default_cert) db2 ≡ (ok factory, db3)
    checked : check_zone_key pib factory db3 ≡ (ok factory', db4)
    looped : regenerate factory' now (sort_rrsets records.1) db4 ≡ (ok tt, db')

  generate_doe-Steps :
      (pib : Pib) (now : ℕ → Component) (zone : Zone) (db db' : Db) (row : ZoneRow)
      → zone_row zone.name db ≡ some row
      → row.id ≢ 0
      → db.prepares ≡ true
      → generate_doe pib now zone db ≡ (ok tt, db')
      → Steps pib now zone db db' row
  unfolding generate_doe
  generate_doe-Steps pib now zone db db' row there stored p h =
      let k = rw (find_zone-found zone row db there stored p) at h in
      let (z, db1, e1, k1) =
        bind-ok (remove_rrsets_of_zone_by_type (found row zone) doe_rr_type) _ db db' tt k in
      let (r, db2, e2, k2) = bind-ok (find_rrsets z) _ db1 db' tt k1 in
      let (f, db3, e3, k3) =
        bind-ok (lift (make_factory pib zone.name default_cert)) _ db2 db' tt k2 in
      let (g, db4, e4, k4) = bind-ok (check_zone_key pib f) _ db3 db' tt k3 in
      record {
        zone' = z;
        db1 = db1;
        db2 = db2;
        db3 = db3;
        db4 = db4;
        records = r;
        factory = f;
        factory' = g;
        removed = e1;
        read = e2;
        made = e3;
        checked = e4;
        looped = k4;
      }

  abbrev pub cleared : Db → ZoneRow → Db
  cleared db row = record db { rrsets = delete (has_type row.id doe_rr_type) db.rrsets }

  -- The record sets of a zone, in the order of their labels.
  abbrev pub records_of : Zone → Db → Result (List Rrset)
  records_of zone db =
      read_rrsets zone (order_by_label (select (λ (r : RrsetRow). r.zone_id == zone.id) db.rrsets))

  module _ (pib : Pib) (now : ℕ → Component) (zone : Zone) (db db' : Db) (row : ZoneRow)
      (there : zone_row zone.name db ≡ some row) (stored : row.id ≢ 0) (ready : db.prepares ≡ true)
      (s : Steps pib now zone db db' row) where
    steps-cleared : (s.zone' ≡ found row zone) × (s.db1 ≡ cleared db row)
    steps-cleared =
        let (z, p, d) =
          remove-loaded (found row zone) s.zone' doe_rr_type db s.db1 stored s.removed in
        (z, d)

    steps-read :
        (s.db3 ≡ cleared db row) × (records_of (found row zone) (cleared db row) ≡ ok s.records.1)
    steps-read =
        let (z, d) = steps-cleared in
        let (r, e, a) = find_rrsets-loaded s.zone' s.records s.db1 s.db2 (rw z stored) s.read in
        (ground (arith, s.made, e, d), ap₂ records_of (sym z) (sym d) ∙ a)

    steps-checked :
        (s.factory'.checked ≡ true) × (s.factory'.zone.id ≡ row.id) × (s.db4 ≡ cleared db row)
    steps-checked =
        let (z, c) =
          make_factory_lem pib zone.name default_cert s.factory (ground (arith, s.made)) in
        let (f, e) =
          check_zone_key-found pib s.factory s.factory' row s.db3 s.db4 c
            (rw (z, steps-read.0) there) stored (rw steps-read.0 ready) s.checked in
        (
          ap (λ (g : RrsetFactory). g.checked) f,
          ap (λ (g : RrsetFactory). g.zone.id) f,
          e ∙ steps-read.0,
        )

  -- The rows that the loop leaves: the denials it was given, and the rows of other types or zones.
  regenerate-rows :
      (f : RrsetFactory) (now : ℕ → Component) (r : Rrset) (rs : List Rrset) (db db' : Db)
      → f.checked ≡ true
      → f.zone.id ≢ 0
      → db.prepares ≡ true
      → regenerate f now
          (r ∷ rs)
          (record db { rrsets = delete (has_type f.zone.id doe_rr_type) db.rrsets })
        ≡ (ok tt, db')
      → DoeRows
          (select (has_type f.zone.id doe_rr_type) db'.rrsets)
          (doe_ranges (doe_name r) (map doe_name rs))
        × (delete (has_type f.zone.id doe_rr_type) db'.rrsets
            ≡ delete (has_type f.zone.id doe_rr_type) db.rrsets)
        × (db' ≡ record db { rrsets = db'.rrsets })
  unfolding regenerate
  regenerate-rows f now r rs db db' c z p h =
      let is_doe = has_type f.zone.id doe_rr_type in
      let (rows, whole, d, t) =
        insert_does-rows f now 0 (doe_ranges (doe_name r) (map doe_name rs))
          (record db { rrsets = delete is_doe db.rrsets }) db' c z p h in
      let e = ap (λ (t : Db). t.rrsets) whole in
      let selected : select is_doe db'.rrsets ≡ rows =
        ap (select is_doe) e
        ∙ select-append is_doe (delete is_doe db.rrsets) rows
        ∙ ap₂ ◌++◌ (select-delete is_doe db.rrsets) (select-all is_doe rows t) in
      let kept : delete is_doe db'.rrsets ≡ delete is_doe db.rrsets =
        ap (delete is_doe) e
        ∙ delete-append is_doe (delete is_doe db.rrsets) rows
        ∙ ap₂ ◌++◌ (delete-delete is_doe db.rrsets) (delete-all is_doe rows t)
        ∙ append-nil (delete is_doe db.rrsets) in
      (rw selected d, kept, whole ∙ ap (λ rs. record db { rrsets = rs }) (sym e))

  regenerate-some :
      (f : RrsetFactory) (now : ℕ → Component) (rs : List Rrset) (db db' : Db)
      → regenerate f now rs db ≡ (ok tt, db')
      → (r : Rrset) × (rest : List Rrset) × (rs ≡ r ∷ rest)
  unfolding regenerate
  regenerate-some f now [] db db' h = absurd (ground arith)
  regenerate-some f now (r ∷ rest) db db' h = (r, rest, refl)

  -- A `generateDoe` that goes through on a zone that is in a readable database leaves, as the zone's DoE
  -- rows, exactly the denials of the ranges between the names of the zone's other records, in the
  -- order of `sort_rrsets`; all other rows stay as they were.
  pub generate_doe-DoeRows :
      (pib : Pib) (now : ℕ → Component) (zone : Zone) (db db' : Db) (row : ZoneRow)
      → zone_row zone.name db ≡ some row
      → row.id ≢ 0
      → db.prepares ≡ true
      → generate_doe pib now zone db ≡ (ok tt, db')
      → (all : List Rrset) × (r : Rrset) × (rs : List Rrset) × (records_of
            (found row zone)
            (cleared db row)
          ≡ ok all)
        × (sort_rrsets all ≡ r ∷ rs)
        × DoeRows
            (select (has_type row.id doe_rr_type) db'.rrsets)
            (doe_ranges (doe_name r) (map doe_name rs))
        × (delete (has_type row.id doe_rr_type) db'.rrsets
            ≡ delete (has_type row.id doe_rr_type) db.rrsets)
  generate_doe-DoeRows pib now zone db db' row there stored ready h =
      let s = generate_doe-Steps pib now zone db db' row there stored ready h in
      let (cleared_now, read) = steps-read pib now zone db db' row there stored ready s in
      let (checked, same, after) = steps-checked pib now zone db db' row there stored ready s in
      let (r, rs, sorted) =
        regenerate-some s.factory' now (sort_rrsets s.records.1) s.db4 db' s.looped in
      let (rows, kept, tables) =
        regenerate-rows s.factory' now r rs db db' checked (rw same stored) ready
          (rw (same, ← sorted, ← after) s.looped) in
      (s.records.1, r, rs, read, sorted, rw (← same) rows, rw (← same) kept)

  -- Only the table of record sets changes.
  pub generate_doe-tables :
      (pib : Pib) (now : ℕ → Component) (zone : Zone) (db db' : Db) (row : ZoneRow)
      → zone_row zone.name db ≡ some row
      → row.id ≢ 0
      → db.prepares ≡ true
      → generate_doe pib now zone db ≡ (ok tt, db')
      → db' ≡ record db { rrsets = db'.rrsets }
  generate_doe-tables pib now zone db db' row there stored ready h =
      let s = generate_doe-Steps pib now zone db db' row there stored ready h in
      let (checked, same, after) = steps-checked pib now zone db db' row there stored ready s in
      let (r, rs, sorted) =
        regenerate-some s.factory' now (sort_rrsets s.records.1) s.db4 db' s.looped in
      let (rows, kept, tables) =
        regenerate-rows s.factory' now r rs db db' checked (rw same stored) ready
          (rw (same, ← sorted, ← after) s.looped) in
      tables
