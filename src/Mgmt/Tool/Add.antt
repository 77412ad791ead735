-- ===== src/Mgmt/Tool/Add.antt =====
-- What `addRrset` leaves in the database when it goes through.
use ndns.Prelude.{
  blob_eq, subst, ℕ, ◌≡◌, ◌≢◌, inl, inr, refl, ap, ◌∙◌, Bool, true, ◌&&◌, not, Option, none, some,
  List, [], ◌∷◌, ◌++◌, map, arith, ok, bind-ok, Bool-cases, Option-cases, ◌==◌, All,
}
use ndns.Ndn.{Ndn}
use ndns.Packets.{Component, component_eq, component_lt}
use ndns.Label.{ns_rr_type, doe_rr_type}
use ndns.Clients.ContentType.{ndns_auth}
use ndns.Daemon.Zone.{Zone}
use ndns.Daemon.Rrset.{Rrset}
use ndns.Daemon.Sqlite.{Sqlite, ZoneRow, RrsetRow, Db, first, delete, same_index, any}
use ndns.Daemon.Sqlite.Select.{delete-append}
use ndns.Daemon.DbMgr.Sound.Rows.{All-of_map}
use ndns.Daemon.DbMgr.Names.{save_name}
use ndns.Daemon.DbMgr.Zones.{zone_row}
use ndns.Daemon.DbMgr.Rrsets.{has_key, has_type, load_row, insert_rrset, remove_rrset, to_row}
use ndns.Daemon.DbMgr.Rrsets.Laws.{find_rrset_lem, result_of, insert_rrset_lem, next_id}
use ndns.Mgmt.CertHelper.{Pib}
use ndns.Mgmt.Doe.Generate.{generate_doe-DoeRows, generate_doe-tables}
use ndns.Mgmt.Tool.{check_rrset_version, generate_doe_of, store_rrset, refuse_type, add_rrset}

module _ ⦃ndn : Ndn⦄ where
  -- The rows without the one that a record replaces.
  abbrev pub without : Option RrsetRow → List RrsetRow → List RrsetRow
  without none rows = rows
  without (some row) rows = delete (λ (r : RrsetRow). r.id == row.id) rows

  -- A row that a record replaces is older.
  abbrev pub IsOlder : Option RrsetRow → Component → Type 0
  IsOlder none version = Unit
  IsOlder (some row) version = component_lt row.version version ≡ true

  abbrev pub key_row : Zone → Rrset → Db → Option RrsetRow
  key_row zone rrset db = first (has_key zone.id (save_name rrset.label) rrset.type) db.rrsets

  abbrev pub Numbered : Option RrsetRow → Type 0
  Numbered none = Unit
  Numbered (some row) = row.id ≢ 0

  refuse_type-db :
      (content_type : ℕ) (found : Rrset × Bool) (db db' : Db)
      → refuse_type content_type found db ≡ (ok tt, db')
      → db' ≡ db
  unfolding refuse_type
  refuse_type-db content_type found db db' h = elim (Bool-cases found.1) [
    | inr f ↦ ground arith
    | inl t ↦ elim (Option-cases (ndn.block_data found.0.rr_data)) [
      | inl n ↦ absurd (ground arith)
      | inr (d, e) ↦ elim (Bool-cases (d.content_type == content_type)) [
        | inl s ↦ absurd (ground arith)
        | inr s ↦ ground arith
      ]
    ]
  ]

  module _ (rrset : Rrset) (zone : Zone) (db : Db) (at : rrset.zone ≡ some zone)
      (stored : zone.id ≢ 0) (ready : db.prepares ≡ true) where
    -- A check that goes through has found no record, or has removed an older one.
    check_rrset_version-IsOlder :
        (found : Option RrsetRow)
        → key_row zone rrset db ≡ found
        → Numbered found
        → (z : Option Zone) (db' : Db) → check_rrset_version rrset db ≡ (ok z, db')
        → (z ≡ some zone)
          × (db' ≡ record db { rrsets = without found db.rrsets })
          × IsOlder found rrset.version
    unfolding check_rrset_version load_row remove_rrset
    check_rrset_version-IsOlder none e n z db' h =
        ground (arith, find_rrset_lem rrset zone db at stored ready)
    check_rrset_version-IsOlder (some row) e n z db' h =
        let k = rw (find_rrset_lem rrset zone db at stored ready, e) at h in
        elim (Bool-cases (component_eq row.version rrset.version)) [
          | inl s ↦ absurd (ground arith)
          | inr s ↦ elim (Bool-cases (component_lt rrset.version row.version)) [
            | inl l ↦ absurd (ground arith)
            | inr l ↦ elim (Bool-cases db.writes) [
              | inr w ↦ absurd (ground arith)
              | inl w ↦ ground (
                arith,
                ndn.component_lt_total row.version rrset.version,
                ndn.component_eq_iff row.version rrset.version,
              )
            ]
          ]
        ]

  load_row-zone : (row : Option RrsetRow) (rrset : Rrset) → (load_row row rrset).zone ≡ rrset.zone
  unfolding load_row
  load_row-zone none rrset = refl
  load_row-zone (some row) rrset = refl

module _ ⦃ndn : Ndn⦄ ⦃sqlite : Sqlite⦄ where
  -- An insertion that goes through has appended a row of the record.
  pub insert_rrset-appended :
      (rrset r : Rrset) (zone : Zone) (db db' : Db)
      → rrset.zone ≡ some zone
      → zone.id ≢ 0
      → db.prepares ≡ true
      → rrset.id ≡ 0
      → insert_rrset rrset db ≡ (ok r, db')
      → (r.zone ≡ some zone)
        × (db' ≡ record db { rrsets = db.rrsets ++ to_row (next_id db) zone.id rrset ∷ [] })
  insert_rrset-appended rrset r zone db db' at stored ready new h =
      let k = rw (insert_rrset_lem rrset zone db at stored ready new) at h in
      elim (Bool-cases (
        db.writes
        && not (
            any (same_index zone.id (save_name rrset.label) rrset.type rrset.version) db.rrsets))) [
              | inl c ↦ ground arith
              | inr c ↦ absurd (ground arith)
            ]

  pub delete-to_row :
      (id zone_id : ℕ) (rrset : Rrset) (rows : List RrsetRow)
      → rrset.type ≢ doe_rr_type
      → delete (has_type zone_id doe_rr_type) (rows ++ to_row id zone_id rrset ∷ [])
        ≡ delete (has_type zone_id doe_rr_type) rows ++ to_row id zone_id rrset ∷ []
  unfolding has_type to_row
  delete-to_row id zone_id rrset rows t =
      delete-append (has_type zone_id doe_rr_type) rows (to_row id zone_id rrset ∷ [])
      ∙ ground (arith, ndn.component_eq_iff rrset.type doe_rr_type)

  module _ (pib : Pib) (doe_now : ℕ → Component) (zone : Zone) (row : ZoneRow) (db db' : Db)
      (known : zone_row zone.name db ≡ some row) (same : zone.id ≡ row.id) (stored : zone.id ≢ 0)
      (ready : db.prepares ≡ true) where
    -- The DoE records of the zone are made anew, and nothing else changes.
    generate_doe_of-kept :
        (z : Option Zone) (db1 db2 : Db)
        → z ≡ some zone
        → db1.zones ≡ db.zones
        → db1.prepares ≡ true
        → generate_doe_of pib doe_now z db1 ≡ (ok tt, db2)
        → (db2 ≡ record db1 { rrsets = db2.rrsets })
          × (delete (has_type zone.id doe_rr_type) db2.rrsets
              ≡ delete (has_type zone.id doe_rr_type) db1.rrsets)
    unfolding generate_doe_of
    generate_doe_of-kept z db1 db2 e zones ready1 h =
        let there : zone_row zone.name db1 ≡ some row =
          ap (first (λ (r : ZoneRow). blob_eq r.name (save_name zone.name))) zones ∙ known in
        let (all, r, rs, read, sorted, rows, kept) =
          generate_doe-DoeRows pib doe_now zone db1 db2 row there (rw (← same) stored) ready1
            (rw e at h) in
        let tables =
          generate_doe-tables pib doe_now zone db1 db2 row there (rw (← same) stored) ready1
            (rw e at h) in
        (tables, rw same kept)

    store_rrset-stored :
        (rrset : Rrset)
        → rrset.zone ≡ some zone
        → rrset.id ≡ 0
        → rrset.type ≢ doe_rr_type
        → Numbered (key_row zone rrset db)
        → store_rrset pib doe_now rrset db ≡ (ok tt, db')
        → IsOlder (key_row zone rrset db) rrset.version
          × (db' ≡ record db { rrsets = db'.rrsets })
          × (id : ℕ) × (id ≢ 0)
          × All (λ (x : RrsetRow). x.id ≢ id) (without (key_row zone rrset db) db.rrsets)
          × (delete (has_type zone.id doe_rr_type) db'.rrsets
              ≡ delete (has_type zone.id doe_rr_type) (without (key_row zone rrset db) db.rrsets)
                ++ to_row id zone.id rrset ∷ [])
    unfolding store_rrset to_row
    store_rrset-stored rrset at new plain numbered h =
        let (z, db1, e1, k1) = bind-ok (check_rrset_version rrset) _ db db' tt h in
        let (ez, d1, older) =
          check_rrset_version-IsOlder rrset zone db at stored ready (key_row zone rrset db) refl
            numbered z db1 e1 in
        let (r, db2, e2, k2) = bind-ok (insert_rrset (record rrset { zone = z })) _ db1 db' tt k1 in
        let (er, d2) =
          insert_rrset-appended (record rrset { zone = z }) r zone db1 db2 ez stored (rw d1 ready)
            new e2 in
        let (tables, kept) =
          generate_doe_of-kept r.zone db2 db' er (ground (arith, d1, d2))
            (ground (arith, d1, d2, ready)) k2 in
        (
          older,
          tables
              ∙ ap (λ (d : Db). record d { rrsets = db'.rrsets }) d2
              ∙ ap (λ (d : Db). record d { rrsets = db'.rrsets }) d1,
          next_id db1,
          (λ q. omega (arith, q, sqlite.new_rowid_pos (map (λ (r : RrsetRow). r.id) db1.rrsets))),
          subst (λ (d : Db). All (λ (x : RrsetRow). x.id ≢ next_id db1) d.rrsets) d1
              (All-of_map (λ i. i ≢ next_id db1) (λ (x : RrsetRow). x.id) db1.rrsets
                (sqlite.new_rowid_fresh (map (λ (x : RrsetRow). x.id) db1.rrsets))),
          kept
              ∙ ap (λ (d : Db). delete (has_type zone.id doe_rr_type) d.rrsets) d2
              ∙ delete-to_row (next_id db1) zone.id (record rrset { zone = z }) db1.rrsets plain
              ∙ ap
                  (λ (d : Db).
                    delete (has_type zone.id doe_rr_type) d.rrsets
                    ++ to_row (next_id db1) zone.id rrset ∷ [])
                  d1,
        )

    -- Take a zone in a readable database and a new record of a type other than DoE. If `addRrset` goes
    -- through, a record that was stored under its label and type is older than it, and what the zone
    -- and the others then have besides DoE records of the zone is what they had, without that older
    -- record and with the new one under an id that none of these records has; the other tables stay as
    -- they were.
    pub add_rrset-stored :
        (rrset : Rrset)
        → rrset.zone ≡ some zone
        → rrset.id ≡ 0
        → rrset.type ≢ doe_rr_type
        → Numbered (key_row zone rrset db)
        → add_rrset pib doe_now rrset db ≡ (ok tt, db')
        → IsOlder (key_row zone rrset db) rrset.version
          × (db' ≡ record db { rrsets = db'.rrsets })
          × (id : ℕ) × (id ≢ 0)
          × All (λ (x : RrsetRow). x.id ≢ id) (without (key_row zone rrset db) db.rrsets)
          × (delete (has_type zone.id doe_rr_type) db'.rrsets
              ≡ delete (has_type zone.id doe_rr_type) (without (key_row zone rrset db) db.rrsets)
                ++ to_row id zone.id rrset ∷ [])
    unfolding add_rrset to_row
    add_rrset-stored rrset at new plain numbered h =
        let ns : Rrset = record rrset { type = ns_rr_type } in
        let found = result_of (key_row zone ns db) ns in
        let k = rw (find_rrset_lem ns zone db at stored ready) at h in
        let (u, db1, e1, k1) = bind-ok (refuse_type ndns_auth found) _ db db' tt k in
        store_rrset-stored (record rrset { zone = found.0.zone })
          (load_row-zone (key_row zone ns db) ns ∙ at) new plain numbered
          (subst
            (λ d. store_rrset pib doe_now (record rrset { zone = found.0.zone }) d ≡ (ok tt, db'))
            (refuse_type-db ndns_auth found db db1 e1) k1)
