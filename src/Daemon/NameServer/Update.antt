-- ===== src/Daemon/NameServer/Update.antt =====
-- What an update does to the database and what it answers (src/daemon/name-server.cpp).
use ndns.Prelude.{
  ℕ, Blob, ◌≡◌, ◌≢◌, ◌⊎◌, inl, inr, refl, ap, ◌∙◌, Bool, true, false, ◌&&◌, not, none, some, List,
  [], ◌∷◌, ◌++◌, arith, ok, if◌then◌else◌, ◌==◌, ==_iff, Bool-cases, In, All, All-intro, Pairwise,
}
use ndns.Ndn.{Ndn}
use ndns.Packets.{Component, Data, Interest, component_lt}
use ndns.Label.{MatchResult, match_data}
use ndns.Clients.ContentType.{update_ok, update_failure}
use ndns.Daemon.Rrset.{Rrset}
use ndns.Daemon.Sqlite.{Sqlite, RrsetRow, any, first, same_index}
use ndns.Daemon.DbMgr.Sound.{ApartRows}
use ndns.Daemon.DbMgr.Sound.Rows.{same_row}
use ndns.Daemon.DbMgr.Names.{save_name}
use ndns.Daemon.DbMgr.Rrsets.{has_key, load_row, set_row, update_breaks, to_row}
use ndns.Daemon.DbMgr.Rrsets.Laws.{find_rrset_lem, insert_rrset_lem, update_rrset_lem, next_id}
use ndns.Daemon.NameServer.{NameServer, Host, do_update, update_answer, rrset_of}
use ndns.Daemon.NameServer.Query.{first_row}

module _ ⦃ndn : Ndn⦄ ⦃sqlite : Sqlite⦄ (server : NameServer) (h : Host) (now : Component)
    (interest : Interest) (d : Data) (re : MatchResult)
    (matched : match_data d.name server.zone.name ≡ some re) (stored : server.zone.id ≢ 0)
    (ready : h.db.prepares ≡ true) where
  -- The record that an update brings.
  abbrev pub updated : RrsetRow → Rrset
  updated row = record (load_row (some row) (rrset_of server re.rr_label re.rr_type)) {
    version = re.version;
    rr_data = ndn.data_block d;
  }

  -- An update that matches a zone in a readable database and is no newer than the record stored
  -- under its label and type is refused: the answer says failure, and the database stays.
  pub do_update-not_newer :
      (row : RrsetRow)
      → first_row server h.db re ≡ some row
      → row.id ≢ 0
      → component_lt row.version re.version ≡ false
      → do_update server now interest d h ≡ (
        ok tt,
        record h { sent = h.sent ++ update_answer server now interest update_failure ∷ [] },
      )
  unfolding do_update load_row
  do_update-not_newer row f i v = ground (
    arith,
    matched,
    f,
    find_rrset_lem (rrset_of server re.rr_label re.rr_type) server.zone h.db refl stored ready,
  )

  -- An update that matches a zone in a readable database and is newer than the record stored under
  -- its label and type is answered with success whatever becomes of the UPDATE: the stored row takes
  -- the version and the packet of the update if the write succeeds, and the database stays as it
  -- was, under the same answer, if it does not.
  pub do_update-newer :
      (row : RrsetRow)
      → first_row server h.db re ≡ some row
      → row.id ≢ 0
      → component_lt row.version re.version ≡ true
      → do_update server now interest d h ≡ (
        ok tt,
        record h {
          db =
              if h.db.writes && not (update_breaks (updated row) h.db.rrsets)
              then record h.db { rrsets = set_row (updated row) h.db.rrsets }
              else h.db;
          sent = h.sent ++ update_answer server now interest update_ok ∷ [];
        },
      )
  unfolding do_update load_row
  do_update-newer row f i v = ground (
    arith,
    matched,
    f,
    find_rrset_lem (rrset_of server re.rr_label re.rr_type) server.zone h.db refl stored ready,
    update_rrset_lem (updated row) server.zone h.db refl ready,
  )

  -- The record that an update adds.
  abbrev pub added : Rrset
  added = record (rrset_of server re.rr_label re.rr_type) {
    version = re.version;
    rr_data = ndn.data_block d;
    ttl = server.zone.ttl;
  }

  abbrev pub can_insert : Bool
  can_insert =
      h.db.writes
      && not (
          any (same_index server.zone.id (save_name re.rr_label) re.rr_type re.version) h.db.rrsets)

  -- An update that matches a zone in a readable database with no record under its label and type is
  -- inserted under the zone's TTL and answered with success; if the write fails or the key is taken,
  -- the answer says failure and the database stays.
  pub do_update-new :
      first_row server h.db re ≡ none
      → do_update server now interest d h ≡ (
        ok tt,
        record h {
          db =
              if can_insert
              then record h.db {
                rrsets = h.db.rrsets ++ to_row (next_id h.db) server.zone.id added ∷ [];
              }
              else h.db;
          sent =
              h.sent
              ++ update_answer server now interest
                  (if can_insert then update_ok else update_failure)
                ∷ [];
        },
      )
  unfolding do_update load_row
  do_update-new f = ground (
    arith,
    matched,
    f,
    find_rrset_lem (rrset_of server re.rr_label re.rr_type) server.zone h.db refl stored ready,
    insert_rrset_lem added server.zone h.db refl stored ready refl,
  )

module _ ⦃ndn : Ndn⦄ where
  -- The row as the statement sets it.
  abbrev pub set_to : Rrset → RrsetRow → RrsetRow
  set_to r x = record x { ttl = r.ttl; version = r.version; rr_data = r.rr_data }

  -- The row found first under a key is found under it again, as it has been set.
  pub first-set_row :
      (r : Rrset) (id : ℕ) (label : Blob) (type : Component) (rows : List RrsetRow) (row : RrsetRow)
      → first (has_key id label type) rows ≡ some row
      → r.id ≡ row.id
      → first (has_key id label type) (set_row r rows) ≡ some (set_to r row)
  unfolding set_row has_key
  first-set_row r id label type [] row e i = absurd (ground arith)
  first-set_row r id label type (x ∷ rows) row e i = elim (Bool-cases (has_key id label type x)) [
    | inl y ↦
        let same : x ≡ row = ground arith in
        ground (arith, y, same, i, ap (λ (t : RrsetRow). t.id) same, ==_iff x.id r.id)
    | inr n ↦
        let rest = first-set_row r id label type rows row (ground arith) i in
        elim (Bool-cases (x.id == r.id)) [
          | inl t ↦ ground (arith, t, n, rest)
          | inr f ↦ ground (arith, f, n, rest)
        ]
  ]

  pub In-set_row :
      (r : Rrset) (rows : List RrsetRow) (x : RrsetRow)
      → In x rows
      → In (if x.id == r.id then set_to r x else x) (set_row r rows)
  unfolding set_row
  In-set_row r [] x i = elim i [ ]
  In-set_row r (y ∷ rows) x (inl e) = inl (ap (λ z. if z.id == r.id then set_to r z else z) e)
  In-set_row r (y ∷ rows) x (inr i) = inr (In-set_row r rows x i)

  -- Each row is left as it is, or replaced under its key by a newer version.
  abbrev pub Kept : List RrsetRow → RrsetRow → Type 0
  Kept rows x =
      In x rows
      ⊎ ((y : RrsetRow) × In y rows
          × (y.id ≡ x.id)
          × (y.zone_id ≡ x.zone_id)
          × (y.label ≡ x.label)
          × (y.type ≡ x.type)
          × (component_lt x.version y.version ≡ true))

  pub set_row-Kept :
      (r : Rrset) (rows : List RrsetRow) (row : RrsetRow)
      → Pairwise ApartRows rows
      → In row rows
      → r.id ≡ row.id
      → component_lt row.version r.version ≡ true
      → All (Kept (set_row r rows)) rows
  set_row-Kept r rows row apart there same newer = All-intro (Kept (set_row r rows)) rows (λ x i.
      elim (Bool-cases (x.id == r.id)) [
        | inr f ↦ inl (rw f at (In-set_row r rows x i))
        | inl t ↦
            let equal : x ≡ row =
              same_row rows x row apart i there ((==_iff x.id r.id).0 t ∙ same) in
            inr (
              set_to r x,
              rw t at (In-set_row r rows x i),
              refl,
              refl,
              refl,
              refl,
              ap (λ (z : RrsetRow). component_lt z.version r.version) equal ∙ newer,
            )
      ])
