-- ===== src/Mgmt/Tool/Delete.antt =====
-- What `deleteZone` leaves in the database when it goes through.
pub mod Whole
use ndns.Prelude.{
  blob_eq, ◌≡◌, ◌≢◌, inl, inr, refl, sym, ap, ◌∙◌, true, some, List, [], ◌∷◌, arith, ok, bind-ok,
  Bool-cases, Result-cases, ◌==◌, ==_iff, All, In, All-In, All-intro, subst,
}
use ndns.Ndn.{Ndn}
use ndns.Packets.{Name}
use ndns.Daemon.Zone.{Zone, make_zone}
use ndns.Daemon.Rrset.{Rrset}
use ndns.Daemon.Sqlite.{first, ZoneRow, RrsetRow, Db, delete}
use ndns.Daemon.Sqlite.Select.{select-In, In-delete, In-order_by_label}
use ndns.Daemon.DbMgr.Names.{restore_name, save_name}
use ndns.Daemon.DbMgr.Zones.{zone_row, remove_zone}
use ndns.Daemon.DbMgr.Rrsets.{read_rrsets, find_rrsets, remove_rrset}
use ndns.Mgmt.Doe.Stages.{find_rrsets-loaded, find_zone-found, found}
use ndns.Mgmt.Tool.{remove_each, delete_zone, remove_known_zone}

module _ ⦃ndn : Ndn⦄ where
  remove_rrset-removed :
      (r r' : Rrset) (db db' : Db)
      → remove_rrset r db ≡ (ok r', db')
      → db' ≡ record db { rrsets = delete (λ (x : RrsetRow). x.id == r.id) db.rrsets }
  unfolding remove_rrset
  remove_rrset-removed r r' db db' h = elim (Bool-cases (r.id == 0)) [
    | inl z ↦ absurd (ground arith)
    | inr z ↦ elim (Bool-cases db.prepares) [
      | inr p ↦ absurd (ground arith)
      | inl p ↦ elim (Bool-cases db.writes) [ inr w ↦ absurd (ground arith) | inl w ↦ ground arith ]
    ]
  ]

  -- What is left after the loop was there before, and has no id of the record sets removed.
  remove_each-left :
      (rs : List Rrset) (db db' : Db)
      → remove_each rs db ≡ (ok tt, db')
      → (db'.zones ≡ db.zones)
        × (db'.prepares ≡ db.prepares)
        × ((x : RrsetRow) → In x db'.rrsets → In x db.rrsets × All (λ (r : Rrset). r.id ≢ x.id) rs)
  unfolding remove_each
  remove_each-left [] db db' h =
      let e : db' ≡ db = ground arith in
      (
        ap (λ (t : Db). t.zones) e,
        ap (λ (t : Db). t.prepares) e,
        λ x i. (subst (λ (d : Db). In x d.rrsets) e i, tt),
      )
  remove_each-left (r ∷ rs) db db' h =
      let (r', db1, e, k) = bind-ok (remove_rrset r) _ db db' tt h in
      let d = remove_rrset-removed r r' db db1 e in
      let (zones, prepares, left) = remove_each-left rs db1 db' k in
      (
        zones ∙ ap (λ (t : Db). t.zones) d,
        prepares ∙ ap (λ (t : Db). t.prepares) d,
        λ x i.
            let (j, others) = left x i in
            let (l, ne) =
              In-delete (λ (y : RrsetRow). y.id == r.id) db.rrsets x
                (subst (λ (t : Db). In x t.rrsets) d j) in
            (l, (λ q. ground (arith, ==_iff x.id r.id), others)),
      )

  pub read_rrsets-In :
      (zone : Zone) (rows : List RrsetRow) (rs : List Rrset) (x : RrsetRow)
      → read_rrsets zone rows ≡ ok rs
      → In x rows
      → (r : Rrset) × In r rs × (r.id ≡ x.id)
  unfolding read_rrsets
  read_rrsets-In zone [] rs x h i = elim i [ ]
  read_rrsets-In zone (y ∷ rows) rs x h i = elim (Result-cases (restore_name y.label)) [
    | inr (e, k) ↦ absurd (ground arith)
    | inl (label, k) ↦ elim (Result-cases (read_rrsets zone rows)) [
      | inr (e, l) ↦ absurd (ground arith)
      | inl (rest, l) ↦
          let r : Rrset = record {
            id = y.id;
            zone = some zone;
            label = label;
            type = y.type;
            version = y.version;
            ttl = y.ttl;
            rr_data = y.rr_data;
          } in
          let e : r ∷ rest ≡ rs = ground arith in
          elim i [
            | inl q ↦ (r, subst (In r) e (inl refl), ap (λ (t : RrsetRow). t.id) (sym q))
            | inr j ↦
                let (s, m, f) = read_rrsets-In zone rows rest x l j in
                (s, subst (In s) e (inr m), f)
          ]
    ]
  ]

  -- Removing a zone that is found takes its row out and leaves the record sets.
  remove_known_zone-removed :
      (z z' : Zone) (row : ZoneRow) (db db' : Db)
      → zone_row z.name db ≡ some row
      → row.id ≢ 0
      → db.prepares ≡ true
      → remove_known_zone z db ≡ (ok z', db')
      → db' ≡ record db { zones = delete (λ (r : ZoneRow). r.id == row.id) db.zones }
  unfolding remove_known_zone remove_zone
  remove_known_zone-removed z z' row db db' there stored p h =
      let k = rw (find_zone-found z row db there stored p) at h in
      elim (Bool-cases db.writes) [ inr w ↦ absurd (ground arith) | inl w ↦ ground arith ]

  -- What the three steps of a deletion leave.
  emptied :
      (zone z : Zone) (read : Zone × List Rrset) (row : ZoneRow) (db db1 db2 db' : Db)
      → zone_row zone.name db ≡ some row
      → zone.id ≡ row.id
      → row.id ≢ 0
      → db.prepares ≡ true
      → find_rrsets zone db ≡ (ok read, db1)
      → remove_each read.1 db1 ≡ (ok tt, db2)
      → remove_known_zone read.0 db2 ≡ (ok z, db')
      → (db'.zones ≡ delete (λ (r : ZoneRow). r.id == row.id) db.zones)
        × All (λ (r : RrsetRow). r.zone_id ≢ row.id) db'.rrsets
  emptied zone z read row db db1 db2 db' there same stored p e1 e2 e3 =
      let (er, d1, rd) = find_rrsets-loaded zone read db db1 (rw same stored) e1 in
      let (zones, prepares, left) = remove_each-left read.1 db1 db2 e2 in
      let zones2 : db2.zones ≡ db.zones = zones ∙ ap (λ (t : Db). t.zones) d1 in
      let d =
        remove_known_zone-removed read.0 z row db2 db'
          (rw er
            (ap (first (λ (r : ZoneRow). blob_eq r.name (save_name zone.name))) zones2 ∙ there))
          stored (prepares ∙ ap (λ (t : Db). t.prepares) d1 ∙ p) e3 in
      (
        ap (λ (t : Db). t.zones) d ∙ ap (delete (λ (r : ZoneRow). r.id == row.id)) zones2,
        All-intro _ db'.rrsets (λ x i q.
            let (j, others) = left x (subst (λ (t : Db). In x t.rrsets) d i) in
            let (r, m, f) = read_rrsets-In zone _ read.1 x rd (
              In-order_by_label _ x (
                select-In (λ (r : RrsetRow). r.zone_id == zone.id) db.rrsets x
                  (subst (λ (t : Db). In x t.rrsets) d1 j)
                  ((==_iff x.zone_id zone.id).1 (q ∙ sym same)))) in
            All-In _ read.1 others m f),
      )

  -- Take a zone in a readable database. A `deleteZone` that goes through leaves no row of the zone and
  -- no record set of it.
  delete_zone-removed :
      (name : Name) (z : Zone) (row : ZoneRow) (db db' : Db)
      → zone_row name db ≡ some row
      → row.id ≢ 0
      → db.prepares ≡ true
      → delete_zone name db ≡ (ok z, db')
      → (db'.zones ≡ delete (λ (r : ZoneRow). r.id == row.id) db.zones)
        × All (λ (r : RrsetRow). r.zone_id ≢ row.id) db'.rrsets
  unfolding delete_zone
  delete_zone-removed name z row db db' there stored p h =
      let k = rw (find_zone-found (make_zone name 3600) row db there stored p) at h in
      let (read, db1, e1, k1) =
        bind-ok (find_rrsets (found row (make_zone name 3600))) _ db db' z k in
      let (u, db2, e2, k2) = bind-ok (remove_each read.1) _ db1 db' z k1 in
      emptied (found row (make_zone name 3600)) z read row db db1 db2 db' there refl stored p e1 e2
        k2
