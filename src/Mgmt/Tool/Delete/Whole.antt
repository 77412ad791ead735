-- ===== src/Mgmt/Tool/Delete/Whole.antt =====
-- That `deleteZone` goes through, and what the database then is.
use ndns.Prelude.{
  ℕ, ◌≡◌, ◌≢◌, inl, inr, refl, sym, ap, ◌∙◌, Bool, true, false, some, List, [], ◌∷◌, arith, ok,
  ◌==◌, ==_iff, All, In, All-In, All-intro, All-map, if◌then◌else◌, Pairwise, Bool-cases, subst,
}
use ndns.Ndn.{Ndn}
use ndns.Packets.{Name}
use ndns.Daemon.Zone.{Zone, make_zone, empty_zone}
use ndns.Daemon.Rrset.{Rrset, make_rrset}
use ndns.Daemon.Sqlite.{ZoneRow, RrsetRow, Db, select, delete, order_by_label}
use ndns.Daemon.Sqlite.Select.{
  In-select, select-In, In-order_by_label, order_by_label-In, delete-or, delete-ext,
}
use ndns.Daemon.DbMgr.Names.{restore_name, save_name, restore_name-save_name}
use ndns.Daemon.DbMgr.Zones.{zone_row, remove_zone}
use ndns.Daemon.DbMgr.Rrsets.{read_rrsets, find_rrsets, remove_rrset}
use ndns.Daemon.DbMgr.Sound.{Sound, ApartRows}
use ndns.Daemon.DbMgr.Sound.Rows.{same_row}
use ndns.Mgmt.Doe.Stages.{find_zone-found, found, find_rrsets-read}
use ndns.Mgmt.Tool.{remove_each, delete_zone, remove_known_zone}
use ndns.Mgmt.Tool.Delete.{read_rrsets-In}

module _ ⦃ndn : Ndn⦄ where
  -- The label is that of a name.
  abbrev pub IsNamed : RrsetRow → Type 0
  IsNamed x = (n : Name) × (x.label ≡ save_name n)

  abbrev read_row : Zone → Name → RrsetRow → Rrset
  read_row zone label x = record {
    id = x.id;
    zone = some zone;
    label = label;
    type = x.type;
    version = x.version;
    ttl = x.ttl;
    rr_data = x.rr_data;
  }

  read_rrsets-step :
      (zone : Zone) (x : RrsetRow) (rows : List RrsetRow) (rest : List Rrset) (named : IsNamed x)
      → read_rrsets zone rows ≡ ok rest
      → read_rrsets zone (x ∷ rows) ≡ ok (read_row zone named.0 x ∷ rest)
  unfolding read_rrsets
  read_rrsets-step zone x rows rest (n, e) k =
      let restored : restore_name x.label ≡ ok n = ap restore_name e ∙ restore_name-save_name n in
      ground (arith, restored, k)

  -- Rows with names for labels are all read, and each record set read is one of them.
  read_rrsets-goes_through :
      (zone : Zone) (rows : List RrsetRow)
      → All IsNamed rows
      → (rs : List Rrset) × (read_rrsets zone rows ≡ ok rs)
        × All (λ (r : Rrset). (x : RrsetRow) × In x rows × (r.id ≡ x.id)) rs
  read_rrsets-goes_through zone [] h = ([], unfold read_rrsets in refl, tt)
  read_rrsets-goes_through zone (x ∷ rows) h =
      let (rest, k, there) = read_rrsets-goes_through zone rows h.1 in
      (
        read_row zone h.0.0 x ∷ rest,
        read_rrsets-step zone x rows rest h.0 k,
        (
          (x, inl refl, refl),
          All-map (λ (r : Rrset). (y : RrsetRow) × In y rows × (r.id ≡ y.id))
              (λ r. (y : RrsetRow) × In y (x ∷ rows) × (r.id ≡ y.id)) rest
              (λ r (y, i, e). (y, inr i, e)) there,
        ),
      )

  -- The row is that of one of the record sets.
  abbrev is_of : List Rrset → RrsetRow → Bool
  is_of [] x = false
  is_of (r ∷ rs) x = if x.id == r.id then true else is_of rs x

  is_of-true :
      (rs : List Rrset) (r : Rrset) (x : RrsetRow) → In r rs → x.id ≡ r.id → is_of rs x ≡ true
  is_of-true [] r x i e = elim i [ ]
  is_of-true (s ∷ rs) r x (inl q) e =
      let same : x.id ≡ s.id = e ∙ ap (λ (t : Rrset). t.id) q in ground (arith, ==_iff x.id s.id)
  is_of-true (s ∷ rs) r x (inr i) e = ground (arith, is_of-true rs r x i e)

  is_of-false :
      (rs : List Rrset) (x : RrsetRow) → All (λ (r : Rrset). x.id ≢ r.id) rs → is_of rs x ≡ false
  is_of-false [] x h = refl
  is_of-false (s ∷ rs) x h = ground (arith, is_of-false rs x h.1, h.0, ==_iff x.id s.id)

  remove_rrset-goes_through :
      (r : Rrset) (db : Db)
      → r.id ≢ 0
      → db.prepares ≡ true
      → db.writes ≡ true
      → remove_rrset r db ≡ (
        ok (make_rrset r.zone),
        record db { rrsets = delete (λ (x : RrsetRow). x.id == r.id) db.rrsets },
      )
  unfolding remove_rrset
  remove_rrset-goes_through r db n p w = ground arith

  is_of-nil : (rows : List RrsetRow) → delete (is_of []) rows ≡ rows
  is_of-nil [] = refl
  is_of-nil (x ∷ rows) = ap (λ l. x ∷ l) (is_of-nil rows)

  remove_each-goes_through :
      (rs : List Rrset) (db : Db)
      → All (λ (r : Rrset). r.id ≢ 0) rs
      → db.prepares ≡ true
      → db.writes ≡ true
      → remove_each rs db ≡ (ok tt, record db { rrsets = delete (is_of rs) db.rrsets })
  unfolding remove_each
  remove_each-goes_through [] db h p w =
      ap (λ l. (ok tt, record db { rrsets = l })) (sym (is_of-nil db.rrsets))
  remove_each-goes_through (r ∷ rs) db h p w =
      let step = remove_rrset-goes_through r db h.0 p w in
      let rest =
        remove_each-goes_through rs
          (record db { rrsets = delete (λ (x : RrsetRow). x.id == r.id) db.rrsets }) h.1 p w in
      rw (step) (
        rest
        ∙ ap (λ l. (ok tt, record db { rrsets = l }))
            (delete-or (λ (x : RrsetRow). x.id == r.id) (is_of rs) db.rrsets))

  -- The removal takes out just the rows of the zone.
  is_of-zone :
      (id : ℕ) (rows : List RrsetRow) (rs : List Rrset)
      → Pairwise ApartRows rows
      → ((x : RrsetRow) → In x rows → x.zone_id ≡ id → (r : Rrset) × In r rs × (r.id ≡ x.id))
      → All (λ (r : Rrset). (y : RrsetRow) × In y rows × (y.zone_id ≡ id) × (r.id ≡ y.id)) rs
      → All (λ (x : RrsetRow). is_of rs x ≡ (x.zone_id == id)) rows
  is_of-zone id rows rs apart read from = All-intro _ rows (λ x i.
      elim (Bool-cases (x.zone_id == id)) [
        | inl t ↦
            let (r, j, e) = read x i ((==_iff x.zone_id id).0 t) in
            is_of-true rs r x j (sym e) ∙ sym t
        | inr f ↦
            is_of-false rs x (
              All-map _ (λ (r : Rrset). x.id ≢ r.id) rs
                (λ r (y, j, z, e) same.
                  let equal : x ≡ y = same_row rows x y apart i j (same ∙ e) in
                  absurd (
                    ground
                      (arith, f, ap (λ (r : RrsetRow). r.zone_id) equal, z, ==_iff x.zone_id id)))
                from)
            ∙ sym f
      ])

  -- Whatever is read from the rows of a zone, in the order of the labels, is of the zone.
  module _ (zone : Zone) (row : ZoneRow) (db : Db) (named : All IsNamed db.rrsets)
      (same : zone.id ≡ row.id) (stored : row.id ≢ 0) (ready : db.prepares ≡ true)
      (sound : Sound db) where
    abbrev of_zone : RrsetRow → Bool
    of_zone x = x.zone_id == row.id

    find_rrsets-goes_through :
        (rs : List Rrset) × (find_rrsets zone db ≡ (ok (zone, rs), db))
        × All (λ (r : Rrset). r.id ≢ 0) rs
        × (delete (is_of rs) db.rrsets ≡ delete of_zone db.rrsets)
    unfolding Sound
    find_rrsets-goes_through =
        let rows = order_by_label (select of_zone db.rrsets) in
        let there : (x : RrsetRow) → In x rows → In x db.rrsets × (of_zone x ≡ true) =
          λ x i. In-select of_zone db.rrsets x (order_by_label-In (select of_zone db.rrsets) x i) in
        let (rs, e, from) =
          read_rrsets-goes_through zone rows
            (All-intro IsNamed rows (λ x i. All-In IsNamed db.rrsets named (there x i).0)) in
        (
          rs,
          find_rrsets-read zone db rs (λ z. stored (sym same ∙ z)) ready
              (subst
                (λ k.
                  read_rrsets zone
                    (order_by_label (select (λ (x : RrsetRow). x.zone_id == k) db.rrsets))
                  ≡ ok rs)
                (sym same) e),
          All-map _ (λ (r : Rrset). r.id ≢ 0) rs
              (λ r (x, i, q) z.
                let pos = All-In _ db.rrsets sound.1.0 (there x i).0 in omega (arith, pos, q, z))
              from,
          delete-ext (is_of rs) of_zone db.rrsets (
              is_of-zone row.id db.rrsets rs sound.1.1
                (λ x i z. read_rrsets-In zone rows rs x e (
                  In-order_by_label (select of_zone db.rrsets) x
                    (select-In of_zone db.rrsets x i ((==_iff x.zone_id row.id).1 z))))
                (All-map _
                  (λ (r : Rrset).
                    (y : RrsetRow) × In y db.rrsets × (y.zone_id ≡ row.id) × (r.id ≡ y.id))
                  rs
                  (λ r (x, i, q). (x, (there x i).0, (==_iff x.zone_id row.id).0 (there x i).1, q))
                  from)),
        )

  remove_known_zone-goes_through :
      (z : Zone) (row : ZoneRow) (db : Db)
      → zone_row z.name db ≡ some row
      → row.id ≢ 0
      → db.prepares ≡ true
      → db.writes ≡ true
      → remove_known_zone z db
        ≡ (ok empty_zone, record db { zones = delete (λ (r : ZoneRow). r.id == row.id) db.zones })
  unfolding remove_known_zone remove_zone
  remove_known_zone-goes_through z row db there stored p w =
      ground (arith, find_zone-found z row db there stored p)

  -- Take a zone in a sound, readable and writable database whose record sets have names for labels.
  -- `deleteZone` goes through, and the database is what it was without the zone's row and just the
  -- record sets of the zone.
  pub delete_zone-goes_through :
      (name : Name) (row : ZoneRow) (db : Db)
      → zone_row name db ≡ some row
      → Sound db
      → All IsNamed db.rrsets
      → row.id ≢ 0
      → db.prepares ≡ true
      → db.writes ≡ true
      → delete_zone name db ≡ (
        ok empty_zone,
        record db {
          zones = delete (λ (r : ZoneRow). r.id == row.id) db.zones;
          rrsets = delete (λ (r : RrsetRow). r.zone_id == row.id) db.rrsets;
        },
      )
  unfolding delete_zone
  delete_zone-goes_through name row db there sound named stored p w =
      let zone = found row (make_zone name 3600) in
      let (rs, e, ids, left) = find_rrsets-goes_through zone row db named refl stored p sound in
      let db2 = record db { rrsets = delete (λ (r : RrsetRow). r.zone_id == row.id) db.rrsets } in
      let removed : remove_each rs db ≡ (ok tt, db2) =
        remove_each-goes_through rs db ids p w ∙ ap (λ l. (ok tt, record db { rrsets = l })) left in
      let last = remove_known_zone-goes_through zone row db2 there stored p w in
      ground (arith, find_zone-found (make_zone name 3600) row db there stored p, e, removed, last)
