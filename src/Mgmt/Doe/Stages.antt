-- ===== src/Mgmt/Doe/Stages.antt =====
-- The steps that generateDoe takes before its loop, when they go through.
use ndns.Prelude.{
  ◌≡◌, ◌≢◌, refl, true, false, some, List, [], ◌∷◌, ◌++◌, arith, ok, pure, raise, lift, ◌>>=◌, ◌==◌,
  if◌then◌else◌, Result-cases, bad_certificate, inl, inr, Bool-cases,
}
use ndns.Ndn.{Ndn}
use ndns.Packets.{Name, Component, name_eq}
use ndns.Label.{ndns_iterative_query}
use ndns.Daemon.Zone.{Zone, make_zone}
use ndns.Daemon.Rrset.{Rrset}
use ndns.Daemon.Sqlite.{ZoneRow, RrsetRow, Db, order_by_label, select, delete}
use ndns.Daemon.DbMgr.Zones.{zone_row, column_int, find_zone, resolve}
use ndns.Daemon.DbMgr.Rrsets.{find_rrsets, read_rrsets, remove_rrsets_of_zone_by_type, has_type}
use ndns.Daemon.RrsetFactory.{
  make_factory, only_check_zone, match_certificate, check_zone_key, default_cert, RrsetFactory,
}
use ndns.Mgmt.CertHelper.{
  Pib, get_default_key_name_of_identity, get_default_certificate_name_of_identity,
}

module _ ⦃ndn : Ndn⦄ where
  abbrev pub found : ZoneRow → Zone → Zone
  found row z = record z { id = row.id; ttl = column_int row.ttl }

  pub find_zone-found :
      (z : Zone) (row : ZoneRow) (db : Db)
      → zone_row z.name db ≡ some row
      → row.id ≢ 0
      → db.prepares ≡ true
      → find_zone z db ≡ (ok (found row z, true), db)
  unfolding find_zone
  find_zone-found z row db there stored p = ground arith

  -- The factory that the constructor makes has not checked its zone.
  pub make_factory_lem :
      (pib : Pib) (name cert : Name) (f : RrsetFactory)
      → make_factory pib name cert ≡ ok f
      → (f.zone ≡ make_zone name 3600) × (f.checked ≡ false)
  unfolding make_factory
  make_factory_lem pib name cert f h = elim (Bool-cases (name_eq cert default_cert)) [
    | inr n ↦ ground arith
    | inl n ↦
        elim (Result-cases
          (get_default_key_name_of_identity pib (name ++ ndns_iterative_query ∷ []))) [
            | inr (e, k) ↦ absurd (ground arith)
            | inl (key, k) ↦
                elim (Result-cases (
                  get_default_certificate_name_of_identity pib
                    (name ++ ndns_iterative_query ∷ []))) [
                      | inr (e, c) ↦ absurd (ground arith)
                      | inl (c, e) ↦ ground arith
                    ]
          ]
  ]

  only_check_zone-found :
      (f : RrsetFactory) (row : ZoneRow) (db : Db)
      → f.checked ≡ false
      → zone_row f.zone.name db ≡ some row
      → row.id ≢ 0
      → db.prepares ≡ true
      → only_check_zone f db ≡ (ok (record f { zone = found row f.zone; checked = true }), db)
  unfolding only_check_zone
  only_check_zone-found f row db c there stored p =
      rw (c, find_zone-found f.zone row db there stored p) refl

  key_matches :
      (pib : Pib) (f f' : RrsetFactory) (db db' : Db)
      → (if name_eq f.dsk_cert_name default_cert then pure f else do
        matches ←
            lift (match_certificate pib f.dsk_cert_name (f.zone.name ++ ndns_iterative_query ∷ []))
        if matches then pure f else raise bad_certificate)
          db
        ≡ (ok f', db')
      → (f' ≡ f) × (db' ≡ db)
  key_matches pib f f' db db' h = elim (Bool-cases (name_eq f.dsk_cert_name default_cert)) [
    | inl d ↦ ground arith
    | inr d ↦
        elim (Result-cases
          (match_certificate pib f.dsk_cert_name (f.zone.name ++ ndns_iterative_query ∷ []))) [
            | inl (true, m) ↦ ground arith
            | inl (false, m) ↦ absurd (ground arith)
            | inr (e, m) ↦ absurd (ground arith)
          ]
  ]

  -- A check of the zone key that goes through leaves the database and marks the zone as found.
  pub check_zone_key-found :
      (pib : Pib) (f f' : RrsetFactory) (row : ZoneRow) (db db' : Db)
      → f.checked ≡ false
      → zone_row f.zone.name db ≡ some row
      → row.id ≢ 0
      → db.prepares ≡ true
      → check_zone_key pib f db ≡ (ok f', db')
      → (f' ≡ record f { zone = found row f.zone; checked = true }) × (db' ≡ db)
  unfolding check_zone_key
  check_zone_key-found pib f f' row db db' c there stored p h =
      key_matches pib (record f { zone = found row f.zone; checked = true }) f' db db'
        (rw (only_check_zone-found f row db c there stored p) at h)

  pub remove-loaded :
      (z z' : Zone) (type : Component) (db db' : Db)
      → z.id ≢ 0
      → remove_rrsets_of_zone_by_type z type db ≡ (ok z', db')
      → (z' ≡ z)
        × (db.prepares ≡ true)
        × (db' ≡ record db { rrsets = delete (has_type z.id type) db.rrsets })
  unfolding remove_rrsets_of_zone_by_type resolve
  remove-loaded z z' type db db' stored h = elim (Bool-cases db.prepares) [
    | inr p ↦ absurd (ground arith)
    | inl p ↦ elim (Bool-cases db.writes) [ inr w ↦ absurd (ground arith) | inl w ↦ ground arith ]
  ]

  pub find_rrsets-loaded :
      (z : Zone) (r : Zone × List Rrset) (db db' : Db)
      → z.id ≢ 0
      → find_rrsets z db ≡ (ok r, db')
      → (r.0 ≡ z)
        × (db' ≡ db)
        × (read_rrsets z (order_by_label (select (λ (r : RrsetRow). r.zone_id == z.id) db.rrsets))
            ≡ ok r.1)
  unfolding find_rrsets resolve
  find_rrsets-loaded z r db db' stored h = elim (Bool-cases db.prepares) [
    | inr p ↦ absurd (ground arith)
    | inl p ↦
        elim (Result-cases (
          read_rrsets z
            (order_by_label (select (λ (r : RrsetRow). r.zone_id == z.id) db.rrsets)))) [
              | inr (e, k) ↦ absurd (ground arith)
              | inl (rs, k) ↦ ground arith
            ]
  ]

  pub find_rrsets-read :
      (zone : Zone) (db : Db) (rs : List Rrset)
      → zone.id ≢ 0
      → db.prepares ≡ true
      → read_rrsets zone
          (order_by_label (select (λ (x : RrsetRow). x.zone_id == zone.id) db.rrsets))
        ≡ ok rs
      → find_rrsets zone db ≡ (ok (zone, rs), db)
  unfolding find_rrsets resolve
  find_rrsets-read zone db rs stored p e = ground arith

  pub remove-goes_through :
      (z : Zone) (type : Component) (db : Db)
      → z.id ≢ 0
      → db.prepares ≡ true
      → db.writes ≡ true
      → remove_rrsets_of_zone_by_type z type db
        ≡ (ok z, record db { rrsets = delete (has_type z.id type) db.rrsets })
  unfolding remove_rrsets_of_zone_by_type resolve
  remove-goes_through z type db stored p w = ground arith

  pub check_zone_key-goes_through :
      (pib : Pib) (f : RrsetFactory) (row : ZoneRow) (db : Db)
      → f.checked ≡ false
      → zone_row f.zone.name db ≡ some row
      → row.id ≢ 0
      → db.prepares ≡ true
      → match_certificate pib f.dsk_cert_name (f.zone.name ++ ndns_iterative_query ∷ []) ≡ ok true
      → check_zone_key pib f db ≡ (ok (record f { zone = found row f.zone; checked = true }), db)
  unfolding check_zone_key
  check_zone_key-goes_through pib f row db c there stored p m =
      ground (arith, only_check_zone-found f row db c there stored p, m)
