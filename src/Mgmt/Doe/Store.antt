-- ===== src/Mgmt/Doe/Store.antt =====
-- generateDoe stores the packets of the ranges.
use ndns.Prelude.{
  ℕ, suc, ◌≡◌, ◌≢◌, refl, ap, ◌∙◌, true, some, List, [], ◌∷◌, ◌++◌, map, arith, All, ok,
  append_assoc, append-nil,
}
use ndns.Ndn.{Ndn}
use ndns.Packets.{Component}
use ndns.Label.{doe_rr_type}
use ndns.Daemon.Rrset.{Rrset, make_rrset}
use ndns.Daemon.Sqlite.{Sqlite, RrsetRow, Db}
use ndns.Daemon.DbMgr.Rrsets.{has_type, to_row}
use ndns.Daemon.DbMgr.Rrsets.Laws.{insert_rrset_lem, next_id}
use ndns.Daemon.RrsetFactory.{RrsetFactory, version_use_unix_timestamp}
use ndns.Daemon.RrsetFactory.Packets.{
  generate_doe_rrset_lem, doe_packet, wire_decode_doe-range_content,
}
use ndns.Mgmt.Doe.{Range, insert_does, default_cache_ttl}
use ndns.Mgmt.Doe.Denial.{IsDoe, DoeRows}

module _ ⦃ndn : Ndn⦄ ⦃sqlite : Sqlite⦄ (factory : RrsetFactory) (now : ℕ → Component) where
  -- The record set and the row of the i-th range.
  abbrev pub doe_rrset : ℕ → Range → Rrset
  doe_rrset i g = record (make_rrset (some factory.zone)) {
    label = g.label;
    type = doe_rr_type;
    version = now i;
    ttl = default_cache_ttl;
    rr_data = ndn.data_block (
        doe_packet factory (now i) g.label version_use_unix_timestamp default_cache_ttl g.lower
          g.upper);
  }

  abbrev pub doe_row : Db → ℕ → Range → RrsetRow
  doe_row db i g = to_row (next_id db) factory.zone.id (doe_rrset i g)

  doe_row-IsDoe : (db : Db) (i : ℕ) (g : Range) → IsDoe (doe_row db i g) g
  unfolding to_row
  doe_row-IsDoe db i g = record {
    stored = λ e. omega (arith, e, sqlite.new_rowid_pos (map (λ (r : RrsetRow). r.id) db.rrsets));
    labelled = refl;
    packet =
        doe_packet factory (now i) g.label version_use_unix_timestamp default_cache_ttl g.lower
          g.upper;
    encoded = refl;
    denies = wire_decode_doe-range_content g.lower g.upper;
  }

  doe_row-has_type :
      (db : Db) (i : ℕ) (g : Range) → has_type factory.zone.id doe_rr_type (doe_row db i g) ≡ true
  unfolding to_row has_type
  doe_row-has_type db i g = ground (arith, ndn.component_eq_iff doe_rr_type doe_rr_type)

  -- One round of the loop, if it goes through.
  insert_does-step :
      (i : ℕ) (g : Range) (gs : List Range) (db db' : Db)
      → factory.checked ≡ true
      → factory.zone.id ≢ 0
      → db.prepares ≡ true
      → insert_does factory now i (g ∷ gs) db ≡ (ok tt, db')
      → insert_does factory now (suc i) gs (record db { rrsets = db.rrsets ++ doe_row db i g ∷ [] })
        ≡ (ok tt, db')
  unfolding insert_does
  insert_does-step i g gs db db' c z p h = ground (
    arith,
    generate_doe_rrset_lem factory (now i) g.label version_use_unix_timestamp default_cache_ttl
        g.lower g.upper c,
    insert_rrset_lem (doe_rrset i g) factory.zone db refl z p refl,
  )

  -- The rows that a loop that goes through has added.
  pub insert_does-rows :
      (i : ℕ) (gs : List Range) (db db' : Db)
      → factory.checked ≡ true
      → factory.zone.id ≢ 0
      → db.prepares ≡ true
      → insert_does factory now i gs db ≡ (ok tt, db')
      → (rows : List RrsetRow) × (db' ≡ record db { rrsets = db.rrsets ++ rows })
        × DoeRows rows gs
        × All (λ r. has_type factory.zone.id doe_rr_type r ≡ true) rows
  insert_does-rows i [] db db' c z p h =
      ([], unfold insert_does in ground (arith, append-nil db.rrsets), tt, tt)
  insert_does-rows i (g ∷ gs) db db' c z p h =
      let row = doe_row db i g in
      let (rows, e, d, t) =
        insert_does-rows (suc i) gs (record db { rrsets = db.rrsets ++ row ∷ [] }) db' c z p
          (insert_does-step i g gs db db' c z p h) in
      (
        row ∷ rows,
        e ∙ ap (λ rs. record db { rrsets = rs }) (append_assoc db.rrsets (row ∷ []) rows),
        (doe_row-IsDoe db i g, d),
        (doe_row-has_type db i g, t),
      )
