-- ===== src/Mgmt/Doe/Total.antt =====
-- That generateDoe goes through.
use ndns.Prelude.{
  ℕ, suc, ◌≡◌, ◌≢◌, refl, sym, ap, ◌∙◌, true, false, some, List, [], ◌∷◌, ◌++◌, map, arith, ok, All,
  All-map, All-intro, All-append_one, Pairwise, Bool-cases, inl, inr, blob_eq_iff,
}
use ndns.Ndn.{Ndn}
use ndns.Packets.{Name, Component}
use ndns.Label.{doe_rr_type, ndns_iterative_query}
use ndns.Daemon.Zone.{Zone}
use ndns.Daemon.Rrset.{Rrset}
use ndns.Daemon.Sqlite.{Sqlite, ZoneRow, RrsetRow, Db, any, delete, select, same_index}
use ndns.Daemon.Sqlite.Select.{In-delete}
use ndns.Daemon.DbMgr.Names.{save_name, save_name-injective}
use ndns.Daemon.DbMgr.Zones.{zone_row}
use ndns.Daemon.DbMgr.Rrsets.{has_type, to_row}
use ndns.Daemon.DbMgr.Rrsets.Laws.{insert_rrset_lem}
use ndns.Daemon.RrsetFactory.{
  RrsetFactory, make_factory, match_certificate, default_cert, version_use_unix_timestamp,
}
use ndns.Daemon.RrsetFactory.Packets.{generate_doe_rrset_lem}
use ndns.Mgmt.Doe.{
  Range, ranges_from, doe_ranges, insert_does, regenerate, generate_doe, sort_rrsets, doe_name,
  default_cache_ttl,
}
use ndns.Mgmt.Doe.Store.{doe_row, doe_rrset}
use ndns.Mgmt.Doe.Generate.{records_of, cleared, generate_doe-DoeRows, generate_doe-tables}
use ndns.Mgmt.Doe.Denial.{DoeRows}
use ndns.Mgmt.Doe.Stages.{
  found, find_zone-found, make_factory_lem, check_zone_key-goes_through, remove-goes_through,
  find_rrsets-read,
}
use ndns.Mgmt.CertHelper.{Pib}

module _ ⦃ndn : Ndn⦄ where
  abbrev Apart : Range → Range → Type 0
  Apart g h = g.label ≢ h.label

  -- No DoE row of the zone has the label of one of the ranges.
  abbrev Free : ℕ → List Range → RrsetRow → Type 0
  Free id gs x =
      has_type id doe_rr_type x ≡ true → All (λ (g : Range). x.label ≢ save_name g.label) gs

  any-Free :
      (id : ℕ) (g : Range) (gs : List Range) (version : Component) (rows : List RrsetRow)
      → All (Free id (g ∷ gs)) rows
      → any (same_index id (save_name g.label) doe_rr_type version) rows ≡ false
  any-Free id g gs version [] h = refl
  any-Free id g gs version (x ∷ rows) h =
      elim (Bool-cases (same_index id (save_name g.label) doe_rr_type version x)) [
        | inr f ↦ ground (arith, any-Free id g gs version rows h.1)
        | inl t ↦
            let typed : has_type id doe_rr_type x ≡ true =
              unfold has_type same_index in ground arith in
            let equal : x.label ≡ save_name g.label =
              unfold same_index in ground (arith, blob_eq_iff x.label (save_name g.label)) in
            absurd ((h.0 typed).0 equal)
      ]

  ranges_from-All :
      (P : Name → Type 0) (first n : Name) (ns : List Name)
      → All P (n ∷ ns)
      → P []
      → All (λ (g : Range). P g.label) (ranges_from first n ns)
  unfolding ranges_from
  ranges_from-All P first n [] h e = (h.0, (e, tt))
  ranges_from-All P first n (m ∷ ms) h e = (h.0, ranges_from-All P first m ms h.1 e)

  -- The ranges between names that differ have labels that differ; the guard's is the empty name.
  ranges_from-Apart :
      (first n : Name) (ns : List Name)
      → Pairwise (λ (a b : Name). a ≢ b) (n ∷ ns)
      → All (λ (a : Name). a ≢ []) (n ∷ ns)
      → Pairwise Apart (ranges_from first n ns)
  unfolding ranges_from
  ranges_from-Apart first n [] h e = ((e.0, tt), (tt, tt))
  ranges_from-Apart first n (m ∷ ms) h e =
      (ranges_from-All (λ a. n ≢ a) first m ms h.0 e.0, ranges_from-Apart first m ms h.1 e.1)

  doe_name-nonempty : (r : Rrset) → doe_name r ≢ []
  doe_name-nonempty r = ends r.label
    where
      ends : (label : Name) → (label ++ r.type ∷ []) ≢ []
      ends [] = λ e. ground arith
      ends (c ∷ label) = λ e. ground arith

  doe_names-nonempty : (rs : List Rrset) → All (λ (a : Name). a ≢ []) (map doe_name rs)
  doe_names-nonempty [] = tt
  doe_names-nonempty (r ∷ rs) = (doe_name-nonempty r, doe_names-nonempty rs)

module _ ⦃ndn : Ndn⦄ ⦃sqlite : Sqlite⦄ where
  insert_does-goes_through :
      (factory : RrsetFactory) (now : ℕ → Component) (i : ℕ) (gs : List Range) (db : Db)
      → factory.checked ≡ true
      → factory.zone.id ≢ 0
      → db.prepares ≡ true
      → db.writes ≡ true
      → Pairwise Apart gs
      → All (Free factory.zone.id gs) db.rrsets
      → (db' : Db) × (insert_does factory now i gs db ≡ (ok tt, db'))
  unfolding insert_does
  insert_does-goes_through factory now i [] db c z p w apart free = (db, refl)
  insert_does-goes_through factory now i (g ∷ gs) db c z p w apart free =
      let row = doe_row factory now db i g in
      let labelled : row.label ≡ save_name g.label = unfold to_row in refl in
      let (db', e) =
        insert_does-goes_through factory now (suc i) gs
          (record db { rrsets = db.rrsets ++ row ∷ [] }) c z p w apart.1
          (All-append_one (Free factory.zone.id gs) db.rrsets row
            (All-map _ (Free factory.zone.id gs) db.rrsets (λ x k t. (k t).1) free)
            (λ t.
              All-map _ (λ (h : Range). row.label ≢ save_name h.label) gs
                (λ h k q. k (save_name-injective g.label h.label (sym labelled ∙ q))) apart.0)) in
      (
        db',
        ground (
          arith,
          generate_doe_rrset_lem factory (now i) g.label version_use_unix_timestamp
              default_cache_ttl g.lower g.upper c,
          insert_rrset_lem (doe_rrset factory now i g) factory.zone db refl z p refl,
          any-Free factory.zone.id g gs (now i) db.rrsets free,
          e,
        ),
      )

  regenerate-goes_through :
      (factory : RrsetFactory) (now : ℕ → Component) (r : Rrset) (rs : List Rrset) (id : ℕ)
      (db : Db)
      → factory.checked ≡ true
      → factory.zone.id ≡ id
      → id ≢ 0
      → db.prepares ≡ true
      → db.writes ≡ true
      → Pairwise (λ (a b : Name). a ≢ b) (doe_name r ∷ map doe_name rs)
      → (db' : Db) × (regenerate factory now
            (r ∷ rs)
            (record db { rrsets = delete (has_type id doe_rr_type) db.rrsets })
          ≡ (ok tt, db'))
  unfolding regenerate doe_ranges
  regenerate-goes_through factory now r rs id db c same stored p w apart =
      insert_does-goes_through factory now 0 (doe_ranges (doe_name r) (map doe_name rs))
        (record db { rrsets = delete (has_type id doe_rr_type) db.rrsets }) c
        (λ z. stored (sym same ∙ z)) p w
        (ranges_from-Apart (doe_name r) (doe_name r) (map doe_name rs) apart
          (doe_name-nonempty r, doe_names-nonempty rs))
        (All-intro _ (delete (has_type id doe_rr_type) db.rrsets) (λ x i t.
          absurd (ground (arith, (In-delete (has_type id doe_rr_type) db.rrsets x i).1, t, same))))

  pub generate_doe-goes_through :
      (pib : Pib) (now : ℕ → Component) (zone : Zone) (row : ZoneRow) (db : Db)
      (factory : RrsetFactory) (all : List Rrset) (r : Rrset) (rs : List Rrset)
      → zone_row zone.name db ≡ some row
      → row.id ≢ 0
      → db.prepares ≡ true
      → db.writes ≡ true
      → records_of (found row zone) (cleared db row) ≡ ok all
      → sort_rrsets all ≡ r ∷ rs
      → Pairwise (λ (a b : Name). a ≢ b) (doe_name r ∷ map doe_name rs)
      → make_factory pib zone.name default_cert ≡ ok factory
      → match_certificate pib factory.dsk_cert_name (zone.name ++ ndns_iterative_query ∷ [])
        ≡ ok true
      → (db' : Db) × (generate_doe pib now zone db ≡ (ok tt, db'))
        × DoeRows
            (select (has_type row.id doe_rr_type) db'.rrsets)
            (doe_ranges (doe_name r) (map doe_name rs))
        × (delete (has_type row.id doe_rr_type) db'.rrsets
            ≡ delete (has_type row.id doe_rr_type) db.rrsets)
        × (db' ≡ record db { rrsets = db'.rrsets })
  generate_doe-goes_through pib now zone row db factory all r rs there stored p w read sorted apart
        made key =
      let (named, unchecked) = make_factory_lem pib zone.name default_cert factory made in
      let factory' = record factory { zone = found row factory.zone; checked = true } in
      let (db', looped) =
        regenerate-goes_through factory' now r rs row.id db refl refl stored p w apart in
      let h : generate_doe pib now zone db ≡ (ok tt, db') =
        unfold generate_doe in
        ground (
          arith,
          find_zone-found zone row db there stored p,
          remove-goes_through (found row zone) doe_rr_type db stored p w,
          find_rrsets-read (found row zone) (cleared db row) all stored p read,
          made,
          check_zone_key-goes_through pib factory row (cleared db row) unchecked
              (ap (λ (z : Zone). zone_row z.name db) named ∙ there) stored p
              (ap
                  (λ (z : Zone).
                    match_certificate pib factory.dsk_cert_name
                      (z.name ++ ndns_iterative_query ∷ []))
                  named
                ∙ key),
          sorted,
          looped,
        ) in
      let (all', r', rs', read', sorted', rows, kept) =
        generate_doe-DoeRows pib now zone db db' row there stored p h in
      let same_all : all' ≡ all = ground (arith, sym read' ∙ read) in
      let same : r' ∷ rs' ≡ r ∷ rs = sym sorted' ∙ ap sort_rrsets same_all ∙ sorted in
      let first : r' ≡ r = ground (arith, same) in
      let others : rs' ≡ rs = ground (arith, same) in
      (
        db',
        h,
        rw (first, others) at rows,
        kept,
        generate_doe-tables pib now zone db db' row there stored p h,
      )
