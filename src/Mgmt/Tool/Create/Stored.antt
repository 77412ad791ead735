-- ===== src/Mgmt/Tool/Create/Stored.antt =====
-- What createZone (src/mgmt/management-tool.cpp) leaves in the database when it goes through.
use ndns.Prelude.{
  ℕ, ◌+◌, ◌<◌, ◌≡◌, ◌≢◌, inl, inr, refl, sym, ap, ◌∙◌, subst, Bool, true, none, some, List, [], ◌∷◌,
  ◌++◌, map, length, String, arith, ok, Bool-cases, Option-cases, blob_eq, blob_eq_iff, ltb, ◌==◌,
  append_assoc,
}
use Prim.Native.String.{len}
use ndns.Ndn.{Ndn}
use ndns.Packets.{Component, Data, Block}
use ndns.Label.{cert_rr_type, doe_rr_type, sub_size}
use ndns.Daemon.Zone.{Zone, make_zone}
use ndns.Daemon.Rrset.{Rrset, make_rrset}
use ndns.Daemon.Sqlite.{Sqlite, Db, ZoneRow, InfoRow, RrsetRow, first, any, delete}
use ndns.Daemon.Sqlite.Select.{first-All, first-append_new}
use ndns.Daemon.DbMgr.Names.{save_name}
use ndns.Daemon.DbMgr.Zones.{zone_row, insert_zone, set_zone_info, same_info, bind_int}
use ndns.Daemon.DbMgr.Rrsets.{has_type, has_key, to_row, load_row}
use ndns.Daemon.DbMgr.Rrsets.Laws.{find_rrset_lem, next_id}
use ndns.Daemon.DbMgr.Sound.{Sound}
use ndns.Mgmt.CertHelper.{Pib}
use ndns.Mgmt.Doe.Generate.{generate_doe-DoeRows, generate_doe-tables}
use ndns.Mgmt.Doe.{generate_doe}
use ndns.Mgmt.Tool.{add_zone, add_id_cert}
use ndns.Mgmt.Tool.Add.{insert_rrset-appended, delete-to_row}
use ndns.Mgmt.Tool.Create.{KeyChain, ZoneArgs, ZoneCerts}
use ndns.Daemon.DbMgr.Reads.{find_zone-none}
use ndns.Mgmt.Tool.Create.Sound.{add_zone-Sound, add_id_cert-Sound}

module _ ⦃ndn : Ndn⦄ where
  -- The record of a certificate.
  abbrev pub cert_rrset : Zone → Data → ℕ → Rrset
  cert_rrset zone cert ttl = record (make_rrset (some zone)) {
    label =
        ndn.get_sub_name cert.name (length zone.name + 1)
          (sub_size (sub_size (length cert.name) (length zone.name)) 3);
    type = cert_rr_type;
    ttl = ttl;
    version = ndn.get_back cert.name 1;
    rr_data = ndn.data_block cert;
  }

  -- INSERT OR REPLACE
  abbrev pub with_info : ℕ → String → Block → List InfoRow → List InfoRow
  with_info zone_id key value rows =
      delete (same_info zone_id key) rows
      ++ record { zone_id = zone_id; key = key; value = value } ∷ []

  pub set_zone_info-set :
      (zone : Zone) (key : String) (value : Block) (db db' : Db)
      → set_zone_info zone key value db ≡ (ok tt, db')
      → db' ≡ record db { zone_info = with_info (bind_int zone.id) key value db.zone_info }
  unfolding set_zone_info
  set_zone_info-set zone key value db db' h = elim (Bool-cases (zone.id == 0)) [
    | inl z ↦ absurd (ground arith)
    | inr z ↦ elim (Bool-cases (ltb 10 (len key))) [
      | inl l ↦ absurd (ground arith)
      | inr l ↦ elim (Bool-cases db.prepares) [
        | inr p ↦ absurd (ground arith)
        | inl p ↦ elim (Bool-cases db.writes) [
          | inr w ↦ absurd (ground arith)
          | inl w ↦ ground arith
        ]
      ]
    ]
  ]

module _ ⦃ndn : Ndn⦄ ⦃sqlite : Sqlite⦄ where
  abbrev pub new_zone_id : Db → ℕ
  new_zone_id db = sqlite.new_rowid (map (λ (r : ZoneRow). r.id) db.zones)

  abbrev pub new_zone_row : Zone → Db → ZoneRow
  new_zone_row zone db = record {
    id = new_zone_id db;
    name = save_name zone.name;
    ttl = bind_int zone.ttl;
  }

  add_zone-added :
      (zone z : Zone) (db db' : Db)
      → db.prepares ≡ true
      → zone_row zone.name db ≡ none
      → add_zone zone db ≡ (ok z, db')
      → (z ≡ record zone { id = new_zone_id db })
        × (db' ≡ record db { zones = db.zones ++ new_zone_row zone db ∷ [] })
  unfolding add_zone insert_zone
  add_zone-added zone z db db' ready new h =
      let k = rw (find_zone-none zone db new ready) at h in
      elim (Bool-cases db.writes) [
        | inr w ↦ absurd (ground arith)
        | inl w ↦
            elim (Bool-cases
              (any (λ (r : ZoneRow). blob_eq r.name (save_name zone.name)) db.zones)) [
                | inl y ↦ absurd (ground arith)
                | inr n ↦ ground arith
              ]
      ]

  -- A certificate that goes through is new under its label, and gets a row of its own.
  pub add_id_cert-new :
      (zone : Zone) (cert : Data) (ttl : ℕ) (r : Rrset) (db db' : Db)
      → zone.id ≢ 0
      → db.prepares ≡ true
      → Sound db
      → add_id_cert zone cert ttl db ≡ (ok r, db')
      → (first (has_key zone.id (save_name (cert_rrset zone cert ttl).label) cert_rr_type) db.rrsets
          ≡ none)
        × (db' ≡ record db {
          rrsets = db.rrsets ++ to_row (next_id db) zone.id (cert_rrset zone cert ttl) ∷ [];
        })
  unfolding add_id_cert Sound load_row
  add_id_cert-new zone cert ttl r db db' stored ready sound h =
      let rrset = cert_rrset zone cert ttl in
      let k = rw (find_rrset_lem rrset zone db refl stored ready) at h in
      elim (Option-cases (first (has_key zone.id (save_name rrset.label) rrset.type) db.rrsets)) [
        | inr (row, e) ↦
            let p = first-All (λ (x : RrsetRow). 0 < x.id) _ db.rrsets row sound.1.0 e in
            absurd (ground arith)
        | inl e ↦
            (e, (insert_rrset-appended rrset r zone db db' refl stored ready refl (rw e at k)).1)
      ]

  pub add_id_cert-added :
      (zone : Zone) (cert : Data) (ttl : ℕ) (r : Rrset) (db db' : Db)
      → zone.id ≢ 0
      → db.prepares ≡ true
      → Sound db
      → add_id_cert zone cert ttl db ≡ (ok r, db')
      → db' ≡ record db {
        rrsets = db.rrsets ++ to_row (next_id db) zone.id (cert_rrset zone cert ttl) ∷ [];
      }
  add_id_cert-added zone cert ttl r db db' stored ready sound h =
      (add_id_cert-new zone cert ttl r db db' stored ready sound h).1

module _ ⦃ndn : Ndn⦄ ⦃sqlite : Sqlite⦄ ⦃chain : KeyChain⦄ where
  -- The information of a zone: its KSK and DSK certificates, and then that of its D-key.
  abbrev pub zone_certs : ZoneCerts → ℕ → List InfoRow → List InfoRow
  zone_certs certs i rows =
      with_info i "dsk" (ndn.data_block certs.dsk_cert)
        (with_info i "ksk" (ndn.data_block certs.ksk_cert) rows)

  abbrev pub zone_infos : ZoneCerts → ℕ → List InfoRow → List InfoRow
  zone_infos certs i rows =
      with_info i "dkey" (ndn.data_block certs.dkey_cert) (zone_certs certs i rows)

  -- What a new zone adds to a database: the rows of the zone, its information and its certificates, next
  -- to DoE records of the zone.
  pub record IsStored (a : ZoneArgs) (certs : ZoneCerts) (db : Db) (z : Zone) (db' : Db)
      : Type 0 where
    pub zone : z ≡ record (make_zone a.zone_name a.cache_ttl) { id = new_zone_id db }
    pub prepares : db'.prepares ≡ true
    pub zones : db'.zones ≡ db.zones ++ new_zone_row (make_zone a.zone_name a.cache_ttl) db ∷ []
    pub zone_info : db'.zone_info ≡ zone_infos certs (bind_int (new_zone_id db)) db.zone_info
    pub ksk_id : ℕ
    pub dsk_id : ℕ
    pub rrsets :
        delete (has_type z.id doe_rr_type) db'.rrsets
        ≡ delete (has_type z.id doe_rr_type) db.rrsets
          ++ to_row ksk_id z.id (cert_rrset z certs.ksk_cert a.cache_ttl)
            ∷ to_row dsk_id z.id (cert_rrset z certs.dsk_cert a.cache_ttl)
            ∷ []

  module _ (a : ZoneArgs) (certs : ZoneCerts) (db : Db) (sound : Sound db)
      (ready : db.prepares ≡ true) (new : zone_row a.zone_name db ≡ none) (z1 : Zone)
      (r2 r3 : Rrset) (d1 d2 d3 : Db)
      (e1 : add_zone (make_zone a.zone_name a.cache_ttl) db ≡ (ok z1, d1))
      (e2 : add_id_cert z1 certs.ksk_cert a.cache_ttl d1 ≡ (ok r2, d2))
      (e3 : add_id_cert z1 certs.dsk_cert a.cache_ttl d2 ≡ (ok r3, d3)) where
    abbrev pub row : ZoneRow
    row = new_zone_row (make_zone a.zone_name a.cache_ttl) db

    abbrev pub ksk_row : RrsetRow
    ksk_row = to_row (next_id d1) z1.id (cert_rrset z1 certs.ksk_cert a.cache_ttl)

    abbrev pub dsk_row : RrsetRow
    dsk_row = to_row (next_id d2) z1.id (cert_rrset z1 certs.dsk_cert a.cache_ttl)

    pub new_zone :
        (z1 ≡ record (make_zone a.zone_name a.cache_ttl) { id = new_zone_id db })
        × (d1 ≡ record db { zones = db.zones ++ row ∷ [] })
    new_zone = add_zone-added (make_zone a.zone_name a.cache_ttl) z1 db d1 ready new e1

    has_id : z1.id ≢ 0
    has_id q = omega (
      arith,
      ap (λ (x : Zone). x.id) new_zone.0,
      q,
      sqlite.new_rowid_pos (map (λ (r : ZoneRow). r.id) db.zones),
    )

    sound_zone : Sound d1
    sound_zone =
        subst (λ x. Sound x.1) e1 (add_zone-Sound (make_zone a.zone_name a.cache_ttl) db sound)

    ready_zone : d1.prepares ≡ true
    ready_zone = ap (λ (x : Db). x.prepares) new_zone.1 ∙ ready

    new_ksk : d2 ≡ record d1 { rrsets = d1.rrsets ++ ksk_row ∷ [] }
    new_ksk =
        add_id_cert-added z1 certs.ksk_cert a.cache_ttl r2 d1 d2 has_id ready_zone sound_zone e2

    new_dsk : d3 ≡ record d2 { rrsets = d2.rrsets ++ dsk_row ∷ [] }
    new_dsk =
        add_id_cert-added z1 certs.dsk_cert a.cache_ttl r3 d2 d3 has_id
          (ap (λ (x : Db). x.prepares) new_ksk ∙ ready_zone)
          (subst (λ x. Sound x.1) e2
            (add_id_cert-Sound z1 certs.ksk_cert a.cache_ttl d1 sound_zone))
          e3

    -- The zone and its two certificates are new rows.
    pub added : d3 ≡ record db {
      zones = db.zones ++ row ∷ [];
      rrsets = (db.rrsets ++ ksk_row ∷ []) ++ dsk_row ∷ [];
    }
    added = ground (arith, new_dsk, new_ksk, new_zone.1)

    found_again : (d : Db) → d.zones ≡ db.zones ++ row ∷ [] → zone_row z1.name d ≡ some row
    found_again d e =
        ap (λ (x : Zone). zone_row x.name d) new_zone.0
        ∙ ap (first (λ (r : ZoneRow). blob_eq r.name (save_name a.zone_name))) e
        ∙ first-append_new (λ (r : ZoneRow). blob_eq r.name (save_name a.zone_name)) db.zones row
            new ((blob_eq_iff (save_name a.zone_name) (save_name a.zone_name)).1 refl)

    row_has_id : row.id ≢ 0
    row_has_id q = has_id (ap (λ (x : Zone). x.id) new_zone.0 ∙ q)

    module _ (pib : Pib) (doe_now : ℕ → Component) (apart : cert_rr_type ≢ doe_rr_type) (d6 d7 : Db)
        (informed : d6
          ≡ record d3 { zone_info = zone_infos certs (bind_int (new_zone_id db)) db.zone_info })
        (e7 : generate_doe pib doe_now z1 d6 ≡ (ok tt, d7)) where
      abbrev is_doe : RrsetRow → Bool
      is_doe = has_type z1.id doe_rr_type

      zones_added : d6.zones ≡ db.zones ++ row ∷ []
      zones_added = ap (λ (x : Db). x.zones) informed ∙ ap (λ (x : Db). x.zones) added

      rrsets_added : d6.rrsets ≡ (db.rrsets ++ ksk_row ∷ []) ++ dsk_row ∷ []
      rrsets_added = ap (λ (x : Db). x.rrsets) informed ∙ ap (λ (x : Db). x.rrsets) added

      still_ready : d6.prepares ≡ true
      still_ready = ap (λ (x : Db). x.prepares) informed ∙ ap (λ (x : Db). x.prepares) added ∙ ready

      tables : d7 ≡ record d6 { rrsets = d7.rrsets }
      tables =
          generate_doe-tables pib doe_now z1 d6 d7 row (found_again d6 zones_added) row_has_id
            still_ready e7

      others_kept : delete is_doe d7.rrsets ≡ delete is_doe d6.rrsets
      others_kept =
          let (all, r, rs, read, sorted, rows, kept) =
            generate_doe-DoeRows pib doe_now z1 d6 d7 row (found_again d6 zones_added) row_has_id
              still_ready e7 in
          subst
            (λ i.
              delete (has_type i doe_rr_type) d7.rrsets ≡ delete (has_type i doe_rr_type) d6.rrsets)
            (sym (ap (λ (x : Zone). x.id) new_zone.0)) kept

      two_certificates :
          delete is_doe ((db.rrsets ++ ksk_row ∷ []) ++ dsk_row ∷ [])
          ≡ delete is_doe db.rrsets ++ ksk_row ∷ dsk_row ∷ []
      two_certificates =
          delete-to_row (next_id d2) z1.id (cert_rrset z1 certs.dsk_cert a.cache_ttl)
            (db.rrsets ++ ksk_row ∷ []) apart
          ∙ ap (λ rows. rows ++ dsk_row ∷ [])
              (delete-to_row (next_id d1) z1.id (cert_rrset z1 certs.ksk_cert a.cache_ttl) db.rrsets
                apart)
          ∙ append_assoc (delete is_doe db.rrsets) (ksk_row ∷ []) (dsk_row ∷ [])

      pub stored : IsStored a certs db z1 d7
      stored = record {
        zone = new_zone.0;
        prepares = ap (λ (x : Db). x.prepares) tables ∙ still_ready;
        zones = ap (λ (x : Db). x.zones) tables ∙ zones_added;
        zone_info = ap (λ (x : Db). x.zone_info) tables ∙ ap (λ (x : Db). x.zone_info) informed;
        ksk_id = next_id d1;
        dsk_id = next_id d2;
        rrsets = others_kept ∙ ap (delete is_doe) rrsets_added ∙ two_certificates;
      }

  -- The three entries of the zone's information.
  pub informed_lem :
      (certs : ZoneCerts) (z : Zone) (d3 d4 d5 d6 : Db)
      → set_zone_info z "ksk" (ndn.data_block certs.ksk_cert) d3 ≡ (ok tt, d4)
      → set_zone_info z "dsk" (ndn.data_block certs.dsk_cert) d4 ≡ (ok tt, d5)
      → set_zone_info z "dkey" (ndn.data_block certs.dkey_cert) d5 ≡ (ok tt, d6)
      → d6 ≡ record d3 { zone_info = zone_infos certs (bind_int z.id) d3.zone_info }
  informed_lem certs z d3 d4 d5 d6 e4 e5 e6 = ground (
    arith,
    set_zone_info-set z "ksk" (ndn.data_block certs.ksk_cert) d3 d4 e4,
    set_zone_info-set z "dsk" (ndn.data_block certs.dsk_cert) d4 d5 e5,
    set_zone_info-set z "dkey" (ndn.data_block certs.dkey_cert) d5 d6 e6,
  )
