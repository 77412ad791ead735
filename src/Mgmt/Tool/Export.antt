-- ===== src/Mgmt/Tool/Export.antt =====
-- exportCertificate of src/mgmt/management-tool.cpp. The regular expression (<>*)<NDNS>(<>+)<CERT><>, with
-- its two groups, is a parameter; the certificate that is saved is the result.
use ndns.Prelude.{
  ℕ, suc, ◌+◌, ◌≡◌, ◌≢◌, refl, sym, ap, ap₂, ◌∙◌, subst, Bool, true, Option, none, some, [], ◌∷◌,
  ◌++◌, arith, if◌then◌else◌, Exec, pure, raise, ◌>>=◌, ok, length, length-append, take, drop,
  take-append, not_a_cert_name, cert_not_found, bad_packet, map, blob_eq,
}
use ndns.Ndn.{Ndn}
use ndns.Packets.{Name, Component, Data}
use ndns.Label.{ndns_iterative_query, cert_rr_type, sub_size}
use ndns.Daemon.Zone.{Zone, make_zone}
use ndns.Daemon.Rrset.{Rrset, make_rrset}
use ndns.Daemon.Sqlite.{Sqlite, Db, ZoneRow, RrsetRow, first}
use ndns.Daemon.Sqlite.Select.{first-append_new}
use ndns.Daemon.DbMgr.Names.{save_name}
use ndns.Daemon.DbMgr.Zones.{zone_row}
use ndns.Daemon.DbMgr.Rrsets.{find_rrset, has_key, to_row, load_row}
use ndns.Daemon.DbMgr.Rrsets.Laws.{next_id, result_of}
use ndns.Daemon.DbMgr.Sound.{Sound}
use ndns.Mgmt.Doe.Stages.{found, find_zone-found}
use ndns.Mgmt.Tool.{add_id_cert}
use ndns.Mgmt.Tool.Create.Stored.{cert_rrset, add_id_cert-new}
use ndns.Mgmt.Tool.Served.{has_key-to_row}

module _ ⦃ndn : Ndn⦄ where
  unfoldable pub export_labelled : (Data → Bool) → Name → Name → Exec Db Data
  export_labelled is_certificate zone_name label = do
    found ← find_rrset (record (make_rrset (some (make_zone zone_name 3600))) {
      label = label;
      type = cert_rr_type;
    })
    if found.1
        then (elim (ndn.block_data found.0.rr_data) [
          | none ↦ raise bad_packet
          | some d ↦ if is_certificate d then pure d else raise bad_packet
        ])
        else raise cert_not_found

  unfoldable pub export_certificate :
      (Name → Option (Name × Name)) → (Data → Bool) → Name → Exec Db Data
  unfolding export_labelled
  export_certificate match is_certificate cert_name = elim (match cert_name) [
    | none ↦ raise not_a_cert_name
    | some (zone_name, label) ↦ export_labelled is_certificate zone_name label
  ]

  -- A certificate's name: zone, NDNS, the label, CERT and the version
  abbrev pub cert_name_of : Name → Name → Component → Name
  cert_name_of zone label version =
      zone ++ (ndns_iterative_query ∷ (label ++ (cert_rr_type ∷ version ∷ [])))

  length-cert_name_of :
      (zone label : Name) (version : Component)
      → length (cert_name_of zone label version) ≡ length zone + (length label + 3)
  length-cert_name_of zone label version = omega (
    arith,
    length-append zone (ndns_iterative_query ∷ (label ++ (cert_rr_type ∷ version ∷ []))),
    length-append label (cert_rr_type ∷ version ∷ []),
  )

  drop_past : (n : Name) (c : Component) (rest : Name) → drop (length n + 1) (n ++ c ∷ rest) ≡ rest
  drop_past [] c rest = refl
  drop_past (x ∷ n) c rest =
      let one_more : suc (length n) + 1 ≡ suc (length n + 1) = omega arith in
      ap (λ k. drop k (x ∷ (n ++ c ∷ rest))) one_more ∙ drop_past n c rest

  cert_label :
      (zone label : Name) (version : Component)
      → ndn.get_sub_name
          (cert_name_of zone label version)
          (length zone + 1)
          (sub_size (sub_size (length (cert_name_of zone label version)) (length zone)) 3)
        ≡ label
  unfolding sub_size
  cert_label zone label version =
      let name = cert_name_of zone label version in
      let size : sub_size (sub_size (length name) (length zone)) 3 ≡ length label =
        ground (arith, length-cert_name_of zone label version) in
      let rest : drop (length zone + 1) name ≡ label ++ (cert_rr_type ∷ version ∷ []) =
        drop_past zone ndns_iterative_query (label ++ (cert_rr_type ∷ version ∷ [])) in
      ndn.get_sub_name-take name (length zone + 1)
        (sub_size (sub_size (length name) (length zone)) 3)
      ∙ ap₂ take size rest
      ∙ take-append label (cert_rr_type ∷ version ∷ [])

  -- A record found with its zone by name
  find_rrset-by_name :
      (zone_name label : Name) (row : ZoneRow) (db : Db)
      → zone_row zone_name db ≡ some row
      → row.id ≢ 0
      → db.prepares ≡ true
      → let rrset = record (make_rrset (some (make_zone zone_name 3600))) {
        label = label;
        type = cert_rr_type;
      } in
        find_rrset rrset db ≡ (
          ok (
              result_of
                (first (has_key row.id (save_name label) cert_rr_type) db.rrsets)
                (record rrset { zone = some (found row (make_zone zone_name 3600)) })),
          db,
        )
  unfolding find_rrset load_row
  find_rrset-by_name zone_name label row db there stored ready =
      ground (arith, find_zone-found (make_zone zone_name 3600) row db there stored ready)

  -- What is stored first under the name's zone and label is what is exported.
  export_certificate-stored :
      (match : Name → Option (Name × Name)) (is_certificate : Data → Bool)
      (cert_name zone_name label : Name) (row : ZoneRow) (x : RrsetRow) (cert : Data) (db : Db)
      → match cert_name ≡ some (zone_name, label)
      → zone_row zone_name db ≡ some row
      → row.id ≢ 0
      → db.prepares ≡ true
      → first (has_key row.id (save_name label) cert_rr_type) db.rrsets ≡ some x
      → x.id ≢ 0
      → ndn.block_data x.rr_data ≡ some cert
      → is_certificate cert ≡ true
      → export_certificate match is_certificate cert_name db ≡ (ok cert, db)
  unfolding export_certificate load_row
  export_certificate-stored match is_certificate cert_name zone_name label row x cert db m there
        stored ready f i b c =
      ground (arith, find_rrset-by_name zone_name label row db there stored ready, f)

  module _ ⦃sqlite : Sqlite⦄ (match : Name → Option (Name × Name)) (is_certificate : Data → Bool)
      (zone : Zone) (row : ZoneRow) (db db' : Db) (known : zone_row zone.name db ≡ some row)
      (same : zone.id ≡ row.id) (stored : row.id ≢ 0) (ready : db.prepares ≡ true)
      (sound : Sound db) where
    -- Take a zone in a sound and readable database, and a certificate named as one of the zone's, whose name
    -- the regular expression takes apart into zone and label. Once `addIdCert` has gone through,
    -- `exportCertificate` of the name gives the certificate back.
    pub export_certificate-add_id_cert :
        (label : Name) (version : Component) (cert : Data) (ttl : ℕ) (r : Rrset)
        → cert.name ≡ cert_name_of zone.name label version
        → match cert.name ≡ some (zone.name, label)
        → is_certificate cert ≡ true
        → add_id_cert zone cert ttl db ≡ (ok r, db')
        → export_certificate match is_certificate cert.name db' ≡ (ok cert, db')
    unfolding to_row
    export_certificate-add_id_cert label version cert ttl r named matched valid h =
        let has_id : zone.id ≢ 0 = λ q. stored (sym same ∙ q) in
        let (new, grown) = add_id_cert-new zone cert ttl r db db' has_id ready sound h in
        let rrset = cert_rrset zone cert ttl in
        let labelled : rrset.label ≡ label =
          ap
            (λ n.
              ndn.get_sub_name n (length zone.name + 1)
                (sub_size (sub_size (length n) (length zone.name)) 3))
            named
          ∙ cert_label zone.name label version in
        let id = next_id db in
        let there : first (has_key row.id (save_name label) cert_rr_type) db'.rrsets
            ≡ some (to_row id zone.id rrset) =
          ap (first (has_key row.id (save_name label) cert_rr_type))
            (ap (λ (d : Db). d.rrsets) grown)
          ∙ subst
              (λ (k : ℕ × Name).
                first (has_key (k.0) (save_name (k.1)) cert_rr_type)
                  (db.rrsets ++ to_row id zone.id rrset ∷ [])
                ≡ some (to_row id zone.id rrset))
              (ap₂ (λ i l. (i, l)) same labelled)
              (first-append_new (has_key zone.id (save_name rrset.label) cert_rr_type) db.rrsets
                (to_row id zone.id rrset) new (has_key-to_row id zone.id rrset)) in
        export_certificate-stored match is_certificate cert.name zone.name label row
          (to_row id zone.id rrset) cert db' matched
          (ap (first (λ (z : ZoneRow). blob_eq z.name (save_name zone.name)))
              (ap (λ (d : Db). d.zones) grown)
            ∙ known)
          stored (ap (λ (d : Db). d.prepares) grown ∙ ready) there
          (λ q. omega (arith, q, sqlite.new_rowid_pos (map (λ (x : RrsetRow). x.id) db.rrsets)))
          (ndn.block_data-data_block cert) valid
