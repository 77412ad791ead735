-- ===== src/Tools/AddRr/Delivery.antt =====
-- A record that ndns-add-rr (tools/ndns-add-rr.cpp) adds, on its way through the record set factory, the
-- management tool, the database and the name server to a client.
use ndns.Prelude.{
  ℕ, ltb, ◌≡◌, ◌≢◌, refl, sym, ap, ap₂, ◌∙◌, subst, Bool, true, false, none, some, List, [], ◌∷◌,
  ◌++◌, map, String, arith, ok, Exec, Result, if◌then◌else◌, lift, bind-ok, length,
}
use ndns.Ndn.{Ndn}
use ndns.Packets.{Name, Component, Data, Interest}
use ndns.Label.{ns_rr_type, txt_rr_type, doe_rr_type, ndns_iterative_query}
use ndns.Clients.ContentType.{ndns_resp, tlv_rr_data}
use ndns.Clients.Response.{Response, from_data}
use ndns.Daemon.Zone.{Zone, make_zone}
use ndns.Daemon.Rrset.{Rrset}
use ndns.Daemon.Sqlite.{Sqlite, ZoneRow, Db, first}
use ndns.Daemon.DbMgr.Names.{save_name}
use ndns.Daemon.DbMgr.Zones.{zone_row}
use ndns.Daemon.DbMgr.Rrsets.{has_key}
use ndns.Daemon.NameServer.{NameServer, Host, handle_query}
use ndns.Daemon.RrsetFactory.{
  RrsetFactory, make_factory, check_zone_key, generate_txt_rrset, version_use_unix_timestamp,
}
use ndns.Daemon.RrsetFactory.Packets.{from_data-generate_txt_rrset}
use ndns.Mgmt.CertHelper.{Pib}
use ndns.Mgmt.Doe.Stages.{found, make_factory_lem, check_zone_key-found}
use ndns.Mgmt.Tool.{add_rrset}
use ndns.Mgmt.Tool.Add.{key_row, Numbered, without}
use ndns.Mgmt.Tool.Served.{add_rrset-handle_query}
use ndns.Tools.AddRr.{AddOptions, Outside, rrset_of_options, add_from_options, ttl_of}
use ndns.Tools.AddRr.Stamped.{txt-IsStamped}

module _ ⦃ndn : Ndn⦄ where
  -- The server answers a query for the record with one packet, in which a client reads the label, the
  -- type, the version and the strings of the options.
  abbrev pub IsServed :
      NameServer → Host → Component → AddOptions → Name → Component → Interest → Response → Type 0
  IsServed server h version o label asked interest fresh =
      (d : Data) × (handle_query server asked interest
          (record { rr_label = label; rr_type = txt_rr_type; version = ndn.empty_component }) h
        ≡ (ok tt, record h { sent = h.sent ++ d ∷ [] }))
      × (r : Response) × (from_data server.zone.name d fresh ≡ (r, true))
      × (r.rr_label ≡ label)
      × (r.rr_type ≡ txt_rr_type)
      × (r.version ≡ version)
      × (r.rrs ≡ map (ndn.string_block tlv_rr_data) o.content)

module _ ⦃ndn : Ndn⦄ ⦃sqlite : Sqlite⦄ (out : Outside) (pib : Pib) (now : Component)
    (auth_now doe_now : ℕ → Component) where
  else_branch :
      (b : Bool) (m n : Exec Db (Unit {0})) (d : Db) (r : Result (Unit {0}) × Db)
      → b ≡ false
      → (if b then m else n) d ≡ r
      → n d ≡ r
  else_branch true m n d r e h = absurd (ground arith)
  else_branch false m n d r e h = h

  -- The steps of a record's way into the database.
  add_from_options-steps :
      (o : AddOptions) (name label : Name) (type : Component) (row : ZoneRow) (db db' : Db)
      → zone_row name db ≡ some row
      → row.id ≢ 0
      → db.prepares ≡ true
      → ltb 1 (length label) ≡ false
      → add_from_options out pib now auth_now doe_now o name label type db ≡ (ok tt, db')
      → (factory : RrsetFactory) × (rrset : Rrset) × (factory.zone
          ≡ found row (make_zone name 3600))
        × (factory.checked ≡ true)
        × (rrset_of_options out factory now label type (ttl_of o) o.content ≡ ok rrset)
        × (add_rrset pib doe_now rrset db ≡ (ok tt, db'))
  unfolding add_from_options
  add_from_options-steps o name label type row db db' there stored ready short h =
      let (made, db1, e1, k1) = bind-ok (lift (make_factory pib name o.dsk)) _ db db' tt h in
      let same1 : db1 ≡ db = sym (ap (λ x. x.1) e1) in
      let (zone, unchecked) = make_factory_lem pib name o.dsk made (ap (λ x. x.0) e1) in
      let (factory, db2, e2, k2) = bind-ok (check_zone_key pib made) _ db1 db' tt k1 in
      let (checked, same2) =
        check_zone_key-found pib made factory row db1 db2 unchecked (rw (zone, same1) there) stored
          (rw same1 ready) e2 in
      let (rrset, db3, e3, k3) =
        bind-ok (lift (rrset_of_options out factory now label type (ttl_of o) o.content)) _ db2 db'
          tt k2 in
      let same3 : db3 ≡ db = sym (ap (λ x. x.1) e3) ∙ same2 ∙ same1 in
      (
        factory,
        rrset,
        ap (λ (f : RrsetFactory). f.zone) checked ∙ ap (found row) zone,
        ap (λ (f : RrsetFactory). f.checked) checked,
        ap (λ x. x.0) e3,
        subst (λ d. add_rrset pib doe_now rrset d ≡ (ok tt, db')) same3
            (else_branch (ltb 1 (length label)) _ (add_rrset pib doe_now rrset) db3 _ short k3),
      )

  module _ (server : NameServer) (row : ZoneRow) (h : Host) (db : Db)
      (known : zone_row server.zone.name db ≡ some row)
      (same : server.zone ≡ found row (make_zone server.zone.name 3600)) (stored : row.id ≢ 0)
      (ready : db.prepares ≡ true) where
    -- A TXT record set of the options is the factory's.
    rrset_of_options-txt :
        (factory : RrsetFactory) (label : Name) (ttl : ℕ) (content : List String)
        → txt_rr_type ≢ ns_rr_type
        → rrset_of_options out factory now label txt_rr_type ttl content
          ≡ generate_txt_rrset factory now label version_use_unix_timestamp ttl content
    unfolding rrset_of_options
    rrset_of_options-txt factory label ttl content not_ns = ground (
      arith,
      ndn.component_eq_iff txt_rr_type ns_rr_type,
      ndn.component_eq_iff txt_rr_type txt_rr_type,
    )

    added_asked :
        (o : AddOptions) (label : Name) (asked : Component) (interest : Interest) (fresh : Response)
        → txt_rr_type ≢ ns_rr_type
        → txt_rr_type ≢ doe_rr_type
        → first (has_key server.zone.id (save_name label) txt_rr_type) db.rrsets ≡ none
        → fresh.rrs ≡ []
        → (factory : RrsetFactory) (rrset : Rrset) → factory.zone ≡ server.zone
        → factory.checked ≡ true
        → rrset_of_options out factory now label txt_rr_type (ttl_of o) o.content ≡ ok rrset
        → add_rrset pib doe_now rrset db ≡ (ok tt, h.db)
        → IsServed server h now o label asked interest fresh
    added_asked o label asked interest fresh not_ns not_doe new empty factory rrset zone checked
          made added =
        let (rrset', d, made', packet, read) =
          from_data-generate_txt_rrset factory now label version_use_unix_timestamp (ttl_of o)
            o.content fresh checked empty in
        let txt = sym (rrset_of_options-txt factory label (ttl_of o) o.content not_ns) ∙ made in
        let same_rrset : rrset' ≡ rrset = ground (arith, made', txt) in
        let s =
          txt-IsStamped factory now label txt_rr_type (ttl_of o) o.content rrset
            ((ndn.component_eq_iff txt_rr_type txt_rr_type).1 refl) txt in
        let none_before : key_row server.zone rrset db ≡ none =
          ap₂ (λ l c. first (has_key server.zone.id (save_name l) c) db.rrsets) s.labelled s.typed
          ∙ new in
        let served =
          add_rrset-handle_query pib doe_now server row h db known (ap (λ (z : Zone). z.id) same)
            (λ q. stored (sym (ap (λ (z : Zone). z.id) same) ∙ q)) ready rrset d asked interest
            (s.zone ∙ ap some zone) s.unstored (λ q. not_doe (sym s.typed ∙ q))
            (subst Numbered (sym none_before) tt)
            (subst
              (λ k.
                first (has_key server.zone.id (save_name rrset.label) rrset.type)
                  (without k db.rrsets)
                ≡ none)
              (sym none_before) none_before)
            (ap (λ (r : Rrset). ndn.block_data r.rr_data) (sym same_rrset) ∙ packet) added in
        (
          d,
          ap₂
                (λ l c.
                  handle_query server asked interest
                    (record { rr_label = l; rr_type = c; version = ndn.empty_component }) h)
                (sym s.labelled) (sym s.typed)
              ∙ served,
          record fresh {
            zone = factory.zone.name;
            query_type = ndns_iterative_query;
            rr_label = label;
            rr_type = txt_rr_type;
            version = rrset'.version;
            content_type = ndns_resp;
            freshness_period = rrset'.ttl;
            rrs = map (ndn.string_block tlv_rr_data) o.content;
          },
          sym (ap (λ (z : Zone). from_data z.name d fresh) zone) ∙ read,
          refl,
          refl,
          ap (λ (r : Rrset). r.version) same_rrset ∙ s.version,
          refl,
        )

    -- Take the zone of a server in a readable database, and a label of one component at most that has no
    -- TXT record there. Once ndns-add-rr has gone through with a TXT record for the label, the server
    -- answers a query for it with one packet, in which a client with no records yet reads the label and,
    -- in order, the strings that the tool was given.
    pub add_from_options-handle_query :
        (o : AddOptions) (label : Name) (asked : Component) (interest : Interest) (fresh : Response)
        → txt_rr_type ≢ ns_rr_type
        → txt_rr_type ≢ doe_rr_type
        → ltb 1 (length label) ≡ false
        → first (has_key server.zone.id (save_name label) txt_rr_type) db.rrsets ≡ none
        → fresh.rrs ≡ []
        → add_from_options out pib now auth_now doe_now o server.zone.name label txt_rr_type db
          ≡ (ok tt, h.db)
        → IsServed server h now o label asked interest fresh
    add_from_options-handle_query o label asked interest fresh not_ns not_doe short new empty done =
        let (factory, rrset, zone, checked, made, added) =
          add_from_options-steps o server.zone.name label txt_rr_type row db h.db known stored ready
            short done in
        added_asked o label asked interest fresh not_ns not_doe new empty factory rrset
          (zone ∙ sym same) checked made added
