-- ===== src/Mgmt/Doe/Absence.antt =====
-- From the management tool to the client: what a zone's DoE records, once made, deny.
use ndns.Prelude.{
  ℕ, ◌≡◌, ◌≢◌, sym, ap, ◌∙◌, Pairwise, true, false, none, some, List, [], ◌∷◌, ◌++◌, map, arith, ok,
}
use ndns.Ndn.{Ndn}
use ndns.Packets.{Name, Component, Data, Interest}
use ndns.Label.{MatchResult, doe_rr_type, ndns_iterative_query}
use ndns.Clients.ContentType.{ndns_doe}
use ndns.Clients.Controller.{Controller, Cache, unwrap, is_absent_by_doe}
use ndns.Daemon.Zone.{Zone}
use ndns.Daemon.Rrset.{Rrset}
use ndns.Daemon.Sqlite.{Sqlite, ZoneRow, RrsetRow, Db, first}
use ndns.Daemon.Sqlite.Select.{first-delete}
use ndns.Daemon.DbMgr.Names.{save_name}
use ndns.Daemon.DbMgr.Rrsets.{has_key, has_type}
use ndns.Daemon.RrsetFactory.{RrsetFactory, make_factory, match_certificate, default_cert}
use ndns.Daemon.DbMgr.Zones.{zone_row}
use ndns.Daemon.NameServer.{NameServer, Host, handle_query}
use ndns.Daemon.NameServer.Query.{first_row}
use ndns.Mgmt.CertHelper.{Pib}
use ndns.Mgmt.Doe.{doe_name, doe_ranges, sort_rrsets, generate_doe}
use ndns.Mgmt.Doe.Ranges.{Deniable}
use ndns.Mgmt.Doe.Denial.{HasDenials, handle_query-is_absent_by_doe}
use ndns.Mgmt.Doe.Stages.{found}
use ndns.Mgmt.Doe.Generate.{generate_doe-DoeRows, records_of, cleared}
use ndns.Mgmt.Doe.Total.{generate_doe-goes_through}

module _ ⦃ndn : Ndn⦄ ⦃sqlite : Sqlite⦄ ⦃cache : Cache⦄ where
  -- Take a zone in a readable database whose records, but for the DoE ones, are `r` and `rs` in
  -- order, and a server of the zone that has the database as `generateDoe` leaves it. A query for a
  -- label and type that is not among them, and that they can deny, is answered by one NACK, which
  -- unwraps to a DoE packet from which a client that asked for it last infers the absence.
  generate_doe-is_absent_by_doe :
      (pib : Pib) (doe_now : ℕ → Component) (zone : Zone) (db : Db) (row : ZoneRow)
      (all : List Rrset) (r : Rrset) (rs : List Rrset) (server : NameServer) (h : Host)
      (now : Component) (interest : Interest) (re : MatchResult) (c : Controller)
      → zone_row zone.name db ≡ some row
      → row.id ≢ 0
      → db.prepares ≡ true
      → records_of (found row zone) (cleared db row) ≡ ok all
      → sort_rrsets all ≡ r ∷ rs
      → generate_doe pib doe_now zone db ≡ (ok tt, h.db)
      → server.zone.id ≡ row.id
      → h.db.prepares ≡ true
      → Deniable (re.rr_label ++ re.rr_type ∷ []) (doe_name r) (map doe_name rs)
      → first_row server h.db re ≡ none
      → c.last_label_type ≡ re.rr_label ++ re.rr_type ∷ []
      → (answer doe : Data) × (handle_query server now interest re h
          ≡ (ok tt, record h { sent = h.sent ++ answer ∷ [] }))
        × (unwrap answer ≡ ok (doe, ndns_doe))
        × (is_absent_by_doe c doe ≡ ok true)
  generate_doe-is_absent_by_doe pib doe_now zone db row all r rs server h now interest re c there
        stored ready read sorted made same ready' deniable missing asked =
      let (all', r', rs', read', sorted', rows, kept) =
        generate_doe-DoeRows pib doe_now zone db h.db row there stored ready made in
      let names : doe_ranges (doe_name r') (map doe_name rs')
          ≡ doe_ranges (doe_name r) (map doe_name rs) =
        ground (arith, read, read', sorted, sorted') in
      let denials : HasDenials server h.db (doe_name r) (map doe_name rs) = record {
        stored = rw same stored;
        ready = ready';
        rows = rw (same, ← names) rows;
      } in
      handle_query-is_absent_by_doe server h now interest re (doe_name r) (map doe_name rs) c
        denials deniable missing asked

  -- Take a zone in a readable and writable database whose records, but for the DoE ones, are `r` and `rs`
  -- in order, no two with the same label and type, a key chain that has the default key and certificate of
  -- the zone's identity, and a server of the zone. `generateDoe` goes through, and with the database that
  -- it leaves, the server answers a query for a label and type that the zone lacks, that are not DoE's, and
  -- that the records can deny, by one NACK, which unwraps to a DoE packet from which a client that asked
  -- for them last infers the absence.
  pub generate_doe-handle_query :
      (pib : Pib) (doe_now : ℕ → Component) (zone : Zone) (row : ZoneRow) (db : Db)
      (factory : RrsetFactory) (all : List Rrset) (r : Rrset) (rs : List Rrset)
      (server : NameServer) (sent : List Data) (now : Component) (interest : Interest)
      (re : MatchResult) (c : Controller)
      → zone_row zone.name db ≡ some row
      → row.id ≢ 0
      → db.prepares ≡ true
      → db.writes ≡ true
      → records_of (found row zone) (cleared db row) ≡ ok all
      → sort_rrsets all ≡ r ∷ rs
      → Pairwise (λ (a b : Name). a ≢ b) (doe_name r ∷ map doe_name rs)
      → make_factory pib zone.name default_cert ≡ ok factory
      → match_certificate pib factory.dsk_cert_name (zone.name ++ ndns_iterative_query ∷ [])
        ≡ ok true
      → server.zone.id ≡ row.id
      → re.rr_type ≢ doe_rr_type
      → first_row server db re ≡ none
      → Deniable (re.rr_label ++ re.rr_type ∷ []) (doe_name r) (map doe_name rs)
      → c.last_label_type ≡ re.rr_label ++ re.rr_type ∷ []
      → (db' : Db) × (answer doe : Data) × (generate_doe pib doe_now zone db ≡ (ok tt, db'))
        × (handle_query server now interest re (record { db = db'; sent = sent })
            ≡ (ok tt, record { db = db'; sent = sent ++ answer ∷ [] }))
        × (unwrap answer ≡ ok (doe, ndns_doe))
        × (is_absent_by_doe c doe ≡ ok true)
  generate_doe-handle_query pib doe_now zone row db factory all r rs server sent now interest re c
        there stored ready writes read sorted apart factory_made key same other missing deniable
        asked =
      let (db', made, rows, kept, tables) =
        generate_doe-goes_through pib doe_now zone row db factory all r rs there stored ready writes
          read sorted apart factory_made key in
      let p = has_key server.zone.id (save_name re.rr_label) re.rr_type in
      let q = has_type row.id doe_rr_type in
      let others : (x : RrsetRow) → p x ≡ true → q x ≡ false = λ x e.
        unfold has_key has_type in
        ground (
          arith,
          e,
          ndn.component_eq_iff x.type re.rr_type,
          ndn.component_eq_iff x.type doe_rr_type,
        ) in
      let (answer, doe, answered, packet, absent) =
        generate_doe-is_absent_by_doe pib doe_now zone db row all r rs server
          (record { db = db'; sent = sent }) now interest re c there stored ready read sorted made
          same (ap (λ (d : Db). d.prepares) tables ∙ ready) deniable
          (sym (first-delete p q db'.rrsets others)
            ∙ ap (first p) kept
            ∙ first-delete p q db.rrsets others
            ∙ missing)
          asked in
      (db', answer, doe, made, answered, packet, absent)
