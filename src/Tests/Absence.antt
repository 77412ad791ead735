-- ===== src/Tests/Absence.antt =====
-- A query for a name that a concrete zone lacks, from the making of the zone's DoE records on.
use ndns.Prelude.{ℕ, ◌≡◌, refl, true, some, [], ◌∷◌, arith, ok, blob_eq, blob_lt}
use ndns.Packets.{Name, Data, name_eq}
use ndns.Label.{txt_rr_type}
use ndns.Clients.ContentType.{ndns_doe}
use ndns.Clients.Controller.{unwrap, is_absent_by_doe}
use ndns.Daemon.Rrset.{Rrset, make_rrset, parts_lt}
use ndns.Daemon.Sqlite.{RrsetRow, Db, order_by_label}
use ndns.Daemon.DbMgr.Names.{save_name, restore_name}
use ndns.Daemon.DbMgr.Zones.{column_int}
use ndns.Daemon.DbMgr.Rrsets.{has_type, has_key, read_rrsets}
use ndns.Daemon.NameServer.{handle_query}
use ndns.Mgmt.Doe.{doe_ranges, sort_rrsets, generate_doe}
use ndns.Mgmt.Doe.Ranges.{Deniable}
use ndns.Mgmt.Doe.Stages.{found}
use ndns.Mgmt.Doe.Generate.{records_of, cleared}
use ndns.Mgmt.Doe.Absence.{generate_doe-handle_query}
use ndns.Tests.Toy.{toy, toy_sqlite}
use ndns.Tests.Clients.{net, ucla, www, version_7}
use ndns.Tests.Controller.{toy_cache}
use ndns.Tests.Daemon.{net_row, net_db, txt_data, net_server, asked_for, query_match}
use ndns.Tests.Mgmt.{pib, clock, bare_zone, asking, own_factory, own_factory-made, own_factory-key}

abbrev row_at : ℕ → Name → RrsetRow
row_at id label = record {
  id = id;
  zone_id = 1;
  label = save_name label;
  type = txt_rr_type;
  version = version_7;
  ttl = 3600;
  rr_data = toy.data_block (txt_data 7);
}

abbrev two_records : Db
two_records = record net_db { rrsets = row_at 4 (net ∷ []) ∷ row_at 5 (www ∷ []) ∷ [] }

abbrev read_at : ℕ → Name → Rrset
read_at id label = record (make_rrset (some (found net_row bare_zone))) {
  id = id;
  label = label;
  type = txt_rr_type;
  version = version_7;
  ttl = 3600;
  rr_data = toy.data_block (txt_data 7);
}

two_records-read :
    records_of (found net_row bare_zone) (cleared two_records net_row)
    ≡ ok (read_at 4 (net ∷ []) ∷ read_at 5 (www ∷ []) ∷ [])
unfolding has_type read_rrsets restore_name order_by_label save_name blob_eq blob_lt column_int
two_records-read = refl

two_records-sorted :
    sort_rrsets (read_at 4 (net ∷ []) ∷ read_at 5 (www ∷ []) ∷ [])
    ≡ read_at 4 (net ∷ []) ∷ read_at 5 (www ∷ []) ∷ []
unfolding sort_rrsets parts_lt blob_lt name_eq blob_eq
two_records-sorted = refl

two_records-Deniable :
    Deniable (ucla ∷ txt_rr_type ∷ []) (net ∷ txt_rr_type ∷ []) ((www ∷ txt_rr_type ∷ []) ∷ [])
unfolding doe_ranges blob_lt
two_records-Deniable = record {
  absent = (ground arith, (ground arith, tt));
  nonempty = (refl, (refl, tt));
  proper = (ground arith, (ground arith, (ground arith, tt)));
  wraps = refl;
}

generate_doe-handle_query_example :
    (db' : Db) × (answer doe : Data) × (generate_doe pib clock bare_zone two_records ≡ (ok tt, db'))
    × (handle_query net_server version_7
          (asked_for (ucla ∷ []))
          (query_match (ucla ∷ []))
          (record { db = db'; sent = [] })
        ≡ (ok tt, record { db = db'; sent = answer ∷ [] }))
    × (unwrap answer ≡ ok (doe, ndns_doe))
    × (is_absent_by_doe asking doe ≡ ok true)
unfolding blob_eq save_name has_key
generate_doe-handle_query_example =
    generate_doe-handle_query pib clock bare_zone net_row two_records own_factory
      (read_at 4 (net ∷ []) ∷ read_at 5 (www ∷ []) ∷ []) (read_at 4 (net ∷ []))
      (read_at 5 (www ∷ []) ∷ []) net_server [] version_7 (asked_for (ucla ∷ []))
      (query_match (ucla ∷ [])) asking refl (ground arith) refl refl two_records-read
      two_records-sorted (((ground arith), tt), (tt, tt)) own_factory-made own_factory-key refl
      (ground arith) refl two_records-Deniable refl
