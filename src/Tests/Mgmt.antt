-- ===== src/Tests/Mgmt.antt =====
-- The properties of the denial-of-existence records at a concrete zone.
use ndns.Prelude.{
  blob_eq, blob_lt, ℕ, suc, ◌≡◌, ◌≢◌, refl, true, false, none, some, [], ◌∷◌, arith, ok,
}
use ndns.Packets.{name_eq, Name, Component, Data, make_data}
use ndns.Label.{ndns_iterative_query, txt_rr_type, doe_rr_type}
use ndns.Clients.ContentType.{ndns_doe}
use ndns.Clients.Controller.{Controller, make_controller, unwrap, is_absent_by_doe}
use ndns.Daemon.Zone.{Zone, make_zone}
use ndns.Daemon.Rrset.{Rrset, make_rrset}
use ndns.Daemon.DbMgr.Rrsets.{find_rrset, has_key, load_row, remove_rrset, to_row}
use ndns.Daemon.Sqlite.{order_by_label, ZoneRow, RrsetRow, Db, delete}
use ndns.Daemon.DbMgr.Names.{save_name, restore_name}
use ndns.Daemon.DbMgr.Rrsets.{
  has_type, remove_rrsets_of_zone_by_type, find_rrsets, read_rrsets, insert_rrset,
}
use ndns.Daemon.DbMgr.Zones.{find_zone, resolve}
use ndns.Daemon.RrsetFactory.{
  RrsetFactory, default_cert, match_certificate, make_factory, check_zone_key, generate_doe_rrset,
}
use ndns.Mgmt.CertHelper.{
  get_default_key_name_of_identity, get_default_certificate_name_of_identity, get_certificate,
}
use ndns.Daemon.NameServer.{Host, handle_query}
use ndns.Daemon.RrsetFactory.Packets.{range_content, wire_decode_doe-range_content}
use ndns.Mgmt.CertHelper.{Pib, Key}
use ndns.Mgmt.Doe.{Range, doe_ranges, sort_rrsets, generate_doe}
use ndns.Mgmt.Doe.Ranges.{Deniable}
use ndns.Mgmt.Doe.Denial.{IsDoe, HasDenials, handle_query-is_absent_by_doe}
use ndns.Mgmt.Tool.{add_rrset, check_rrset_version}
use ndns.Mgmt.Tool.Add.{add_rrset-stored}
use ndns.Tests.Toy.{toy, toy_sqlite}
use ndns.Tests.Clients.{net, ucla, www, version_7}
use ndns.Tests.Controller.{toy_cache}
use ndns.Tests.Daemon.{
  net_zone, net_row, txt_data, txt_row, net_db, net_server, net_server-stored, asked_for,
  query_match,
}

abbrev first_name : Name
first_name = net ∷ txt_rr_type ∷ []

abbrev last_name : Name
last_name = www ∷ txt_rr_type ∷ []

abbrev range_data : Range → Data
range_data g = record (make_data (net ∷ [])) {
  content = range_content g.lower g.upper;
  content_type = ndns_doe;
}

abbrev range_row : ℕ → Range → RrsetRow
range_row id g = record {
  id = suc id;
  zone_id = 1;
  label = save_name g.label;
  type = doe_rr_type;
  version = version_7;
  ttl = 3600;
  rr_data = toy.data_block (range_data g);
}

range_row-IsDoe : (id : ℕ) (g : Range) → IsDoe (range_row id g) g
range_row-IsDoe id g = record {
  stored = omega arith;
  labelled = refl;
  packet = range_data g;
  encoded = refl;
  denies = wire_decode_doe-range_content g.lower g.upper;
}

abbrev denied_host : Host
denied_host = record {
  db = record net_db {
    rrsets =
        range_row 1 (record { label = first_name; lower = first_name; upper = last_name })
        ∷ range_row 2 (record { label = last_name; lower = last_name; upper = first_name })
        ∷ range_row 3 (record { label = []; lower = last_name; upper = first_name })
        ∷ [];
  };
  sent = [];
}

denied_host-HasDenials : HasDenials net_server denied_host.db first_name (last_name ∷ [])
unfolding has_type blob_eq doe_ranges
denied_host-HasDenials = record {
  stored = net_server-stored;
  ready = refl;
  rows = (range_row-IsDoe 1 _, (range_row-IsDoe 2 _, (range_row-IsDoe 3 _, tt)));
}

names-Deniable : Deniable (ucla ∷ txt_rr_type ∷ []) first_name (last_name ∷ [])
unfolding doe_ranges blob_lt
names-Deniable = record {
  absent = (ground arith, (ground arith, tt));
  nonempty = (refl, (refl, tt));
  proper = (ground arith, (ground arith, (ground arith, tt)));
  wraps = refl;
}

abbrev pub asking : Controller
asking = record (make_controller (net ∷ ucla ∷ []) txt_rr_type 4000 none) {
  last_label_type = ucla ∷ txt_rr_type ∷ [];
}

handle_query-is_absent_by_doe_example :
    (answer doe : Data) × (handle_query net_server version_7
        (asked_for (ucla ∷ []))
        (query_match (ucla ∷ []))
        denied_host
      ≡ (ok tt, record denied_host { sent = answer ∷ [] }))
    × (unwrap answer ≡ ok (doe, ndns_doe))
    × (is_absent_by_doe asking doe ≡ ok true)
unfolding has_key blob_eq save_name
handle_query-is_absent_by_doe_example =
    handle_query-is_absent_by_doe net_server denied_host version_7 (asked_for (ucla ∷ []))
      (query_match (ucla ∷ [])) first_name (last_name ∷ []) asking denied_host-HasDenials
      names-Deniable refl refl

abbrev pub key_pair : Key
key_pair = record {
  name = net ∷ [];
  certificates = make_data (net ∷ []) ∷ [];
  default_certificate = some (make_data (net ∷ []));
}

abbrev pub pib : Pib
pib n = some (record { keys = key_pair ∷ []; default_key = some key_pair })

abbrev pub clock : ℕ → Component
clock i = toy.of_version i

abbrev pub bare_zone : Zone
bare_zone = make_zone (net ∷ []) 3600

abbrev net_zone_row : ZoneRow
net_zone_row = record { id = 1; name = save_name (net ∷ []); ttl = 3600 }

abbrev pub own_factory : RrsetFactory
own_factory = record {
  zone = bare_zone;
  dsk_cert_name = net ∷ [];
  dsk_name = net ∷ [];
  checked = false;
}

abbrev own_record : Rrset
own_record = record (make_rrset (some net_zone)) {
  id = txt_row.id;
  label = www ∷ [];
  type = txt_rr_type;
  version = txt_row.version;
  ttl = txt_row.ttl;
  rr_data = txt_row.rr_data;
}

pub own_factory-made : make_factory pib (net ∷ []) default_cert ≡ ok own_factory
unfolding make_factory name_eq get_default_key_name_of_identity
    get_default_certificate_name_of_identity
own_factory-made = refl

pub own_factory-key : match_certificate pib (net ∷ []) (net ∷ ndns_iterative_query ∷ []) ≡ ok true
unfolding match_certificate get_certificate name_eq blob_eq
own_factory-key = refl

-- A newer TXT record for the label www
abbrev pub newer_txt : Rrset
newer_txt = record (make_rrset (some net_zone)) {
  label = www ∷ [];
  type = txt_rr_type;
  version = toy.of_version 9;
  ttl = 3600;
  rr_data = toy.data_block (txt_data 9);
}

abbrev pub after_add : Db
after_add = (add_rrset pib clock newer_txt net_db).1

pub add_rrset-goes_through : add_rrset pib clock newer_txt net_db ≡ (ok tt, after_add)
unfolding blob_eq blob_lt save_name generate_doe find_zone remove_rrsets_of_zone_by_type find_rrsets
    read_rrsets order_by_label restore_name make_factory name_eq get_default_key_name_of_identity
    get_default_certificate_name_of_identity check_zone_key get_certificate sort_rrsets doe_ranges
    has_type resolve generate_doe_rrset insert_rrset add_rrset find_rrset has_key load_row
    check_rrset_version remove_rrset
add_rrset-goes_through = refl

add_rrset-stored_example :
    (toy.component_lt version_7 (toy.of_version 9) ≡ true)
    × (after_add ≡ record net_db { rrsets = after_add.rrsets })
    × (id : ℕ) × (id ≢ 0)
    × Unit {0}
    × (delete (has_type 1 doe_rr_type) after_add.rrsets ≡ to_row id 1 newer_txt ∷ [])
unfolding has_key blob_eq save_name has_type
add_rrset-stored_example =
    add_rrset-stored pib clock net_zone net_row net_db after_add refl refl net_server-stored refl
      newer_txt refl refl (ground arith) (ground arith) add_rrset-goes_through
