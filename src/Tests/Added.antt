-- ===== src/Tests/Added.antt =====
-- Records added by the tools, then asked for, exported and listed, at concrete inputs.
use ndns.Prelude.{
  ◌≡◌, refl, arith, true, Option, none, some, List, [], ◌∷◌, ok, err, Error, Result, take, drop,
  blob_eq, blob_lt,
}
use ndns.Packets.{Name, Data, make_data, name_eq}
use ndns.Label.{cert_rr_type, txt_rr_type, ndns_iterative_query, sub_size}
use ndns.Clients.Response.{from_data, make_response}
use ndns.Daemon.Rrset.{Rrset, make_rrset}
use ndns.Daemon.Sqlite.{Db, order_by_label, insert_by_label}
use ndns.Daemon.DbMgr.Names.{restore_name, save_name}
use ndns.Daemon.DbMgr.Zones.{find_zone, column_int, resolve}
use ndns.Daemon.DbMgr.Rrsets.{
  find_rrset, insert_rrset, remove_rrsets_of_zone_by_type, find_rrsets, read_rrsets, has_key,
  has_type, load_row, remove_rrset,
}
use ndns.Daemon.DbMgr.Sound.{Sound}
use ndns.Daemon.NameServer.{Host, handle_query}
use ndns.Daemon.RrsetFactory.{
  default_cert, check_zone_key, make_factory, generate_doe_rrset, generate_txt_rrset,
}
use ndns.Mgmt.CertHelper.{
  get_certificate, get_default_certificate_name_of_identity, get_default_key_name_of_identity,
}
use ndns.Mgmt.Doe.{generate_doe, doe_ranges, sort_rrsets}
use ndns.Mgmt.Tool.{add_rrset, add_id_cert, check_rrset_version}
use ndns.Mgmt.Tool.Served.{add_rrset-handle_query}
use ndns.Mgmt.Tool.Export.{export_certificate, export_certificate-add_id_cert}
use ndns.Mgmt.Tool.Listing.{Texts, Out, list_zone, read_listed, widths_of, width_from, list_records}
use ndns.Daemon.Zone.{Zone}
use ndns.Tools.AddRr.{AddOptions, Outside, add_from_options}
use ndns.Tools.AddRr.Stamped.{add_from_options-other_type}
use ndns.Tools.AddRr.Delivery.{IsServed, add_from_options-handle_query}
use ndns.Tools.Manage.{Context, run_read, list_one}
use ndns.Tools.Manage.Reads.{run_read_same}
use ndns.Tests.Toy.{toy, toy_sqlite}
use ndns.Tests.Clients.{net, www, version_7, fresh_response}
use ndns.Tests.Daemon.{
  net_zone, net_row, net_db, net_server, net_server-stored, empty_host, txt_data, asked_for,
}
use ndns.Tests.Mgmt.{pib, clock, newer_txt, after_add, add_rrset-goes_through}

abbrev added_host : Host
added_host = record { db = after_add; sent = [] }

add_rrset-handle_query_example :
    handle_query net_server version_7
      (asked_for (www ∷ []))
      (record { rr_label = www ∷ []; rr_type = txt_rr_type; version = toy.empty_component })
      added_host
    ≡ (ok tt, record added_host { sent = txt_data 9 ∷ [] })
unfolding has_key blob_eq save_name
add_rrset-handle_query_example =
    add_rrset-handle_query pib clock net_server net_row added_host net_db refl refl
      net_server-stored refl newer_txt (txt_data 9) version_7 (asked_for (www ∷ [])) refl refl
      (ground arith) (ground arith) refl refl add_rrset-goes_through

abbrev outside : Outside
outside = record {
  parse_name = λ s. ok [];
  parse_component = λ s. ok (toy.of_string s);
  load = λ file encoding. none;
}

abbrev options : AddOptions
options = record {
  zone = some "/net";
  label = some "/www";
  type = some "TXT";
  content = "hello" ∷ "world" ∷ [];
  ttl = none;
  dsk = default_cert;
  file = none;
  encoding = "base64";
  resign = none;
}

abbrev served : Host
served = record {
  db =
      (add_from_options outside pib version_7 clock clock options (net ∷ []) (www ∷ []) txt_rr_type
        empty_host.db).1;
  sent = [];
}

add_from_options-goes_through :
    add_from_options outside pib version_7 clock clock options
      (net ∷ [])
      (www ∷ [])
      txt_rr_type
      empty_host.db
    ≡ (ok tt, served.db)
unfolding add_from_options blob_eq blob_lt save_name generate_doe find_zone
    remove_rrsets_of_zone_by_type find_rrsets read_rrsets order_by_label restore_name make_factory
    name_eq get_default_key_name_of_identity get_default_certificate_name_of_identity check_zone_key
    get_certificate sort_rrsets doe_ranges has_type resolve generate_doe_rrset insert_rrset
    add_rrset find_rrset has_key load_row check_rrset_version remove_rrset generate_txt_rrset
add_from_options-goes_through = refl

add_from_options-handle_query_example :
    IsServed net_server served version_7 options
      (www ∷ [])
      version_7
      (asked_for (www ∷ []))
      fresh_response
unfolding has_key blob_eq save_name column_int make_response
add_from_options-handle_query_example =
    add_from_options-handle_query outside pib version_7 clock clock net_server net_row served
      empty_host.db refl refl net_server-stored refl options (www ∷ []) version_7
      (asked_for (www ∷ [])) fresh_response (ground arith) (ground arith) refl refl refl
      add_from_options-goes_through

add_from_options-other_type_example :
    (e : Error) × (add_from_options outside pib version_7 clock clock options
        (net ∷ [])
        (www ∷ [])
        cert_rr_type
        net_db
      ≡ (err e, net_db))
add_from_options-other_type_example =
    add_from_options-other_type outside pib version_7 clock clock options (net ∷ []) (www ∷ [])
      cert_rr_type net_db (ground arith) (ground arith)

abbrev exported : Data
exported = record (make_data (net ∷ ndns_iterative_query ∷ www ∷ cert_rr_type ∷ version_7 ∷ [])) {
  content_type = 2;
}

abbrev cert_added : Result Rrset × Db
cert_added = add_id_cert net_zone exported 3600 net_db

abbrev cert_row : Rrset
cert_row = record (make_rrset (some net_zone)) {
  id = 5;
  label = www ∷ [];
  type = cert_rr_type;
  ttl = 3600;
  version = version_7;
  rr_data = toy.data_block exported;
}

add_id_cert-goes_through : add_id_cert net_zone exported 3600 net_db ≡ (ok cert_row, cert_added.1)
unfolding add_id_cert find_rrset insert_rrset has_key blob_eq save_name sub_size load_row
add_id_cert-goes_through = refl

-- The groups of the regular expression, for a name with one component in each
abbrev groups : Name → Option (Name × Name)
groups n = some (take 1 n, take 1 (drop 2 n))

export_certificate-add_id_cert_example :
    export_certificate groups (λ _. true) exported.name cert_added.1 ≡ (ok exported, cert_added.1)
unfolding Sound blob_eq save_name
export_certificate-add_id_cert_example =
    export_certificate-add_id_cert groups (λ _. true) net_zone net_row net_db cert_added.1 refl refl
      (ground arith) refl (((omega arith, tt), (tt, tt)), ((omega arith, tt), (tt, tt))) (www ∷ [])
      version_7 exported 3600 cert_row refl refl refl add_id_cert-goes_through

abbrev texts : Texts
texts = record {
  name_uri = λ n. elim n [ [] ↦ "/" | c ∷ cs ↦ "/name" ];
  component_uri = λ c. "TXT";
  decimal = λ n. "3600";
  content_type_text = λ n. "BLOB";
  signer = λ d. "/net/NDNS/KEY";
  delegations = λ b. [];
  certificate_text = λ b. "";
}

abbrev listed : List Out
listed = elim (list_zone texts (net ∷ []) true net_db).0 [ ok out ↦ out | err e ↦ [] ]

list_zone-goes_through : list_zone texts (net ∷ []) true net_db ≡ (ok listed, net_db)
unfolding list_zone find_zone find_rrsets read_rrsets order_by_label insert_by_label restore_name
    save_name blob_eq blob_lt resolve column_int read_listed widths_of width_from list_records
    from_data make_response
list_zone-goes_through = refl

abbrev context : Context
context = record {
  parse_name = λ s. ok (net ∷ []);
  parse_component = λ s. ok txt_rr_type;
  texts = texts;
  is_certificate = λ _. true;
  match = groups;
  pib = pib;
}

-- The run prints the zone's records.
run_read-goes_through : run_read context (list_one (some "/net") true) net_db ≡ (ok listed, net_db)
unfolding run_read
run_read-goes_through = list_zone-goes_through

run_read_same_example : (run_read context (list_one (some "/net") true) net_db).1 ≡ net_db
run_read_same_example = run_read_same context (list_one (some "/net") true) net_db
