-- ===== src/Tests/Daemon.antt =====
-- The properties of the name server, its database and the record factory at concrete records.
use ndns.Clients.Response.{make_response}
use ndns.Prelude.{◌⊎◌, In, All, blob_lt}
use ndns.Prelude.{blob_eq}
use ndns.Prelude.{blob_lt}
use ndns.Prelude.{blob_eq}
use ndns.Prelude.{blob_eq}
use ndns.Prelude.{blob_eq}
use ndns.Prelude.{blob_eq}
use ndns.Prelude.{blob_lt}
use ndns.Prelude.{ℕ, ◌≡◌, ◌≢◌, refl, true, some, [], ◌∷◌, arith, ok, map}
use ndns.Packets.{Name, Data, Interest, make_data}
use ndns.Label.{MatchResult, txt_rr_type, ndns_iterative_query}
use ndns.Label.Match.{query_name, match_data-response}
use ndns.Clients.ContentType.{ndns_resp, update_ok, tlv_rr_data}
use ndns.Clients.Response.{from_data}
use ndns.Daemon.Zone.{Zone, make_zone}
use ndns.Daemon.Rrset.{Rrset, make_rrset}
use ndns.Daemon.Sqlite.{ZoneRow, RrsetRow, Db}
use ndns.Daemon.DbMgr.Names.{save_name, restore_name, restore_name-save_name}
use ndns.Daemon.DbMgr.Rrsets.{has_key}
use ndns.Daemon.NameServer.{NameServer, Host, handle_query, do_update, update_answer}
use ndns.Daemon.NameServer.Query.{handle_query-reads_only, Answered}
use ndns.Daemon.NameServer.Growth.{do_update-handle_query}
use ndns.Daemon.DbMgr.Sound.{Sound}
use ndns.Daemon.RrsetFactory.{RrsetFactory, generate_txt_rrset}
use ndns.Daemon.RrsetFactory.Packets.{from_data-generate_txt_rrset}
use ndns.Tests.Toy.{toy, toy_sqlite}
use ndns.Tests.Clients.{net, ucla, www, version_7, fresh_response}

restore_name-save_name_example : restore_name (save_name (net ∷ ucla ∷ [])) ≡ ok (net ∷ ucla ∷ [])
restore_name-save_name_example = restore_name-save_name (net ∷ ucla ∷ [])

abbrev pub net_zone : Zone
net_zone = record (make_zone (net ∷ []) 3600) { id = 1 }

abbrev rrset_at : Name → ℕ → Rrset
rrset_at label version = record (make_rrset (some net_zone)) {
  label = label;
  type = txt_rr_type;
  version = toy.of_version version;
}

abbrev pub txt_data : ℕ → Data
txt_data version =
    record (make_data
      (query_name (net ∷ []) (www ∷ []) (txt_rr_type ∷ toy.of_version version ∷ []))) {
        content_type = ndns_resp;
      }

abbrev pub txt_row : RrsetRow
txt_row = record {
  id = 4;
  zone_id = 1;
  label = save_name (www ∷ []);
  type = txt_rr_type;
  version = version_7;
  ttl = 3600;
  rr_data = toy.data_block (txt_data 7);
}

abbrev pub net_row : ZoneRow
net_row = record { id = 1; name = save_name (net ∷ []); ttl = 3600 }

abbrev pub net_db : Db
net_db = record {
  zones = net_row ∷ [];
  zone_info = [];
  rrsets = txt_row ∷ [];
  prepares = true;
  writes = true;
}

abbrev pub net_server : NameServer
net_server = record {
  zone = net_zone;
  ndns_prefix = net ∷ ndns_iterative_query ∷ [];
  cert_name = net ∷ [];
  content_freshness = 4000;
}

pub net_server-stored : net_server.zone.id ≢ 0
net_server-stored = ground arith

abbrev pub net_host : Host
net_host = record { db = net_db; sent = [] }

abbrev pub asked_for : Name → Interest
asked_for label = record {
  name = query_name (net ∷ []) label (txt_rr_type ∷ []);
  can_be_prefix = true;
  lifetime = 4000;
  forwarding_hint = [];
}

abbrev pub query_match : Name → MatchResult
query_match label = record { rr_label = label; rr_type = txt_rr_type; version = [] }

handle_query-reads_only_example :
    ((handle_query net_server version_7
        (asked_for (www ∷ []))
        (query_match (www ∷ []))
        net_host).1.db
      ≡ net_db)
    × Answered []
        (handle_query net_server version_7 (asked_for (www ∷ [])) (query_match (www ∷ [])) net_host)
handle_query-reads_only_example =
    handle_query-reads_only net_server net_host version_7 (asked_for (www ∷ []))
      (query_match (www ∷ []))

abbrev pub update_match : ℕ → MatchResult
update_match version = record {
  rr_label = www ∷ [];
  rr_type = txt_rr_type;
  version = toy.of_version version;
}

abbrev update_interest : Interest
update_interest = asked_for (www ∷ [])

do_update-handle_query_example :
    (db' : Db) × (do_update net_server version_7 update_interest (txt_data 9) net_host ≡ (
      ok tt,
      record { db = db'; sent = update_answer net_server version_7 update_interest update_ok ∷ [] },
    ))
    × (handle_query net_server version_7 update_interest
          (update_match 9)
          (record { db = db'; sent = [] })
        ≡ (ok tt, record { db = db'; sent = txt_data 9 ∷ [] }))
    × All (λ (x : RrsetRow). (x ≡ txt_row) ⊎ In x db'.rrsets) net_db.rrsets
    × (db' ≡ record net_db { rrsets = db'.rrsets })
unfolding has_key blob_eq save_name Sound blob_lt
do_update-handle_query_example =
    do_update-handle_query net_server version_7 update_interest net_host (txt_data 9)
      (update_match 9) (match_data-response (net ∷ []) (www ∷ []) txt_rr_type (toy.of_version 9))
      net_server-stored refl refl (((omega arith, tt), (tt, tt)), ((omega arith, tt), (tt, tt)))
      txt_row refl refl ((λ t. ground (arith, t.3)), tt) version_7 (toy.of_version 9)
      update_interest [] refl

abbrev pub empty_host : Host
empty_host = record { db = record net_db { rrsets = [] }; sent = [] }

abbrev net_factory : RrsetFactory
net_factory = record { zone = net_zone; dsk_cert_name = []; dsk_name = []; checked = true }

from_data-generate_txt_rrset_example :
    (rrset : Rrset) × (d : Data) × (generate_txt_rrset net_factory version_7
        (www ∷ [])
        3
        0
        ("hello" ∷ [])
      ≡ ok rrset)
    × (toy.block_data rrset.rr_data ≡ some d)
    × (from_data (net ∷ []) d fresh_response ≡ (
      record fresh_response {
        zone = net ∷ [];
        query_type = ndns_iterative_query;
        rr_label = www ∷ [];
        rr_type = txt_rr_type;
        version = rrset.version;
        content_type = ndns_resp;
        freshness_period = rrset.ttl;
        rrs = map (toy.string_block tlv_rr_data) ("hello" ∷ []);
      },
      true,
    ))
unfolding make_response
from_data-generate_txt_rrset_example =
    from_data-generate_txt_rrset net_factory version_7 (www ∷ []) 3 0 ("hello" ∷ []) fresh_response
      refl refl
