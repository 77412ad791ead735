-- ===== src/Daemon/NameServer.antt =====
-- src/daemon/name-server.hpp, src/daemon/name-server.cpp. The handlers act on the server, its
-- database and the packets put on its face. The version that `appendVersion` reads off the clock
-- and the validator's verdict on an update are arguments.
pub mod Query
pub mod Update
pub mod Sound
pub mod Growth
use ndns.Prelude.{
  ℕ, Bool, true, false, ◌&&◌, ◌||◌, Option, none, some, List, [], ◌∷◌, ◌++◌, if◌then◌else◌, Exec,
  pure, raise, lift, ◌>>=◌, ◌>>◌, Result, ok, err, zone_missing, no_doe_record, bad_packet, ◌==◌,
}
use ndns.Ndn.{Ndn}
use ndns.Packets.{
  Name, Component, Block, Data, Interest, component_eq, component_lt, make_data, as_content, sign,
}
use ndns.Label.{
  MatchResult, match_interest, match_data, ndns_iterative_query, ndns_update_label, doe_rr_type,
}
use ndns.Clients.ContentType.{
  ndns_nack, ndns_resp, tlv_rr_data, tlv_update_return_code, update_ok, update_failure,
}
use ndns.Daemon.Zone.{Zone, make_zone}
use ndns.Daemon.Rrset.{Rrset, make_rrset}
use ndns.Daemon.Sqlite.{Sqlite, Db}
use ndns.Daemon.DbMgr.Zones.{find_zone}
use ndns.Daemon.DbMgr.Rrsets.{find_rrset, find_lower_bound, update_rrset, insert_rrset}

-- in milliseconds
abbrev pub name_server_default_content_freshness : ℕ
name_server_default_content_freshness = 4000

module _ ⦃ndn : Ndn⦄ where
  pub record NameServer : Type 0 where
    pub zone : Zone
    pub ndns_prefix : Name
    pub cert_name : Name
    pub content_freshness : ℕ

  -- The database of the server and what it has put on its face.
  pub record Host : Type 0 where
    pub db : Db
    pub sent : List Data

  abbrev pub on_db : {A : Type 0} → Exec Db A → Exec Host A
  on_db m h = let r = m h.db in (r.0, record h { db = r.1 })

  abbrev pub put : Data → Exec Host (Unit {0})
  put d h = (ok tt, record h { sent = h.sent ++ d ∷ [] })

  -- NameServer::NameServer, up to the registration of the prefix
  unfoldable pub make_name_server : Name → ℕ → Name → Exec Host NameServer
  make_name_server zone_name default_ttl cert_name = do
    found ← on_db (find_zone (make_zone zone_name default_ttl))
    if found.0.id == 0
        then raise zone_missing
        else pure (record {
          zone = found.0;
          ndns_prefix = zone_name ++ ndns_iterative_query ∷ [];
          cert_name = cert_name;
          content_freshness = name_server_default_content_freshness;
        })

  -- A record set of the server's zone with a label and a type.
  abbrev pub rrset_of : NameServer → Name → Component → Rrset
  rrset_of server label type = record (make_rrset (some server.zone)) { label = label; type = type }

  -- The denial of existence for a query, nested in a NACK.
  unfoldable pub nack : NameServer → Component → Interest → Rrset → Data
  nack server now interest doe = sign none (record (make_data (interest.name ++ now ∷ [])) {
    content = as_content doe.rr_data;
    freshness_period = server.content_freshness;
    content_type = ndns_nack;
  })

  answer_absent : NameServer → Component → Interest → MatchResult → Exec Host (Unit {0})
  answer_absent server now interest re = do
    found ← on_db (find_lower_bound (rrset_of server (re.rr_label ++ re.rr_type ∷ []) doe_rr_type))
    if found.1 then put (nack server now interest found.0) else raise no_doe_record

  decoded : Block → Exec Host Data
  decoded b = elim (ndn.block_data b) [ none ↦ raise bad_packet | some d ↦ pure d ]

  unfoldable pub handle_query :
      NameServer → Component → Interest → MatchResult → Exec Host (Unit {0})
  unfolding answer_absent decoded
  handle_query server now interest re = do
    found ← on_db (find_rrset (rrset_of server re.rr_label re.rr_type))
    if found.1 && (ndn.is_empty re.version || component_eq re.version found.0.version)
        then (do answer ← decoded found.0.rr_data; put answer)
        else answer_absent server now interest re

  -- The body of the try block of doUpdate: the return code.
  try_update : ⦃sqlite : Sqlite⦄ → NameServer → MatchResult → Data → Exec Db ℕ
  try_update server re d = do
    found ← find_rrset (rrset_of server re.rr_label re.rr_type)
    if found.1
        then (if component_lt found.0.version re.version
            then (do
              update_rrset (record found.0 { version = re.version; rr_data = ndn.data_block d })
              pure update_ok)
            else pure update_failure)
        else (do
          insert_rrset (record found.0 {
            version = re.version;
            rr_data = ndn.data_block d;
            ttl = server.zone.ttl;
          })
          pure update_ok)

  -- catch (const std::exception&)
  abbrev pub return_code : Result ℕ → ℕ
  return_code (ok code) = code
  return_code (err e) = update_failure

  unfoldable pub update_answer : NameServer → Component → Interest → ℕ → Data
  update_answer server now interest code =
      sign (some server.cert_name) (record (make_data (interest.name ++ now ∷ [])) {
        content =
            as_content (ndn.nest tlv_rr_data (ndn.number_block tlv_update_return_code code ∷ []));
        freshness_period = server.content_freshness;
        content_type = ndns_resp;
      })

  unfoldable pub do_update :
      ⦃sqlite : Sqlite⦄ → NameServer → Component → Interest → Data → Exec Host (Unit {0})
  unfolding try_update
  do_update server now interest d h = elim (match_data d.name server.zone.name) [
    | none ↦ (ok tt, h)
    | some re ↦
        let r = try_update server re d h.db in
        put (update_answer server now interest (return_code r.0)) (record h { db = r.1 })
  ]

  -- Only one Data in the label, decoded from its component; what does not decode is ignored.
  unfoldable pub handle_update :
      ⦃sqlite : Sqlite⦄
      → NameServer
      → (Data → Bool)
      → Component
      → Interest
      → MatchResult
      → Exec Host (Unit {0})
  handle_update server valid now interest re = elim re.rr_label [
    | c ∷ [] ↦ elim (ndn.component_from_value c) [
      | none ↦ pure tt
      | some b ↦ elim (ndn.block_data b) [
        | none ↦ pure tt
        | some d ↦ if valid d then do_update server now interest d else pure tt
      ]
    ]
    | _ ↦ pure tt
  ]

  unfoldable pub on_interest :
      ⦃sqlite : Sqlite⦄ → NameServer → (Data → Bool) → Component → Interest → Exec Host (Unit {0})
  on_interest server valid now interest = elim (match_interest interest.name server.zone.name) [
    | none ↦ pure tt
    | some re ↦
        if component_eq re.rr_type ndns_update_label
        then handle_update server valid now interest re
        else handle_query server now interest re
  ]
