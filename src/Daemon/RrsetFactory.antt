-- ===== src/Daemon/RrsetFactory.antt =====
-- src/daemon/rrset-factory.hpp, src/daemon/rrset-factory.cpp. The version that `appendVersion` reads
-- off the clock is an argument of each generate function.
pub mod Packets
use ndns.Prelude.{
  ℕ, ◌*◌, ◌-◌, ◌^◌, Bool, true, false, ◌&&◌, Option, none, some, List, [], ◌∷◌, ◌++◌, map, String,
  if◌then◌else◌, Exec, pure, raise, lift, ◌>>=◌, ◌>>◌, Result, ok, err, ◌==◌, not, zone_unchecked,
  bad_certificate, pib_error, zone_not_present,
}
use ndns.Ndn.{Ndn}
use ndns.Packets.{Name, Component, Block, Data, name_eq, make_data, as_content, sign}
use ndns.Label.{ndns_iterative_query, ns_rr_type, txt_rr_type, appcert_rr_type, doe_rr_type}
use ndns.Clients.ContentType.{ndns_link, ndns_resp, ndns_key, ndns_auth, ndns_doe, tlv_rr_data}
use ndns.Clients.Response.{encode_rrs}
use ndns.Daemon.Zone.{Zone, make_zone}
use ndns.Daemon.Rrset.{Rrset, make_rrset}
use ndns.Daemon.Sqlite.{Db}
use ndns.Daemon.DbMgr.Zones.{find_zone}
use ndns.Mgmt.CertHelper.{
  Pib, get_certificate, get_default_key_name_of_identity, get_default_certificate_name_of_identity,
}

-- VERSION_USE_UNIX_TIMESTAMP, and the TTL that stands for the zone's
abbrev pub version_use_unix_timestamp : ℕ
version_use_unix_timestamp = 2 ^ 64 - 1

abbrev pub default_rr_ttl : ℕ
default_rr_ttl = 0

module _ ⦃ndn : Ndn⦄ where
  -- DEFAULT_CERT
  abbrev pub default_cert : Name
  default_cert = []

  pub record RrsetFactory : Type 0 where
    pub zone : Zone
    pub dsk_cert_name : Name
    pub dsk_name : Name
    pub checked : Bool

  -- RrsetFactory::RrsetFactory; the zone has the default TTL until it is found.
  unfoldable pub make_factory : Pib → Name → Name → Result RrsetFactory
  make_factory pib zone_name input =
      if name_eq input default_cert
      then (elim (get_default_key_name_of_identity pib (zone_name ++ ndns_iterative_query ∷ [])) [
        | err e ↦ err e
        | ok key ↦
            elim (get_default_certificate_name_of_identity pib
              (zone_name ++ ndns_iterative_query ∷ [])) [
                | err e ↦ err e
                | ok cert ↦ ok (record {
                  zone = make_zone zone_name 3600;
                  dsk_cert_name = cert;
                  dsk_name = key;
                  checked = false;
                })
              ]
      ])
      else ok (record {
        zone = make_zone zone_name 3600;
        dsk_cert_name = input;
        dsk_name = [];
        checked = false;
      })

  unfoldable pub only_check_zone : RrsetFactory → Exec Db RrsetFactory
  only_check_zone factory = if factory.checked then pure factory else do
    found ← find_zone factory.zone
    if found.1
        then pure (record factory { zone = found.0; checked = true })
        else raise zone_not_present

  -- matchCertificate: only Pib::Error is caught.
  unfoldable pub match_certificate : Pib → Name → Name → Result Bool
  match_certificate pib cert_name identity = elim (get_certificate pib identity cert_name) [
    | ok c ↦ ok true
    | err pib_error ↦ ok false
    | err e ↦ err e
  ]

  unfoldable pub check_zone_key : Pib → RrsetFactory → Exec Db RrsetFactory
  unfolding only_check_zone match_certificate
  check_zone_key pib factory = do
    factory' ← only_check_zone factory
    if name_eq factory'.dsk_cert_name default_cert then pure factory' else do
      matches ← lift (
          match_certificate pib factory'.dsk_cert_name
            (factory'.zone.name ++ ndns_iterative_query ∷ []))
      if matches then pure factory' else raise bad_certificate

  unfoldable pub generate_base_rrset :
      RrsetFactory → Component → Name → Component → ℕ → ℕ → Rrset × Name
  generate_base_rrset factory now label type version ttl =
      let component =
        if version == version_use_unix_timestamp then now else ndn.of_version version in
      (
        record (make_rrset (some factory.zone)) {
          label = label;
          type = type;
          ttl = ttl;
          version = component;
        },
        factory.zone.name ++ (ndns_iterative_query ∷ (label ++ (type ∷ component ∷ []))),
      )

  abbrev pub rr_ttl : RrsetFactory → ℕ → ℕ
  rr_ttl factory ttl = if ttl == default_rr_ttl then factory.zone.ttl else ttl

  -- What the generate functions share: the base record, and a signed packet of its name with the
  -- content and content type given.
  unfoldable pub generate :
      RrsetFactory → Component → Name → Component → ℕ → ℕ → ℕ → Block → Result Rrset
  unfolding generate_base_rrset
  generate factory now label type version ttl content_type content =
      let base = generate_base_rrset factory now label type version (rr_ttl factory ttl) in
      if factory.checked
      then ok (record (base.0) {
        rr_data = ndn.data_block (
            sign (some factory.dsk_cert_name) (record (make_data base.1) {
              content = content;
              content_type = content_type;
              freshness_period = rr_ttl factory ttl * 1000;
            }));
      })
      else err zone_unchecked

  unfoldable pub generate_ns_rrset :
      RrsetFactory → Component → Name → ℕ → ℕ → List Name → Result Rrset
  unfolding generate
  generate_ns_rrset factory now label version ttl delegations =
      generate factory now label ns_rr_type version ttl ndns_link (ndn.link_content delegations)

  unfoldable pub generate_txt_rrset :
      RrsetFactory → Component → Name → ℕ → ℕ → List String → Result Rrset
  unfolding generate
  generate_txt_rrset factory now label version ttl strings =
      generate factory now label txt_rr_type version ttl ndns_resp
        (as_content (encode_rrs (map (ndn.string_block tlv_rr_data) strings)))

  unfoldable pub generate_cert_rrset : RrsetFactory → Component → Name → ℕ → ℕ → Data → Result Rrset
  unfolding generate
  generate_cert_rrset factory now label version ttl cert =
      generate factory now label appcert_rr_type version ttl ndns_key
        (as_content (ndn.data_block cert))

  unfoldable pub generate_auth_rrset : RrsetFactory → Component → Name → ℕ → ℕ → Result Rrset
  unfolding generate
  generate_auth_rrset factory now label version ttl =
      generate factory now label ns_rr_type version ttl ndns_auth (ndn.nest ndn.tlv_content [])

  unfoldable pub generate_doe_rrset :
      RrsetFactory → Component → Name → ℕ → ℕ → Name → Name → Result Rrset
  unfolding generate
  generate_doe_rrset factory now label version ttl lower upper =
      generate factory now label doe_rr_type version ttl ndns_doe
        (as_content (encode_rrs (ndn.name_block lower ∷ ndn.name_block upper ∷ [])))

  unfoldable pub wire_decode_txt : Block → List String
  wire_decode_txt wire = map ndn.block_string (ndn.elements wire)
