-- ===== src/Daemon/RrsetFactory/Packets.antt =====
-- What a client reads out of the packets that the factory makes (src/daemon/rrset-factory.cpp).
use ndns.Prelude.{
  ℕ, ◌*◌, ◌≡◌, true, some, List, [], ◌∷◌, ◌++◌, map, arith, ok, String, ◌==◌, if◌then◌else◌,
}
use ndns.Ndn.{Ndn}
use ndns.Packets.{Name, Component, Block, Data, as_content, make_data, sign}
use ndns.Label.{ndns_iterative_query, doe_rr_type, txt_rr_type}
use ndns.Label.Match.{query_name, match_data-response}
use ndns.Clients.ContentType.{ndns_doe, ndns_resp, tlv_rr_data}
use ndns.Clients.Response.{Response, encode_rrs, wire_decode_doe, from_data}
use ndns.Clients.Response.Encoding.{as_content-encode_rrs, elements-encode_rrs, seconds-millis}
use ndns.Daemon.Rrset.{Rrset, make_rrset}
use ndns.Daemon.RrsetFactory.{
  RrsetFactory, generate_doe_rrset, generate_txt_rrset, rr_ttl, version_use_unix_timestamp,
}

module _ ⦃ndn : Ndn⦄ where
  abbrev pub range_content : Name → Name → Block
  range_content lower upper =
      as_content (encode_rrs (ndn.name_block lower ∷ ndn.name_block upper ∷ []))

  -- The range of a DoE packet's content is read back.
  pub wire_decode_doe-range_content :
      (lower upper : Name) → wire_decode_doe (range_content lower upper) ≡ ok (lower, upper)
  unfolding wire_decode_doe
  wire_decode_doe-range_content lower upper =
      let blocks = ndn.name_block lower ∷ ndn.name_block upper ∷ [] in
      ground (
        arith,
        as_content-encode_rrs blocks,
        elements-encode_rrs blocks,
        ndn.block_name-name_block lower,
        ndn.block_name-name_block upper,
      )

  abbrev pub stamped_version : Component → ℕ → Component
  stamped_version now version =
      if version == version_use_unix_timestamp then now else ndn.of_version version

  -- The packet that `generate_doe_rrset` signs.
  abbrev pub doe_packet : RrsetFactory → Component → Name → ℕ → ℕ → Name → Name → Data
  doe_packet factory now label version ttl lower upper =
      sign (some factory.dsk_cert_name)
        (record (make_data
          (query_name factory.zone.name label (doe_rr_type ∷ stamped_version now version ∷ []))) {
            content = range_content lower upper;
            content_type = ndns_doe;
            freshness_period = rr_ttl factory ttl * 1000;
          })

  pub generate_doe_rrset_lem :
      (factory : RrsetFactory) (now : Component) (label : Name) (version ttl : ℕ)
      (lower upper : Name)
      → factory.checked ≡ true
      → generate_doe_rrset factory now label version ttl lower upper
        ≡ ok (record (make_rrset (some factory.zone)) {
          label = label;
          type = doe_rr_type;
          version = stamped_version now version;
          ttl = rr_ttl factory ttl;
          rr_data = ndn.data_block (doe_packet factory now label version ttl lower upper);
        })
  unfolding generate_doe_rrset
  generate_doe_rrset_lem factory now label version ttl lower upper c = ground arith

  -- A factory that has checked its zone makes a TXT record set, and a client that decodes its packet
  -- into a response with no records yet reads the label, the type, the version, the TTL as
  -- freshness, and one record for each string in order.
  pub from_data-generate_txt_rrset :
      (factory : RrsetFactory) (now : Component) (label : Name) (version ttl : ℕ)
      (strings : List String) (fresh : Response)
      → factory.checked ≡ true
      → fresh.rrs ≡ []
      → (rrset : Rrset) × (d : Data) × (generate_txt_rrset factory now label version ttl strings
          ≡ ok rrset)
        × (ndn.block_data rrset.rr_data ≡ some d)
        × (from_data factory.zone.name d fresh ≡ (
          record fresh {
            zone = factory.zone.name;
            query_type = ndns_iterative_query;
            rr_label = label;
            rr_type = txt_rr_type;
            version = rrset.version;
            content_type = ndns_resp;
            freshness_period = rrset.ttl;
            rrs = map (ndn.string_block tlv_rr_data) strings;
          },
          true,
        ))
  unfolding generate_txt_rrset from_data
  from_data-generate_txt_rrset factory now label version ttl strings fresh c e =
      let version' = stamped_version now version in
      let blocks = map (ndn.string_block tlv_rr_data) strings in
      let d : Data =
        sign (some factory.dsk_cert_name)
          (record (make_data (query_name factory.zone.name label (txt_rr_type ∷ version' ∷ []))) {
            content = as_content (encode_rrs blocks);
            content_type = ndns_resp;
            freshness_period = rr_ttl factory ttl * 1000;
          }) in
      (
        record (make_rrset (some factory.zone)) {
          label = label;
          type = txt_rr_type;
          version = version';
          ttl = rr_ttl factory ttl;
          rr_data = ndn.data_block d;
        },
        d,
        ground arith,
        ndn.block_data-data_block d,
        ground (
          arith,
          e,
          match_data-response factory.zone.name label txt_rr_type version',
          ndn.get-append factory.zone.name ndns_iterative_query
              (label ++ (txt_rr_type ∷ version' ∷ [])),
          as_content-encode_rrs blocks,
          elements-encode_rrs blocks,
          seconds-millis (rr_ttl factory ttl),
          ndn.blob-lt-link,
          ndn.link-lt-key,
          ndn.key-lt-nack,
          ndn.nack-lt-1085,
        ),
      )
