-- ===== src/Clients/Response.antt =====
-- src/clients/response.hpp, src/clients/response.cpp. An encoder is the list of the blocks that were
-- prepended to it; the lengths that `wireEncode` adds up only size the buffer. A freshness period
-- is in milliseconds on a packet and in seconds in a response.
pub mod Encoding
use ndns.Prelude.{
  ℕ, ◌*◌, ◌/◌, ◌≡◌, Bool, true, false, ◌&&◌, List, [], ◌∷◌, ◌++◌, Option, none, some, length, ◌==◌,
  if◌then◌else◌, String, Result, ok, err, bad_doe, bad_packet,
}
use mathlib.Core.List.{foldl, reverse}
use ndns.Ndn.{Ndn}
use ndns.Packets.{Component, Name, Block, Data, component_eq, name_eq, make_data, as_content}
use ndns.Label.{MatchResult, match_data}
use ndns.Clients.ContentType.{ndns_blob, is_raw, tlv_rr_data}

-- DEFAULT_RR_FRESHNESS_PERIOD, in seconds
abbrev pub default_rr_freshness_period : ℕ
default_rr_freshness_period = 3600

module _ ⦃ndn : Ndn⦄ where
  pub record Response : Type 0 where
    pub zone : Name
    pub query_type : Component
    pub rr_label : Name
    pub rr_type : Component
    pub version : Component
    pub content_type : ℕ
    pub freshness_period : ℕ
    pub app_content : Block
    pub rrs : List Block

  unfoldable pub make_response : Name → Component → Response
  make_response zone query_type = record {
    zone = zone;
    query_type = query_type;
    rr_label = [];
    rr_type = ndn.empty_component;
    version = ndn.empty_component;
    content_type = ndns_blob;
    freshness_period = default_rr_freshness_period;
    app_content = ndn.nest ndn.tlv_content [];
    rrs = [];
  }

  prepend_block : List Block → Block → List Block
  prepend_block encoder b = b ∷ encoder

  -- the loop from rbegin to rend, then the type and length of Content
  unfoldable pub encode_rrs : List Block → Block
  unfolding prepend_block
  encode_rrs rrs = ndn.nest ndn.tlv_content (foldl prepend_block [] (reverse rrs))

  unfoldable pub wire_encode : Response → Block
  wire_encode r = if is_raw r.content_type then r.app_content else encode_rrs r.rrs

  -- The records are appended to those that the response has.
  unfoldable pub wire_decode : Block → Response → Response
  wire_decode wire r =
      if is_raw r.content_type
      then record r { app_content = wire }
      else record r { rrs = r.rrs ++ ndn.elements wire }

  decode_range : List Block → Result (Name × Name)
  decode_range (lower ∷ upper ∷ []) = elim (ndn.block_name lower) [
    | none ↦ err bad_packet
    | some a ↦ elim (ndn.block_name upper) [ none ↦ err bad_packet | some b ↦ ok (a, b) ]
  ]
  decode_range bs = err bad_doe

  unfoldable pub wire_decode_doe : Block → Result (Name × Name)
  unfolding decode_range
  wire_decode_doe wire = decode_range (ndn.elements wire)

  from_match : Option MatchResult → Name → Data → Response → Response × Bool
  from_match none zone d r = (r, false)
  from_match (some re) zone d r = (
    wire_decode d.content (record r {
      rr_label = re.rr_label;
      rr_type = re.rr_type;
      version = re.version;
      zone = zone;
      query_type = ndn.get d.name (length zone);
      freshness_period = d.freshness_period / 1000;
      content_type = d.content_type;
    }),
    true,
  )

  unfoldable pub from_data : Name → Data → Response → Response × Bool
  unfolding from_match wire_decode
  from_data zone d r = from_match (match_data d.name zone) zone d r

  -- The version that `appendVersion` reads off the clock is an argument.
  unfoldable pub stamp_version : Component → Response → Response
  stamp_version now r = if ndn.is_empty r.version then record r { version = now } else r

  to_packet : Response → Data
  unfolding wire_encode
  to_packet r =
      record (make_data (r.zone ++ (r.query_type ∷ (r.rr_label ++ (r.rr_type ∷ r.version ∷ []))))) {
        content = as_content (if is_raw r.content_type then r.app_content else wire_encode r);
        freshness_period = r.freshness_period * 1000;
        content_type = r.content_type;
      }

  unfoldable pub to_data : Component → Response → Response × Data
  unfolding stamp_version to_packet
  to_data now r = let stamped = stamp_version now r in (stamped, to_packet stamped)

  unfoldable pub add_rr : Block → Response → Response
  add_rr rr r = record r { rrs = r.rrs ++ rr ∷ [] }

  unfoldable pub add_rr_string : String → Response → Response
  unfolding add_rr
  add_rr_string rr r = add_rr (ndn.string_block tlv_rr_data rr) r

  -- Erases the first record that equals `rr`.
  erase_rr : Block → List Block → List Block × Bool
  erase_rr rr [] = ([], false)
  erase_rr rr (b ∷ bs) =
      let rest = erase_rr rr bs in if ndn.block_eq b rr then (bs, true) else (b ∷ rest.0, rest.1)

  unfoldable pub remove_rr : Block → Response → Response × Bool
  unfolding erase_rr
  remove_rr rr r = (record r { rrs = (erase_rr rr r.rrs).0 }, (erase_rr rr r.rrs).1)

  unfoldable pub set_app_content : Block → Response → Response
  set_app_content b r = record r {
    app_content =
        if ndn.block_type b == ndn.tlv_content then b else ndn.nest ndn.tlv_content (b ∷ []);
  }

  rrs_eq : List Block → List Block → Bool
  rrs_eq [] [] = true
  rrs_eq (a ∷ as') (b ∷ bs) = ndn.block_eq a b && rrs_eq as' bs
  rrs_eq _ _ = false

  -- Response::operator==
  unfoldable pub response_eq : Response → Response → Bool
  unfolding rrs_eq
  response_eq a b =
      if name_eq a.zone b.zone
        && (component_eq a.query_type b.query_type
            && (name_eq a.rr_label b.rr_label
                && (component_eq a.rr_type b.rr_type
                    && (component_eq a.version b.version && (a.content_type == b.content_type)))))
      then (if is_raw a.content_type
          then ndn.block_eq a.app_content b.app_content
          else rrs_eq a.rrs b.rrs)
      else false
