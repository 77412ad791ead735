-- ===== src/Label.antt =====
-- src/ndns-label.hpp, src/ndns-label.cpp: the label constants and the matching of a packet's name
-- against a zone. `name.size() - skip` is a size_t, so it wraps. The assertions of `calculateSkip`,
-- which an optimised build leaves out, are `skip_asserts`: the matching itself goes on without them.
pub mod Match
use ndns.Prelude.{ℕ, suc, ◌+◌, ◌-◌, ◌^◌, Bool, ◌&&◌, Option, none, some, ltb, if◌then◌else◌, length}
use ndns.Ndn.{Ndn}
use ndns.Packets.{Component, Name, Data, Interest, component_eq, name_eq}

-- a - b on size_t, for a and b in its range
unfoldable pub sub_size : ℕ → ℕ → ℕ
sub_size a b = if ltb a b then a + 2 ^ 64 - b else a - b

module _ ⦃ndn : Ndn⦄ where
  abbrev pub ndns_iterative_query : Component
  ndns_iterative_query = ndn.of_string "NDNS"

  abbrev pub ndns_update_label : Component
  ndns_update_label = ndn.of_string "UPDATE"

  abbrev pub ns_rr_type : Component
  ns_rr_type = ndn.of_string "NS"

  abbrev pub cert_rr_type : Component
  cert_rr_type = ndn.of_string "CERT"

  abbrev pub appcert_rr_type : Component
  appcert_rr_type = ndn.of_string "APPCERT"

  abbrev pub txt_rr_type : Component
  txt_rr_type = ndn.of_string "TXT"

  abbrev pub doe_rr_type : Component
  doe_rr_type = ndn.of_string "DOE"

  pub record MatchResult : Type 0 where
    pub rr_label : Name
    pub rr_type : Component
    pub version : Component

  unfoldable pub skip_asserts : Name → Name → Bool
  skip_asserts name zone =
      ltb (length zone) (length name)
      && (name_eq (ndn.get_prefix name (length zone)) zone
          && component_eq (ndn.get name (length zone)) ndns_iterative_query)

  pub calculate_skip : Name → Name → ℕ
  calculate_skip name zone = suc (length zone)

  -- The version comes off the end of the name if its last component is one.
  match_at : Name → ℕ → ℕ → Component → MatchResult
  match_at name skip offset version = record {
    rr_label = ndn.get_sub_name name skip (sub_size (sub_size (length name) skip) offset);
    rr_type = ndn.get_back name offset;
    version = version;
  }

  -- matchName(Interest)
  unfoldable pub match_interest : Name → Name → Option MatchResult
  unfolding match_at calculate_skip
  match_interest name zone =
      let skip = calculate_skip name zone in
      if ltb (sub_size (length name) skip) 1
      then none
      else if ndn.is_version (ndn.get_back name 1)
      then some (match_at name skip 2 (ndn.get_back name 1))
      else some (match_at name skip 1 ndn.empty_component)

  -- matchName(Data)
  unfoldable pub match_data : Name → Name → Option MatchResult
  unfolding calculate_skip
  match_data name zone =
      let skip = calculate_skip name zone in
      if ltb (sub_size (length name) skip) 2
      then none
      else some (record {
        rr_label = ndn.get_sub_name name skip (sub_size (sub_size (length name) skip) 2);
        rr_type = ndn.get_back name 2;
        version = ndn.get_back name 1;
      })
