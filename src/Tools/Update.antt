-- ===== src/Tools/Update.antt =====
-- tools/ndns-update.cpp: the class NdnsUpdate, which sends an update to the name server of a zone,
-- and the choice of the update in main. The options are arguments, and so are the PIB, the clock of
-- `appendVersion`, the regular expressions of ndn-cxx and the verdict of the validator.
pub mod Choice
pub mod Delivery
use ndns.Prelude.{
  ℕ, zero, suc, ◌-◌, ◌%◌, ◌^◌, Bool, true, false, ◌||◌, not, Option, none, some, List, [], ◌∷◌,
  ◌++◌, String, if◌then◌else◌, Exec, Result, ok, err, bad_packet, ◌==◌, length,
}
use mathlib.Core.List.{foldl}
use ndns.Ndn.{Ndn}
use ndns.Packets.{Name, Component, Block, Data, Interest, component_eq, name_eq, sign}
use ndns.Label.{ndns_iterative_query, ndns_update_label}
use ndns.Clients.ContentType.{
  to_ndns_content_type, ndns_unknown, tlv_rr_data, tlv_update_return_code, tlv_update_return_msg,
  update_ok,
}
use ndns.Clients.Query.{Query, make_query, to_interest}
use ndns.Clients.Response.{Response, make_response, add_rr, to_data, from_data}
use ndns.Mgmt.CertHelper.{Pib, does_identity_exist, get_default_certificate_name_of_identity}

-- An int holds -1 as 2 ^ 32 - 1.
abbrev minus_one : ℕ
minus_one = 2 ^ 32 - 1

module _ ⦃ndn : Ndn⦄ where
  -- `stopped` once the io context is stopped
  pub record NdnsUpdate : Type 0 where
    pub zone : Name
    pub interest_lifetime : ℕ
    pub update : Data
    pub has_error : Bool
    pub stopped : Bool

  unfoldable pub make_ndns_update : Name → Data → ℕ → NdnsUpdate
  make_ndns_update zone update default_lifetime = record {
    zone = zone;
    interest_lifetime = default_lifetime;
    update = update;
    has_error = false;
    stopped = false;
  }

  unfoldable pub set_interest_lifetime : ℕ → NdnsUpdate → NdnsUpdate
  set_interest_lifetime lifetime u = record u { interest_lifetime = lifetime }

  unfoldable pub make_update_interest : NdnsUpdate → Interest
  unfolding to_interest make_query
  make_update_interest u = to_interest (record (make_query u.interest_lifetime) {
    zone = u.zone;
    query_type = ndns_iterative_query;
    rr_label = ndn.component_of_block (ndn.data_block u.update) ∷ [];
    rr_type = ndns_update_label;
  })

  -- The loop over the elements; the return code is an int that takes a 64-bit number.
  read_elements : List Block → ℕ × String → Result (ℕ × String)
  read_elements [] r = ok r
  read_elements (b ∷ bs) r =
      let rest = read_elements bs in
      if ndn.block_type b == tlv_update_return_code
      then (elim (ndn.read_number b) [ none ↦ err bad_packet | some n ↦ rest (n % 2 ^ 32, r.1) ])
      else if ndn.block_type b == tlv_update_return_msg
      then rest (r.0, ndn.block_string b)
      else rest r

  unfoldable pub parse_response : Data → Result (ℕ × String)
  unfolding read_elements
  parse_response d = elim (ndn.block_from_value d.content) [
    | none ↦ err bad_packet
    | some b ↦ read_elements (ndn.elements b) (minus_one, "")
  ]

  -- onData, up to the packet's validation
  unfoldable pub on_data : Data → Exec NdnsUpdate (Unit {0})
  unfolding parse_response
  on_data d u = elim (parse_response d) [
    | err e ↦ (err e, u)
    | ok r ↦ (ok tt, if r.0 == update_ok then u else record u { has_error = true })
  ]

  -- onTimeout, for a network NACK as well
  unfoldable pub on_timeout : NdnsUpdate → NdnsUpdate
  on_timeout u = record u { has_error = true; stopped = true }

  -- onDataValidated and onDataValidationFailed
  unfoldable pub on_judged : Bool → NdnsUpdate → NdnsUpdate
  on_judged valid u = record u { has_error = u.has_error || not valid; stopped = true }

  pub data NetEvent : Type 0 where
    arrived : Data → Bool → NetEvent
    lost : NetEvent

  -- The end of main: the exit status after what the face brought.
  unfoldable pub exit_status : NetEvent → NdnsUpdate → ℕ
  unfolding on_data on_timeout on_judged
  exit_status lost u = if (on_timeout u).has_error then 1 else 0
  exit_status (arrived d valid) u = elim (on_data d u).0 [
    | err e ↦ 1
    | ok x ↦ if (on_judged valid (on_data d u).1).has_error then 1 else 0
  ]

  -- What the options give; the type of the record is TXT and that of the content resp unless given.
  pub record Options : Type 0 where
    pub zone : Option Name
    pub rr_label : Option Name
    pub rr_type : Option String
    pub content_type : String
    pub cert_name : Name
    pub contents : List String

  unfoldable pub certificate_at : Pib → Name → Option Name
  certificate_at pib name =
      if does_identity_exist pib name
      then (elim (get_default_certificate_name_of_identity pib name) [
        | err e ↦ none
        | ok c ↦ some c
      ])
      else none

  -- The loop on the length of the prefix, which counts down from the name's.
  unfoldable pub find_certificate : Pib → Name → ℕ → Option Name
  unfolding certificate_at
  find_certificate pib name zero = certificate_at pib (ndn.get_prefix name 0)
  find_certificate pib name (suc n) =
      let shorter = find_certificate pib name n in
      elim (certificate_at pib (ndn.get_prefix name (suc n))) [ some c ↦ some c | none ↦ shorter ]

  rr_type_of : Option String → Component
  rr_type_of none = ndn.of_string "TXT"
  rr_type_of (some t) = ndn.of_string t

  unfoldable pub make_update : Component → Name → Name → Options → Name → Option Data
  unfolding rr_type_of
  make_update now zone rr_label o cert_name =
      let content_type = to_ndns_content_type o.content_type in
      if content_type == ndns_unknown
      then none
      else some (
          sign (some cert_name)
            (to_data now (
              foldl (λ re content. add_rr (ndn.string_block tlv_rr_data content) re)
                (record (make_response zone ndns_iterative_query) {
                  rr_label = rr_label;
                  rr_type = rr_type_of o.rr_type;
                  content_type = content_type;
                })
                o.contents)).1)

  -- The certificate of the options, or the one found for the name; main gives up on an empty one.
  choose_certificate : Pib → Name → Name → Option Name
  unfolding find_certificate
  choose_certificate pib name (c ∷ cert) = some (c ∷ cert)
  choose_certificate pib name [] = elim (find_certificate pib name (length name)) [
    | none ↦ none
    | some cert ↦ elim cert [ [] ↦ none | c ∷ cs ↦ some (c ∷ cs) ]
  ]

  -- The branch of main for an update that the options make up, none where it exits with an error.
  unfoldable pub update_of_options : Pib → Component → Options → Option Data
  unfolding choose_certificate make_update
  update_of_options pib now o = elim o.zone [
    | none ↦ none
    | some zone ↦ elim o.rr_label [
      | none ↦ none
      | some rr_label ↦ elim (choose_certificate pib (zone ++ rr_label) o.cert_name) [
        | none ↦ none
        | some cert ↦ make_update now zone rr_label o cert
      ]
    ]
  ]

  -- The zone in the name of a loaded packet. `expand` matches a pattern and expands "\\1".
  zone_of_name : (String → Name → Option Name) → Name → Option Name
  zone_of_name expand name = elim (expand "(<>*)<NDNS>(<>+)<CERT><>*" name) [
    | some zone ↦ some zone
    | none ↦ expand "(<>*)<NDNS>(<>+)" name
  ]

  differs : {A : Type 0} → (A → A → Bool) → Option A → A → Bool
  differs eq none b = false
  differs eq (some a) b = not (eq a b)

  given_type : Option String → Option Component
  given_type none = none
  given_type (some t) = some (ndn.of_string t)

  -- The branch of main for a loaded packet: the zone that it goes to, none where main exits.
  unfoldable pub check_loaded : (String → Name → Option Name) → Options → Data → Option Name
  unfolding zone_of_name differs given_type from_data
  check_loaded expand o d = elim (zone_of_name expand d.name) [
    | none ↦ none
    | some zone ↦
        let re = (from_data zone d (make_response [] ndn.empty_component)).0 in
        if differs name_eq o.zone zone
          || (differs name_eq o.rr_label re.rr_label
              || differs component_eq (given_type o.rr_type) re.rr_type)
        then none
        else some zone
  ]
