-- ===== src/Clients/Query.antt =====
-- src/clients/query.hpp, src/clients/query.cpp
pub mod Roundtrip
use ndns.Prelude.{ℕ, Bool, true, false, ◌&&◌, List, [], ◌∷◌, ◌++◌, Option, none, some, length}
use ndns.Ndn.{Ndn}
use ndns.Packets.{Component, Name, Interest, component_eq, name_eq}
use ndns.Label.{MatchResult, match_interest}

-- ndn::DEFAULT_INTEREST_LIFETIME enters as an argument of the constructors.
module _ ⦃ndn : Ndn⦄ where
  pub record Query : Type 0 where
    pub zone : Name
    pub query_type : Component
    pub rr_label : Name
    pub rr_type : Component
    pub interest_lifetime : ℕ
    pub forwarding_hint : List Name

  unfoldable pub make_query : ℕ → Query
  make_query lifetime = record {
    zone = [];
    query_type = ndn.empty_component;
    rr_label = [];
    rr_type = ndn.empty_component;
    interest_lifetime = lifetime;
    forwarding_hint = [];
  }

  from_match : Option MatchResult → Name → Interest → Query → Query × Bool
  from_match none zone interest q = (q, false)
  from_match (some re) zone interest q = (
    record q {
      rr_label = re.rr_label;
      rr_type = re.rr_type;
      zone = zone;
      forwarding_hint = interest.forwarding_hint;
      query_type = ndn.get interest.name (length zone);
    },
    true,
  )

  pub from_interest : Name → Interest → Query → Query × Bool
  unfolding from_match
  from_interest zone interest q = from_match (match_interest interest.name zone) zone interest q

  unfoldable pub to_interest : Query → Interest
  to_interest q = record {
    name = q.zone ++ (q.query_type ∷ (q.rr_label ++ (q.rr_type ∷ [])));
    can_be_prefix = true;
    lifetime = q.interest_lifetime;
    forwarding_hint = q.forwarding_hint;
  }

  -- setForwardingHintFromLink, given the link's delegations
  unfoldable pub set_forwarding_hint : List Name → Query → Query
  set_forwarding_hint delegations q = record q { forwarding_hint = delegations }

  -- Query::operator==
  pub query_eq : Query → Query → Bool
  query_eq a b =
      name_eq a.zone b.zone
      && (component_eq a.query_type b.query_type
          && (name_eq a.rr_label b.rr_label && component_eq a.rr_type b.rr_type))
