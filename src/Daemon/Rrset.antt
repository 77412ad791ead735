-- ===== src/Daemon/Rrset.antt =====
-- src/daemon/rrset.hpp, src/daemon/rrset.cpp. A record set points to its zone: the zone stands in
-- the record, and an operation that changes it through the pointer returns it changed.
pub mod Order
use ndns.Prelude.{
  ℕ, Bool, true, false, ◌&&◌, ◌||◌, not, Option, none, some, [], if◌then◌else◌, Result, ok, err,
  different_zones,
}
use ndns.Ndn.{Ndn}
use ndns.Packets.{Component, Name, Block, component_eq, component_lt, name_eq, name_lt}
use ndns.Daemon.Zone.{Zone, zone_eq}

module _ ⦃ndn : Ndn⦄ where
  pub record Rrset : Type 0 where
    pub id : ℕ
    pub zone : Option Zone
    pub label : Name
    pub type : Component
    pub version : Component
    pub ttl : ℕ
    pub rr_data : Block

  -- Rrset(zone). The constructor leaves `m_ttl` uninitialised: 0 stands for it, and every path
  -- that writes the record to the database has set it.
  abbrev pub make_rrset : Option Zone → Rrset
  make_rrset zone = record {
    id = 0;
    zone = zone;
    label = [];
    type = ndn.empty_component;
    version = ndn.empty_component;
    ttl = 0;
    rr_data = ndn.empty_block;
  }

  unfoldable pub parts_eq : Rrset → Rrset → Bool
  parts_eq a b =
      name_eq a.label b.label && (component_eq a.type b.type && component_eq a.version b.version)

  zones_eq : Option Zone → Option Zone → Bool
  zones_eq none none = true
  zones_eq none (some z) = false
  zones_eq (some z) none = false
  zones_eq (some z) (some w) = zone_eq z w

  -- Rrset::operator==
  pub rrset_eq : Rrset → Rrset → Bool
  unfolding parts_eq zones_eq
  rrset_eq a b = zones_eq a.zone b.zone && parts_eq a b

  -- The order by label, then type, then version.
  unfoldable pub parts_lt : Rrset → Rrset → Bool
  parts_lt a b =
      if name_lt a.label b.label
      then true
      else if name_eq a.label b.label
      then (if component_lt a.type b.type
          then true
          else if component_eq a.type b.type
          then component_lt a.version b.version
          else false)
      else false

  -- Rrset::operator<, told whether the two hold the same zone pointer
  unfoldable pub rrset_lt : Bool → Rrset → Rrset → Result Bool
  unfolding parts_lt zones_eq
  rrset_lt same_pointer a b =
      if not same_pointer || not (zones_eq a.zone b.zone)
      then err different_zones
      else ok (parts_lt a b)
