-- ===== src/Daemon/Zone.antt =====
-- src/daemon/zone.hpp, src/daemon/zone.cpp
use ndns.Prelude.{ℕ, Bool, []}
use ndns.Ndn.{Ndn}
use ndns.Packets.{Name, name_eq}

module _ ⦃ndn : Ndn⦄ where
  -- The id is 0 until the zone is in the database; the TTL is in seconds.
  pub record Zone : Type 0 where
    pub id : ℕ
    pub name : Name
    pub ttl : ℕ

  -- Zone()
  abbrev pub empty_zone : Zone
  empty_zone = record { id = 0; name = []; ttl = 3600 }

  -- Zone(name, ttl)
  abbrev pub make_zone : Name → ℕ → Zone
  make_zone name ttl = record { id = 0; name = name; ttl = ttl }

  -- Zone::operator==
  abbrev pub zone_eq : Zone → Zone → Bool
  zone_eq a b = name_eq a.name b.name
