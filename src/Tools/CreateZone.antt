-- ===== src/Tools/CreateZone.antt =====
-- tools/ndns-create-zone.cpp: main once the options are parsed. Names are arguments as ndn-cxx parses
-- them, `none` for a parent that is not given, and a TTL is `none` for the int -1; the certificate printed
-- is the result. main returns 0 if the run goes through, and 1 if it throws; a TTL is never negative.
pub mod Printed
use ndns.Prelude.{
  ℕ, ◌-◌, Bool, true, false, not, ◌&&◌, Option, none, some, List, [], ◌∷◌, length, ◌==◌,
  if◌then◌else◌, Exec, pure, ◌>>=◌, Result, ok, err,
}
use ndns.Ndn.{Ndn}
use ndns.Packets.{Name, Component, Data}
use ndns.Daemon.Sqlite.{Sqlite}
use ndns.Mgmt.Doe.{default_cache_ttl}
use ndns.Mgmt.Tool.FromFile.{get_zone_dkey}
use ndns.Mgmt.Tool.Create.{KeyChain, ZoneArgs, Site, on_site_db, create_zone}

module _ ⦃ndn : Ndn⦄ where
  pub record CreateOptions : Type 0 where
    pub zone : Name
    pub parent : Option Name
    pub cache_ttl : Option ℕ
    pub ksk : Name
    pub dsk : Name
    pub dkey : Name

  -- The zone's own name without its last component stands for a parent that is not given.
  unfoldable pub parent_of : CreateOptions → Name
  parent_of o = elim o.parent [
    | some parent ↦ parent
    | none ↦ if length o.zone == 0 then [] else ndn.get_prefix o.zone (length o.zone - 1)
  ]

  unfoldable pub zone_args : CreateOptions → ZoneArgs
  unfolding parent_of
  zone_args o = record {
    zone_name = o.zone;
    parent_zone_name = parent_of o;
    cache_ttl = elim o.cache_ttl [ none ↦ default_cache_ttl | some ttl ↦ ttl ];
    ksk_cert_name = o.ksk;
    dsk_cert_name = o.dsk;
    dkey_cert_name = o.dkey;
  }

  unfoldable pub create_and_print :
      ⦃sqlite : Sqlite⦄ ⦃chain : KeyChain⦄
      → (ℕ → Component)
      → (ℕ → Component)
      → (Data → Bool)
      → CreateOptions
      → Exec Site Data
  unfolding zone_args
  create_and_print now doe_now is_certificate o = do
    zone ← create_zone now doe_now (zone_args o)
    on_site_db (get_zone_dkey is_certificate zone)
