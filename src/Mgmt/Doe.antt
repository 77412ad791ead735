-- ===== src/Mgmt/Doe.antt =====
-- ManagementTool::generateDoe of src/mgmt/management-tool.cpp: the denial-of-existence records of a
-- zone. `now i` is the version that the i-th `appendVersion` reads off the clock.
pub mod Ranges
pub mod Denial
pub mod Store
pub mod Stages
pub mod Generate
pub mod Total
pub mod Absence
pub mod Sound
use ndns.Prelude.{
  ℕ, suc, zero, ◌+◌, ◌*◌, ◌-◌, ◌^◌, Bool, true, false, ◌&&◌, Option, none, some, List, [], ◌∷◌,
  ◌++◌, map, if◌then◌else◌, Exec, pure, raise, lift, ◌>>=◌, ◌>>◌, Result, ok, err, zone_not_present,
  doe_of_empty_zone,
}
use ndns.Ndn.{Ndn}
use ndns.Packets.{Name, Component, Block}
use ndns.Label.{doe_rr_type}
use ndns.Daemon.Zone.{Zone}
use ndns.Daemon.Rrset.{Rrset, parts_lt}
use ndns.Daemon.Sqlite.{Sqlite, Db}
use ndns.Daemon.DbMgr.Zones.{find_zone}
use ndns.Daemon.DbMgr.Rrsets.{find_rrsets, remove_rrsets_of_zone_by_type, insert_rrset}
use ndns.Daemon.RrsetFactory.{
  RrsetFactory, make_factory, check_zone_key, generate_doe_rrset, default_cert,
  version_use_unix_timestamp,
}
use ndns.Mgmt.CertHelper.{Pib}

-- DEFAULT_CACHE_TTL, in seconds
abbrev pub default_cache_ttl : ℕ
default_cache_ttl = 3600

module _ ⦃ndn : Ndn⦄ where
  insert_sorted : Rrset → List Rrset → List Rrset
  insert_sorted r [] = r ∷ []
  insert_sorted r (s ∷ rest) =
      let later = insert_sorted r rest in if parts_lt s r then s ∷ later else r ∷ s ∷ rest

  -- std::sort with operator<, which does not throw on record sets of one zone pointer
  unfoldable pub sort_rrsets : List Rrset → List Rrset
  unfolding insert_sorted
  sort_rrsets [] = []
  sort_rrsets (r ∷ rs) = insert_sorted r (sort_rrsets rs)

  -- The name under which a record is denied: its label and its type.
  abbrev pub doe_name : Rrset → Name
  doe_name r = r.label ++ r.type ∷ []

  -- The label, the lower and the upper end of a DoE record
  pub record Range : Type 0 where
    pub label : Name
    pub lower : Name
    pub upper : Name

  -- From the head on: a range to each next name, then the range from the last back to the first,
  -- and the guard under the empty name.
  ranges_from : Name → Name → List Name → List Range
  ranges_from first n [] =
      record { label = n; lower = n; upper = first }
      ∷ record { label = []; lower = n; upper = first }
      ∷ []
  ranges_from first n (m ∷ ms) = record { label = n; lower = n; upper = m } ∷ ranges_from first m ms

  unfoldable pub doe_ranges : Name → List Name → List Range
  unfolding ranges_from
  doe_ranges n ns = ranges_from n n ns

  pub insert_does :
      ⦃sqlite : Sqlite⦄ → RrsetFactory → (ℕ → Component) → ℕ → List Range → Exec Db (Unit {0})
  insert_does factory now i [] = pure tt
  insert_does factory now i (r ∷ rs) = do
    doe ← lift (
        generate_doe_rrset factory (now i) r.label version_use_unix_timestamp default_cache_ttl
          r.lower r.upper)
    insert_rrset doe
    insert_does factory now (suc i) rs

  -- `allRecords.size() - 1` wraps and `back()` is undefined on a zone with no records: the model
  -- stops there with an error of its own.
  regenerate : ⦃sqlite : Sqlite⦄ → RrsetFactory → (ℕ → Component) → List Rrset → Exec Db (Unit {0})
  unfolding insert_does
  regenerate factory now [] = raise doe_of_empty_zone
  regenerate factory now (r ∷ rs) =
      insert_does factory now 0 (doe_ranges (doe_name r) (map doe_name rs))

  unfoldable pub generate_doe :
      ⦃sqlite : Sqlite⦄ → Pib → (ℕ → Component) → Zone → Exec Db (Unit {0})
  unfolding regenerate
  generate_doe pib now zone = do
    found ← find_zone zone
    if found.1
        then (do
          zone' ← remove_rrsets_of_zone_by_type found.0 doe_rr_type
          records ← find_rrsets zone'
          factory ← lift (make_factory pib zone.name default_cert)
          factory' ← check_zone_key pib factory
          regenerate factory' now (sort_rrsets records.1))
        else raise zone_not_present
