-- ===== src/Daemon/DbMgr/Sound.antt =====
-- The state that DbMgr (src/daemon/db-mgr.cpp) keeps the tables of its database in.
pub mod Rows
pub mod Change
pub mod Operations
pub mod Histories
use ndns.Prelude.{
  ℕ, List, ◌<◌, ◌≡◌, ◌≢◌, ◌↔◌, refl, Bool, true, false, arith, All, Pairwise, blob_eq_iff,
}
use ndns.Ndn.{Ndn}
use ndns.Daemon.Sqlite.{ZoneRow, RrsetRow, Db, same_index}

module _ ⦃ndn : Ndn⦄ where
  abbrev pub SameKey : RrsetRow → RrsetRow → Type 0
  SameKey r s =
      (r.zone_id ≡ s.zone_id) × (r.label ≡ s.label) × (r.type ≡ s.type) × (r.version ≡ s.version)

  abbrev pub ApartRows : RrsetRow → RrsetRow → Type 0
  ApartRows r s = (r.id ≢ s.id) × ¬ (SameKey r s)

  abbrev pub ApartZones : ZoneRow → ZoneRow → Type 0
  ApartZones r s = (r.id ≢ s.id) × (r.name ≢ s.name)

  -- Ids are positive and differ; no two record sets share zone, label, type and version, and no two
  -- zones a name.
  abbrev pub SoundRows : List RrsetRow → Type 0
  SoundRows rows = All (λ (r : RrsetRow). 0 < r.id) rows × Pairwise ApartRows rows

  abbrev pub SoundZones : List ZoneRow → Type 0
  SoundZones zones = All (λ (r : ZoneRow). 0 < r.id) zones × Pairwise ApartZones zones

  unfoldable pub Sound : Db → Type 0
  Sound db = SoundZones db.zones × SoundRows db.rrsets

  pub same_index_iff :
      (r s : RrsetRow) → (same_index r.zone_id r.label r.type r.version s ≡ true) ↔ SameKey s r
  unfolding same_index
  same_index_iff r s = ground (
    arith,
    blob_eq_iff s.label r.label,
    ndn.component_eq_iff s.type r.type,
    ndn.component_eq_iff s.version r.version,
  )
