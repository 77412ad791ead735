-- ===== src/Mgmt/Tool.antt =====
-- ManagementTool of src/mgmt/management-tool.hpp and .cpp: adding and removing record sets and zones
-- in the database, each with the new denial-of-existence records that follow. `auth_now i` and
-- `doe_now i` are the versions that the clock gives the i-th round of the loop over prefixes and the i-th DoE record.
pub mod Add
pub mod Delete
pub mod FromFile
pub mod Served
pub mod Export
pub mod Listing
pub mod Create
pub mod Sound
use ndns.Prelude.{
  ℕ, zero, suc, ◌+◌, ◌-◌, ◌<◌, ◌==◌, ltb, Bool, true, false, Option, none, some, List, [], ◌∷◌,
  length, if◌then◌else◌, Exec, pure, raise, lift, ◌>>=◌, ◌>>◌, Result, ok, err, zone_not_present,
  rrset_without_zone, bad_packet, overrides_link, overrides_auth, duplicate, newer_version,
  already_present, empty_label,
}
use ndns.Ndn.{Ndn}
use ndns.Packets.{Name, Component, Block, Data, component_eq, component_lt}
use ndns.Label.{ns_rr_type, cert_rr_type, sub_size}
use ndns.Clients.ContentType.{ndns_auth, ndns_link}
use ndns.Daemon.Zone.{Zone, make_zone}
use ndns.Daemon.Rrset.{Rrset, make_rrset}
use ndns.Daemon.Sqlite.{Sqlite, Db}
use ndns.Daemon.DbMgr.Zones.{find_zone, insert_zone, remove_zone}
use ndns.Daemon.DbMgr.Rrsets.{find_rrset, find_rrsets, insert_rrset, remove_rrset}
use ndns.Daemon.RrsetFactory.{RrsetFactory, generate_auth_rrset, version_use_unix_timestamp}
use ndns.Mgmt.CertHelper.{Pib}
use ndns.Mgmt.Doe.{generate_doe}

module _ ⦃ndn : Ndn⦄ where
  -- Data(rrset.getData())
  abbrev stored_data : Block → Exec Db Data
  stored_data b = elim (ndn.block_data b) [ none ↦ raise bad_packet | some d ↦ pure d ]

  -- checkRrsetVersion: an older record under the same key makes room. The zone comes back as the
  -- look-up leaves it through the record's pointer.
  unfoldable pub check_rrset_version : Rrset → Exec Db (Option Zone)
  check_rrset_version rrset = do
    original ← find_rrset rrset
    if original.1
        then (if component_eq original.0.version rrset.version
            then raise duplicate
            else if component_lt rrset.version original.0.version
            then raise newer_version
            else (do removed ← remove_rrset original.0; pure removed.zone))
        else pure original.0.zone

  generate_doe_of : ⦃sqlite : Sqlite⦄ → Pib → (ℕ → Component) → Option Zone → Exec Db (Unit {0})
  generate_doe_of pib doe_now none = raise rrset_without_zone
  generate_doe_of pib doe_now (some zone) = generate_doe pib doe_now zone

  -- What `addRrset` and `addMultiLevelLabelRrset` end with.
  store_rrset : ⦃sqlite : Sqlite⦄ → Pib → (ℕ → Component) → Rrset → Exec Db (Unit {0})
  unfolding check_rrset_version generate_doe_of
  store_rrset pib doe_now rrset = do
    zone ← check_rrset_version rrset
    added ← insert_rrset (record rrset { zone = zone })
    generate_doe_of pib doe_now added.zone

  -- Throws if the record found has the content type.
  refuse_type : ℕ → Rrset × Bool → Exec Db (Unit {0})
  refuse_type content_type found =
      if found.1
      then (do
        d ← stored_data found.0.rr_data
        if d.content_type == content_type
            then raise (if content_type == ndns_auth then overrides_auth else overrides_link)
            else pure tt)
      else pure tt

  unfoldable pub add_rrset : ⦃sqlite : Sqlite⦄ → Pib → (ℕ → Component) → Rrset → Exec Db (Unit {0})
  unfolding store_rrset refuse_type
  add_rrset pib doe_now rrset = do
    found ← find_rrset (record rrset { type = ns_rr_type })
    refuse_type ndns_auth found
    store_rrset pib doe_now (record rrset { zone = found.0.zone })

  -- The prefixes of 1 up to k components, the shortest first.
  prefixes : Name → ℕ → ℕ → List Name
  prefixes label i zero = []
  prefixes label i (suc k) = ndn.get_prefix label i ∷ prefixes label (suc i) k

  ns_of : Option Zone → Name → Rrset
  ns_of zone label = record (make_rrset zone) { label = label; type = ns_rr_type }

  -- No proper prefix of the label may be delegated.
  check_prefixes : List Name → Option Zone → Exec Db (Option Zone)
  unfolding ns_of refuse_type
  check_prefixes [] zone = pure zone
  check_prefixes (p ∷ ps) zone = do
    found ← find_rrset (ns_of zone p)
    refuse_type ndns_link found
    check_prefixes ps found.0.zone

  -- Each proper prefix of the label gets an AUTH record, unless it has a record of type NS.
  add_auths :
      ⦃sqlite : Sqlite⦄
      → RrsetFactory
      → (ℕ → Component)
      → ℕ
      → ℕ
      → List Name
      → Option Zone
      → Exec Db (Option Zone)
  unfolding ns_of
  add_auths factory auth_now i ttl [] zone = pure zone
  add_auths factory auth_now i ttl (p ∷ ps) zone = do
    found ← find_rrset (ns_of zone p)
    if found.1 then add_auths factory auth_now (suc i) ttl ps found.0.zone else (do
      auth ← lift (generate_auth_rrset factory (auth_now i) p version_use_unix_timestamp ttl)
      insert_rrset auth
      add_auths factory auth_now (suc i) ttl ps found.0.zone)

  -- With an empty label `label.size() - 1` wraps, and the loops run 2 ^ 64 - 1 times over prefixes
  -- of an empty name: the model stops there with an error of its own.
  unfoldable pub add_multi_level_label_rrset :
      ⦃sqlite : Sqlite⦄
      → Pib
      → (ℕ → Component)
      → (ℕ → Component)
      → RrsetFactory
      → ℕ
      → Rrset
      → Exec Db (Unit {0})
  unfolding check_prefixes add_auths prefixes store_rrset refuse_type
  add_multi_level_label_rrset pib auth_now doe_now factory auth_ttl rrset =
      if length rrset.label == 0 then raise empty_label else do
        let above = prefixes rrset.label 1 (length rrset.label - 1)
        zone ← check_prefixes above rrset.zone
        zone' ←
            (if component_eq rrset.type ns_rr_type
              then (do
                found ← find_rrset (record rrset { zone = zone })
                refuse_type ndns_auth found
                pure found.0.zone)
              else pure zone)
        zone'' ← add_auths factory auth_now 0 auth_ttl above zone'
        store_rrset pib doe_now (record rrset { zone = zone'' })

  unfoldable pub remove_rr_set :
      ⦃sqlite : Sqlite⦄ → Pib → (ℕ → Component) → Name → Name → Component → Exec Db (Unit {0})
  unfolding generate_doe_of
  remove_rr_set pib doe_now zone_name label type = do
    found ←
        find_rrset
          (record (make_rrset (some (make_zone zone_name 3600))) { label = label; type = type })
    if found.1
        then (do removed ← remove_rrset found.0; generate_doe_of pib doe_now removed.zone)
        else pure tt

  -- The block that `getRrSet` prints, if there is one.
  unfoldable pub get_rr_set : Name → Name → Component → Exec Db (Option Block)
  get_rr_set zone_name label type = do
    found ←
        find_rrset
          (record (make_rrset (some (make_zone zone_name 3600))) { label = label; type = type })
    pure (if found.1 then some found.0.rr_data else none)

  -- The label of a certificate's record lies between the NDNS component and the last two.
  unfoldable pub add_id_cert : ⦃sqlite : Sqlite⦄ → Zone → Data → ℕ → Exec Db Rrset
  add_id_cert zone cert ttl = do
    let size = length zone.name
    found ← find_rrset (record (make_rrset (some zone)) {
      label = ndn.get_sub_name cert.name (size + 1) (sub_size (sub_size (length cert.name) size) 3);
      type = cert_rr_type;
      ttl = ttl;
      version = ndn.get_back cert.name 1;
      rr_data = ndn.data_block cert;
    })
    if found.1 then raise already_present else insert_rrset found.0

  unfoldable pub add_zone : ⦃sqlite : Sqlite⦄ → Zone → Exec Db Zone
  add_zone zone = do
    found ← find_zone zone
    if found.1 then raise already_present else insert_zone found.0

  unfoldable pub remove_known_zone : Zone → Exec Db Zone
  remove_known_zone zone = do
    found ← find_zone zone
    if found.1 then remove_zone found.0 else pure found.0

  unfoldable pub remove_each : List Rrset → Exec Db (Unit {0})
  remove_each [] = pure tt
  remove_each (r ∷ rs) = do remove_rrset r; remove_each rs

  unfoldable pub delete_zone : Name → Exec Db Zone
  unfolding remove_each remove_known_zone
  delete_zone zone_name = do
    found ← find_zone (make_zone zone_name 3600)
    if found.1
        then (do read ← find_rrsets found.0; remove_each read.1; remove_known_zone read.0)
        else raise zone_not_present
