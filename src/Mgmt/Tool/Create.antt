-- ===== src/Mgmt/Tool/Create.antt =====
-- createZone of src/mgmt/management-tool.cpp: the keys and certificates of a new zone, the zone and its
-- certificates in the database, and its DoE records. The key chain's operations are parameters, and so
-- is the clock: `now i` is the version of the i-th certificate.
pub mod Checks
pub mod Stored
pub mod Complete
pub mod Dkey
pub mod Keys
pub mod Sound
use ndns.Prelude.{
  ℕ, ◌*◌, Bool, true, false, ◌&&◌, not, Option, none, some, [], ◌∷◌, ◌++◌, if◌then◌else◌, Exec,
  pure, raise, lift, ◌>>=◌, ◌>>◌, Result, ok, err, already_present, parent_is_zone,
  parent_not_prefix, bad_certificate, dkey_of_root, length,
}
use ndns.Ndn.{Ndn}
use ndns.Packets.{Name, Component, Block, Data, name_eq, component_eq}
use ndns.Label.{ndns_iterative_query, cert_rr_type}
use ndns.Daemon.Zone.{Zone, make_zone}
use ndns.Daemon.Rrset.{Rrset}
use ndns.Daemon.Sqlite.{Sqlite, Db}
use ndns.Daemon.DbMgr.Zones.{find_zone, set_zone_info}
use ndns.Daemon.RrsetFactory.{default_cert}
use ndns.Mgmt.CertHelper.{Pib, get_certificate, get_identity_name_from_cert, create_certificate}
use ndns.Mgmt.Doe.{generate_doe}
use ndns.Mgmt.Tool.{add_zone, add_id_cert}
use ndns.Mgmt.Tool.FromFile.{match_identity_certificate}

module _ ⦃ndn : Ndn⦄ where
  -- ndn::KeyChain as createZone uses it; keys go by their names.
  pub record KeyChain : Type 1 where
    pub Store : Type 0
    pub pib : Store → Pib
    pub create_identity : Name → Store → Store
    pub create_key : Name → Store → Name × Store
    pub default_certificate_of : Name → Store → Name
    pub delete_certificate : Name → Name → Store → Store
    pub add_certificate : Name → Data → Store → Store
    pub set_default_key : Name → Name → Store → Store
    pub set_default_certificate : Name → Data → Store → Store
    pub public_key : Name → Store → Block
    pub key_name_of_cert : Name → Name
    pub sign_by_key : Name → Data → ndn.Signature

  pub record ZoneArgs : Type 0 where
    pub zone_name : Name
    pub parent_zone_name : Name
    -- in seconds
    pub cache_ttl : ℕ
    pub ksk_cert_name : Name
    pub dsk_cert_name : Name
    pub dkey_cert_name : Name

  unfoldable pub is_prefix_of : Name → Name → Bool
  is_prefix_of [] n = true
  is_prefix_of (c ∷ p) [] = false
  is_prefix_of (c ∷ p) (d ∷ n) = component_eq c d && is_prefix_of p n

  -- ROOT_ZONE
  abbrev root_zone : Name
  root_zone = []

  unfoldable pub identity_of : Name → Name
  identity_of zone_name = zone_name ++ ndns_iterative_query ∷ []

module _ ⦃ndn : Ndn⦄ ⦃chain : KeyChain⦄ where
  -- The key chain and the database
  pub record Site : Type 0 where
    pub store : chain.Store
    pub db : Db

  abbrev pub on_site_db : {A : Type 0} → Exec Db A → Exec Site A
  on_site_db m s = let r = m s.db in (r.0, record s { db = r.1 })

  abbrev pub on_store : (chain.Store → chain.Store) → Exec Site (Unit {0})
  on_store f s = (ok tt, record s { store = f s.store })

  abbrev get_pib : Exec Site Pib
  get_pib s = (ok (chain.pib s.store), s)

  require : Result Bool → Exec Site (Unit {0})
  require (err e) s = (err e, s)
  require (ok true) s = (ok tt, s)
  require (ok false) s = (err bad_certificate, s)

  -- if the DSK is provided, there is no need to check the KSK
  check_certificates : ZoneArgs → Exec Site (Unit {0})
  unfolding require identity_of
  check_certificates a = do
    pib ← get_pib
    (if not (name_eq a.dsk_cert_name default_cert)
        then require (match_identity_certificate pib a.dsk_cert_name (identity_of a.zone_name))
        else if not (name_eq a.ksk_cert_name default_cert)
        then require (match_identity_certificate pib a.ksk_cert_name (identity_of a.zone_name))
        else pure tt)

  pub check_preconditions : ZoneArgs → Exec Site Zone
  unfolding check_certificates
  check_preconditions a =
      let is_root = name_eq a.zone_name root_zone in
      do
        found ← on_site_db (find_zone (make_zone a.zone_name a.cache_ttl))
        if found.1
            then raise already_present
            else (if not is_root && name_eq a.parent_zone_name a.zone_name
                then raise parent_is_zone
                else (if not is_root && not (is_prefix_of a.parent_zone_name a.zone_name)
                    then raise parent_not_prefix
                    else do
                      check_certificates a
                      if name_eq a.dkey_cert_name default_cert && is_root
                          then raise dkey_of_root
                          else pure found.0))

  dkey_identity : ZoneArgs → Result Name
  unfolding identity_of
  dkey_identity a =
      if name_eq a.dkey_cert_name default_cert
      then ok (
          identity_of a.parent_zone_name
          ++ ndn.get_sub_name_from a.zone_name (length a.parent_zone_name))
      else get_identity_name_from_cert a.dkey_cert_name

  -- A key of the identity in place of its own certificate one that `signer`, or the key itself, signs
  new_key : ZoneArgs → Name → Option Name → Component → Exec Site (Name × Data)
  new_key a identity signer now s =
      let created = chain.create_key identity s.store in
      let key = created.0 in
      let bare =
        chain.delete_certificate key (chain.default_certificate_of key created.1) created.1 in
      let signing : Name = elim signer [ none ↦ key | some k ↦ k ] in
      let cert =
        record (create_certificate (chain.sign_by_key signing) key (chain.public_key key bare)
          cert_rr_type now) { freshness_period = a.cache_ttl * 1000 } in
      (ok (key, cert), record s { store = chain.add_certificate key cert bare })

  given_key : Name → Name → Exec Site (Name × Data)
  given_key identity cert_name = do
    pib ← get_pib
    cert ← lift (get_certificate pib identity cert_name)
    pure (chain.key_name_of_cert cert.name, cert)

  pub record ZoneCerts : Type 0 where
    pub dkey_cert : Data
    pub ksk_cert : Data
    pub dsk_cert : Data

  make_dsk : ZoneArgs → Name → Name → Component → Exec Site Data
  unfolding new_key given_key
  make_dsk a identity ksk now =
      if name_eq a.dsk_cert_name default_cert
      then (do
        dsk ← new_key a identity (some ksk) now
        on_store (chain.set_default_key identity dsk.0)
        pure dsk.1)
      else (do
        dsk ← given_key identity a.dsk_cert_name
        on_store (chain.set_default_key identity dsk.0)
        on_store (chain.set_default_certificate dsk.0 dsk.1)
        pure dsk.1)

  -- The D-key, the KSK that it signs, and the DSK that the KSK signs, each made or given
  pub make_certificates : ZoneArgs → (ℕ → Component) → Exec Site ZoneCerts
  unfolding dkey_identity new_key given_key make_dsk identity_of
  make_certificates a now = do
    dkey_name ← lift (dkey_identity a)
    let identity = identity_of a.zone_name
    on_store (chain.create_identity identity)
    on_store (chain.create_identity dkey_name)
    dkey ←
        (if name_eq a.dkey_cert_name default_cert
          then new_key a dkey_name none (now 0)
          else given_key dkey_name a.dkey_cert_name)
    ksk ←
        (if name_eq a.ksk_cert_name default_cert
          then new_key a identity (some dkey.0) (now 1)
          else given_key identity a.ksk_cert_name)
    dsk ← make_dsk a identity ksk.0 (now 2)
    pure (record { dkey_cert = dkey.1; ksk_cert = ksk.1; dsk_cert = dsk })

  -- The database's part: the zone, its certificates, its information and its DoE records
  pub store_zone :
      ⦃sqlite : Sqlite⦄ → Pib → (ℕ → Component) → ZoneArgs → ZoneCerts → Zone → Exec Db Zone
  store_zone pib doe_now a certs zone = do
    stored ← add_zone zone
    add_id_cert stored certs.ksk_cert a.cache_ttl
    add_id_cert stored certs.dsk_cert a.cache_ttl
    set_zone_info stored "ksk" (ndn.data_block certs.ksk_cert)
    set_zone_info stored "dsk" (ndn.data_block certs.dsk_cert)
    set_zone_info stored "dkey" (ndn.data_block certs.dkey_cert)
    generate_doe pib doe_now stored
    pure stored

  unfoldable pub create_zone :
      ⦃sqlite : Sqlite⦄ → (ℕ → Component) → (ℕ → Component) → ZoneArgs → Exec Site Zone
  unfolding check_preconditions make_certificates store_zone
  create_zone now doe_now a = do
    zone ← check_preconditions a
    certs ← make_certificates a now
    pib ← get_pib
    on_site_db (store_zone pib doe_now a certs zone)
