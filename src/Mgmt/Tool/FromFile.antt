-- ===== src/Mgmt/Tool/FromFile.antt =====
-- addRrsetFromFile, getZoneDkey and matchCertificate of src/mgmt/management-tool.cpp. The packet that
-- ndn-cxx loads is an argument, none where the file is missing or holds no packet.
use ndns.Prelude.{
  ℕ, Bool, true, false, Option, none, some, [], ◌∷◌, ◌++◌, List, String, if◌then◌else◌, Exec, pure,
  raise, lift, ◌>>=◌, ◌>>◌, Result, ok, err, ◌==◌, zone_not_present, bad_certificate, bad_packet,
  certificate_missing,
}
use text.Mathlib.Text.{◌==◌ as str_eq}
use ndns.Ndn.{Ndn}
use ndns.Packets.{Name, Component, Block, Data, name_eq, sign}
use ndns.Label.{ndns_iterative_query}
use ndns.Clients.Response.{make_response, from_data}
use ndns.Daemon.Zone.{Zone, make_zone}
use ndns.Daemon.Rrset.{Rrset, make_rrset}
use ndns.Daemon.Sqlite.{Sqlite, Db}
use ndns.Daemon.DbMgr.Zones.{find_zone, get_zone_info}
use ndns.Daemon.RrsetFactory.{default_cert, default_rr_ttl}
use ndns.Mgmt.CertHelper.{
  Pib, get_certificate, get_default_key_name_of_identity, get_default_certificate_name_of_identity,
}
use ndns.Mgmt.Tool.{store_rrset}

module _ ⦃ndn : Ndn⦄ where
  -- Does a key of the identity have the certificate? An unknown identity throws.
  unfoldable pub match_identity_certificate : Pib → Name → Name → Result Bool
  match_identity_certificate pib cert_name identity =
      elim (get_certificate pib identity cert_name) [
        | ok c ↦ ok true
        | err certificate_missing ↦ ok false
        | err e ↦ err e
      ]

  unfoldable pub require : Bool → Name → Exec Db Name
  require true cert_name = pure cert_name
  require false cert_name = raise bad_certificate

  -- The certificate to sign with: the default one of the identity, or the one given.
  unfoldable pub dsk_certificate : Pib → Name → Name → Exec Db Name
  unfolding match_identity_certificate require
  dsk_certificate pib input identity =
      if name_eq input default_cert
      then (do
        lift (get_default_key_name_of_identity pib identity)
        lift (get_default_certificate_name_of_identity pib identity))
      else (do
        matches ← lift (match_identity_certificate pib input identity)
        require matches input)

  unfoldable pub loaded : Option Data → Exec Db Data
  loaded none = raise bad_packet
  loaded (some d) = pure d

  -- The record of a packet: what fromData reads out of its name, matched or not.
  unfoldable pub rrset_of_packet : Zone → Name → Data → ℕ → Rrset
  rrset_of_packet zone zone_name d ttl =
      let re = (from_data zone_name d (make_response [] ndn.empty_component)).0 in
      record (make_rrset (some zone)) {
        label = re.rr_label;
        type = re.rr_type;
        ttl = if ttl == default_rr_ttl then zone.ttl else ttl;
        version = re.version;
        rr_data = ndn.data_block d;
      }

  unfoldable pub add_rrset_from_file :
      ⦃sqlite : Sqlite⦄
      → Pib
      → (ℕ → Component)
      → Name
      → Option Data
      → ℕ
      → Name
      → Bool
      → Exec Db (Unit {0})
  unfolding dsk_certificate loaded rrset_of_packet store_rrset
  add_rrset_from_file pib doe_now zone_name input ttl dsk need_resign = do
    found ← find_zone (make_zone zone_name 3600)
    if found.1
        then (do
          cert_name ← dsk_certificate pib dsk (zone_name ++ ndns_iterative_query ∷ [])
          d ← loaded input
          store_rrset pib doe_now (
              rrset_of_packet found.0 zone_name (if need_resign then sign (some cert_name) d else d)
                ttl))
        else raise zone_not_present

  -- zoneInfo["dkey"], an empty block without such a key
  unfoldable pub dkey_block : List (String × Block) → Block
  dkey_block [] = ndn.empty_block
  dkey_block (e ∷ es) = let rest = dkey_block es in if str_eq e.0 "dkey" then e.1 else rest

  unfoldable pub get_zone_dkey : (Data → Bool) → Zone → Exec Db Data
  unfolding dkey_block
  get_zone_dkey is_certificate zone = do
    info ← get_zone_info zone
    (elim (ndn.block_data (dkey_block info)) [
      | none ↦ raise bad_packet
      | some cert ↦ if is_certificate cert then pure cert else raise bad_packet
    ])
