-- ===== src/Mgmt/Tool/Sound.antt =====
-- The management tool (src/mgmt/management-tool.cpp) on a sound database.
pub mod Sessions
use ndns.Prelude.{
  ℕ, suc, Bool, true, false, not, ◌&&◌, Option, none, some, List, [], ◌∷◌, ◌++◌, Exec, Keeps,
  Keeps-bind, Keeps-if, pure, raise, lift, ◌>>=◌, Result, ok, err, if◌then◌else◌, ◌==◌, length,
  bad_packet,
}
use ndns.Ndn.{Ndn}
use ndns.Packets.{Name, Component, Block, Data, component_eq, component_lt, name_eq}
use ndns.Label.{ns_rr_type, ndns_iterative_query}
use ndns.Clients.ContentType.{ndns_auth, ndns_link}
use ndns.Daemon.Zone.{Zone, make_zone}
use ndns.Daemon.Rrset.{Rrset, make_rrset}
use ndns.Daemon.Sqlite.{Sqlite, Db}
use ndns.Daemon.DbMgr.Zones.{find_zone, insert_zone, remove_zone}
use ndns.Daemon.DbMgr.Rrsets.{find_rrset, find_rrsets, insert_rrset, remove_rrset}
use ndns.Daemon.DbMgr.Sound.{Sound}
use ndns.Daemon.DbMgr.Sound.Operations.{
  find_zone-Sound, insert_zone-Sound, remove_zone-Sound, insert_rrset-Sound, remove_rrset-Sound,
  find_rrset-Sound,
}
use ndns.Daemon.RrsetFactory.{RrsetFactory, default_cert}
use ndns.Mgmt.CertHelper.{Pib}
use ndns.Mgmt.Doe.Sound.{generate_doe-Sound, find_rrsets-Sound}
use ndns.Mgmt.Tool.{
  stored_data, check_rrset_version, generate_doe_of, store_rrset, refuse_type, add_rrset, prefixes,
  ns_of, check_prefixes, add_auths, add_multi_level_label_rrset, remove_rr_set, add_id_cert,
  add_zone, remove_known_zone, remove_each, delete_zone,
}
use ndns.Mgmt.Tool.FromFile.{add_rrset_from_file, dsk_certificate, loaded, require, rrset_of_packet}

module _ ⦃ndn : Ndn⦄ where
  stored_data-Sound : (b : Block) → Keeps Sound (stored_data b)
  stored_data-Sound b = decoded (ndn.block_data b)
    where
      decoded :
          (d : Option Data)
          → Keeps Sound {A = Data} (elim d [ none ↦ raise bad_packet | some x ↦ pure x ])
      decoded none = λ db h. h
      decoded (some d) = λ db h. h

  check_rrset_version-Sound : (rrset : Rrset) → Keeps Sound (check_rrset_version rrset)
  unfolding check_rrset_version
  check_rrset_version-Sound rrset =
      Keeps-bind Sound (find_rrset rrset) _ (find_rrset-Sound rrset) (λ original.
        Keeps-if Sound original.1 _ _
          (Keeps-if Sound (component_eq original.0.version rrset.version) _ _ (λ db h. h)
            (Keeps-if Sound (component_lt rrset.version original.0.version) _ _ (λ db h. h)
              (Keeps-bind Sound (remove_rrset original.0) _ (remove_rrset-Sound original.0)
                (λ removed db h. h))))
          (λ db h. h))

  refuse_type-Sound : (t : ℕ) (found : Rrset × Bool) → Keeps Sound (refuse_type t found)
  unfolding refuse_type
  refuse_type-Sound t found =
      Keeps-if Sound found.1 _ _
        (Keeps-bind Sound (stored_data found.0.rr_data) _ (stored_data-Sound found.0.rr_data)
          (λ d. Keeps-if Sound (d.content_type == t) _ _ (λ db h. h) (λ db h. h)))
        (λ db h. h)

  check_prefixes-Sound :
      (ps : List Name) (zone : Option Zone) → Keeps Sound (check_prefixes ps zone)
  unfolding check_prefixes
  check_prefixes-Sound [] at = λ db h. h
  check_prefixes-Sound (p ∷ ps) at =
      Keeps-bind Sound (find_rrset (ns_of at p)) _ (find_rrset-Sound (ns_of at p)) (λ found.
        Keeps-bind Sound (refuse_type ndns_link found) _ (refuse_type-Sound ndns_link found)
          (λ u. check_prefixes-Sound ps found.0.zone))

  required : (input : Name) (b : Bool) → Keeps Sound (require b input)
  unfolding require
  required input true = λ db h. h
  required input false = λ db h. h

  loaded-Sound : (d : Option Data) → Keeps Sound (loaded d)
  unfolding loaded
  loaded-Sound none = λ db h. h
  loaded-Sound (some d) = λ db h. h

  remove_each-Sound : (rs : List Rrset) → Keeps Sound (remove_each rs)
  unfolding remove_each
  remove_each-Sound [] = λ db h. h
  remove_each-Sound (r ∷ rs) =
      Keeps-bind Sound (remove_rrset r) _ (remove_rrset-Sound r) (λ u. remove_each-Sound rs)

  remove_known_zone-Sound : (zone : Zone) → Keeps Sound (remove_known_zone zone)
  unfolding remove_known_zone
  remove_known_zone-Sound zone =
      Keeps-bind Sound (find_zone zone) _ (find_zone-Sound zone)
        (λ found. Keeps-if Sound found.1 _ _ (remove_zone-Sound found.0) (λ db h. h))

  pub delete_zone-Sound : (zone_name : Name) → Keeps Sound (delete_zone zone_name)
  unfolding delete_zone
  delete_zone-Sound zone_name =
      Keeps-bind Sound (find_zone (make_zone zone_name 3600)) _
        (find_zone-Sound (make_zone zone_name 3600))
        (λ found.
          Keeps-if Sound found.1 _ _
            (Keeps-bind Sound (find_rrsets found.0) _ (find_rrsets-Sound found.0) (λ read.
              Keeps-bind Sound (remove_each read.1) _ (remove_each-Sound read.1)
                (λ u. remove_known_zone-Sound read.0)))
            (λ db h. h))

module _ ⦃ndn : Ndn⦄ ⦃sqlite : Sqlite⦄ (pib : Pib) (doe_now : ℕ → Component) where
  generate_doe_of-Sound : (zone : Option Zone) → Keeps Sound (generate_doe_of pib doe_now zone)
  unfolding generate_doe_of
  generate_doe_of-Sound none = λ db h. h
  generate_doe_of-Sound (some zone) = generate_doe-Sound pib doe_now zone

  store_rrset-Sound : (rrset : Rrset) → Keeps Sound (store_rrset pib doe_now rrset)
  unfolding store_rrset
  store_rrset-Sound rrset =
      Keeps-bind Sound (check_rrset_version rrset) _ (check_rrset_version-Sound rrset) (λ zone.
        Keeps-bind Sound (insert_rrset _) _ (insert_rrset-Sound _)
          (λ added. generate_doe_of-Sound added.zone))

  pub add_rrset-Sound : (rrset : Rrset) → Keeps Sound (add_rrset pib doe_now rrset)
  unfolding add_rrset
  add_rrset-Sound rrset =
      Keeps-bind Sound (find_rrset (record rrset { type = ns_rr_type })) _
        (find_rrset-Sound (record rrset { type = ns_rr_type }))
        (λ found.
          Keeps-bind Sound (refuse_type ndns_auth found) _ (refuse_type-Sound ndns_auth found)
            (λ u. store_rrset-Sound (record rrset { zone = found.0.zone })))

  add_auths-Sound :
      (factory : RrsetFactory) (auth_now : ℕ → Component) (i ttl : ℕ) (ps : List Name)
      (zone : Option Zone)
      → Keeps Sound (add_auths factory auth_now i ttl ps zone)
  unfolding add_auths
  add_auths-Sound factory auth_now i ttl [] at = λ db h. h
  add_auths-Sound factory auth_now i ttl (p ∷ ps) at =
      Keeps-bind Sound (find_rrset (ns_of at p)) _ (find_rrset-Sound (ns_of at p)) (λ found.
        Keeps-if Sound found.1 _ _ (add_auths-Sound factory auth_now (suc i) ttl ps found.0.zone) (
          Keeps-bind Sound (lift _) _ (λ db h. h)
            (λ auth.
              Keeps-bind Sound (insert_rrset auth) _ (insert_rrset-Sound auth)
                (λ u. add_auths-Sound factory auth_now (suc i) ttl ps found.0.zone))))

  pub add_multi_level_label_rrset-Sound :
      (auth_now : ℕ → Component) (factory : RrsetFactory) (auth_ttl : ℕ) (rrset : Rrset)
      → Keeps Sound (add_multi_level_label_rrset pib auth_now doe_now factory auth_ttl rrset)
  unfolding add_multi_level_label_rrset
  add_multi_level_label_rrset-Sound auth_now factory auth_ttl rrset =
      Keeps-if Sound (length rrset.label == 0) _ _ (λ db h. h)
        (Keeps-bind Sound (check_prefixes _ rrset.zone) _ (check_prefixes-Sound _ rrset.zone)
          (λ zone.
            Keeps-bind Sound (if component_eq rrset.type ns_rr_type then _ else _) _
              (Keeps-if Sound (component_eq rrset.type ns_rr_type) _ _
                (Keeps-bind Sound (find_rrset (record rrset { zone = zone })) _
                  (find_rrset-Sound (record rrset { zone = zone }))
                  (λ found.
                    Keeps-bind Sound (refuse_type ndns_auth found) _
                      (refuse_type-Sound ndns_auth found) (λ u db h. h)))
                (λ db h. h))
              (λ zone'.
                Keeps-bind Sound (add_auths factory auth_now 0 auth_ttl _ zone') _
                  (add_auths-Sound factory auth_now 0 auth_ttl _ zone')
                  (λ zone''. store_rrset-Sound (record rrset { zone = zone'' })))))

  pub remove_rr_set-Sound :
      (zone_name label : Name) (type : Component)
      → Keeps Sound (remove_rr_set pib doe_now zone_name label type)
  unfolding remove_rr_set
  remove_rr_set-Sound zone_name label type =
      Keeps-bind Sound (find_rrset _) _ (find_rrset-Sound _) (λ found.
        Keeps-if Sound found.1 _ _
          (Keeps-bind Sound (remove_rrset found.0) _ (remove_rrset-Sound found.0)
            (λ removed. generate_doe_of-Sound removed.zone))
          (λ db h. h))

  dsk_certificate-Sound : (input identity : Name) → Keeps Sound (dsk_certificate pib input identity)
  unfolding dsk_certificate
  dsk_certificate-Sound input identity =
      Keeps-if Sound (name_eq input default_cert) _ _
        (Keeps-bind Sound (lift _) _ (λ db h. h) (λ key db h. h))
        (Keeps-bind Sound (lift _) _ (λ db h. h) (required input))

  pub add_rrset_from_file-Sound :
      (zone_name : Name) (input : Option Data) (ttl : ℕ) (dsk : Name) (need_resign : Bool)
      → Keeps Sound (add_rrset_from_file pib doe_now zone_name input ttl dsk need_resign)
  unfolding add_rrset_from_file
  add_rrset_from_file-Sound zone_name input ttl dsk need_resign =
      Keeps-bind Sound (find_zone (make_zone zone_name 3600)) _
        (find_zone-Sound (make_zone zone_name 3600))
        (λ found.
          Keeps-if Sound found.1 _ _
            (Keeps-bind Sound (dsk_certificate pib dsk (zone_name ++ ndns_iterative_query ∷ [])) _
              (dsk_certificate-Sound dsk (zone_name ++ ndns_iterative_query ∷ []))
              (λ cert_name.
                Keeps-bind Sound (loaded input) _ (loaded-Sound input) (λ d. store_rrset-Sound _)))
            (λ db h. h))
