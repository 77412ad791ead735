-- ===== src/Mgmt/Tool/Create/Keys.antt =====
-- The keys and certificates that createZone (src/mgmt/management-tool.cpp) makes or looks up leave the
-- database alone.
use ndns.Prelude.{
  ℕ, Option, none, some, Keeps, Keeps-bind, Keeps-if, pure, lift, ◌>>◌, if◌then◌else◌,
}
use ndns.Ndn.{Ndn}
use ndns.Packets.{Name, Component, Data, name_eq}
use ndns.Daemon.Sqlite.{Db}
use ndns.Daemon.RrsetFactory.{default_cert}
use ndns.Mgmt.Tool.Create.{
  KeyChain, ZoneArgs, Site, on_store, make_certificates, new_key, given_key, make_dsk,
  dkey_identity, identity_of,
}

module _ ⦃ndn : Ndn⦄ ⦃chain : KeyChain⦄ (Q : Db → Type 0) where
  -- A property of the database, as one of the site.
  abbrev pub On : Site → Type 0
  On s = Q s.db

  given_key-Keeps : (identity cert_name : Name) → Keeps On (given_key identity cert_name)
  unfolding given_key
  given_key-Keeps identity cert_name s h = Keeps-bind On (lift _) _ (λ t k. k) (λ cert t k. k) s h

  new_key-Keeps :
      (a : ZoneArgs) (identity : Name) (signer : Option Name) (now : Component)
      → Keeps On (new_key a identity signer now)
  unfolding new_key
  new_key-Keeps a identity signer now s h = h

  make_dsk-Keeps :
      (a : ZoneArgs) (identity ksk : Name) (now : Component)
      → Keeps On (make_dsk a identity ksk now)
  unfolding make_dsk
  make_dsk-Keeps a identity ksk now =
      Keeps-if On (name_eq a.dsk_cert_name default_cert) _ _
        (Keeps-bind On {B = Data} (new_key a identity (some ksk) now)
          (λ dsk. on_store (chain.set_default_key identity dsk.0) >> pure dsk.1)
          (new_key-Keeps a identity (some ksk) now) (λ dsk s h. h))
        (Keeps-bind On {B = Data} (given_key identity a.dsk_cert_name)
          (λ dsk.
            on_store (chain.set_default_key identity dsk.0)
            >> (on_store (chain.set_default_certificate dsk.0 dsk.1) >> pure dsk.1))
          (given_key-Keeps identity a.dsk_cert_name) (λ dsk s h. h))

  pub make_certificates-Keeps :
      (a : ZoneArgs) (now : ℕ → Component) → Keeps On (make_certificates a now)
  unfolding make_certificates
  make_certificates-Keeps a now =
      Keeps-bind On (lift (dkey_identity a)) _ (λ s h. h)
        (λ dkey_name s h.
          Keeps-bind On
            (if name_eq a.dkey_cert_name default_cert
              then new_key a dkey_name none (now 0)
              else given_key dkey_name a.dkey_cert_name)
            _
            (Keeps-if On (name_eq a.dkey_cert_name default_cert) _ _
              (new_key-Keeps a dkey_name none (now 0)) (given_key-Keeps dkey_name a.dkey_cert_name))
            (λ dkey.
              Keeps-bind On
                (if name_eq a.ksk_cert_name default_cert
                  then new_key a (identity_of a.zone_name) (some dkey.0) (now 1)
                  else given_key (identity_of a.zone_name) a.ksk_cert_name)
                _
                (Keeps-if On (name_eq a.ksk_cert_name default_cert) _ _
                  (new_key-Keeps a (identity_of a.zone_name) (some dkey.0) (now 1))
                  (given_key-Keeps (identity_of a.zone_name) a.ksk_cert_name))
                (λ ksk.
                  Keeps-bind On (make_dsk a (identity_of a.zone_name) ksk.0 (now 2)) _
                    (make_dsk-Keeps a (identity_of a.zone_name) ksk.0 (now 2)) (λ dsk t k. k)))
            _ h)
