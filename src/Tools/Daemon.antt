-- ===== src/Tools/Daemon.antt =====
-- tools/ndns-daemon.cpp: the zones section of the daemon's configuration, read into name servers
-- that share one database. The PIB and the typed look-ups of boost's property tree are parameters.
pub mod Ready
use ndns.Prelude.{
  ℕ, Bool, true, false, Option, none, some, List, [], ◌∷◌, ◌++◌, String, if◌then◌else◌, Exec, pure,
  raise, ◌>>=◌, Result, ok, err, zones_section_empty, zone_name_missing,
  identity_without_certificate, unknown_certificate,
}
use text.Mathlib.Text.{◌==◌ as str_eq}
use ndns.Ndn.{Ndn}
use ndns.Packets.{Name, Data}
use ndns.Label.{ndns_iterative_query}
use ndns.Daemon.NameServer.{NameServer, Host, make_name_server}
use ndns.Mgmt.CertHelper.{Pib, get_certificate, get_default_certificate_name_of_identity}

module _ ⦃ndn : Ndn⦄ where
  -- An option of the section: its key, and what get<Name>("name") and get<Name>("cert") read, none
  -- where they throw.
  pub record ZoneOption : Type 0 where
    pub key : String
    pub name : Option Name
    pub cert : Option Name

  -- The certificate's name, empty if it is not given, and otherwise what it comes to.
  cert_of : Option Name → Name
  cert_of none = []
  cert_of (some c) = c

  -- The certificate to sign with: the default one of the zone's identity, or the one given, which has
  -- to be found under the zone's own name.
  unfoldable pub server_certificate : Pib → Name → Name → Result Name
  server_certificate pib name [] =
      elim (get_default_certificate_name_of_identity pib (name ++ ndns_iterative_query ∷ [])) [
        | err e ↦ err identity_without_certificate
        | ok cert ↦ ok cert
      ]
  server_certificate pib name (c ∷ cert) = elim (get_certificate pib name (c ∷ cert)) [
    | err e ↦ err unknown_certificate
    | ok d ↦ ok (c ∷ cert)
  ]

  start_server : ℕ → Name → Result Name → Exec Host NameServer
  start_server default_ttl name (err e) = raise e
  start_server default_ttl name (ok cert) = make_name_server name default_ttl cert

  named_server : Pib → ℕ → Name → Option Name → Exec Host NameServer
  unfolding server_certificate start_server cert_of
  named_server pib default_ttl name cert =
      start_server default_ttl name (server_certificate pib name (cert_of cert))

  zone_server : Pib → ℕ → Option Name → Option Name → Exec Host NameServer
  unfolding named_server
  zone_server pib default_ttl none cert = raise zone_name_missing
  zone_server pib default_ttl (some name) cert = named_server pib default_ttl name cert

  -- The loop over the options, with the servers that it adds.
  unfoldable pub add_servers : Pib → ℕ → List ZoneOption → Exec Host (List NameServer)
  unfolding zone_server
  add_servers pib default_ttl [] = pure []
  add_servers pib default_ttl (o ∷ os) =
      let rest = add_servers pib default_ttl os in
      if str_eq o.key "zone"
      then (do
        server ← zone_server pib default_ttl o.name o.cert
        servers ← rest
        pure (server ∷ servers))
      else rest

  unfoldable pub process_zones_section : Pib → ℕ → List ZoneOption → Exec Host (List NameServer)
  unfolding add_servers
  process_zones_section pib default_ttl [] = raise zones_section_empty
  process_zones_section pib default_ttl (o ∷ os) = add_servers pib default_ttl (o ∷ os)
