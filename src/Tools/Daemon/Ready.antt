-- ===== src/Tools/Daemon/Ready.antt =====
-- The name servers that the daemon starts (tools/ndns-daemon.cpp).
use ndns.Prelude.{
  ℕ, ◌≡◌, ◌≢◌, inl, inr, sym, ap, ◌∙◌, subst, arith, Option, some, List, [], ◌∷◌, ◌++◌, All, ok,
  err, Result-cases, Bool-cases, Exec, Error, pure, ◌>>=◌, bind-ok, ◌==◌, if◌then◌else◌, true,
  Option-cases, In, All-intro, blob_eq, blob_eq_iff,
}
use text.Mathlib.Text.{◌==◌ as str_eq}
use ndns.Ndn.{Ndn}
use ndns.Packets.{Name}
use ndns.Label.{ndns_iterative_query}
use ndns.Daemon.Zone.{Zone, make_zone}
use ndns.Daemon.Sqlite.{Db, ZoneRow}
use ndns.Daemon.Sqlite.Select.{first-In}
use ndns.Daemon.DbMgr.Names.{save_name}
use ndns.Mgmt.Doe.Stages.{found}
use ndns.Daemon.DbMgr.Zones.{find_zone, zone_row}
use ndns.Daemon.NameServer.{NameServer, Host, make_name_server}
use ndns.Mgmt.CertHelper.{Pib, get_certificate, get_default_certificate_name_of_identity}
use ndns.Mgmt.CertHelper.Held.{
  Holds, HasDefault, get_certificate-Holds, default_certificate-HasDefault,
}
use ndns.Tools.Daemon.{
  ZoneOption, cert_of, server_certificate, start_server, named_server, zone_server, add_servers,
  process_zones_section,
}

module _ ⦃ndn : Ndn⦄ (pib : Pib) (default_ttl : ℕ) where
  -- The zone is in the database, under its name and with the server's id.
  abbrev pub InDatabase : Db → Name → ℕ → Type 0
  InDatabase db name id =
      (row : ZoneRow) × In row db.zones × (row.name ≡ save_name name) × (row.id ≡ id) × (row.id ≢ 0)

  -- The certificate given is one that the zone's own identity has, and otherwise the default one of the
  -- identity zone/NDNS is taken.
  abbrev pub Signs : Name → Name → Name → Type 0
  Signs name [] cert = HasDefault pib (name ++ ndns_iterative_query ∷ []) cert
  Signs name (c ∷ given) cert = Holds pib name (c ∷ given) × (cert ≡ c ∷ given)

  -- The server is that of a zone option of the section.
  pub IsReady : Db → List ZoneOption → NameServer → Type 0
  IsReady db os server =
      (o : ZoneOption) × (name : Name) × In o os
      × (str_eq o.key "zone" ≡ true)
      × (o.name ≡ some name)
      × (server.zone.name ≡ name)
      × (server.ndns_prefix ≡ name ++ ndns_iterative_query ∷ [])
      × InDatabase db name server.zone.id
      × Signs name (cert_of o.cert) server.cert_name

  make_name_server-found :
      (name cert : Name) (h h' : Host) (server : NameServer)
      → make_name_server name default_ttl cert h ≡ (ok server, h')
      → (row : ZoneRow) × (zone_row name h.db ≡ some row)
        × (row.id ≢ 0)
        × (server.zone ≡ found row (make_zone name default_ttl))
        × (server.cert_name ≡ cert)
        × (server.ndns_prefix ≡ name ++ ndns_iterative_query ∷ [])
        × (h' ≡ h)
  unfolding make_name_server find_zone
  make_name_server-found name cert h h' server e = elim (Bool-cases h.db.prepares) [
    | inr p ↦ absurd (ground arith)
    | inl p ↦ elim (Option-cases (zone_row name h.db)) [
      | inl n ↦ absurd (ground arith)
      | inr (row, n) ↦ elim (Bool-cases (row.id == 0)) [
        | inl z ↦ absurd (ground arith)
        | inr z ↦ (row, n, ground arith, ground arith, ground arith, ground arith, ground arith)
      ]
    ]
  ]

  server_certificate-Signs :
      (name cert c : Name) → server_certificate pib name cert ≡ ok c → Signs name cert c
  unfolding server_certificate
  server_certificate-Signs name [] c e =
      elim (Result-cases
        (get_default_certificate_name_of_identity pib (name ++ ndns_iterative_query ∷ []))) [
          | inr (x, k) ↦ absurd (ground arith)
          | inl (d, k) ↦
              default_certificate-HasDefault pib (name ++ ndns_iterative_query ∷ []) c
                (ground (arith, k, e))
        ]
  server_certificate-Signs name (x ∷ cert) c e =
      elim (Result-cases (get_certificate pib name (x ∷ cert))) [
        | inr (y, k) ↦ absurd (ground arith)
        | inl (d, k) ↦ (get_certificate-Holds pib name (x ∷ cert) d k, ground arith)
      ]

  named_server-Ready :
      (name : Name) (cert : Option Name) (h h' : Host) (server : NameServer)
      → named_server pib default_ttl name cert h ≡ (ok server, h')
      → (server.zone.name ≡ name)
        × (server.ndns_prefix ≡ name ++ ndns_iterative_query ∷ [])
        × InDatabase h.db name server.zone.id
        × Signs name (cert_of cert) server.cert_name
        × (h' ≡ h)
  unfolding named_server start_server
  named_server-Ready name cert h h' server e =
      elim (Result-cases (server_certificate pib name (cert_of cert))) [
        | inl (c, k) ↦
            let (row, there, stored, zone, signs, prefix, same) =
              make_name_server-found name c h h' server
                (sym (ap (λ r. start_server default_ttl name r h) k) ∙ e) in
            let (i, q) =
              first-In (λ (r : ZoneRow). blob_eq r.name (save_name name)) h.db.zones row there in
            (
              ap (λ (z : Zone). z.name) zone,
              prefix,
              (
                row,
                i,
                (blob_eq_iff row.name (save_name name)).0 q,
                sym (ap (λ (z : Zone). z.id) zone),
                stored,
              ),
              server_certificate-Signs name (cert_of cert) server.cert_name (k ∙ ap ok (sym signs)),
              same,
            )
        | inr (x, k) ↦
            let wrong = sym (ap (λ r. start_server default_ttl name r h) k) ∙ e in
            absurd (err-ok x server (ap (λ r. r.0) wrong))
      ]
    where
      err-ok : (x : Error) (s : NameServer) → err x ≡ ok s → ⊥
      err-ok x s w = absurd (ground arith)

  zone_server-IsReady :
      (o : ZoneOption) (os : List ZoneOption) (h h' : Host) (server : NameServer)
      → In o os
      → str_eq o.key "zone" ≡ true
      → zone_server pib default_ttl o.name o.cert h ≡ (ok server, h')
      → IsReady h.db os server × (h' ≡ h)
  unfolding zone_server IsReady
  zone_server-IsReady o os h h' server i y e = elim (Option-cases o.name) [
    | inl n ↦ absurd (ground arith)
    | inr (name, n) ↦
        let (zone, prefix, stored, signs, same) =
          named_server-Ready name o.cert h h' server (ground (arith, n, e)) in
        ((o, name, i, y, n, zone, prefix, stored, signs), same)
  ]

  add_servers-IsReady :
      (all os : List ZoneOption) (h h' : Host) (servers : List NameServer)
      → All (λ (o : ZoneOption). In o all) os
      → add_servers pib default_ttl os h ≡ (ok servers, h')
      → All (IsReady h.db all) servers
  unfolding add_servers
  add_servers-IsReady all [] h h' servers i e =
      subst (All (IsReady h.db all)) (nil-only servers (ap (λ r. r.0) e)) tt
    where
      nil-only : (ss : List NameServer) → ok [] ≡ ok ss → [] ≡ ss
      nil-only ss q = ground arith
  add_servers-IsReady all (o ∷ os) h h' servers i e = elim (Bool-cases (str_eq o.key "zone")) [
    | inr n ↦
        add_servers-IsReady all os h h' servers i.1
          (sym (ap (λ b. (if b then both else add_servers pib default_ttl os) h) n) ∙ e)
    | inl y ↦
        let (server, t, e1, e2) =
          bind-ok (zone_server pib default_ttl o.name o.cert)
            (λ server. add_servers pib default_ttl os >>= λ servers. pure (server ∷ servers)) h h'
            servers
            (sym (ap (λ b. (if b then both else add_servers pib default_ttl os) h) y) ∙ e) in
        let (rest, u, e3, e4) =
          bind-ok (add_servers pib default_ttl os) (λ servers. pure (server ∷ servers)) t h' servers
            e2 in
        let (ready, same_host) = zone_server-IsReady o all h t server i.0 y e1 in
        subst (All (IsReady h.db all)) (same server rest servers (ap (λ r. r.0) e4)) (
          ready,
          subst (λ (x : Host). All (IsReady x.db all) rest) same_host
              (add_servers-IsReady all os t u rest i.1 e3),
        )
  ]
    where
      both : Exec Host (List NameServer)
      both = zone_server pib default_ttl o.name o.cert >>= λ server.
          add_servers pib default_ttl os >>= λ servers. pure (server ∷ servers)

      same : (x : NameServer) (xs ss : List NameServer) → ok (x ∷ xs) ≡ ok ss → x ∷ xs ≡ ss
      same x xs ss q = ground arith

  -- Each server that the zones section leads to is that of a zone option of the section: its zone is a
  -- row of the database under the option's name, and it signs with the certificate given, which the
  -- key chain has under the zone's name, or, if none is given, with the default certificate of the
  -- identity zone/NDNS.
  pub process_zones_section-IsReady :
      (os : List ZoneOption) (h h' : Host) (servers : List NameServer)
      → process_zones_section pib default_ttl os h ≡ (ok servers, h')
      → All (IsReady h.db os) servers
  unfolding process_zones_section
  process_zones_section-IsReady [] h h' servers e = absurd (ground arith)
  process_zones_section-IsReady (o ∷ os) h h' servers e =
      add_servers-IsReady (o ∷ os) (o ∷ os) h h' servers
        (All-intro (λ (p : ZoneOption). In p (o ∷ os)) (o ∷ os) (λ p i. i)) e
