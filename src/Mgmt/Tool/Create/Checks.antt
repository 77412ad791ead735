-- ===== src/Mgmt/Tool/Create/Checks.antt =====
-- The checks that createZone (src/mgmt/management-tool.cpp) makes before it creates any key.
use ndns.Prelude.{
  ℕ, ◌<◌, ◌≡◌, ◌≢◌, ◌↔◌, inl, inr, refl, sym, ap, ◌∙◌, subst, Bool, true, false, not, ◌&&◌, none,
  some, [], ◌∷◌, ◌++◌, arith, Exec, Keeps, Keeps-bind, Keeps-if, Result, Result-cases, ok, err,
  Error, Bool-cases, Option-cases, pure, raise, ◌>>◌, bind-ok, if◌then◌else◌, dkey_of_root,
  already_present,
}
use ndns.Ndn.{Ndn}
use ndns.Packets.{Name, Component, name_eq, name_eq_iff}
use ndns.Daemon.Zone.{Zone, make_zone}
use ndns.Daemon.Sqlite.{Sqlite, ZoneRow}
use ndns.Daemon.Sqlite.Select.{first-All}
use ndns.Daemon.DbMgr.Zones.{find_zone, zone_row}
use ndns.Daemon.DbMgr.Reads.{find_zone-none, db-find_zone}
use ndns.Daemon.DbMgr.Sound.{Sound}
use ndns.Daemon.RrsetFactory.{default_cert}
use ndns.Mgmt.Doe.Stages.{find_zone-found}
use ndns.Mgmt.Tool.FromFile.{match_identity_certificate}
use ndns.Mgmt.Tool.Create.{
  KeyChain, ZoneArgs, Site, on_site_db, check_preconditions, check_certificates, require,
  create_zone, is_prefix_of, root_zone, identity_of,
}

module _ ⦃ndn : Ndn⦄ where
  pub is_prefix_of_iff :
      (p n : Name) → (is_prefix_of p n ≡ true) ↔ ((rest : Name) × (n ≡ p ++ rest))
  unfolding is_prefix_of
  is_prefix_of_iff [] n = ((λ h. (n, refl)), (λ h. refl))
  is_prefix_of_iff (c ∷ p) [] = ((λ h. absurd (ground arith)), (λ h. absurd (ground (arith, h.1))))
  is_prefix_of_iff (c ∷ p) (d ∷ n) = (
    (λ h.
        let (rest, e) = (is_prefix_of_iff p n).0 (ground arith) in
        (rest, ground (arith, e, ndn.component_eq_iff c d))),
    (λ h.
        let k = (is_prefix_of_iff p n).1 (h.0, ground (arith, h.1)) in
        ground (arith, k, h.1, ndn.component_eq_iff c d)),
  )

module _ ⦃ndn : Ndn⦄ ⦃chain : KeyChain⦄ where
  -- The certificate named, if it is not the default one, is one that a key of the zone's identity has.
  abbrev pub IsHeld : ZoneArgs → Site → Name → Type 0
  IsHeld a s cert_name =
      match_identity_certificate (chain.pib s.store) cert_name (identity_of a.zone_name) ≡ ok true

  pub record Preconditions (a : ZoneArgs) (s : Site) : Type 0 where
    pub unknown : zone_row a.zone_name s.db ≡ none
    pub below :
        a.zone_name ≢ []
        → (a.parent_zone_name ≢ a.zone_name)
          × (rest : Name) × (a.zone_name ≡ a.parent_zone_name ++ rest)
    pub dsk_held : a.dsk_cert_name ≢ default_cert → IsHeld a s a.dsk_cert_name
    pub ksk_held :
        a.dsk_cert_name ≡ default_cert → a.ksk_cert_name ≢ default_cert → IsHeld a s a.ksk_cert_name
    pub dkey_given : a.zone_name ≡ [] → a.dkey_cert_name ≢ default_cert

  abbrev Untouched : Site → Site → Type 0
  Untouched s t = t ≡ s

  required_same : (s : Site) (r : Result Bool) → Keeps (Untouched s) (require r)
  unfolding require
  required_same s (err e) t h = h
  required_same s (ok true) t h = h
  required_same s (ok false) t h = h

  check_certificates_same : (a : ZoneArgs) (s : Site) → Keeps (Untouched s) (check_certificates a)
  unfolding check_certificates
  check_certificates_same a s t h =
      Keeps-if (Untouched s) (not (name_eq a.dsk_cert_name default_cert)) _ _ (required_same s _)
        (Keeps-if (Untouched s) (not (name_eq a.ksk_cert_name default_cert)) _ _ (required_same s _)
          (λ u k. k))
        t h

  -- The checks change neither the key chain nor the database.
  pub check_preconditions_same : (a : ZoneArgs) (s : Site) → (check_preconditions a s).1 ≡ s
  unfolding check_preconditions
  check_preconditions_same a s =
      let zone = make_zone a.zone_name a.cache_ttl in
      let is_root = name_eq a.zone_name root_zone in
      Keeps-bind (Untouched s) (on_site_db (find_zone zone)) _
        (λ t h. ap (λ d. record t { db = d }) (db-find_zone zone t.db) ∙ h)
        (λ found.
          Keeps-if (Untouched s) found.1 _ _ (λ t h. h)
            (Keeps-if (Untouched s) (not is_root && name_eq a.parent_zone_name a.zone_name) _ _
              (λ t h. h)
              (Keeps-if (Untouched s)
                (not is_root && not (is_prefix_of a.parent_zone_name a.zone_name)) _ _ (λ t h. h)
                (Keeps-bind (Untouched s) (check_certificates a) _ (check_certificates_same a s)
                  (λ u.
                    Keeps-if (Untouched s) (name_eq a.dkey_cert_name default_cert && is_root) _ _
                      (λ t h. h) (λ t h. h))))))
        s refl

  module _ (a : ZoneArgs) (s : Site) where
    abbrev CertificatesHeld : Type 0
    CertificatesHeld =
        (a.dsk_cert_name ≢ default_cert → IsHeld a s a.dsk_cert_name)
        × (a.dsk_cert_name ≡ default_cert
            → a.ksk_cert_name ≢ default_cert
            → IsHeld a s a.ksk_cert_name)

    require_iff : (r : Result Bool) → (require r s ≡ (ok tt, s)) ↔ (r ≡ ok true)
    unfolding require
    require_iff (err e) = ground arith
    require_iff (ok true) = ground arith
    require_iff (ok false) = ground arith

    check_certificates_iff : (check_certificates a s ≡ (ok tt, s)) ↔ CertificatesHeld
    unfolding check_certificates
    check_certificates_iff = elim (Bool-cases (name_eq a.dsk_cert_name default_cert)) [
      | inr n ↦ ground (
        arith,
        name_eq_iff a.dsk_cert_name default_cert,
        require_iff (
            match_identity_certificate (chain.pib s.store) a.dsk_cert_name
              (identity_of a.zone_name)),
      )
      | inl y ↦ elim (Bool-cases (name_eq a.ksk_cert_name default_cert)) [
        | inr m ↦ ground (
          arith,
          name_eq_iff a.dsk_cert_name default_cert,
          name_eq_iff a.ksk_cert_name default_cert,
          require_iff (
              match_identity_certificate (chain.pib s.store) a.ksk_cert_name
                (identity_of a.zone_name)),
        )
        | inl m ↦ ground (
          arith,
          name_eq_iff a.dsk_cert_name default_cert,
          name_eq_iff a.ksk_cert_name default_cert,
        )
      ]
    ]

    abbrev is_root : Bool
    is_root = name_eq a.zone_name root_zone

    abbrev AreBelow : Type 0
    AreBelow =
        a.zone_name ≢ []
        → (a.parent_zone_name ≢ a.zone_name)
          × (rest : Name) × (a.zone_name ≡ a.parent_zone_name ++ rest)

    below_iff :
        ((not is_root && name_eq a.parent_zone_name a.zone_name ≡ false)
          × (not is_root && not (is_prefix_of a.parent_zone_name a.zone_name) ≡ false))
        ↔ AreBelow
    below_iff = elim (Bool-cases is_root) [
      | inl y ↦
          ((λ h n. absurd (n ((name_eq_iff a.zone_name root_zone).0 y))), (λ h. rw y (refl, refl)))
      | inr n ↦ (
        (λ h k.
            let (rest, e) =
              (is_prefix_of_iff a.parent_zone_name a.zone_name).0 (ground (arith, h.1, n)) in
            (
              (λ e.
                  absurd
                    (ground (arith, h.0, n, (name_eq_iff a.parent_zone_name a.zone_name).1 e))),
              rest,
              e,
            )),
        (λ h.
            let (apart, rest, below) =
              h (λ e. absurd (ground (arith, n, (name_eq_iff a.zone_name root_zone).1 e))) in
            (
              ground (arith, n, name_eq_iff a.parent_zone_name a.zone_name, apart),
              ground (arith, n, (is_prefix_of_iff a.parent_zone_name a.zone_name).1 (rest, below)),
            )),
      )
    ]

    module _ (sound : Sound s.db) (ready : s.db.prepares ≡ true) where
      known_refused :
          (row : ZoneRow)
          → zone_row a.zone_name s.db ≡ some row
          → check_preconditions a s ≡ (err already_present, s)
      unfolding check_preconditions Sound
      known_refused row e =
          rw
            (find_zone-found (make_zone a.zone_name a.cache_ttl) row s.db e
              (λ z.
                omega
                  (arith, z, first-All (λ (r : ZoneRow). 0 < r.id) _ s.db.zones row sound.0.0 e))
              ready)
            refl

      abbrev after_certificates : Exec Site Zone
      after_certificates =
          if name_eq a.dkey_cert_name default_cert && is_root
          then raise dkey_of_root
          else pure (make_zone a.zone_name a.cache_ttl)

      unknown_checked :
          zone_row a.zone_name s.db ≡ none
          → not is_root && name_eq a.parent_zone_name a.zone_name ≡ false
          → not is_root && not (is_prefix_of a.parent_zone_name a.zone_name) ≡ false
          → check_preconditions a s ≡ (check_certificates a >> after_certificates) s
      unfolding check_preconditions
      unknown_checked e f g =
          rw (find_zone-none (make_zone a.zone_name a.cache_ttl) s.db e ready, f, g) refl

      unknown_refused :
          (z : Zone)
          → zone_row a.zone_name s.db ≡ none
          → check_preconditions a s ≡ (ok z, s)
          → (not is_root && name_eq a.parent_zone_name a.zone_name ≡ false)
            × (not is_root && not (is_prefix_of a.parent_zone_name a.zone_name) ≡ false)
      unfolding check_preconditions
      unknown_refused z e h =
          let k = rw (find_zone-none (make_zone a.zone_name a.cache_ttl) s.db e ready) at h in
          elim (Bool-cases (not is_root && name_eq a.parent_zone_name a.zone_name)) [
            | inl y ↦ absurd (ground arith)
            | inr n ↦
                elim (Bool-cases
                  (not is_root && not (is_prefix_of a.parent_zone_name a.zone_name))) [
                    | inl y ↦ absurd (ground arith)
                    | inr m ↦ (n, m)
                  ]
          ]

      after_certificates_iff :
          (after_certificates s ≡ (ok (make_zone a.zone_name a.cache_ttl), s))
          ↔ (a.zone_name ≡ [] → a.dkey_cert_name ≢ default_cert)
      after_certificates_iff = elim (Bool-cases (name_eq a.dkey_cert_name default_cert)) [
        | inr n ↦ ground (arith, name_eq_iff a.dkey_cert_name default_cert)
        | inl y ↦ elim (Bool-cases is_root) [
          | inr n ↦ ground (arith, name_eq_iff a.zone_name root_zone)
          | inl m ↦
              ground (
                arith,
                name_eq_iff a.zone_name root_zone,
                name_eq_iff a.dkey_cert_name default_cert,
              )
        ]
      ]

      -- What goes through the checks of the certificates has kept the site.
      certificates_ok :
          (t : Site) (z : Zone)
          → (check_certificates a >> after_certificates) s ≡ (ok z, t)
          → (check_certificates a s ≡ (ok tt, s)) × (after_certificates s ≡ (ok z, t))
      certificates_ok t z h =
          let (u, s1, e, k) = bind-ok (check_certificates a) (λ _. after_certificates) s t z h in
          let same : s1 ≡ s = sym (ap (λ r. r.1) e) ∙ check_certificates_same a s s refl in
          (ground (arith, e, same), subst (λ x. after_certificates x ≡ (ok z, t)) same k)

      -- In a sound and readable database the checks of `createZone` pass exactly if the zone's name is not
      -- in the database, the parent's name is a proper prefix of it unless it is the root, the DSK
      -- certificate given, or else the KSK certificate given, is held by the zone's identity, and the root
      -- has its D-key certificate given; they leave the site as it is.
      pub check_preconditions_iff :
          (check_preconditions a s ≡ (ok (make_zone a.zone_name a.cache_ttl), s))
          ↔ Preconditions a s
      check_preconditions_iff = (there, back)
        where
          there :
              check_preconditions a s ≡ (ok (make_zone a.zone_name a.cache_ttl), s)
              → Preconditions a s
          there h = elim (Option-cases (zone_row a.zone_name s.db)) [
            | inr (row, e) ↦ absurd (ground (arith, known_refused row e))
            | inl e ↦
                let (f, g) = unknown_refused (make_zone a.zone_name a.cache_ttl) e h in
                let (c, k) =
                  certificates_ok s (make_zone a.zone_name a.cache_ttl)
                    (sym (unknown_checked e f g) ∙ h) in
                let held = check_certificates_iff.0 c in
                record {
                  unknown = e;
                  below = below_iff.0 (f, g);
                  dsk_held = held.0;
                  ksk_held = held.1;
                  dkey_given = after_certificates_iff.0 k;
                }
          ]

          back :
              Preconditions a s
              → check_preconditions a s ≡ (ok (make_zone a.zone_name a.cache_ttl), s)
          back p =
              let (f, g) = below_iff.1 p.below in
              unknown_checked p.unknown f g
              ∙ rw (check_certificates_iff.1 (p.dsk_held, p.ksk_held))
                  (after_certificates_iff.1 p.dkey_given)

      pub checked_zone :
          (z : Zone) (t : Site)
          → check_preconditions a s ≡ (ok z, t)
          → (z ≡ make_zone a.zone_name a.cache_ttl) × (t ≡ s)
      checked_zone z t h =
          let same : t ≡ s = sym (ap (λ r. r.1) h) ∙ check_preconditions_same a s in
          let h' : check_preconditions a s ≡ (ok z, s) = ground (arith, h, same) in
          elim (Option-cases (zone_row a.zone_name s.db)) [
            | inr (row, e) ↦ absurd (ground (arith, known_refused row e))
            | inl e ↦
                let (f, g) = unknown_refused z e h' in
                let (c, k) = certificates_ok s z (sym (unknown_checked e f g) ∙ h') in
                (
                  elim (Bool-cases (name_eq a.dkey_cert_name default_cert && is_root)) [
                    | inl y ↦ absurd (ground (arith, k))
                    | inr n ↦ ground (arith, k)
                  ],
                  same,
                )
          ]

      -- In a sound and readable database, a `createZone` whose preconditions do not hold throws, and leaves
      -- the key chain and the database as they were.
      pub create_zone-refused :
          ⦃sqlite : Sqlite⦄ (now doe_now : ℕ → Component)
          → ¬ (Preconditions a s)
          → (e : Error) × (create_zone now doe_now a s ≡ (err e, s))
      unfolding create_zone
      create_zone-refused now doe_now h = elim (Result-cases (check_preconditions a s).0) [
        | inr (e, r) ↦ (e, ground (arith, r, check_preconditions_same a s))
        | inl (z, r) ↦
            let passed : check_preconditions a s ≡ (ok z, s) =
              ground (arith, r, check_preconditions_same a s) in
            absurd (
              h (
                check_preconditions_iff.0
                  (passed ∙ ap (λ x. (ok x, s)) (checked_zone z s passed).0)))
      ]
