-- ===== src/Tools/CreateZone/Printed.antt =====
-- What ndns-create-zone (tools/ndns-create-zone.cpp) prints, and for which parent it creates the zone.
use ndns.Prelude.{
  ℕ, suc, ◌-◌, ◌≡◌, ◌≢◌, inl, inr, refl, sym, ap, ◌∙◌, subst, Bool, true, false, none, [], ◌∷◌,
  ◌++◌, arith, ok, Bool-cases, bind-ok, length, take, drop, take-append-drop, length-take, ◌==◌,
}
use ndns.Ndn.{Ndn}
use ndns.Packets.{Name, Component, Data}
use ndns.Label.{cert_rr_type, doe_rr_type}
use ndns.Daemon.Zone.{Zone}
use ndns.Daemon.Sqlite.{Sqlite}
use ndns.Daemon.DbMgr.Sound.{Sound}
use ndns.Mgmt.Tool.Create.{KeyChain, ZoneCerts, Site, make_certificates, create_zone}
use ndns.Mgmt.Tool.Create.Complete.{create_zone-IsStored}
use ndns.Mgmt.Tool.Create.Dkey.{get_zone_dkey-IsStored}
use ndns.Mgmt.Tool.Create.Stored.{IsStored}
use ndns.Tools.CreateZone.{CreateOptions, parent_of, zone_args, create_and_print}

module _ ⦃ndn : Ndn⦄ where
  length-nonempty : (n : Name) → n ≢ [] → length n ≡ suc (length n - 1)
  length-nonempty [] h = absurd (h refl)
  length-nonempty (c ∷ n) h = omega arith

  -- The default parent is above the zone: one component shorter.
  pub parent_of-above :
      (o : CreateOptions)
      → o.parent ≡ none
      → o.zone ≢ []
      → (parent_of o ≢ o.zone) × (rest : Name) × (o.zone ≡ parent_of o ++ rest)
  unfolding parent_of
  parent_of-above o given nonempty =
      let long = length-nonempty o.zone nonempty in
      let some_length : (length o.zone == 0) ≡ false = ground (arith, long) in
      let e : parent_of o ≡ take (length o.zone - 1) o.zone =
        rw (given, some_length) (ndn.get_prefix-take o.zone (length o.zone - 1)) in
      (
        (λ q. omega (
          arith,
          long,
          length-take (length o.zone - 1) o.zone (omega arith),
          ap (λ (n : Name). length n) (sym e ∙ q),
        )),
        drop (length o.zone - 1) o.zone,
        rw e (sym (take-append-drop (length o.zone - 1) o.zone)),
      )

module _ ⦃ndn : Ndn⦄ ⦃sqlite : Sqlite⦄ ⦃chain : KeyChain⦄ where
  -- On a sound and readable database, a certificate that the tool prints is that of the D-key made or
  -- given for the zone, and the zone is stored with its KSK and DSK certificates.
  pub create_and_print-IsStored :
      (now doe_now : ℕ → Component) (is_certificate : Data → Bool) (o : CreateOptions) (s t : Site)
      (printed : Data)
      → cert_rr_type ≢ doe_rr_type
      → Sound s.db
      → s.db.prepares ≡ true
      → create_and_print now doe_now is_certificate o s ≡ (ok printed, t)
      → (z : Zone) × (certs : ZoneCerts) × (u : Site) × (make_certificates (zone_args o) now s
          ≡ (ok certs, u))
        × IsStored (zone_args o) certs s.db z t.db
        × (printed ≡ certs.dkey_cert)
  unfolding create_and_print
  create_and_print-IsStored now doe_now is_certificate o s t printed apart sound ready h =
      let (z, s1, e1, k1) = bind-ok (create_zone now doe_now (zone_args o)) _ s t printed h in
      let (held, certs, u, made, kept) =
        create_zone-IsStored now doe_now (zone_args o) s s1 z apart sound ready e1 in
      let read = get_zone_dkey-IsStored is_certificate (zone_args o) certs s.db s1.db z kept in
      let same : t.db ≡ s1.db = sym (ap (λ x. x.1.db) k1) ∙ ap (λ x. x.1) read in
      let result = sym (ap (λ x. x.0) k1) ∙ ap (λ x. x.0) read in
      (
        z,
        certs,
        u,
        made,
        subst (IsStored (zone_args o) certs s.db z) (sym same) kept,
        elim (Bool-cases (is_certificate certs.dkey_cert)) [
          | inl c ↦ ground (arith, result)
          | inr c ↦ absurd (ground (arith, result))
        ],
      )
