-- ===== src/Mgmt/CertHelper/Held.antt =====
-- What the look-ups of CertHelper (src/util/cert-helper.cpp) find in the key chain.
use ndns.Prelude.{◌≡◌, inl, inr, refl, arith, Bool-cases, Option-cases, some, List, [], ◌∷◌, In, ok}
use ndns.Ndn.{Ndn}
use ndns.Packets.{Name, Data, name_eq, name_eq_iff}
use ndns.Mgmt.CertHelper.{
  Pib, Identity, Key, named, in_keys, get_certificate, get_default_certificate_name_of_identity,
}

module _ ⦃ndn : Ndn⦄ where
  -- The identity has a key with a certificate of the name.
  abbrev pub Holds : Pib → Name → Name → Type 0
  Holds pib identity cert_name =
      (id : Identity) × (k : Key) × (d : Data) × (pib identity ≡ some id)
      × In k id.keys
      × In d k.certificates
      × (d.name ≡ cert_name)

  -- The name is that of the default certificate of the identity's default key.
  abbrev pub HasDefault : Pib → Name → Name → Type 0
  HasDefault pib identity cert_name =
      (id : Identity) × (k : Key) × (d : Data) × (pib identity ≡ some id)
      × (id.default_key ≡ some k)
      × (k.default_certificate ≡ some d)
      × (d.name ≡ cert_name)

  named-In : (n : Name) (cs : List Data) (d : Data) → named n cs ≡ some d → In d cs × (d.name ≡ n)
  unfolding named
  named-In n [] d e = absurd (ground arith)
  named-In n (c ∷ cs) d e = elim (Bool-cases (name_eq c.name n)) [
    | inl y ↦
        let same : d ≡ c = ground arith in (inl same, ground (arith, same, name_eq_iff c.name n))
    | inr f ↦ let (i, q) = named-In n cs d (ground arith) in (inr i, q)
  ]

  in_keys-In :
      (n : Name) (ks : List Key) (d : Data)
      → in_keys n ks ≡ some d
      → (k : Key) × In k ks × In d k.certificates × (d.name ≡ n)
  unfolding in_keys
  in_keys-In n [] d e = absurd (ground arith)
  in_keys-In n (k ∷ ks) d e = elim (Option-cases (named n k.certificates)) [
    | inl f ↦ let (l, i, j, q) = in_keys-In n ks d (ground arith) in (l, inr i, j, q)
    | inr (c, f) ↦
        let same : d ≡ c = ground arith in
        let (j, q) = named-In n k.certificates d (ground (arith, f, same)) in (k, inl refl, j, q)
  ]

  pub get_certificate-Holds :
      (pib : Pib) (identity n : Name) (d : Data)
      → get_certificate pib identity n ≡ ok d
      → Holds pib identity n
  unfolding get_certificate
  get_certificate-Holds pib identity n d e = elim (Option-cases (pib identity)) [
    | inl f ↦ absurd (ground arith)
    | inr (id, f) ↦ elim (Option-cases (in_keys n id.keys)) [
      | inl g ↦ absurd (ground arith)
      | inr (c, g) ↦ let (k, i, j, q) = in_keys-In n id.keys c g in (id, k, c, f, i, j, q)
    ]
  ]

  pub default_certificate-HasDefault :
      (pib : Pib) (identity n : Name)
      → get_default_certificate_name_of_identity pib identity ≡ ok n
      → HasDefault pib identity n
  unfolding get_default_certificate_name_of_identity
  default_certificate-HasDefault pib identity n e = elim (Option-cases (pib identity)) [
    | inl f ↦ absurd (ground arith)
    | inr (id, f) ↦ elim (Option-cases id.default_key) [
      | inl g ↦ absurd (ground arith)
      | inr (k, g) ↦ elim (Option-cases k.default_certificate) [
        | inl c ↦ absurd (ground arith)
        | inr (d, c) ↦ (id, k, d, f, g, c, ground arith)
      ]
    ]
  ]
