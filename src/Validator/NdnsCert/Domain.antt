-- ===== src/Validator/NdnsCert/Domain.antt =====
-- The zone whose certificate is asked for (src/validator/certificate-fetcher-ndns-cert.cpp).
use ndns.Prelude.{
  ◌≡◌, ◌≢◌, ◌↔◌, sym, ap, subst, ◌∙◌, false, [], ◌∷◌, ◌++◌, arith, ok, Result-cases, Bool-cases, In,
  inl, inr,
}
use ndns.Ndn.{Ndn}
use ndns.Packets.{Name, Component, component_eq}
use ndns.Label.{ndns_iterative_query}
use ndns.Validator.NdnsCert.{calculate_domain}

module _ ⦃ndn : Ndn⦄ where
  -- The key is the domain with NDNS and anything behind it, and the domain has no NDNS in it.
  abbrev pub IsDomain : Name → Name → Type 0
  IsDomain key domain =
      (rest : Name) × (key ≡ domain ++ ndns_iterative_query ∷ rest)
      × ¬ (In ndns_iterative_query domain)

  IsDomain-cons :
      (c : Component) (key d : Name)
      → c ≢ ndns_iterative_query
      → IsDomain key d
      → IsDomain (c ∷ key) (c ∷ d)
  IsDomain-cons c key d n (rest, q, free) =
      (rest, ap (◌∷◌ c) q, λ i. elim i [ inl e ↦ n (sym e) | inr j ↦ free j ])

  calculate_domain-cut :
      (key domain : Name) → calculate_domain key ≡ ok domain → IsDomain key domain
  unfolding calculate_domain
  calculate_domain-cut [] domain h = absurd (ground arith)
  calculate_domain-cut (c ∷ key) domain h =
      elim (Bool-cases (component_eq c ndns_iterative_query)) [
        | inl y ↦
            let q : [] ≡ domain = ground arith in
            let e = (ndn.component_eq_iff c ndns_iterative_query).0 y in
            subst (IsDomain (c ∷ key)) q (key, ap (λ x. x ∷ key) e, λ i. i)
        | inr n ↦ elim (Result-cases (calculate_domain key)) [
          | inr (e, r) ↦ absurd (ground arith)
          | inl (d, r) ↦
              let q : c ∷ d ≡ domain = ground arith in
              subst (IsDomain (c ∷ key)) q (
                IsDomain-cons c key d (ground (arith, ndn.component_eq_iff c ndns_iterative_query))
                  (calculate_domain-cut key d r))
        ]
      ]

  calculate_domain-append :
      (domain rest : Name)
      → ¬ (In ndns_iterative_query domain)
      → calculate_domain (domain ++ ndns_iterative_query ∷ rest) ≡ ok domain
  unfolding calculate_domain
  calculate_domain-append [] rest free =
      ground (arith, ndn.component_eq_iff ndns_iterative_query ndns_iterative_query)
  calculate_domain-append (c ∷ domain) rest free =
      let h = calculate_domain-append domain rest (λ i. free (inr i)) in
      let n : component_eq c ndns_iterative_query ≡ false =
        elim (Bool-cases (component_eq c ndns_iterative_query)) [
          | inl y ↦ absurd (free (inl (sym ((ndn.component_eq_iff c ndns_iterative_query).0 y))))
          | inr n ↦ n
        ] in
      ground (arith, h, n)

  -- The domain of a certificate's name is what stands before its first component NDNS, and a name
  -- that has a domain has that component.
  pub calculate_domain_iff :
      (key domain : Name) → (calculate_domain key ≡ ok domain) ↔ IsDomain key domain
  calculate_domain_iff key domain = (
    calculate_domain-cut key domain,
    λ (rest, q, free). ap calculate_domain q ∙ calculate_domain-append domain rest free,
  )
