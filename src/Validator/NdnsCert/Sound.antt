-- ===== src/Validator/NdnsCert/Sound.antt =====
-- What the fetch of a certificate comes to (src/validator/certificate-fetcher-ndns-cert.cpp), by the
-- packets and the losses that the face brings.
use ndns.Prelude.{
  ℕ, ◌-◌, ◌≡◌, ◌≢◌, ◌⊎◌, inl, inr, refl, sym, subst, Bool, Error, true, Option, none, some, List,
  [], ◌∷◌, ◌++◌, arith, Result, ok, err, ◌==◌, length, Result-cases, Bool-cases, Option-cases, In,
  All, All-intro,
}
use ndns.Ndn.{Ndn}
use ndns.Packets.{Name, Data}
use ndns.Label.{cert_rr_type, ns_rr_type}
use ndns.Clients.ContentType.{ndns_link}
use ndns.Clients.Controller.{
  Cache, Controller, Outcome, waiting, succeeded, failed, unfinished, make_controller,
  set_start_component_index, start, on_data, on_timeout,
}
use ndns.Clients.Controller.Termination.{HoldsLinks, Finishes, on_data-Finishes, start-Finishes}
use ndns.Clients.Controller.Rank.{rank-le}
use ndns.Validator.NdnsCert.{
  CertRequest, calculate_domain, NetEvent, arrived, nacked, timed_out, Phase, querying, asking,
  continued, rejected, threw, stuck, Fetch, query_fuel, storage_of, express_cert,
  ns_success_callback, ns_fail_callback, settle_query, after_query, query_domain, do_fetch, fetch,
  data_callback, retry, dispatch, on_event, on_events,
}

module _ ⦃ndn : Ndn⦄ ⦃cache : Cache⦄ (unverified : Name → Option Data)
    (is_certificate : Data → Bool) (default_lifetime : ℕ) where
  -- `es` are the events so far.
  unfoldable pub PhaseSound : List NetEvent → CertRequest → Phase → Type 0
  PhaseSound es r (querying c i) = HoldsLinks c.ns_cache
  PhaseSound es r (asking i) = i.name ≡ r.name ++ cert_rr_type ∷ []
  PhaseSound es r (continued d) =
      ((is_certificate d ≡ true) × In (arrived d) es) ⊎ (unverified r.name ≡ some d)
  PhaseSound es r (rejected e) = Unit
  PhaseSound es r (threw e) = Unit
  PhaseSound es r stuck = ⊥

  -- The cache holds LINK packets only, the Interest that is out asks for the request's certificate,
  -- and validation goes on only with a certificate that the face brought or that was there unverified.
  unfoldable pub Sound : List NetEvent → Fetch → Type 0
  Sound es f = HoldsLinks (some f.ns_cache) × PhaseSound es f.request f.phase

  storage_of-HoldsLinks :
      (t : Option cache.Storage) (s : cache.Storage)
      → HoldsLinks t
      → HoldsLinks (some s)
      → HoldsLinks (some (storage_of t s))
  storage_of-HoldsLinks none s h k = k
  storage_of-HoldsLinks (some t) s h k = h

  -- The four ways that a fetch can go on.
  pub fetch-cases :
      (f : Fetch)
      → ((d : Data) × (unverified f.request.name ≡ some d)
          × (fetch unverified is_certificate default_lifetime f ≡ record f { phase = continued d }))
        ⊎ ((e : Error) × (fetch unverified is_certificate default_lifetime f
              ≡ record f { phase = threw e }))
        ⊎ (fetch unverified is_certificate default_lifetime f
            ≡ ns_fail_callback unverified is_certificate default_lifetime f)
        ⊎ ((domain : Name) × (fetch unverified is_certificate default_lifetime f
              ≡ query_domain unverified is_certificate default_lifetime domain f))
  unfolding fetch do_fetch
  fetch-cases f = elim (Option-cases (unverified f.request.name)) [
    | inr (d, e) ↦ inl (d, e, ground arith)
    | inl n ↦ elim (Result-cases (calculate_domain f.request.name)) [
      | inr (e, b) ↦ inr (inl (e, ground arith))
      | inl (domain, b) ↦ elim (Bool-cases (length domain == f.start_component_index)) [
        | inl y ↦ inr (inr (inl (ground arith)))
        | inr y ↦ inr (inr (inr (domain, ground arith)))
      ]
    ]
  ]

  module _ (es : List NetEvent) where
    ns_fail_callback-Sound :
        (f : Fetch)
        → HoldsLinks (some f.ns_cache)
        → Sound es (ns_fail_callback unverified is_certificate default_lifetime f)
    unfolding Sound PhaseSound ns_fail_callback express_cert
    ns_fail_callback-Sound f h = (h, refl)

    ns_success_callback-Sound :
        (d : Data) (f : Fetch)
        → HoldsLinks (some f.ns_cache)
        → Sound es (ns_success_callback unverified is_certificate default_lifetime d f)
    unfolding Sound PhaseSound ns_success_callback express_cert
    ns_success_callback-Sound d f h = elim (Bool-cases (d.content_type == ndns_link)) [
      | inr n ↦ rw n (h, refl)
      | inl y ↦ elim (Option-cases (ndn.link_delegations (ndn.data_block d))) [
        | inl n ↦ rw (y, n) (h, tt)
        | inr (l, s) ↦ rw (y, s) (h, refl)
      ]
    ]

    settle_query-Sound :
        (r : Result Outcome) (c : Controller) (f : Fetch)
        → r ≢ ok unfinished
        → HoldsLinks c.ns_cache
        → HoldsLinks (some f.ns_cache)
        → Sound es (settle_query unverified is_certificate default_lifetime r c f)
    unfolding Sound PhaseSound settle_query
    settle_query-Sound (err e) c f u h k = (k, tt)
    settle_query-Sound (ok (waiting i)) c f u h k = (k, h)
    settle_query-Sound (ok (succeeded d response)) c f u h k = ns_success_callback-Sound d f k
    settle_query-Sound (ok failed) c f u h k = ns_fail_callback-Sound f k
    settle_query-Sound (ok unfinished) c f u h k = absurd (u refl)

    after_query-Sound :
        (r : Result Outcome × Controller) (f : Fetch)
        → Finishes r
        → HoldsLinks (some f.ns_cache)
        → Sound es (after_query unverified is_certificate default_lifetime r f)
    unfolding after_query
    after_query-Sound r f (u, h) k =
        settle_query-Sound r.0 r.1 (record f { ns_cache = storage_of r.1.ns_cache f.ns_cache }) u h
          (storage_of-HoldsLinks r.1.ns_cache f.ns_cache h k)

    query_domain-Sound :
        (domain : Name) (f : Fetch)
        → HoldsLinks (some f.ns_cache)
        → Sound es (query_domain unverified is_certificate default_lifetime domain f)
    unfolding query_domain make_controller set_start_component_index
    query_domain-Sound domain f h =
        let c =
          set_start_component_index f.start_component_index
            (make_controller domain ns_rr_type f.request.interest_lifetime (some f.ns_cache)) in
        let r = start (query_fuel c) (λ _. true) c in
        after_query-Sound r (record f { tagged = elim r.0 [ err e ↦ f.tagged | ok o ↦ true ] })
          (start-Finishes (query_fuel c) (λ _. true) c refl (omega arith) h) h

    fetch-Sound :
        (f : Fetch)
        → HoldsLinks (some f.ns_cache)
        → Sound es (fetch unverified is_certificate default_lifetime f)
    unfolding Sound PhaseSound
    fetch-Sound f h = elim (fetch-cases f) [
      | inl (d, e, w) ↦ subst (Sound es) (sym w) (h, inr e)
      | inr (inl (e, w)) ↦ subst (Sound es) (sym w) (h, tt)
      | inr (inr (inl w)) ↦ subst (Sound es) (sym w) (ns_fail_callback-Sound f h)
      | inr (inr (inr (domain, w))) ↦ subst (Sound es) (sym w) (query_domain-Sound domain f h)
    ]

    data_callback-Sound :
        (d : Data) (f : Fetch)
        → In (arrived d) es
        → HoldsLinks (some f.ns_cache)
        → Sound es (data_callback unverified is_certificate default_lifetime d f)
    unfolding Sound PhaseSound data_callback
    data_callback-Sound d f i h = elim (Bool-cases (is_certificate d)) [
      | inl y ↦ rw y (h, inl (y, i))
      | inr n ↦ rw n (h, tt)
    ]

    retry-Sound :
        (f : Fetch)
        → HoldsLinks (some f.ns_cache)
        → Sound es (retry unverified is_certificate default_lifetime f)
    unfolding retry Sound PhaseSound
    retry-Sound f h = elim (Bool-cases (f.request.n_retries_left == 0)) [
      | inl y ↦ rw y (h, tt)
      | inr n ↦ rw n (
          fetch-Sound
            (record f {
              request = record (f.request) { n_retries_left = f.request.n_retries_left - 1 };
            })
            h)
    ]

    dispatch-Sound :
        (p : Phase) (e : NetEvent) (f : Fetch)
        → p ≡ f.phase
        → In e es
        → HoldsLinks (some f.ns_cache)
        → PhaseSound es f.request p
        → Sound es (dispatch unverified is_certificate default_lifetime p e f)
    unfolding dispatch Sound PhaseSound on_timeout
    dispatch-Sound (querying c i) (arrived d) f q b h k =
        after_query-Sound (on_data (query_fuel c) (λ _. true) d c) f
          (on_data-Finishes (query_fuel c) (λ _. true) d c (omega (arith, rank-le c)) k) h
    dispatch-Sound (querying c i) nacked f q b h k =
        after_query-Sound (ok failed, c) f (λ e. cc, k) h
    dispatch-Sound (querying c i) timed_out f q b h k =
        after_query-Sound (ok failed, c) f (λ e. cc, k) h
    dispatch-Sound (asking i) (arrived d) f q b h k = data_callback-Sound d f b h
    dispatch-Sound (asking i) nacked f q b h k = retry-Sound f h
    dispatch-Sound (asking i) timed_out f q b h k = retry-Sound f h
    dispatch-Sound (continued d) e f q b h k = (h, subst (PhaseSound es f.request) q k)
    dispatch-Sound (rejected r) e f q b h k = (h, subst (PhaseSound es f.request) q k)
    dispatch-Sound (threw r) e f q b h k = (h, subst (PhaseSound es f.request) q k)
    dispatch-Sound stuck e f q b h k = absurd k

  pub on_events-Sound :
      (all es : List NetEvent) (f : Fetch)
      → All (λ (e : NetEvent). In e all) es
      → Sound all f
      → Sound all (on_events unverified is_certificate default_lifetime es f)
  unfolding on_events on_event Sound
  on_events-Sound all [] f i h = h
  on_events-Sound all (e ∷ es) f i (h, k) =
      on_events-Sound all es (dispatch unverified is_certificate default_lifetime f.phase e f) i.1
        (dispatch-Sound all f.phase e f refl i.0 h k)

  -- Whatever the face brings, a fetch that starts with a cache of LINK packets only keeps it so, never
  -- runs out of the model's fuel, asks for the certificate by the request's name with CERT behind it,
  -- and goes on to validation only with a packet that the face brought and that is a certificate, or
  -- with the unverified certificate of that name.
  pub fetch-on_events-Sound :
      (es : List NetEvent) (f : Fetch)
      → HoldsLinks (some f.ns_cache)
      → Sound es (
          on_events unverified is_certificate default_lifetime es
            (fetch unverified is_certificate default_lifetime f))
  fetch-on_events-Sound es f h =
      on_events-Sound es es (fetch unverified is_certificate default_lifetime f)
        (All-intro (λ (e : NetEvent). In e es) es (λ e i. i)) (fetch-Sound es f h)
