-- ===== src/Validator/NdnsCert/Retries.antt =====
-- nackCallback and timeoutCallback (src/validator/certificate-fetcher-ndns-cert.cpp): the retries of a
-- fetch come to an end.
use ndns.Prelude.{
  ℕ, ◌+◌, ◌-◌, ◌*◌, ◌≤◌, ◌<◌, ◌≡◌, inl, inr, refl, sym, subst, Bool, true, Option, some, List, [],
  ◌∷◌, arith, Result, ok, err, ◌==◌, length, Bool-cases, Option-cases,
}
use ndns.Ndn.{Ndn}
use ndns.Packets.{Name, Data}
use ndns.Label.{ns_rr_type}
use ndns.Clients.ContentType.{ndns_link}
use ndns.Clients.Controller.{
  Cache, Controller, Outcome, waiting, succeeded, failed, unfinished, make_controller,
  set_start_component_index, start, on_timeout,
}
use ndns.Clients.Controller.Termination.{HoldsLinks}
use ndns.Validator.NdnsCert.{
  CertRequest, NetEvent, arrived, nacked, timed_out, Phase, querying, asking, continued, rejected,
  threw, stuck, Fetch, query_fuel, storage_of, express_cert, ns_success_callback, ns_fail_callback,
  settle_query, after_query, query_domain, fetch, retry, dispatch, on_event, on_events,
}
use ndns.Validator.NdnsCert.Sound.{Sound, PhaseSound, fetch-cases, fetch-on_events-Sound}

module _ ⦃ndn : Ndn⦄ ⦃cache : Cache⦄ (unverified : Name → Option Data)
    (is_certificate : Data → Bool) (default_lifetime : ℕ) where
  -- The face brings a network NACK or a timeout.
  unfoldable pub IsLoss : NetEvent → Type 0
  IsLoss (arrived d) = ⊥
  IsLoss nacked = Unit
  IsLoss timed_out = Unit

  unfoldable pub AllLost : List NetEvent → Type 0
  AllLost [] = Unit
  AllLost (e ∷ es) = IsLoss e × AllLost es

  -- The request is done with, one way or the other.
  pub HasResult : Phase → Type 0
  HasResult (querying c i) = ⊥
  HasResult (asking i) = ⊥
  HasResult (continued d) = Unit
  HasResult (rejected e) = Unit
  HasResult (threw e) = Unit
  HasResult stuck = ⊥

  -- How many losses a fetch can still take.
  patience : Phase → ℕ → ℕ
  patience (querying c i) retries = 2 * retries + 2
  patience (asking i) retries = 2 * retries + 1
  patience _ retries = 0

  patience-HasResult :
      (es : List NetEvent) (r : CertRequest) (p : Phase)
      → PhaseSound unverified is_certificate default_lifetime es r p
      → patience p r.n_retries_left ≡ 0
      → HasResult p
  unfolding patience HasResult PhaseSound
  patience-HasResult es r (querying c i) s h = absurd (omega (arith, h))
  patience-HasResult es r (asking i) s h = absurd (omega (arith, h))
  patience-HasResult es r (continued d) s h = tt
  patience-HasResult es r (rejected e) s h = tt
  patience-HasResult es r (threw e) s h = tt
  patience-HasResult es r stuck s h = s

  left : Fetch → ℕ
  left f = patience f.phase f.request.n_retries_left

  ns_success_callback-left :
      (d : Data) (f : Fetch)
      → left (ns_success_callback unverified is_certificate default_lifetime d f)
        ≤ 2 * f.request.n_retries_left + 1
  unfolding left patience ns_success_callback express_cert
  ns_success_callback-left d f = elim (Bool-cases (d.content_type == ndns_link)) [
    | inr n ↦ rw n (omega arith)
    | inl y ↦ elim (Option-cases (ndn.link_delegations (ndn.data_block d))) [
      | inl n ↦ rw (y, n) (omega arith)
      | inr (l, s) ↦ rw (y, s) (omega arith)
    ]
  ]

  settle_query-left :
      (r : Result Outcome) (c : Controller) (f : Fetch)
      → left (settle_query unverified is_certificate default_lifetime r c f)
        ≤ 2 * f.request.n_retries_left + 2
  unfolding left patience settle_query ns_fail_callback express_cert
  settle_query-left (err e) c f = omega arith
  settle_query-left (ok (waiting i)) c f = omega arith
  settle_query-left (ok (succeeded d response)) c f =
      let below = ns_success_callback-left d f in omega (arith, below)
  settle_query-left (ok failed) c f = omega arith
  settle_query-left (ok unfinished) c f = omega arith

  after_query-left :
      (r : Result Outcome × Controller) (f : Fetch)
      → left (after_query unverified is_certificate default_lifetime r f)
        ≤ 2 * f.request.n_retries_left + 2
  unfolding after_query
  after_query-left r f =
      settle_query-left r.0 r.1 (record f { ns_cache = storage_of r.1.ns_cache f.ns_cache })

  query_domain-left :
      (domain : Name) (f : Fetch)
      → left (query_domain unverified is_certificate default_lifetime domain f)
        ≤ 2 * f.request.n_retries_left + 2
  unfolding query_domain
  query_domain-left domain f =
      let c =
        set_start_component_index f.start_component_index
          (make_controller domain ns_rr_type f.request.interest_lifetime (some f.ns_cache)) in
      let r = start (query_fuel c) (λ _. true) c in
      after_query-left r (record f { tagged = elim r.0 [ err e ↦ f.tagged | ok o ↦ true ] })

  fetch-left :
      (f : Fetch)
      → left (fetch unverified is_certificate default_lifetime f) ≤ 2 * f.request.n_retries_left + 2
  unfolding left patience ns_fail_callback express_cert
  fetch-left f =
      let Bounded = λ (g : Fetch). left g ≤ 2 * f.request.n_retries_left + 2 in
      elim (fetch-cases unverified is_certificate default_lifetime f) [
        | inl (d, e, w) ↦ subst Bounded (sym w) (omega arith)
        | inr (inl (e, w)) ↦ subst Bounded (sym w) (omega arith)
        | inr (inr (inl w)) ↦ subst Bounded (sym w) (omega arith)
        | inr (inr (inr (domain, w))) ↦ subst Bounded (sym w) (query_domain-left domain f)
      ]

  retry-left :
      (f : Fetch)
      → left (retry unverified is_certificate default_lifetime f) ≤ 2 * f.request.n_retries_left
  unfolding retry left patience
  retry-left f = elim (Bool-cases (f.request.n_retries_left == 0)) [
    | inl y ↦ rw y (omega arith)
    | inr n ↦
        let below = fetch-left (record f {
          request = record (f.request) { n_retries_left = f.request.n_retries_left - 1 };
        }) in
        let positive : 0 < f.request.n_retries_left = ground arith in
        rw n (omega (arith, below, positive))
  ]

  dispatch-left :
      (p : Phase) (e : NetEvent) (f : Fetch)
      → p ≡ f.phase
      → IsLoss e
      → left (dispatch unverified is_certificate default_lifetime p e f)
        ≤ patience p f.request.n_retries_left - 1
  unfolding dispatch left patience on_timeout after_query settle_query ns_fail_callback express_cert
      IsLoss
  dispatch-left (querying c i) (arrived d) f q l = absurd l
  dispatch-left (querying c i) nacked f q l = omega arith
  dispatch-left (querying c i) timed_out f q l = omega arith
  dispatch-left (asking i) (arrived d) f q l = absurd l
  dispatch-left (asking i) nacked f q l = let below = retry-left f in omega (arith, below)
  dispatch-left (asking i) timed_out f q l = let below = retry-left f in omega (arith, below)
  dispatch-left (continued d) e f q l = rw (sym q) (omega arith)
  dispatch-left (rejected r) e f q l = rw (sym q) (omega arith)
  dispatch-left (threw r) e f q l = rw (sym q) (omega arith)
  dispatch-left stuck e f q l = rw (sym q) (omega arith)

  on_events-left :
      (es : List NetEvent) (f : Fetch)
      → AllLost es
      → left (on_events unverified is_certificate default_lifetime es f) ≤ left f - length es
  unfolding on_events on_event AllLost left
  on_events-left [] f l = omega arith
  on_events-left (e ∷ es) f (l, ls) =
      let g = dispatch unverified is_certificate default_lifetime f.phase e f in
      let below = dispatch-left f.phase e f refl l in
      let rest = on_events-left es g ls in omega (arith, below, rest)

  -- A fetch with n retries left has its result after at most 2 n + 2 network NACKs and timeouts in a
  -- row, for a cache of LINK packets only: validation goes on, is failed, or an exception is thrown.
  pub fetch-on_events-HasResult :
      (es : List NetEvent) (f : Fetch)
      → HoldsLinks (some f.ns_cache)
      → AllLost es
      → 2 * f.request.n_retries_left + 2 ≤ length es
      → HasResult
          (on_events unverified is_certificate default_lifetime es
            (fetch unverified is_certificate default_lifetime f)).phase
  unfolding left Sound
  fetch-on_events-HasResult es f h l n =
      let g =
        on_events unverified is_certificate default_lifetime es
          (fetch unverified is_certificate default_lifetime f) in
      let below = on_events-left es (fetch unverified is_certificate default_lifetime f) l in
      let first = fetch-left f in
      let sound = fetch-on_events-Sound unverified is_certificate default_lifetime es f h in
      patience-HasResult es g.request g.phase sound.1 (omega (arith, below, first, n))
