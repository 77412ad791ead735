-- ===== src/Validator/NdnsCert.antt =====
-- src/validator/certificate-fetcher-ndns-cert.hpp and .cpp: a certificate that NDNS owns is asked for
-- under the forwarding hint of its zone's NS record. Parameters: the certificates that ndn-cxx has
-- fetched and not verified yet, which `CertificateFetcher::fetch` looks through before `doFetch`, the
-- test that `Certificate(data)` makes, and the lifetime of a plain Interest.
pub mod Domain
pub mod Sound
pub mod Retries
use ndns.Prelude.{
  ℕ, zero, suc, ◌+◌, ◌-◌, Bool, true, false, Option, none, some, List, [], ◌∷◌, ◌++◌, if◌then◌else◌,
  Error, Result, ok, err, not_a_cert_name, bad_packet, ◌==◌, length,
}
use ndns.Ndn.{Ndn}
use ndns.Packets.{Name, Component, Data, Interest, component_eq}
use ndns.Label.{ndns_iterative_query, ns_rr_type, cert_rr_type}
use ndns.Clients.ContentType.{ndns_link}
use ndns.Clients.Controller.{
  Cache, Controller, Outcome, waiting, succeeded, failed, unfinished, make_controller,
  set_start_component_index, start, on_data, on_timeout,
}

-- ValidationError::Code
pub data FetchError : Type 0 where
  malformed_cert cannot_retrieve_cert : FetchError

module _ ⦃ndn : Ndn⦄ where
  pub record CertRequest : Type 0 where
    pub name : Name
    pub interest_lifetime : ℕ
    -- `nRetriesLeft`, an int that ends the fetch when it falls to -1
    pub n_retries_left : ℕ

  -- The loop returns the prefix before the first component NDNS.
  unfoldable pub calculate_domain : Name → Result Name
  calculate_domain [] = err not_a_cert_name
  calculate_domain (c ∷ key) =
      let rest = calculate_domain key in
      if component_eq c ndns_iterative_query
      then ok []
      else elim rest [ err e ↦ err e | ok n ↦ ok (c ∷ n) ]

  -- What the face brings for the Interest that is out.
  pub data NetEvent : Type 0 where
    arrived : Data → NetEvent
    nacked timed_out : NetEvent

module _ ⦃ndn : Ndn⦄ ⦃cache : Cache⦄ where
  pub data Phase : Type 0 where
    -- the NS query waits for an answer, or the certificate's Interest does
    querying : Controller → Interest → Phase
    asking : Interest → Phase
    -- `continueValidation`, `state->fail`, or an exception out of the callback
    continued : Data → Phase
    rejected : FetchError → Phase
    threw : Error → Phase
    -- not of the program: the query ran out of the model's fuel
    stuck : Phase

  -- The fetcher with the one request that it works on; `tagged` while the state keeps the query.
  pub record Fetch : Type 0 where
    pub ns_cache : cache.Storage
    pub start_component_index : ℕ
    pub request : CertRequest
    pub tagged : Bool
    pub phase : Phase

  -- An iterative query takes no more rounds than this.
  abbrev pub query_fuel : Controller → ℕ
  query_fuel c = 3 + length c.dst_label

  abbrev pub storage_of : Option cache.Storage → cache.Storage → cache.Storage
  storage_of none s = s
  storage_of (some t) s = t

module _ ⦃ndn : Ndn⦄ ⦃cache : Cache⦄ (unverified : Name → Option Data)
    (is_certificate : Data → Bool) (default_lifetime : ℕ) where
  -- The certificate's Interest, with the delegations of the zone as its forwarding hint
  express_cert : List Name → Fetch → Fetch
  express_cert delegations f = record f {
    phase = asking (record {
      name = f.request.name ++ cert_rr_type ∷ [];
      can_be_prefix = true;
      lifetime = default_lifetime;
      forwarding_hint = delegations;
    });
  }

  unfoldable pub ns_success_callback : Data → Fetch → Fetch
  unfolding express_cert
  ns_success_callback d f =
      if d.content_type == ndns_link
      then (elim (ndn.link_delegations (ndn.data_block d)) [
        | none ↦ record f { phase = threw bad_packet }
        | some delegations ↦ express_cert delegations f
      ])
      else express_cert [] f

  unfoldable pub ns_fail_callback : Fetch → Fetch
  unfolding express_cert
  ns_fail_callback f = express_cert [] f

  -- The query's callbacks, and the cache that it shares with the fetcher.
  settle_query : Result Outcome → Controller → Fetch → Fetch
  unfolding ns_success_callback ns_fail_callback
  settle_query (err e) c f = record f { phase = threw e }
  settle_query (ok (waiting i)) c f = record f { phase = querying c i }
  settle_query (ok (succeeded d response)) c f = ns_success_callback d f
  settle_query (ok failed) c f = ns_fail_callback f
  settle_query (ok unfinished) c f = record f { phase = stuck }

  after_query : Result Outcome × Controller → Fetch → Fetch
  unfolding settle_query
  after_query r f =
      settle_query r.0 r.1 (record f { ns_cache = storage_of r.1.ns_cache f.ns_cache })

  -- The query for the domain's NS record. The tag is set once `start` has returned.
  pub query_domain : Name → Fetch → Fetch
  unfolding after_query
  query_domain domain f =
      let c =
        set_start_component_index f.start_component_index
          (make_controller domain ns_rr_type f.request.interest_lifetime (some f.ns_cache)) in
      let r = start (query_fuel c) (λ _. true) c in
      after_query r (record f { tagged = elim r.0 [ err e ↦ f.tagged | ok o ↦ true ] })

  unfoldable pub do_fetch : Fetch → Fetch
  unfolding query_domain ns_fail_callback
  do_fetch f = elim (calculate_domain f.request.name) [
    | err e ↦ record f { phase = threw e }
    | ok domain ↦
        if length domain == f.start_component_index
        then ns_fail_callback f
        else query_domain domain f
  ]

  unfoldable pub fetch : Fetch → Fetch
  unfolding do_fetch
  fetch f = elim (unverified f.request.name) [
    | some cert ↦ record f { phase = continued cert }
    | none ↦ do_fetch f
  ]

  unfoldable pub data_callback : Data → Fetch → Fetch
  data_callback d f = record f {
    tagged = false;
    phase = if is_certificate d then continued d else rejected malformed_cert;
  }

  -- nackCallback and timeoutCallback
  unfoldable pub retry : Fetch → Fetch
  unfolding fetch
  retry f =
      if f.request.n_retries_left == 0
      then record f { tagged = false; phase = rejected cannot_retrieve_cert }
      else fetch (record f {
        request = record (f.request) { n_retries_left = f.request.n_retries_left - 1 };
      })

  dispatch : Phase → NetEvent → Fetch → Fetch
  unfolding after_query data_callback retry
  dispatch (querying c i) (arrived d) f = after_query (on_data (query_fuel c) (λ _. true) d c) f
  dispatch (querying c i) nacked f = after_query (on_timeout i c) f
  dispatch (querying c i) timed_out f = after_query (on_timeout i c) f
  dispatch (asking i) (arrived d) f = data_callback d f
  dispatch (asking i) nacked f = retry f
  dispatch (asking i) timed_out f = retry f
  dispatch _ e f = f

  unfoldable pub on_event : NetEvent → Fetch → Fetch
  unfolding dispatch
  on_event e f = dispatch f.phase e f

  unfoldable pub on_events : List NetEvent → Fetch → Fetch
  unfolding on_event
  on_events [] f = f
  on_events (e ∷ es) f = on_events es (on_event e f)
