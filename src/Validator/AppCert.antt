-- ===== src/Validator/AppCert.antt =====
-- src/validator/certificate-fetcher-ndns-appcert.hpp and .cpp: the certificate of an application is
-- the content of an APPCERT record, which is looked up and validated like any other. The verdict of
-- the validator that the fetcher keeps, and what ndn-cxx keeps unverified, are parameters.
pub mod Judged
use ndns.Prelude.{
  ℕ, Bool, true, false, Option, none, some, if◌then◌else◌, Error, Result, ok, err, ◌==◌,
}
use ndns.Ndn.{Ndn}
use ndns.Packets.{Name, Block, Data, Interest}
use ndns.Label.{appcert_rr_type}
use ndns.Clients.ContentType.{ndns_nack}
use ndns.Clients.Controller.{
  Cache, Controller, Outcome, waiting, succeeded, failed, unfinished, make_controller,
  set_start_component_index, start, on_data, on_timeout,
}
use ndns.Validator.NdnsCert.{
  FetchError, malformed_cert, cannot_retrieve_cert, CertRequest, query_fuel, storage_of,
}

module _ ⦃ndn : Ndn⦄ where
  -- What the face brings for the Interest that is out, or the validator for the packet given to it.
  pub data AppEvent : Type 0 where
    arrived : Data → AppEvent
    nacked timed_out : AppEvent
    judged : Bool → AppEvent

module _ ⦃ndn : Ndn⦄ ⦃cache : Cache⦄ where
  pub data AppPhase : Type 0 where
    querying : Controller → Interest → AppPhase
    validating : Data → AppPhase
    -- `continueValidation`, `state->fail`, or an exception out of the callback
    continued : Data → AppPhase
    rejected : FetchError → AppPhase
    threw : Error → AppPhase
    -- not of the program: the query ran out of the model's fuel
    stuck : AppPhase

  pub record AppFetch : Type 0 where
    pub ns_cache : cache.Storage
    pub start_component_index : ℕ
    pub request : CertRequest
    pub tagged : Bool
    pub phase : AppPhase

  unfoldable pub on_query_success_callback : Data → AppFetch → AppFetch
  on_query_success_callback d f = record f { phase = validating d }

  unfoldable pub on_query_fail_callback : AppFetch → AppFetch
  on_query_fail_callback f = record f { tagged = false; phase = rejected cannot_retrieve_cert }

  unfoldable pub on_validation_fail_callback : AppFetch → AppFetch
  on_validation_fail_callback f = record f { tagged = false; phase = rejected cannot_retrieve_cert }

  settle : Result Outcome → Controller → AppFetch → AppFetch
  unfolding on_query_success_callback on_query_fail_callback
  settle (err e) c f = record f { phase = threw e }
  settle (ok (waiting i)) c f = record f { phase = querying c i }
  settle (ok (succeeded d response)) c f = on_query_success_callback d f
  settle (ok failed) c f = on_query_fail_callback f
  settle (ok unfinished) c f = record f { phase = stuck }

  after_query : Result Outcome × Controller → AppFetch → AppFetch
  unfolding settle
  after_query r f = settle r.0 r.1 (record f { ns_cache = storage_of r.1.ns_cache f.ns_cache })

  query_of : AppFetch → Controller
  query_of f =
      set_start_component_index f.start_component_index (
        make_controller f.request.name appcert_rr_type f.request.interest_lifetime
          (some f.ns_cache))

  -- The tag is set once `start` has returned, also when a callback has removed it by then.
  unfoldable pub do_fetch : AppFetch → AppFetch
  unfolding query_of after_query
  do_fetch f =
      let r = start (query_fuel (query_of f)) (λ _. true) (query_of f) in
      let g = after_query r f in record g { tagged = elim r.0 [ err e ↦ f.tagged | ok o ↦ true ] }

module _ ⦃ndn : Ndn⦄ ⦃cache : Cache⦄ (unverified : Name → Option Data)
    (is_certificate : Data → Bool) where
  unfoldable pub fetch : AppFetch → AppFetch
  unfolding do_fetch
  fetch f = elim (unverified f.request.name) [
    | some cert ↦ record f { phase = continued cert }
    | none ↦ do_fetch f
  ]

  -- Certificate(block)
  unfoldable pub read_certificate : Block → Option Data
  read_certificate b = elim (ndn.block_data b) [
    | none ↦ none
    | some cert ↦ if is_certificate cert then some cert else none
  ]

  -- Certificate(content.blockFromValue())
  unfoldable pub content_certificate : Block → Option Data
  unfolding read_certificate
  content_certificate content = elim (ndn.block_from_value content) [
    | none ↦ none
    | some b ↦ read_certificate b
  ]

  unfoldable pub on_validation_success_callback : Data → AppFetch → AppFetch
  unfolding content_certificate
  on_validation_success_callback d f =
      if d.content_type == ndns_nack
      then record f { tagged = false; phase = rejected cannot_retrieve_cert }
      else (elim (content_certificate d.content) [
        | none ↦ record f { tagged = false; phase = rejected malformed_cert }
        | some cert ↦ record f { tagged = false; phase = continued cert }
      ])

  dispatch : AppPhase → AppEvent → AppFetch → AppFetch
  unfolding after_query on_validation_success_callback on_validation_fail_callback
  dispatch (querying c i) (arrived d) f = after_query (on_data (query_fuel c) (λ _. true) d c) f
  dispatch (querying c i) nacked f = after_query (on_timeout i c) f
  dispatch (querying c i) timed_out f = after_query (on_timeout i c) f
  dispatch (validating d) (judged true) f = on_validation_success_callback d f
  dispatch (validating d) (judged false) f = on_validation_fail_callback f
  dispatch _ e f = f

  unfoldable pub on_event : AppEvent → AppFetch → AppFetch
  unfolding dispatch
  on_event e f = dispatch f.phase e f
