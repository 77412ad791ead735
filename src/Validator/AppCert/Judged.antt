-- ===== src/Validator/AppCert/Judged.antt =====
-- An application's certificate goes on only out of a packet that was validated
-- (src/validator/certificate-fetcher-ndns-appcert.cpp).
use ndns.Prelude.{
  ◌≡◌, ◌≢◌, ◌⊎◌, inl, inr, refl, sym, ap, ◌∙◌, arith, Bool, true, false, Option, none, some, Result,
  ok, err, ◌==◌, Bool-cases, Option-cases,
}
use ndns.Ndn.{Ndn}
use ndns.Packets.{Name, Block, Data}
use ndns.Clients.ContentType.{ndns_nack}
use ndns.Clients.Controller.{
  Cache, Controller, Outcome, waiting, succeeded, failed, unfinished, on_data, on_timeout,
}
use ndns.Validator.NdnsCert.{query_fuel, storage_of}
use ndns.Validator.AppCert.{
  AppEvent, arrived, nacked, timed_out, judged, AppPhase, querying, validating, continued, rejected,
  threw, stuck, AppFetch, settle, after_query, dispatch, on_event, content_certificate,
  read_certificate, on_validation_success_callback, on_validation_fail_callback,
  on_query_success_callback, on_query_fail_callback,
}

module _ ⦃ndn : Ndn⦄ ⦃cache : Cache⦄ where
  -- The certificate that a phase hands on.
  unfoldable pub certificate_of : AppPhase → Option Data
  certificate_of (continued cert) = some cert
  certificate_of _ = none

  settle-none :
      (r : Result Outcome) (c : Controller) (f : AppFetch)
      → certificate_of (settle r c f).phase ≡ none
  unfolding settle certificate_of on_query_success_callback on_query_fail_callback
  settle-none (err e) c f = refl
  settle-none (ok (waiting i)) c f = refl
  settle-none (ok (succeeded d response)) c f = refl
  settle-none (ok failed) c f = refl
  settle-none (ok unfinished) c f = refl

  fail-none : (f : AppFetch) → certificate_of (on_validation_fail_callback f).phase ≡ none
  unfolding on_validation_fail_callback certificate_of
  fail-none f = refl

  after_query-none :
      (r : Result Outcome × Controller) (f : AppFetch)
      → certificate_of (after_query r f).phase ≡ none
  unfolding after_query
  after_query-none r f =
      settle-none r.0 r.1 (record f { ns_cache = storage_of r.1.ns_cache f.ns_cache })

module _ ⦃ndn : Ndn⦄ ⦃cache : Cache⦄ (unverified : Name → Option Data)
    (is_certificate : Data → Bool) where
  -- A packet, no NACK, whose content is a certificate.
  abbrev pub Carries : Data → Data → Type 0
  Carries d cert =
      (d.content_type ≢ ndns_nack)
      × ((b : Block) × (ndn.block_from_value d.content ≡ some b) × (ndn.block_data b ≡ some cert))
      × (is_certificate cert ≡ true)

  content_certificate-some :
      (content : Block) (cert : Data)
      → content_certificate unverified is_certificate content ≡ some cert
      → ((b : Block) × (ndn.block_from_value content ≡ some b) × (ndn.block_data b ≡ some cert))
        × (is_certificate cert ≡ true)
  unfolding content_certificate read_certificate
  content_certificate-some content cert h = elim (Option-cases (ndn.block_from_value content)) [
    | inl n ↦ absurd (ground arith)
    | inr (b, e) ↦ elim (Option-cases (ndn.block_data b)) [
      | inl n ↦ absurd (ground arith)
      | inr (d, q) ↦ elim (Bool-cases (is_certificate d)) [
        | inr n ↦ absurd (ground arith)
        | inl y ↦
            let same : d ≡ cert = ground arith in
            ((b, e, q ∙ ap some same), ap is_certificate (sym same) ∙ y)
      ]
    ]
  ]

  success-Carries :
      (d cert : Data) (f : AppFetch)
      → certificate_of (on_validation_success_callback unverified is_certificate d f).phase
        ≡ some cert
      → Carries d cert
  unfolding on_validation_success_callback certificate_of
  success-Carries d cert f h = elim (Bool-cases (d.content_type == ndns_nack)) [
    | inl y ↦ absurd (ground arith)
    | inr n ↦ elim (Option-cases (content_certificate unverified is_certificate d.content)) [
      | inl e ↦ absurd (ground arith)
      | inr (c, e) ↦
          let same : c ≡ cert = ground arith in
          let (at, is) = content_certificate-some d.content cert (e ∙ ap some same) in
          (ground arith, at, is)
    ]
  ]

  dispatch-certificate :
      (p : AppPhase) (e : AppEvent) (f : AppFetch) (cert : Data)
      → p ≡ f.phase
      → certificate_of (dispatch unverified is_certificate p e f).phase ≡ some cert
      → (certificate_of p ≡ some cert)
        ⊎ ((e ≡ judged true) × ((d : Data) × (p ≡ validating d) × Carries d cert))
  unfolding dispatch on_timeout
  dispatch-certificate (querying c i) (arrived d) f cert q h =
      absurd (ground (arith, after_query-none (on_data (query_fuel c) (λ _. true) d c) f))
  dispatch-certificate (querying c i) nacked f cert q h =
      absurd (ground (arith, after_query-none (ok failed, c) f))
  dispatch-certificate (querying c i) timed_out f cert q h =
      absurd (ground (arith, after_query-none (ok failed, c) f))
  dispatch-certificate (querying c i) (judged v) f cert q h = inl (ap certificate_of q ∙ h)
  dispatch-certificate (validating d) (judged true) f cert q h =
      inr (refl, (d, refl, success-Carries d cert f h))
  dispatch-certificate (validating d) (judged false) f cert q h =
      absurd (ground (arith, fail-none f))
  dispatch-certificate (validating d) (arrived x) f cert q h = inl (ap certificate_of q ∙ h)
  dispatch-certificate (validating d) nacked f cert q h = inl (ap certificate_of q ∙ h)
  dispatch-certificate (validating d) timed_out f cert q h = inl (ap certificate_of q ∙ h)
  dispatch-certificate (continued d) e f cert q h = inl (ap certificate_of q ∙ h)
  dispatch-certificate (rejected d) e f cert q h = inl (ap certificate_of q ∙ h)
  dispatch-certificate (threw d) e f cert q h = inl (ap certificate_of q ∙ h)
  dispatch-certificate stuck e f cert q h = inl (ap certificate_of q ∙ h)

  -- A fetch hands a certificate on after an event only if it had done so before, or if the event is
  -- the validator's yes to the packet that the query found, and the certificate is the content of
  -- that packet, which is no NACK.
  pub on_event-certificate :
      (e : AppEvent) (f : AppFetch) (cert : Data)
      → certificate_of (on_event unverified is_certificate e f).phase ≡ some cert
      → (certificate_of f.phase ≡ some cert)
        ⊎ ((e ≡ judged true) × ((d : Data) × (f.phase ≡ validating d) × Carries d cert))
  unfolding on_event
  on_event-certificate e f cert h = dispatch-certificate f.phase e f cert refl h
