-- ===== src/Tests/Validator.antt =====
-- The properties of the certificate fetchers at concrete requests.
use ndns.Prelude.{
  ◌≡◌, ◌↔◌, ◌⊎◌, refl, arith, Bool, true, false, Option, none, some, List, [], ◌∷◌, ok, ◌==◌,
}
use ndns.Packets.{Name, Data, make_data}
use ndns.Label.{ndns_iterative_query}
use ndns.Clients.ContentType.{ndns_key, ndns_resp}
use ndns.Validator.NdnsCert.{
  CertRequest, calculate_domain, NetEvent, arrived, nacked, timed_out, rejected,
  cannot_retrieve_cert, Fetch, fetch, on_events,
}
use ndns.Validator.NdnsCert.Domain.{IsDomain, calculate_domain_iff}
use ndns.Validator.NdnsCert.Sound.{Sound, fetch-on_events-Sound}
use ndns.Validator.NdnsCert.Retries.{HasResult, AllLost, IsLoss, fetch-on_events-HasResult}
use ndns.Validator.AppCert.{AppEvent, judged, validating, AppFetch, on_event}
use ndns.Validator.AppCert.Judged.{certificate_of, Carries, on_event-certificate}
use ndns.Tests.Toy.{toy, nest, packet_tree}
use ndns.Tests.Clients.{net, ucla}
use ndns.Tests.Controller.{toy_cache, link_data, links-only}

abbrev none_unverified : Name → Option Data
none_unverified n = none

abbrev is_key : Data → Bool
is_key d = d.content_type == ndns_key

abbrev request : CertRequest
request = record {
  name = net ∷ ndns_iterative_query ∷ ucla ∷ [];
  interest_lifetime = 4000;
  n_retries_left = 1;
}

abbrev first_try : Fetch
first_try = record {
  ns_cache = link_data ∷ [];
  start_component_index = 0;
  request = request;
  tagged = false;
  phase = rejected cannot_retrieve_cert;
}

abbrev key_data : Data
key_data = record (make_data (net ∷ ndns_iterative_query ∷ ucla ∷ [])) { content_type = ndns_key }

abbrev answered : List NetEvent
answered = arrived link_data ∷ nacked ∷ arrived link_data ∷ arrived key_data ∷ []

fetch-on_events-Sound_example :
    Sound none_unverified is_key 4000 answered
      (on_events none_unverified is_key 4000 answered (fetch none_unverified is_key 4000 first_try))
fetch-on_events-Sound_example =
    fetch-on_events-Sound none_unverified is_key 4000 answered first_try links-only

abbrev losses : List NetEvent
losses = nacked ∷ timed_out ∷ timed_out ∷ nacked ∷ []

fetch-on_events-HasResult_example :
    HasResult none_unverified is_key 4000
      (on_events none_unverified is_key 4000 losses
        (fetch none_unverified is_key 4000 first_try)).phase
unfolding AllLost IsLoss
fetch-on_events-HasResult_example =
    fetch-on_events-HasResult none_unverified is_key 4000 losses first_try links-only
      (tt, (tt, (tt, (tt, tt)))) (omega arith)

calculate_domain_iff_example :
    (calculate_domain (net ∷ ndns_iterative_query ∷ ucla ∷ []) ≡ ok (net ∷ []))
    ↔ IsDomain (net ∷ ndns_iterative_query ∷ ucla ∷ []) (net ∷ [])
calculate_domain_iff_example =
    calculate_domain_iff (net ∷ ndns_iterative_query ∷ ucla ∷ []) (net ∷ [])

-- The APPCERT record that carries the certificate
abbrev app_data : Data
app_data = record (make_data (net ∷ ucla ∷ [])) {
  content_type = ndns_resp;
  content = nest 21 (packet_tree key_data ∷ []);
}

abbrev found : AppFetch
found = record {
  ns_cache = [];
  start_component_index = 0;
  request = request;
  tagged = true;
  phase = validating app_data;
}

on_event-certificate_example :
    (certificate_of found.phase ≡ some key_data)
    ⊎ ((◌≡◌ {A = AppEvent} (judged true) (judged true))
        × ((d : Data) × (found.phase ≡ validating d) × Carries none_unverified is_key d key_data))
unfolding on_event certificate_of
on_event-certificate_example =
    on_event-certificate none_unverified is_key (judged true) found key_data refl
