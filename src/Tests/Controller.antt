-- ===== src/Tests/Controller.antt =====
-- The properties of the iterative query controller at concrete states.
use ndns.Clients.Query.{to_interest}
use ndns.Prelude.{
  ◌≡◌, ◌↔◌, ◌⊎◌, inl, inr, refl, ap, true, Option, none, some, List, [], ◌∷◌, arith, ok, In, suc,
  if◌then◌else◌,
}
use ndns.Packets.{Data, Interest, name_lt, name_eq, make_data}
use ndns.Label.{match_interest, txt_rr_type}
use ndns.Label.Match.{query_name}
use ndns.Clients.ContentType.{ndns_auth, ndns_doe, ndns_link}
use ndns.Clients.Controller.{
  Controller, Cache, make_controller, query_rr, answer_stub, is_absent_by_doe, advance,
  make_latest_interest, on_data,
}
use ndns.Clients.Controller.Termination.{Finishes, on_data-Finishes}
use ndns.Clients.Controller.Doe.{is_absent_by_doe_iff}
use ndns.Clients.Controller.Split.{make_latest_interest-query_rr}
use ndns.Clients.Controller.Progress.{IsQuerying, covered, advance-progress}
use ndns.Daemon.RrsetFactory.Packets.{range_content, wire_decode_doe-range_content}
use ndns.Tests.Toy.{toy}
use ndns.Tests.Clients.{net, ucla, www}

-- A cache that holds the packets inserted and finds the first of the Interest's name.
unfoldable pub find_data : List Data → Interest → Option Data
find_data [] i = none
find_data (d ∷ ds) i = if name_eq d.name i.name then some d else find_data ds i

pub find_data-In : (ds : List Data) (i : Interest) (d : Data) → find_data ds i ≡ some d → In d ds
unfolding find_data
find_data-In [] i d h = absurd (ground arith)
find_data-In (e ∷ ds) i d h = ground (arith, find_data-In ds i d)

pub insert-In : (s : List Data) (d e : Data) → In e (d ∷ s) → In e s ⊎ (e ≡ d)
insert-In s d e (inl h) = inr h
insert-In s d e (inr h) = inl h

instance abbrev pub toy_cache : Cache
toy_cache = record {
  Storage = List Data;
  find = find_data;
  insert = ◌∷◌;
  Holds = λ s d. In d s;
  find-Holds = find_data-In;
  insert-Holds = insert-In;
}

abbrev start_state : Controller
start_state = make_controller (net ∷ ucla ∷ www ∷ []) txt_rr_type 4000 none

abbrev asking : Controller
asking = record start_state { last_label_type = ucla ∷ txt_rr_type ∷ [] }

abbrev doe_data : Data
doe_data = record (make_data (net ∷ [])) {
  content = range_content (net ∷ txt_rr_type ∷ []) (www ∷ txt_rr_type ∷ []);
  content_type = ndns_doe;
}

is_absent_by_doe_iff_example : (is_absent_by_doe asking doe_data ≡ ok true) ↔ (
    ((name_lt (net ∷ txt_rr_type ∷ []) (ucla ∷ txt_rr_type ∷ []) ≡ true)
      × (name_lt (ucla ∷ txt_rr_type ∷ []) (www ∷ txt_rr_type ∷ []) ≡ true))
    ⊎ (name_lt (www ∷ txt_rr_type ∷ []) (net ∷ txt_rr_type ∷ []) ≡ true))
is_absent_by_doe_iff_example =
    is_absent_by_doe_iff asking doe_data (net ∷ txt_rr_type ∷ []) (www ∷ txt_rr_type ∷ [])
      (wire_decode_doe-range_content (net ∷ txt_rr_type ∷ []) (www ∷ txt_rr_type ∷ []))

abbrev last_step : Controller
last_step = record start_state { step = query_rr; n_finished_comps = 1 }

abbrev last_interest : Interest
last_interest = record {
  name = query_name (net ∷ []) (ucla ∷ www ∷ []) (txt_rr_type ∷ []);
  can_be_prefix = true;
  lifetime = 4000;
  forwarding_hint = [];
}

make_latest_interest-query_rr_example :
    (last_interest.name ≡ query_name (net ∷ []) (ucla ∷ www ∷ []) (txt_rr_type ∷ []))
    × (match_interest last_interest.name (net ∷ [])
        ≡ some (record { rr_label = ucla ∷ www ∷ []; rr_type = txt_rr_type; version = [] }))
    × (ucla ∷ www ∷ txt_rr_type ∷ [] ≡ ucla ∷ www ∷ txt_rr_type ∷ [])
unfolding make_controller make_latest_interest to_interest
make_latest_interest-query_rr_example =
    make_latest_interest-query_rr last_step
      (record last_step { last_label_type = ucla ∷ www ∷ txt_rr_type ∷ [] }) last_interest refl refl
      refl

start_state-IsQuerying : IsQuerying start_state
unfolding make_controller
start_state-IsQuerying = record { asks_ns = refl; tries = omega arith; within = omega arith }

abbrev after_auth : Controller
after_auth = record start_state { n_try_comps = 2 }

advance-progress_example :
    ((after_auth.step ≡ answer_stub) ⊎ (after_auth.step ≡ query_rr))
    ⊎ (IsQuerying after_auth
        × (covered after_auth ≡ suc (covered start_state))
        × (after_auth.dst_label ≡ start_state.dst_label))
unfolding advance make_controller
advance-progress_example =
    advance-progress start_state after_auth doe_data ndns_auth start_state-IsQuerying (inr refl)
      refl

abbrev pub link_data : Data
link_data = record (make_data (net ∷ [])) { content_type = ndns_link }

pub links-only : (d : Data) → In d (link_data ∷ []) → d.content_type ≡ ndns_link
links-only d (inl e) = ap (λ (x : Data). x.content_type) e
links-only d (inr i) = absurd i

-- A search with one LINK packet in its cache
abbrev pub cached_start : Controller
cached_start = record start_state { ns_cache = some (link_data ∷ []) }

on_data-Finishes_example : Finishes (on_data 5 (λ _. true) link_data cached_start)
unfolding make_controller
on_data-Finishes_example =
    on_data-Finishes 5 (λ _. true) link_data cached_start (omega arith) links-only
