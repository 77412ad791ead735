-- ===== src/Tools/Dig.antt =====
-- tools/ndns-dig.cpp: the class NdnsDig, which looks a name up and has the packet found validated. The
-- verdicts of the validator are parameters; the packets written to the destination file are kept.
pub mod Exit
use ndns.Prelude.{
  ℕ, ◌+◌, Bool, true, false, ◌||◌, ◌&&◌, not, Option, none, some, List, [], ◌∷◌, ◌++◌,
  if◌then◌else◌, Result, ok, err, length, ltb,
}
use ndns.Ndn.{Ndn}
use ndns.Packets.{Name, Component, Data, Interest, component_eq, name_eq}
use ndns.Clients.Response.{Response}
use ndns.Clients.Controller.{
  Cache, Controller, Outcome, waiting, succeeded, failed, unfinished, make_controller,
  set_start_component_index, start, on_data, on_timeout,
}

module _ ⦃ndn : Ndn⦄ ⦃cache : Cache⦄ where
  pub data DigPhase : Type 0 where
    querying : Controller → Interest → DigPhase
    validating : Data → DigPhase
    -- the io context is stopped, or an exception has ended `run`
    ended : DigPhase
    -- not of the program: the query ran out of the model's fuel
    stuck : DigPhase

  pub record NdnsDig : Type 0 where
    pub dst_label : Name
    pub rr_type : Component
    pub interest_lifetime : ℕ
    pub controller : Controller
    pub has_error : Bool
    pub has_dst_file : Bool
    pub output : List Data
    pub phase : DigPhase

  -- The controller takes the default lifetime, and no cache.
  unfoldable pub make_ndns_dig : Name → Component → ℕ → NdnsDig
  make_ndns_dig dst_label rr_type default_lifetime = record {
    dst_label = dst_label;
    rr_type = rr_type;
    interest_lifetime = default_lifetime;
    controller = make_controller dst_label rr_type default_lifetime none;
    has_error = false;
    has_dst_file = false;
    output = [];
    phase = ended;
  }

  unfoldable pub set_interest_lifetime : ℕ → NdnsDig → NdnsDig
  set_interest_lifetime lifetime dig = record dig { interest_lifetime = lifetime }

  unfoldable pub set_dst_file : Bool → NdnsDig → NdnsDig
  set_dst_file given dig = record dig { has_dst_file = given }

  unfoldable pub set_start_zone : Name → NdnsDig → NdnsDig
  set_start_zone zone dig = record dig {
    controller = set_start_component_index (length zone) dig.controller;
  }

  -- onSucceed, but for what it logs
  unfoldable pub on_succeed : Data → Response → NdnsDig → NdnsDig
  on_succeed d response dig = record dig {
    output = if dig.has_dst_file then dig.output ++ d ∷ [] else dig.output;
    phase = validating d;
  }

  unfoldable pub on_fail : NdnsDig → NdnsDig
  on_fail dig = record dig { has_error = true; phase = ended }

  -- onDataValidated and onDataValidationFailed
  unfoldable pub on_judged : Bool → NdnsDig → NdnsDig
  on_judged valid dig = record dig { has_error = dig.has_error || not valid; phase = ended }

  settle : Result Outcome × Controller → NdnsDig → NdnsDig
  unfolding on_succeed on_fail
  settle (err e, c) dig = record dig { has_error = true; phase = ended }
  settle (ok (waiting i), c) dig = record dig { phase = querying c i }
  settle (ok (succeeded d response), c) dig = on_succeed d response dig
  settle (ok failed, c) dig = on_fail dig
  settle (ok unfinished, c) dig = record dig { phase = stuck }

  pub data DigEvent : Type 0 where
    arrived : Data → DigEvent
    lost : DigEvent
    judged : Bool → DigEvent

  -- A query takes no more rounds than this.
  abbrev dig_fuel : Controller → ℕ
  dig_fuel c = 3 + length c.dst_label

  unfoldable pub run : (Data → Bool) → NdnsDig → NdnsDig
  unfolding settle
  run valid dig = settle (start (dig_fuel dig.controller) valid dig.controller) dig

  dispatch : (Data → Bool) → DigPhase → DigEvent → NdnsDig → NdnsDig
  unfolding settle on_judged
  dispatch valid (querying c i) (arrived d) dig = settle (on_data (dig_fuel c) valid d c) dig
  dispatch valid (querying c i) lost dig = settle (on_timeout i c) dig
  dispatch valid (validating d) (judged v) dig = on_judged v dig
  dispatch valid _ e dig = dig

  unfoldable pub on_events : (Data → Bool) → List DigEvent → NdnsDig → NdnsDig
  unfolding dispatch
  on_events valid [] dig = dig
  on_events valid (e ∷ es) dig = on_events valid es (dispatch valid dig.phase e dig)

  -- The end of main
  unfoldable pub exit_status : NdnsDig → ℕ
  exit_status dig = if dig.has_error then 1 else 0
