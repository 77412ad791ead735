-- ===== src/Clients/Controller.antt =====
-- src/clients/query-controller.hpp, src/clients/iterative-query-controller.hpp and .cpp. The cache
-- (ndn::InMemoryStorage) and the validator's verdict are parameters; what the controller does next
-- is its outcome: an Interest sent and waited for, the callback `onSucceed`, or `onFail`.
pub mod Doe
pub mod Progress
pub mod Rank
pub mod Termination
pub mod Split
use ndns.Prelude.{
  ℕ, zero, suc, ◌+◌, ◌<◌, ◌≡◌, ◌⊎◌, Bool, true, false, ◌&&◌, ◌||◌, Option, none, some, List, [],
  ◌∷◌, ◌++◌, if◌then◌else◌, Exec, pure, raise, lift, ◌>>=◌, ◌>>◌, Result, ok, err, bad_packet,
  absence_not_inferred, unexpected_state, ◌==◌, ltb, length,
}
use ndns.Ndn.{Ndn}
use ndns.Packets.{Name, Component, Block, Data, Interest, component_eq, name_lt}
use ndns.Label.{ndns_iterative_query, ns_rr_type}
use ndns.Clients.ContentType.{ndns_nack, ndns_doe, ndns_link, ndns_auth}
use ndns.Clients.Query.{Query, make_query, to_interest, set_forwarding_hint}
use ndns.Clients.Response.{Response, make_response, from_data, wire_decode_doe}

pub data QueryStep : Type 0 where
  query_ns query_rr answer_stub abort_step : QueryStep

module _ ⦃ndn : Ndn⦄ where
  -- The cache that the controllers share, seen through `find`; every hit was inserted before.
  pub record Cache : Type 1 where
    pub Storage : Type 0
    pub find : Storage → Interest → Option Data
    pub insert : Data → Storage → Storage
    pub Holds : Storage → Data → Type 0
    pub find-Holds : (s : Storage) (i : Interest) (d : Data) → find s i ≡ some d → Holds s d
    pub insert-Holds : (s : Storage) (d e : Data) → Holds (insert d s) e → Holds s e ⊎ (e ≡ d)

  pub data Outcome : Type 0 where
    waiting : Interest → Outcome
    succeeded : Data → Response → Outcome
    failed : Outcome
    -- not of the program: the model's fuel ran out
    unfinished : Outcome

  -- The test of isAbsentByDoe on the range and the last query's label and type.
  unfoldable pub in_range : Name → Name → Name → Bool
  in_range lower upper q =
      (name_lt lower q && name_lt q upper)
      || (name_lt upper lower && (name_lt q lower || name_lt upper q))

  -- onData: the DoE inside a NACK, or the packet itself, and the content type to go on with.
  unfoldable pub unwrap : Data → Result (Data × ℕ)
  unwrap d =
      if d.content_type == ndns_nack
      then (elim (ndn.block_from_value d.content) [
        | none ↦ err bad_packet
        | some b ↦ elim (ndn.block_data b) [ none ↦ err bad_packet | some doe ↦ ok (doe, ndns_doe) ]
      ])
      else ok (d, d.content_type)

module _ ⦃ndn : Ndn⦄ ⦃cache : Cache⦄ where
  -- `m_lastLink` is none while it is an empty block; `m_nsCache` is none while it is null.
  pub record Controller : Type 0 where
    pub dst_label : Name
    pub rr_type : Component
    pub interest_lifetime : ℕ
    pub step : QueryStep
    pub n_finished_comps : ℕ
    pub n_try_comps : ℕ
    pub last_link : Option Block
    pub last_label_type : Name
    pub ns_cache : Option cache.Storage

  unfoldable pub make_controller : Name → Component → ℕ → Option cache.Storage → Controller
  make_controller dst_label rr_type lifetime storage = record {
    dst_label = dst_label;
    rr_type = rr_type;
    interest_lifetime = lifetime;
    step = query_ns;
    n_finished_comps = 0;
    n_try_comps = 1;
    last_link = none;
    last_label_type = [];
    ns_cache = storage;
  }

  unfoldable pub set_start_component_index : ℕ → Controller → Controller
  set_start_component_index finished c = record c { n_finished_comps = finished }

  unfoldable pub has_ended : QueryStep → Bool
  has_ended query_ns = false
  has_ended query_rr = false
  has_ended answer_stub = true
  has_ended abort_step = true

  unfoldable pub is_absent_by_doe : Controller → Data → Result Bool
  unfolding in_range
  is_absent_by_doe c d = elim (wire_decode_doe d.content) [
    | err e ↦ err e
    | ok (lower, upper) ↦ ok (in_range lower upper c.last_label_type)
  ]

  on_doe : Data → Exec Controller (Unit {0})
  unfolding is_absent_by_doe
  on_doe d c = elim (is_absent_by_doe c d) [
    | err e ↦ (err e, c)
    | ok absent ↦
        if absent then (ok tt, record c { step = query_rr }) else (err absence_not_inferred, c)
  ]

  nonempty : List Name → Block → Option Block
  nonempty [] b = none
  nonempty (n ∷ ns) b = some b

  on_link : Data → Exec Controller (Unit {0})
  unfolding nonempty
  on_link d c = elim (ndn.link_delegations (ndn.data_block d)) [
    | none ↦ (err bad_packet, c)
    | some delegations ↦
        let linked = record c { last_link = nonempty delegations (ndn.data_block d) } in
        (
          ok tt,
          if (c.n_finished_comps + c.n_try_comps == length c.dst_label)
                && component_eq c.rr_type ns_rr_type
              then record linked { step = answer_stub }
              else record linked {
                n_finished_comps = c.n_finished_comps + c.n_try_comps;
                n_try_comps = 1;
              },
        )
  ]

  -- the bound check behind the cases of QUERY_STEP_QUERY_NS
  bound_ns : Controller → Controller
  bound_ns c =
      if ltb (length c.dst_label) (c.n_finished_comps + c.n_try_comps)
      then record c { step = if component_eq c.rr_type ns_rr_type then answer_stub else query_rr }
      else c

  unfoldable pub advance_ns : Data → ℕ → Exec Controller (Unit {0})
  unfolding on_doe on_link bound_ns
  advance_ns d content_type = do
    (if content_type == ndns_doe
        then on_doe d
        else if content_type == ndns_link
        then on_link d
        else if content_type == ndns_auth
        then (λ c. (ok tt, record c { n_try_comps = c.n_try_comps + 1 }))
        else pure tt)
    λ c. (ok tt, bound_ns c)

  -- The switch of onDataValidated.
  unfoldable pub advance : QueryStep → Data → ℕ → Exec Controller (Unit {0})
  unfolding advance_ns
  advance query_ns d content_type c = advance_ns d content_type c
  advance query_rr d content_type c = (ok tt, record c { step = answer_stub })
  advance answer_stub d content_type c = (ok tt, record c { step = abort_step })
  advance abort_step d content_type c = (ok tt, record c { step = abort_step })

  remember : Data → ℕ → Controller → Controller
  remember d content_type c = elim c.ns_cache [
    | none ↦ c
    | some s ↦
        if content_type == ndns_link then record c { ns_cache = some (cache.insert d s) } else c
  ]

  with_link : Option Block → Query → Result Query
  with_link none q = ok q
  with_link (some b) q = elim (ndn.link_delegations b) [
    | none ↦ err bad_packet
    | some delegations ↦ ok (set_forwarding_hint delegations q)
  ]

  -- The query of the current step.
  unfoldable pub latest_query : QueryStep → Controller → Query → Result Query
  latest_query query_ns c q = ok (record q {
    query_type = ndns_iterative_query;
    rr_label = ndn.get_sub_name c.dst_label c.n_finished_comps c.n_try_comps;
    rr_type = ns_rr_type;
  })
  latest_query query_rr c q = ok (record q {
    query_type = ndns_iterative_query;
    rr_label = ndn.get_sub_name_from c.dst_label c.n_finished_comps;
    rr_type = c.rr_type;
  })
  latest_query _ c q = err unexpected_state

  unfoldable pub make_latest_interest : Exec Controller Interest
  unfolding with_link latest_query make_query set_forwarding_hint
  make_latest_interest = do
    c ← λ s. (ok s, s)
    linked ← lift (
        with_link c.last_link (record (make_query c.interest_lifetime) {
          zone = ndn.get_prefix c.dst_label c.n_finished_comps;
        }))
    query ← lift (latest_query c.step c linked)
    λ s. (
      ok (to_interest query),
      record s { last_label_type = query.rr_label ++ query.rr_type ∷ [] },
    )

  unfoldable pub parse_final_response : Controller → Data → Response
  parse_final_response c d =
      (from_data (ndn.get_prefix c.dst_label c.n_finished_comps) d
        (make_response [] ndn.empty_component)).0

  abbrev cached : Option cache.Storage → Interest → Option Data
  cached none i = none
  cached (some s) i = cache.find s i

  -- The case behind the switch that ends the query.
  finish : QueryStep → Data → Exec Controller Outcome
  finish answer_stub d c = (ok (succeeded d (parse_final_response c d)), c)
  finish _ d c = (ok failed, c)

  -- onDataValidated, given what `express` does with the next Interest
  on_data_validated :
      (Controller → Interest → Result Outcome × Controller) → Data → ℕ → Exec Controller Outcome
  unfolding remember advance finish has_ended
  on_data_validated express d content_type = do
    (λ c. (ok tt, remember d content_type c))
    c ← λ s. (ok s, s)
    advance c.step d content_type
    c' ← λ s. (ok s, s)
    if has_ended c'.step
        then finish c'.step d
        else (do interest ← make_latest_interest; λ s. express s interest)

  after_unwrap :
      (Data → Bool)
      → (Controller → Interest → Result Outcome × Controller)
      → Result (Data × ℕ)
      → Exec Controller Outcome
  unfolding on_data_validated
  after_unwrap valid express (err e) c = (err e, c)
  after_unwrap valid express (ok (d, content_type)) c =
      if valid d then on_data_validated express d content_type c else (ok failed, c)

  -- onData, onDataValidated and express call one another for as long as the cache answers.
  unfoldable pub on_data : ℕ → (Data → Bool) → Data → Exec Controller Outcome
  unfolding unwrap after_unwrap
  on_data zero valid d c = (ok unfinished, c)
  on_data (suc fuel) valid d c =
      after_unwrap valid
        (λ c' interest. elim (cached c'.ns_cache interest) [
          | none ↦ (ok (waiting interest), c')
          | some hit ↦ on_data fuel valid hit c'
        ])
        (unwrap d) c

  unfoldable pub express : ℕ → (Data → Bool) → Interest → Exec Controller Outcome
  unfolding on_data
  express fuel valid interest = do
    c ← λ s. (ok s, s)
    (elim (cached c.ns_cache interest) [
      | none ↦ pure (waiting interest)
      | some hit ↦ on_data fuel valid hit
    ])

  unfoldable pub start : ℕ → (Data → Bool) → Exec Controller Outcome
  unfolding express
  start fuel valid = do
    (λ c. (
      ok tt,
      if length c.dst_label == c.n_finished_comps then record c { step = query_rr } else c,
    ))
    interest ← make_latest_interest
    express fuel valid interest

  -- onTimeout, and abort
  unfoldable pub on_timeout : Interest → Exec Controller Outcome
  on_timeout interest c = (ok failed, c)
