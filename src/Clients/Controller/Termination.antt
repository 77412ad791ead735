-- ===== src/Clients/Controller/Termination.antt =====
-- onData, onDataValidated and express (src/clients/iterative-query-controller.cpp) call one another
-- for as long as the cache answers. The cache takes only LINK packets, so the calls come to an end.
use ndns.Prelude.{
  Exec, ℕ, zero, suc, ◌+◌, ◌-◌, ◌≤◌, ◌<◌, ◌≡◌, ◌≢◌, inl, inr, refl, sym, ap, ◌∙◌, subst, Bool,
  false, Option, none, some, arith, Result, ok, ◌==◌, if◌then◌else◌, length, Result-cases,
  Bool-cases, Option-cases,
}
use ndns.Ndn.{Ndn}
use ndns.Packets.{Data, Interest}
use ndns.Clients.ContentType.{ndns_link, ndns_nack}
use ndns.Clients.Controller.{
  Controller, Cache, Outcome, unfinished, waiting, QueryStep, query_ns, query_rr, answer_stub,
  abort_step, advance, make_latest_interest, remember, finish, has_ended, on_data_validated,
  after_unwrap, on_data, express, start, unwrap, cached,
}
use ndns.Clients.Controller.Rank.{
  rank, rank_of, advance-rank, make_latest_interest-rank, advance-ns_cache,
  make_latest_interest-ns_cache,
}

module _ ⦃ndn : Ndn⦄ ⦃cache : Cache⦄ where
  -- The cache, if there is one, holds LINK packets only.
  abbrev pub HoldsLinks : Option cache.Storage → Type 0
  HoldsLinks none = Unit
  HoldsLinks (some s) = (d : Data) → cache.Holds s d → d.content_type ≡ ndns_link

  -- The model's fuel has not run out, and the cache still holds LINK packets only.
  abbrev pub Finishes : Result Outcome × Controller → Type 0
  Finishes r = (r.0 ≢ ok unfinished) × HoldsLinks r.1.ns_cache

  unwrap-link :
      (d d' : Data) (t : ℕ) → unwrap d ≡ ok (d', t) → t ≡ ndns_link → d'.content_type ≡ ndns_link
  unfolding unwrap
  unwrap-link d d' t h l = elim (Bool-cases (d.content_type == ndns_nack)) [
    | inr n ↦ ground arith
    | inl n ↦ absurd (ground (arith, ndn.link-lt-key, ndn.key-lt-nack, ndn.nack-lt-1085))
  ]

  link-unwrap :
      (d d' : Data) (t : ℕ) → unwrap d ≡ ok (d', t) → d.content_type ≡ ndns_link → t ≡ ndns_link
  unfolding unwrap
  link-unwrap d d' t h l = ground (arith, ndn.link-lt-key, ndn.key-lt-nack)

  insert-HoldsLinks :
      (s : cache.Storage) (d : Data)
      → HoldsLinks (some s)
      → d.content_type ≡ ndns_link
      → HoldsLinks (some (cache.insert d s))
  insert-HoldsLinks s d h l x i = elim (cache.insert-Holds s d x i) [
    | inl j ↦ h x j
    | inr q ↦ ap (λ (y : Data). y.content_type) q ∙ l
  ]

  remember-HoldsLinks :
      (d : Data) (t : ℕ) (c : Controller) (storage : Option cache.Storage)
      → c.ns_cache ≡ storage
      → (t ≡ ndns_link → d.content_type ≡ ndns_link)
      → HoldsLinks storage
      → HoldsLinks (remember d t c).ns_cache
        × (rank (remember d t c) ≡ rank c)
        × ((remember d t c).step ≡ c.step)
  unfolding remember
  remember-HoldsLinks d t c none e l h =
      let q : remember d t c ≡ c = ground arith in
      (
        subst HoldsLinks (sym (ap (λ (x : Controller). x.ns_cache) q ∙ e)) h,
        ap rank q,
        ap (λ (x : Controller). x.step) q,
      )
  remember-HoldsLinks d t c (some s) e l h = elim (Bool-cases (t == ndns_link)) [
    | inr n ↦
        let q : remember d t c ≡ c = ground arith in
        (
          subst HoldsLinks (sym (ap (λ (x : Controller). x.ns_cache) q ∙ e)) h,
          ap rank q,
          ap (λ (x : Controller). x.step) q,
        )
    | inl y ↦
        let q : remember d t c ≡ record c { ns_cache = some (cache.insert d s) } = ground arith in
        (
          subst HoldsLinks (sym (ap (λ (x : Controller). x.ns_cache) q))
              (insert-HoldsLinks s d h (l (ground arith))),
          ap rank q,
          ap (λ (x : Controller). x.step) q,
        )
  ]

  finish-Finishes :
      (step : QueryStep) (d : Data) (c : Controller)
      → HoldsLinks c.ns_cache
      → Finishes (finish step d c)
  unfolding finish
  finish-Finishes query_ns d c h = (λ q. cc, h)
  finish-Finishes query_rr d c h = (λ q. cc, h)
  finish-Finishes answer_stub d c h = (λ q. cc, h)
  finish-Finishes abort_step d c h = (λ q. cc, h)

  active-rank : (step : QueryStep) (left : ℕ) → has_ended step ≡ false → 0 < rank_of step left
  unfolding has_ended
  active-rank query_ns left h = omega arith
  active-rank query_rr left h = omega arith
  active-rank answer_stub left h = absurd (ground arith)
  active-rank abort_step left h = absurd (ground arith)

  -- One packet: what is left to the rest of the search is a controller of no higher rank, of a lower
  -- one after a LINK packet, and with a step to take.
  on_data_validated-Finishes :
      (express : Controller → Interest → Result Outcome × Controller) (d : Data) (t : ℕ)
      (c : Controller)
      → (t ≡ ndns_link → d.content_type ≡ ndns_link)
      → HoldsLinks c.ns_cache
      → ((c' : Controller) (i : Interest)
          → rank c' ≤ rank c
          → (t ≡ ndns_link → 0 < rank c → rank c' < rank c)
          → 0 < rank c'
          → HoldsLinks c'.ns_cache
          → Finishes (express c' i))
      → Finishes (on_data_validated express d t c)
  unfolding on_data_validated
  on_data_validated-Finishes express d t c l h rest =
      let c1 = remember d t c in
      let (h1, r1, s1) = remember-HoldsLinks d t c c.ns_cache refl l h in
      elim (Result-cases (advance c1.step d t c1).0) [
        | inr (e, a) ↦ rw a (λ q. cc, subst HoldsLinks (sym (advance-ns_cache c1.step c1 d t)) h1)
        | inl (u, a) ↦
            let c2 = (advance c1.step d t c1).1 in
            let (le, lt, same) = advance-rank c1.step c1 c2 d t refl (ground arith) in
            let h2 = subst HoldsLinks (sym same) h1 in
            elim (Bool-cases (has_ended c2.step)) [
              | inl f ↦ rw (a, f) (finish-Finishes c2.step d c2 h2)
              | inr f ↦ elim (Result-cases (make_latest_interest c2).0) [
                | inr (e, m) ↦
                    rw (a, f, m)
                      (λ q. cc, subst HoldsLinks (sym (make_latest_interest-ns_cache c2)) h2)
                | inl (i, m) ↦
                    let c3 = (make_latest_interest c2).1 in
                    let (r3, same3) = make_latest_interest-rank c2 c3 i (ground arith) in
                    let active =
                      active-rank c2.step
                        (length c2.dst_label - (c2.n_finished_comps + c2.n_try_comps)) f in
                    rw (a, f, m)
                      (rest c3 i (omega (arith, r3, r1, le))
                        (λ y p.
                          let below = lt y (omega (arith, r1, p)) in omega (arith, r3, r1, below))
                        (omega (arith, r3, active)) (subst HoldsLinks (sym same3) h2))
              ]
            ]
      ]

  -- What an Interest leads to, given what each hit of the cache does.
  abbrev resume :
      (Data → Exec Controller Outcome) → Controller → Interest → Result Outcome × Controller
  resume go c i = elim (cached c.ns_cache i) [ none ↦ (ok (waiting i), c) | some hit ↦ go hit c ]

  cached-link :
      (storage : Option cache.Storage) (i : Interest) (d : Data)
      → HoldsLinks storage
      → cached storage i ≡ some d
      → d.content_type ≡ ndns_link
  cached-link none i d h e = absurd (ground arith)
  cached-link (some s) i d h e = h d (cache.find-Holds s i d e)

  resume-Finishes :
      (go : Data → Exec Controller Outcome) (c : Controller) (i : Interest)
      → HoldsLinks c.ns_cache
      → ((hit : Data) → hit.content_type ≡ ndns_link → Finishes (go hit c))
      → Finishes (resume go c i)
  resume-Finishes go c i h f = elim (Option-cases (cached c.ns_cache i)) [
    | inl n ↦ rw (n, resume) (λ q. cc, h)
    | inr (hit, e) ↦ rw (e, resume) (f hit (cached-link c.ns_cache i hit h e))
  ]

  after_unwrap-Finishes :
      (valid : Data → Bool) (go : Data → Exec Controller Outcome) (d : Data) (c : Controller)
      → HoldsLinks c.ns_cache
      → ((c' : Controller) (hit : Data)
          → rank c' ≤ rank c
          → (d.content_type ≡ ndns_link → 0 < rank c → rank c' < rank c)
          → 0 < rank c'
          → HoldsLinks c'.ns_cache
          → hit.content_type ≡ ndns_link
          → Finishes (go hit c'))
      → Finishes (after_unwrap valid (resume go) (unwrap d) c)
  unfolding after_unwrap
  after_unwrap-Finishes valid go d c h f = elim (Result-cases (unwrap d)) [
    | inr (e, u) ↦ rw u (λ q. cc, h)
    | inl ((d', t), u) ↦ elim (Bool-cases (valid d')) [
      | inr v ↦ rw (u, v) (λ q. cc, h)
      | inl v ↦
          rw (u, v)
            (on_data_validated-Finishes (resume go) d' t c (unwrap-link d d' t u) h
              (λ c' i le lt pos links.
                resume-Finishes go c' i links
                  (λ hit l. f c' hit le (λ y p. lt (link-unwrap d d' t u y) p) pos links l)))
    ]
  ]

  on_link_data-Finishes :
      (fuel : ℕ) (valid : Data → Bool) (d : Data) (c : Controller)
      → d.content_type ≡ ndns_link
      → 0 < rank c
      → rank c ≤ fuel
      → HoldsLinks c.ns_cache
      → Finishes (on_data fuel valid d c)
  unfolding on_data
  on_link_data-Finishes zero valid d c l p b h = absurd (omega (arith, p, b))
  on_link_data-Finishes (suc fuel) valid d c l p b h =
      after_unwrap-Finishes valid (on_data fuel valid) d c h (λ c' hit le lt pos links k.
        let below = lt l p in
        on_link_data-Finishes fuel valid hit c' k pos (omega (arith, below, b)) links)

  -- A packet of any type is dealt with before fuel runs out that is above the controller's rank, and
  -- a cache of LINK packets only stays one. The rank of a controller is at most 2 more than the
  -- number of components it looks up.
  pub on_data-Finishes :
      (fuel : ℕ) (valid : Data → Bool) (d : Data) (c : Controller)
      → rank c < fuel
      → HoldsLinks c.ns_cache
      → Finishes (on_data fuel valid d c)
  unfolding on_data
  on_data-Finishes zero valid d c b h = elim b [ ]
  on_data-Finishes (suc fuel) valid d c b h =
      after_unwrap-Finishes valid (on_data fuel valid) d c h (λ c' hit le lt pos links k.
        on_link_data-Finishes fuel valid hit c' k pos (omega (arith, le, b)) links)

  express-Finishes :
      (fuel : ℕ) (valid : Data → Bool) (i : Interest) (c : Controller)
      → rank c < fuel
      → HoldsLinks c.ns_cache
      → Finishes (express fuel valid i c)
  unfolding express
  express-Finishes fuel valid i c b h = elim (Option-cases (cached c.ns_cache i)) [
    | inl n ↦
        let w : express fuel valid i c ≡ (ok (waiting i), c) = ground arith in rw w (λ q. cc, h)
    | inr (hit, e) ↦
        let w : express fuel valid i c ≡ on_data fuel valid hit c = ground arith in
        rw w (on_data-Finishes fuel valid hit c b h)
  ]

  -- A search that starts in its first step with a cache of LINK packets only comes to wait for a
  -- packet, or to its end, before fuel runs out that is above 2 more than the number of components it
  -- looks up, and the cache still holds LINK packets only.
  pub start-Finishes :
      (fuel : ℕ) (valid : Data → Bool) (c : Controller)
      → c.step ≡ query_ns
      → 2 + length c.dst_label < fuel
      → HoldsLinks c.ns_cache
      → Finishes (start fuel valid c)
  unfolding start
  start-Finishes fuel valid c s b h =
      let c1 : Controller =
        if length c.dst_label == c.n_finished_comps then record c { step = query_rr } else c in
      let r1 : rank c1 < fuel = ground arith in
      let h1 : HoldsLinks c1.ns_cache = subst HoldsLinks (ground arith) h in
      elim (Result-cases (make_latest_interest c1).0) [
        | inr (e, m) ↦ rw m (λ q. cc, subst HoldsLinks (sym (make_latest_interest-ns_cache c1)) h1)
        | inl (i, m) ↦
            let c2 = (make_latest_interest c1).1 in
            let (r2, same) = make_latest_interest-rank c1 c2 i (ground arith) in
            rw m (
              express-Finishes fuel valid i c2 (omega (arith, r2, r1))
                (subst HoldsLinks (sym same) h1))
      ]
