-- ===== src/Clients/Controller/Rank.antt =====
-- A number that falls as the search goes on (src/clients/iterative-query-controller.cpp).
use ndns.Prelude.{ℕ, ◌+◌, ◌-◌, ◌≤◌, ◌<◌, ◌≡◌, inl, inr, refl, arith, ok, ◌==◌, length, Bool-cases}
use ndns.Ndn.{Ndn}
use ndns.Packets.{Data, Interest}
use ndns.Clients.ContentType.{ndns_doe, ndns_link, ndns_auth}
use ndns.Clients.Controller.{
  Controller, Cache, QueryStep, query_ns, query_rr, answer_stub, abort_step, advance,
  make_latest_interest,
}

module _ ⦃ndn : Ndn⦄ ⦃cache : Cache⦄ where
  -- How many answers out of the cache a controller can still take.
  abbrev pub rank_of : QueryStep → ℕ → ℕ
  rank_of query_ns left = 2 + left
  rank_of query_rr left = 1
  rank_of answer_stub left = 0
  rank_of abort_step left = 0

  abbrev pub rank : Controller → ℕ
  rank c = rank_of c.step (length c.dst_label - (c.n_finished_comps + c.n_try_comps))

  rank_of-le : (step : QueryStep) (left : ℕ) → rank_of step left ≤ 2 + left
  rank_of-le query_ns left = omega arith
  rank_of-le query_rr left = omega arith
  rank_of-le answer_stub left = omega arith
  rank_of-le abort_step left = omega arith

  pub rank-le : (c : Controller) → rank c ≤ 2 + length c.dst_label
  rank-le c =
      let below = rank_of-le c.step (length c.dst_label - (c.n_finished_comps + c.n_try_comps)) in
      omega (arith, below)

  -- No answer raises the rank, a LINK answer lowers it, and the cache stays.
  pub advance-rank :
      (step : QueryStep) (c c' : Controller) (d : Data) (content_type : ℕ)
      → c.step ≡ step
      → advance step d content_type c ≡ (ok tt, c')
      → (rank c' ≤ rank c)
        × (content_type ≡ ndns_link → 0 < rank c → rank c' < rank c)
        × (c'.ns_cache ≡ c.ns_cache)
  unfolding advance
  advance-rank query_ns c c' d t s h = elim (Bool-cases (t == ndns_doe)) [
    | inl e ↦ (
      ground arith,
      λ l p. absurd (ground (arith, ndn.link-lt-key, ndn.key-lt-nack, ndn.nack-lt-1085)),
      ground arith,
    )
    | inr e ↦ elim (Bool-cases (t == ndns_link)) [
      | inl l ↦ (ground arith, λ _ p. ground arith, ground arith)
      | inr l ↦ elim (Bool-cases (t == ndns_auth)) [
        | inl a ↦ (ground arith, λ k p. absurd (ground arith), ground arith)
        | inr a ↦ (ground arith, λ k p. absurd (ground arith), ground arith)
      ]
    ]
  ]
  advance-rank query_rr c c' d t s h = (ground arith, λ l p. ground arith, ground arith)
  advance-rank answer_stub c c' d t s h = (ground arith, λ l p. ground arith, ground arith)
  advance-rank abort_step c c' d t s h = (ground arith, λ l p. ground arith, ground arith)

  pub make_latest_interest-rank :
      (c c' : Controller) (i : Interest)
      → make_latest_interest c ≡ (ok i, c')
      → (rank c' ≡ rank c) × (c'.ns_cache ≡ c.ns_cache)
  unfolding make_latest_interest
  make_latest_interest-rank c c' i h = (ground arith, ground arith)

  -- Nor does a step that throws touch the cache.
  pub advance-ns_cache :
      (step : QueryStep) (c : Controller) (d : Data) (content_type : ℕ)
      → (advance step d content_type c).1.ns_cache ≡ c.ns_cache
  unfolding advance
  advance-ns_cache query_ns c d t = ground arith
  advance-ns_cache query_rr c d t = refl
  advance-ns_cache answer_stub c d t = refl
  advance-ns_cache abort_step c d t = refl

  pub make_latest_interest-ns_cache :
      (c : Controller) → (make_latest_interest c).1.ns_cache ≡ c.ns_cache
  unfolding make_latest_interest
  make_latest_interest-ns_cache c = ground arith
