-- ===== src/Clients/Query/Roundtrip.antt =====
-- A query read back from the Interest that it makes.
use ndns.Prelude.{◌≡◌, true, false, [], ◌∷◌, ◌++◌, arith}
use ndns.Ndn.{Ndn}
use ndns.Label.{ndns_iterative_query}
use ndns.Label.Match.{match_interest-query}
use ndns.Clients.Query.{Query, from_interest, to_interest}

module _ ⦃ndn : Ndn⦄ where
  -- An iterative query of a type that is no version, made into an Interest and read back against
  -- its zone, is the query again, but for the lifetime, which stays that of the object read into.
  pub from_interest-to_interest :
      (q r : Query)
      → q.query_type ≡ ndns_iterative_query
      → ndn.is_version q.rr_type ≡ false
      → from_interest q.zone (to_interest q) r
        ≡ (record q { interest_lifetime = r.interest_lifetime }, true)
  unfolding from_interest to_interest
  from_interest-to_interest q r e h = ground (
    arith,
    match_interest-query q.zone q.rr_label q.rr_type,
    ndn.get-append q.zone q.query_type (q.rr_label ++ q.rr_type ∷ []),
  )
