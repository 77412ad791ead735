-- ===== src/Label/Match.antt =====
-- The names that NDNS builds are matched into their parts (src/ndns-label.cpp).
use ndns.Prelude.{
  suc, ◌+◌, ◌-◌, ◌^◌, ◌≡◌, refl, ap, ◌∙◌, true, false, some, [], ◌∷◌, ◌++◌, append_assoc, arith,
  length, drop, length-append, take-append,
}
use ndns.Ndn.{Ndn}
use ndns.Packets.{Component, Name}
use ndns.Label.{sub_size, ndns_iterative_query, match_interest, match_data}

module _ ⦃ndn : Ndn⦄ where
  -- zone / NDNS / label / tail
  abbrev pub query_name : Name → Name → Name → Name
  query_name zone label tail = zone ++ (ndns_iterative_query ∷ (label ++ tail))

  length-query_name :
      (z l t : Name) → length (query_name z l t) ≡ suc (length z) + (length l + length t)
  length-query_name z l t =
      omega (arith, length-append z (ndns_iterative_query ∷ (l ++ t)), length-append l t)

  sub_size-length :
      (z l t : Name) → sub_size (length (query_name z l t)) (suc (length z)) ≡ length l + length t
  unfolding sub_size
  sub_size-length z l t = rw (length-query_name z l t) (ground arith)

  label_size :
      (z l t : Name)
      → sub_size (sub_size (length (query_name z l t)) (suc (length z))) (length t) ≡ length l
  unfolding sub_size
  label_size z l t = rw (sub_size-length z l t, sub_size) (ground arith)

  drop-query_name : (z l t : Name) → drop (suc (length z)) (query_name z l t) ≡ l ++ t
  drop-query_name [] l t = refl
  drop-query_name (c ∷ z) l t = drop-query_name z l t

  sub_name :
      (z l t : Name)
      → ndn.get_sub_name
          (query_name z l t)
          (suc (length z))
          (sub_size (sub_size (length (query_name z l t)) (suc (length z))) (length t))
        ≡ l
  sub_name z l t =
      ndn.get_sub_name-take (query_name z l t) (suc (length z)) _
      ∙ (rw (drop-query_name z l t, label_size z l t) (take-append l t))

  -- the components of the tail, counted from the end of the name
  get_back-query_name :
      (z l u : Name) (c : Component) (v : Name)
      → ndn.get_back (query_name z l (u ++ c ∷ v)) (suc (length v)) ≡ c
  get_back-query_name z l u c v =
      ap (λ n. ndn.get_back n (suc (length v))) (regroup z) ∙ ndn.get_back-append _ c v
    where
      regroup :
          (z : Name)
          → query_name z l (u ++ c ∷ v) ≡ (z ++ (ndns_iterative_query ∷ (l ++ u))) ++ c ∷ v
      regroup z = simp append_assoc

  -- The name of a query for a label and a type that is no version is matched into these two.
  pub match_interest-query :
      (zone label : Name) (type : Component)
      → ndn.is_version type ≡ false
      → match_interest (query_name zone label (type ∷ [])) zone
        ≡ some (record { rr_label = label; rr_type = type; version = ndn.empty_component })
  unfolding match_interest
  match_interest-query zone label type h = ground (
    arith,
    sub_size-length zone label (type ∷ []),
    sub_name zone label (type ∷ []),
    get_back-query_name zone label [] type [],
  )

  -- The name of a query with a version behind the type is matched into label, type and version.
  match_interest-version :
      (zone label : Name) (type version : Component)
      → ndn.is_version version ≡ true
      → match_interest (query_name zone label (type ∷ version ∷ [])) zone
        ≡ some (record { rr_label = label; rr_type = type; version = version })
  unfolding match_interest
  match_interest-version zone label type version h = ground (
    arith,
    sub_size-length zone label (type ∷ version ∷ []),
    sub_name zone label (type ∷ version ∷ []),
    get_back-query_name zone label (type ∷ []) version [],
    get_back-query_name zone label [] type (version ∷ []),
  )

  -- The name of a response, with a type and a version behind the label, is matched into these parts.
  pub match_data-response :
      (zone label : Name) (type version : Component)
      → match_data (query_name zone label (type ∷ version ∷ [])) zone
        ≡ some (record { rr_label = label; rr_type = type; version = version })
  unfolding match_data
  match_data-response zone label type version = ground (
    arith,
    sub_size-length zone label (type ∷ version ∷ []),
    sub_name zone label (type ∷ version ∷ []),
    get_back-query_name zone label (type ∷ []) version [],
    get_back-query_name zone label [] type (version ∷ []),
  )

  -- A version right behind NDNS: `name.size() - skip - offset` wraps, so the label takes the
  -- version as a label component and the type is the marker NDNS itself.
  pub match_interest-marker :
      (zone : Name) (version : Component)
      → ndn.is_version version ≡ true
      → match_interest (zone ++ ndns_iterative_query ∷ version ∷ []) zone
        ≡ some
            (record { rr_label = version ∷ []; rr_type = ndns_iterative_query; version = version })
  unfolding match_interest sub_size
  match_interest-marker zone version h = ground (
    arith,
    sub_size-length zone [] (version ∷ []),
    drop-query_name zone [] (version ∷ []),
    ndn.get_sub_name-take (query_name zone [] (version ∷ [])) (suc (length zone)) (2 ^ 64 - 1),
    ndn.get_back-append (zone ++ ndns_iterative_query ∷ []) version [],
    ndn.get_back-append zone ndns_iterative_query (version ∷ []),
    length-query_name zone [] (version ∷ []),
    append_assoc zone (ndns_iterative_query ∷ []) (version ∷ []),
  )
