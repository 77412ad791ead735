-- ===== src/Clients/Controller/Split.antt =====
-- makeLatestInterest: the Interest names the destination, cut at the finished components.
use ndns.Prelude.{◌≡◌, ap, ◌∙◌, false, some, [], ◌∷◌, ◌++◌, arith, ok, take, drop}
use ndns.Ndn.{Ndn}
use ndns.Packets.{Interest}
use ndns.Label.{match_interest}
use ndns.Label.Match.{query_name, match_interest-query}
use ndns.Clients.Query.{to_interest}
use ndns.Clients.Controller.{Controller, Cache, query_rr, make_latest_interest}

module _ ⦃ndn : Ndn⦄ ⦃cache : Cache⦄ where
  -- In the last step, for a type that is no version, the Interest that is made asks the zone of the first
  -- `n_finished_comps` components of the destination for the record of the remaining ones, and the
  -- name server of that zone matches it into just this label and the type asked for. The controller
  -- notes the label and type as its last query.
  pub make_latest_interest-query_rr :
      (c c' : Controller) (i : Interest)
      → c.step ≡ query_rr
      → ndn.is_version c.rr_type ≡ false
      → make_latest_interest c ≡ (ok i, c')
      → let zone = take c.n_finished_comps c.dst_label in
        let label = drop c.n_finished_comps c.dst_label in
        (i.name ≡ query_name zone label (c.rr_type ∷ []))
        × (match_interest i.name zone
            ≡ some
                (record { rr_label = label; rr_type = c.rr_type; version = ndn.empty_component }))
        × (c'.last_label_type ≡ label ++ c.rr_type ∷ [])
  make_latest_interest-query_rr c c' i s v h =
      let zone = take c.n_finished_comps c.dst_label in
      let label = drop c.n_finished_comps c.dst_label in
      let named : i.name ≡ query_name zone label (c.rr_type ∷ []) =
        unfold make_latest_interest to_interest in
        ground (
          arith,
          ndn.get_prefix-take c.dst_label c.n_finished_comps,
          ndn.get_sub_name_from-drop c.dst_label c.n_finished_comps,
        ) in
      (
        named,
        ap (λ n. match_interest n zone) named ∙ match_interest-query zone label c.rr_type v,
        unfold make_latest_interest in
            ground (arith, ndn.get_sub_name_from-drop c.dst_label c.n_finished_comps),
      )
