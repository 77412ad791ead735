-- ===== src/Clients/Controller/Progress.antt =====
-- Each expected answer takes the search for name servers one component further.
use ndns.Prelude.{ℕ, suc, ◌+◌, ◌≤◌, ◌≡◌, ◌⊎◌, inl, inr, arith, ok, length}
use ndns.Ndn.{Ndn}
use ndns.Packets.{Data}
use ndns.Clients.ContentType.{ndns_link, ndns_auth}
use ndns.Clients.Controller.{Controller, Cache, query_ns, query_rr, answer_stub, advance}

module _ ⦃ndn : Ndn⦄ ⦃cache : Cache⦄ where
  -- The components that the current query covers are components of the destination.
  pub record IsQuerying (c : Controller) : Type 0 where
    pub asks_ns : c.step ≡ query_ns
    pub tries : 1 ≤ c.n_try_comps
    pub within : c.n_finished_comps + c.n_try_comps ≤ length c.dst_label

  abbrev pub covered : Controller → ℕ
  covered c = c.n_finished_comps + c.n_try_comps

  -- After a LINK or an AUTH answer that a controller in search of name servers takes, the search has moved on to another step, or it covers one
  -- component more and is within the destination as before.
  pub advance-progress :
      (c c' : Controller) (d : Data) (content_type : ℕ)
      → IsQuerying c
      → (content_type ≡ ndns_link) ⊎ (content_type ≡ ndns_auth)
      → advance query_ns d content_type c ≡ (ok tt, c')
      → ((c'.step ≡ answer_stub) ⊎ (c'.step ≡ query_rr))
        ⊎ (IsQuerying c' × (covered c' ≡ suc (covered c)) × (c'.dst_label ≡ c.dst_label))
  unfolding advance
  advance-progress c c' d content_type v (inl t) h =
      ground (arith, ndn.link-lt-key, ndn.key-lt-nack, ndn.nack-lt-1085)
  advance-progress c c' d content_type v (inr t) h = ground arith
