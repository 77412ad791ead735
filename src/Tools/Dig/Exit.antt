-- ===== src/Tools/Dig/Exit.antt =====
-- What the exit status of the tool says (tools/ndns-dig.cpp).
use ndns.Prelude.{
  ◌≡◌, ◌⊎◌, inl, inr, refl, sym, ap, arith, Bool, true, false, List, [], ◌∷◌, ◌++◌, Result, ok, err,
}
use ndns.Ndn.{Ndn}
use ndns.Packets.{Data}
use ndns.Clients.Controller.{
  Cache, Controller, Outcome, waiting, succeeded, failed, unfinished, start, on_data, on_timeout,
}
use ndns.Tools.Dig.{
  DigPhase, querying, validating, ended, stuck, NdnsDig, DigEvent, arrived, lost, judged, settle,
  run, dispatch, on_events, exit_status, on_judged, on_succeed, on_fail, dig_fuel,
}

module _ ⦃ndn : Ndn⦄ ⦃cache : Cache⦄ (valid : Data → Bool) where
  -- The run has ended without an error.
  abbrev pub IsClean : NdnsDig → Type 0
  IsClean dig = (dig.phase ≡ ended) × (dig.has_error ≡ false)

  settle-unclean : (r : Result Outcome × Controller) (dig : NdnsDig) → ¬ (IsClean (settle r dig))
  unfolding settle on_succeed on_fail
  settle-unclean (err e, c) dig (p, q) = absurd (ground arith)
  settle-unclean (ok (waiting i), c) dig (p, q) = absurd (ground arith)
  settle-unclean (ok (succeeded d response), c) dig (p, q) = absurd (ground arith)
  settle-unclean (ok failed, c) dig (p, q) = absurd (ground arith)
  settle-unclean (ok unfinished, c) dig (p, q) = absurd (ground arith)

  dispatch-cases :
      (p : DigPhase) (e : DigEvent) (dig : NdnsDig)
      → p ≡ dig.phase
      → ¬ (IsClean dig)
      → ¬ (IsClean (dispatch valid p e dig))
        ⊎ ((e ≡ judged true) × ((d : Data) × (dig.phase ≡ validating d)))
  unfolding dispatch on_judged
  dispatch-cases (querying c i) (arrived d) dig q h =
      inl (settle-unclean (on_data (dig_fuel c) valid d c) dig)
  dispatch-cases (querying c i) lost dig q h = inl (settle-unclean (on_timeout i c) dig)
  dispatch-cases (querying c i) (judged v) dig q h = inl h
  dispatch-cases (validating d) (judged true) dig q h = inr (refl, (d, sym q))
  dispatch-cases (validating d) (judged false) dig q h = inl (λ k. absurd (ground (arith, k)))
  dispatch-cases (validating d) (arrived x) dig q h = inl h
  dispatch-cases (validating d) lost dig q h = inl h
  dispatch-cases ended e dig q h = inl h
  dispatch-cases stuck e dig q h = inl h

  -- One of the events is the validator's yes to the packet that the query had found by then.
  abbrev pub Approved : List DigEvent → NdnsDig → Type 0
  Approved es dig =
      (before after : List DigEvent) × (d : Data) × (es ≡ before ++ judged true ∷ after)
      × ((on_events valid before dig).phase ≡ validating d)

  on_events-Approved :
      (es : List DigEvent) (dig : NdnsDig)
      → ¬ (IsClean dig)
      → IsClean (on_events valid es dig)
      → Approved es dig
  unfolding on_events
  on_events-Approved [] dig h k = absurd (h k)
  on_events-Approved (e ∷ es) dig h k = elim (dispatch-cases dig.phase e dig refl h) [
    | inr (j, (d, p)) ↦ ([], es, d, ap (λ x. x ∷ es) j, p)
    | inl n ↦
        let (before, after, d, q, p) = on_events-Approved es (dispatch valid dig.phase e dig) n k in
        (e ∷ before, after, d, ap (◌∷◌ e) q, p)
  ]

  -- Once its run has ended, the tool exits with 0 only if one of the events was the validator's yes
  -- to the packet that the query had found by then.
  pub exit_status-Approved :
      (es : List DigEvent) (dig : NdnsDig)
      → (on_events valid es (run valid dig)).phase ≡ ended
      → exit_status (on_events valid es (run valid dig)) ≡ 0
      → Approved es (run valid dig)
  unfolding exit_status run
  exit_status-Approved es dig p z =
      on_events-Approved es (run valid dig)
        (settle-unclean (start (dig_fuel dig.controller) valid dig.controller) dig)
        (p, ground arith)
