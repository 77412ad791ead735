-- ===== src/Clients/Controller/Doe.antt =====
-- isAbsentByDoe: which names a DoE range denies.
use ndns.Prelude.{◌≡◌, ◌↔◌, ◌⊎◌, true, arith, ok}
use ndns.Ndn.{Ndn}
use ndns.Packets.{Name, Data, name_lt, name_lt_total, name_lt_trans, name_eq_iff}
use ndns.Clients.Response.{wire_decode_doe}
use ndns.Clients.Controller.{Controller, Cache, in_range, is_absent_by_doe}

module _ ⦃ndn : Ndn⦄ where
  -- A range denies a name just if the name is strictly inside it, or if the range wraps, its upper
  -- end being below its lower end.
  in_range_iff :
      (lower upper q : Name)
      → (in_range lower upper q ≡ true)
        ↔ (((name_lt lower q ≡ true) × (name_lt q upper ≡ true)) ⊎ (name_lt upper lower ≡ true))
  unfolding in_range
  in_range_iff lower upper q =
      ground (arith, name_lt_total lower q, name_lt_trans upper lower q, name_eq_iff lower q)

module _ ⦃ndn : Ndn⦄ ⦃cache : Cache⦄ where
  -- From a DoE packet with a decoded range the client infers the absence of its last query's name
  -- just if the name is strictly inside the range, or if the range wraps, its upper end being below
  -- its lower end: a wrapping range denies every name, those between its ends included.
  pub is_absent_by_doe_iff :
      (c : Controller) (d : Data) (lower upper : Name)
      → wire_decode_doe d.content ≡ ok (lower, upper)
      → (is_absent_by_doe c d ≡ ok true) ↔ (
          ((name_lt lower c.last_label_type ≡ true) × (name_lt c.last_label_type upper ≡ true))
          ⊎ (name_lt upper lower ≡ true))
  unfolding is_absent_by_doe
  is_absent_by_doe_iff c d lower upper e =
      ground (arith, e, in_range_iff lower upper c.last_label_type)
