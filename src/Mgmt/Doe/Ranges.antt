-- ===== src/Mgmt/Doe/Ranges.antt =====
-- The DoE ranges of a zone deny every name that the zone lacks: the record that `findLowerBound`
-- picks passes the test that the clients make.
use ndns.Prelude.{
  ◌≡◌, ◌≢◌, refl, sym, ◌⊎◌, inl, inr, true, false, List, [], ◌∷◌, arith, All, In, All-In, In-last,
  last, subst,
}
use ndns.Ndn.{Ndn}
use ndns.Packets.{Name, name_lt, name_lt_total}
use ndns.Clients.Controller.{in_range}
use ndns.Mgmt.Doe.{Range, ranges_from, doe_ranges}

module _ ⦃ndn : Ndn⦄ where
  abbrev pub guard_range : Name → Name → Range
  guard_range first l = record { label = []; lower = l; upper = first }

  from_cases :
      (first n : Name) (ms : List Name) (r : Range)
      → In r (ranges_from first n ms)
      → ((r.label ≡ r.lower) × (In r.upper ms ⊎ (r.upper ≡ first)))
        ⊎ (r ≡ guard_range first (last n ms))
  unfolding ranges_from
  from_cases first n [] r (inl e) = inl (ground arith, inr (ground arith))
  from_cases first n [] r (inr (inl e)) = inr e
  from_cases first n [] r (inr (inr i)) = elim i [ ]
  from_cases first n (m ∷ ms) r (inl e) = inl (ground arith, inl (inl (ground arith)))
  from_cases first n (m ∷ ms) r (inr i) = elim (from_cases first m ms r i) [
    | inl (l, inl u) ↦ inl (l, inl (inr u))
    | inl (l, inr u) ↦ inl (l, inr u)
    | inr g ↦ inr g
  ]

  from_guard :
      (first n : Name) (ms : List Name)
      → In (guard_range first (last n ms)) (ranges_from first n ms)
  unfolding ranges_from
  from_guard first n [] = inr (inl refl)
  from_guard first n (m ∷ ms) = inr (from_guard first m ms)

  pub guard_range-In :
      (first : Name) (names : List Name)
      → In (guard_range first (last first names)) (doe_ranges first names)
  unfolding doe_ranges
  guard_range-In first names = from_guard first first names

  from_label :
      (first n : Name) (ms : List Name) (m : Name)
      → In m (n ∷ ms)
      → (s : Range) × In s (ranges_from first n ms) × (s.label ≡ m)
  unfolding ranges_from
  from_label first n [] m (inl e) =
      (record { label = n; lower = n; upper = first }, inl refl, sym e)
  from_label first n [] m (inr i) = elim i [ ]
  from_label first n (k ∷ ms) m (inl e) =
      (record { label = n; lower = n; upper = k }, inl refl, sym e)
  from_label first n (k ∷ ms) m (inr i) = let (s, j, e) = from_label first k ms m i in (s, inr j, e)

  -- `r` has the greatest label below `q`.
  pub record IsLowerBound (q : Name) (rs : List Range) (r : Range) : Type 0 where
    pub member : In r rs
    pub below : name_lt r.label q ≡ true
    pub greatest : All (λ s. name_lt s.label q ≡ true → name_lt r.label s.label ≡ false) rs

  -- The names of a zone that can be denied: none is empty or `q`, the ends of each range differ
  -- (so there are two records at least), and the first name is below the last.
  pub record Deniable (q first : Name) (names : List Name) : Type 0 where
    pub absent : All (λ m. m ≢ q) (first ∷ names)
    pub nonempty : All (λ m. name_lt [] m ≡ true) (first ∷ names)
    pub proper : All (λ (r : Range). r.lower ≢ r.upper) (doe_ranges first names)
    pub wraps : name_lt first (last first names) ≡ true

  module _ (q first : Name) (names : List Name) (r : Range) (d : Deniable q first names)
      (l : IsLowerBound q (doe_ranges first names) r) where
    -- A name that is below `q` is not above the label picked.
    not_above : (m : Name) → In m (first ∷ names) → name_lt m q ≡ true → name_lt r.label m ≡ false
    unfolding doe_ranges
    not_above m i h =
        let (s, j, e) = from_label first first names m i in
        subst (λ k. name_lt r.label k ≡ false) e
          (All-In _ (doe_ranges first names) l.greatest j
            (subst (λ k. name_lt k q ≡ true) (sym e) h))

    in_between : r.label ≡ r.lower → In r.upper (first ∷ names) → in_range r.lower r.upper q ≡ true
    unfolding in_range doe_ranges
    in_between e u = ground (
      arith,
      l.below,
      not_above r.upper u,
      All-In _ (first ∷ names) d.absent u,
      All-In _ (doe_ranges first names) d.proper l.member,
      name_lt_total r.upper q,
      name_lt_total r.lower r.upper,
    )

    at_guard : r ≡ guard_range first (last first names) → in_range r.lower r.upper q ≡ true
    unfolding in_range
    at_guard e =
        let end : Name = last first names in
        let i = In-last first names in
        ground (
          arith,
          e,
          d.wraps,
          All-In _ (first ∷ names) d.absent i,
          All-In _ (first ∷ names) d.nonempty i,
          not_above end i,
          name_lt_total end q,
        )

    -- The range picked passes the clients' test.
    pub in_range-lower_bound : in_range r.lower r.upper q ≡ true
    unfolding doe_ranges
    in_range-lower_bound = elim (from_cases first first names r l.member) [
      | inl (e, inl u) ↦ in_between e (inr u)
      | inl (e, inr u) ↦ in_between e (inl u)
      | inr g ↦ at_guard g
    ]
