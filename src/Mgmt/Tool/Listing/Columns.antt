-- ===== src/Mgmt/Tool/Listing/Columns.antt =====
-- The columns of listZone (src/mgmt/management-tool.cpp).
use Prim.Native.String.{len}
use ndns.Prelude.{
  ℕ, ◌+◌, ◌≤◌, ◌≡◌, inl, inr, ltb, Option, List, [], ◌∷◌, ◌++◌, String, arith, if◌then◌else◌, All,
  Bool-cases, map,
}
use ndns.Ndn.{Ndn}
use ndns.Packets.{Block}
use ndns.Daemon.Zone.{Zone}
use ndns.Daemon.Rrset.{Rrset}
use ndns.Mgmt.Tool.Listing.{
  Texts, Out, put, padded, bytes, base64, out_of_range, newline, width_from, Listed, Widths, rounds,
}

module _ ⦃ndn : Ndn⦄ where
  -- The padded texts, with the widths that they are padded to
  abbrev pub cells : List Out → List (ℕ × String)
  cells [] = []
  cells (padded w s ∷ out) = (w, s) ∷ cells out
  cells (put s ∷ out) = cells out
  cells (bytes b ∷ out) = cells out
  cells (base64 b ∷ out) = cells out
  cells (out_of_range ∷ out) = cells out
  cells (newline ∷ out) = cells out

  module _ {A : Type 0} where
    -- The width found is at least that of each element, and the one begun with.
    width_from-le : (size : A → ℕ) (w : ℕ) (xs : List A) → w ≤ width_from size w xs
    unfolding width_from
    width_from-le size w [] = omega arith
    width_from-le size w (x ∷ xs) = elim (Bool-cases (ltb w (size x))) [
      | inl y ↦ rw y (ground (arith, width_from-le size (size x) xs))
      | inr n ↦ rw n (width_from-le size w xs)
    ]

    pub width_from-all :
        (size : A → ℕ) (w : ℕ) (xs : List A) → All (λ x. size x ≤ width_from size w xs) xs
    unfolding width_from
    width_from-all size w [] = tt
    width_from-all size w (x ∷ xs) =
        let w' = if ltb w (size x) then size x else w in
        (ground (arith, width_from-le size w' xs), width_from-all size w' xs)

  module _ (t : Texts) where
    abbrev pub FitsIn : Widths → Listed → Type 0
    FitsIn w l =
        (len (t.name_uri l.rrset.label) ≤ w.label)
        × (len (t.decimal l.rrset.ttl) ≤ w.ttl)
        × (len (t.component_uri l.rrset.type) ≤ w.type)

    -- A line of a record set: its label, TTL and type in columns two wider than the widths
    abbrev pub line : Widths → Listed → List (ℕ × String)
    line w l =
        (w.label + 2, t.name_uri l.rrset.label)
        ∷ (w.ttl + 2, t.decimal l.rrset.ttl)
        ∷ (w.type + 2, t.component_uri l.rrset.type)
        ∷ []

    abbrev pub lines : Widths → Listed → List (Option Block) → List (ℕ × String)
    lines w l [] = []
    lines w l (rr ∷ rrs) = line w l ++ lines w l rrs

    abbrev pub all_lines : Widths → List Listed → List (ℕ × String)
    all_lines w [] = []
    all_lines w (l ∷ ls) = lines w l (rounds t l.re) ++ all_lines w ls

    -- What a listing of the zone with the record sets `rs` shows.
    abbrev pub Shown : List Rrset → List Out → Type 0
    Shown rs out =
        (w : Widths) × (ls : List Listed) × (map (λ (l : Listed). l.rrset) ls ≡ rs)
        × (cells out ≡ all_lines w ls)
        × All (FitsIn w) ls
