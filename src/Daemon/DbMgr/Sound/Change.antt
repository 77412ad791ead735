-- ===== src/Daemon/DbMgr/Sound/Change.antt =====
-- A row changed in place: DbMgr::update (src/daemon/db-mgr.cpp).
use ndns.Prelude.{
  ◌<◌, ◌≡◌, ◌≢◌, sym, subst, false, not, ◌&&◌, arith, All, All-map, All-intro, Pairwise, List, [],
  ◌∷◌, none, some, if◌then◌else◌, ◌==◌, Bool-cases, Option-cases, inl, inr,
}
use ndns.Ndn.{Ndn}
use ndns.Daemon.Rrset.{Rrset}
use ndns.Daemon.Sqlite.{RrsetRow, same_index, first}
use ndns.Daemon.DbMgr.Rrsets.{set_row, update_breaks}
use ndns.Daemon.DbMgr.Sound.{SameKey, ApartRows, SoundRows, same_index_iff}
use ndns.Daemon.DbMgr.Sound.Rows.{All-any}

module _ ⦃ndn : Ndn⦄ (rrset : Rrset) where
  -- A row with the fields of the record set, and what UPDATE makes of each row.
  abbrev with_fields : RrsetRow → RrsetRow
  with_fields r = record r { ttl = rrset.ttl; version = rrset.version; rr_data = rrset.rr_data }

  abbrev changed : RrsetRow → RrsetRow
  changed r = if r.id == rrset.id then with_fields r else r

  -- If `x` is the row to change and `y` another, the new key of `x` is not that of `y`.
  abbrev Clear : RrsetRow → RrsetRow → Type 0
  Clear x y = x.id ≡ rrset.id → y.id ≢ rrset.id → ¬ (SameKey (with_fields x) y)

  changed-ApartRows :
      (x y : RrsetRow) → ApartRows x y → Clear x y → Clear y x → ApartRows (changed x) (changed y)
  changed-ApartRows x y (ids, keys) c d = elim (Bool-cases (x.id == rrset.id)) [
    | inl a ↦ elim (Bool-cases (y.id == rrset.id)) [
      | inl b ↦ absurd (ids (ground arith))
      | inr b ↦ rw (a, b) (ids, c (ground arith) (ground arith))
    ]
    | inr a ↦ elim (Bool-cases (y.id == rrset.id)) [
      | inl b ↦
          rw (a, b)
            (ids, λ (z, l, t, v). d (ground arith) (ground arith) (sym z, sym l, sym t, sym v))
      | inr b ↦ rw (a, b) (ids, keys)
    ]
  ]

  All-set_row :
      (P Q : RrsetRow → Type 0) (rows : List RrsetRow)
      → ((r : RrsetRow) → P r → Q (changed r))
      → All P rows
      → All Q (set_row rrset rows)
  unfolding set_row
  All-set_row P Q [] f h = tt
  All-set_row P Q (r ∷ rs) f h = (f r h.0, All-set_row P Q rs f h.1)

  set_row-Pairwise :
      (rows : List RrsetRow)
      → Pairwise ApartRows rows
      → All (λ x. All (Clear x) rows) rows
      → Pairwise ApartRows (set_row rrset rows)
  unfolding set_row
  set_row-Pairwise [] h c = tt
  set_row-Pairwise (x ∷ xs) (h, hs) (c, cs) = (
    All-set_row (λ y. ApartRows x y × Clear x y × Clear y x) (ApartRows (changed x)) xs
        (λ y (a, p, q). changed-ApartRows x y a p q)
        (both xs h c.1 (All-map (λ y. All (Clear y) (x ∷ xs)) (λ y. Clear y x) xs (λ y k. k.0) cs)),
    set_row-Pairwise xs hs
        (All-map (λ y. All (Clear y) (x ∷ xs)) (λ y. All (Clear y) xs) xs (λ y k. k.1) cs),
  )
    where
      both :
          (ys : List RrsetRow)
          → All (ApartRows x) ys
          → All (Clear x) ys
          → All (λ y. Clear y x) ys
          → All (λ y. ApartRows x y × Clear x y × Clear y x) ys
      both [] a p q = tt
      both (y ∷ ys) a p q = ((a.0, p.0, q.0), both ys a.1 p.1 q.1)

  -- The row to change is the only one with its id.
  first-only :
      (rows : List RrsetRow) (row : RrsetRow)
      → Pairwise ApartRows rows
      → first (λ (r : RrsetRow). r.id == rrset.id) rows ≡ some row
      → All (λ x. x.id ≡ rrset.id → x ≡ row) rows
  first-only [] row h f = tt
  first-only (x ∷ xs) row (h, hs) f = elim (Bool-cases (x.id == rrset.id)) [
    | inl y ↦
        let same : x ≡ row = ground arith in
        (
          λ e. same,
          All-map (ApartRows x) (λ z. z.id ≡ rrset.id → z ≡ row) xs
              (λ z a e. absurd (a.0 (ground arith))) h,
        )
    | inr n ↦ (λ e. absurd (ground arith), first-only xs row hs (ground arith))
  ]

  first-none :
      (rows : List RrsetRow)
      → first (λ (r : RrsetRow). r.id == rrset.id) rows ≡ none
      → All (λ x. x.id ≢ rrset.id) rows
  first-none [] f = tt
  first-none (x ∷ xs) f = elim (Bool-cases (x.id == rrset.id)) [
    | inl y ↦ absurd (ground arith)
    | inr n ↦ (λ e. absurd (ground arith), first-none xs (ground arith))
  ]

  update_breaks-Clear :
      (rows : List RrsetRow)
      → Pairwise ApartRows rows
      → update_breaks rrset rows ≡ false
      → All (λ x. All (Clear x) rows) rows
  unfolding update_breaks
  update_breaks-Clear rows h b =
      elim (Option-cases (first (λ (r : RrsetRow). r.id == rrset.id) rows)) [
        | inl n ↦
            All-map (λ x. x.id ≢ rrset.id) (λ x. All (Clear x) rows) rows
              (λ x out. All-intro (Clear x) rows (λ y i e. absurd (out e))) (first-none rows n)
        | inr (row, f) ↦
            All-map (λ x. x.id ≡ rrset.id → x ≡ row) (λ x. All (Clear x) rows) rows
              (λ x only.
                All-map
                  (λ y.
                    (not (y.id == rrset.id)
                      && same_index row.zone_id row.label row.type rrset.version y)
                    ≡ false)
                  (Clear x) rows (λ y free e out same. clash x y row (only e) free out same)
                  (All-any
                    (λ y.
                      not (y.id == rrset.id)
                      && same_index row.zone_id row.label row.type rrset.version y)
                    rows (ground arith)))
              (first-only rows row h f)
      ]
    where
      clash :
          (x y row : RrsetRow)
          → x ≡ row
          → (not (y.id == rrset.id) && same_index row.zone_id row.label row.type rrset.version y)
            ≡ false
          → y.id ≢ rrset.id
          → SameKey (with_fields x) y
          → ⊥
      clash x y row e free out same =
          let k : SameKey y (with_fields row) =
            subst (λ r. SameKey y (with_fields r)) e
              (sym same.0, sym same.1, sym same.2, sym same.3) in
          absurd (ground (arith, same_index_iff (with_fields row) y))

  pub SoundRows-update :
      (rows : List RrsetRow)
      → SoundRows rows
      → update_breaks rrset rows ≡ false
      → SoundRows (set_row rrset rows)
  SoundRows-update rows (pos, apart) b = (
    All-set_row (λ r. 0 < r.id) (λ r. 0 < r.id) rows (λ r p. ground arith) pos,
    set_row-Pairwise rows apart (update_breaks-Clear rows apart b),
  )
