-- ===== src/Daemon/DbMgr/Sound/Rows.antt =====
-- Rows deleted from a table, added to it, and changed in place.
use ndns.Prelude.{
  In, All-In, sym, ap, ◌∙◌, ℕ, ◌<◌, ◌≡◌, ◌≢◌, Bool, false, arith, All, All-map, Pairwise,
  Pairwise-append_one, All-append_one, List, [], ◌∷◌, ◌++◌, map, Bool-cases, inl, inr,
}
use ndns.Ndn.{Ndn}
use ndns.Daemon.Sqlite.{RrsetRow, same_index, any, delete}
use ndns.Daemon.DbMgr.Sound.{SameKey, ApartRows, SoundRows, same_index_iff}

module _ {A : Type 0} where
  pub All-delete : (P : A → Type 0) (p : A → Bool) (xs : List A) → All P xs → All P (delete p xs)
  All-delete P p [] h = tt
  All-delete P p (x ∷ xs) h = elim (Bool-cases (p x)) [
    | inl y ↦ rw y (All-delete P p xs h.1)
    | inr n ↦ rw n (h.0, All-delete P p xs h.1)
  ]

  pub Pairwise-delete :
      (R : A → A → Type 0) (p : A → Bool) (xs : List A) → Pairwise R xs → Pairwise R (delete p xs)
  Pairwise-delete R p [] h = tt
  Pairwise-delete R p (x ∷ xs) h = elim (Bool-cases (p x)) [
    | inl y ↦ rw y (Pairwise-delete R p xs h.1)
    | inr n ↦ rw n (All-delete (R x) p xs h.0, Pairwise-delete R p xs h.1)
  ]

  -- A test that no row passes is false on each.
  pub All-any : (p : A → Bool) (xs : List A) → any p xs ≡ false → All (λ x. p x ≡ false) xs
  All-any p [] h = tt
  All-any p (x ∷ xs) h = elim (Bool-cases (p x)) [
    | inl y ↦ absurd (ground arith)
    | inr n ↦ (n, All-any p xs (ground arith))
  ]

  pub All-of_map :
      {B : Type 0} (P : B → Type 0) (f : A → B) (xs : List A)
      → All P (map f xs)
      → All (λ x. P (f x)) xs
  All-of_map P f [] h = tt
  All-of_map P f (x ∷ xs) h = (h.0, All-of_map P f xs h.1)

  pub All-both : (P Q : A → Type 0) (xs : List A) → All P xs → All Q xs → All (λ x. P x × Q x) xs
  All-both P Q [] h k = tt
  All-both P Q (x ∷ xs) h k = ((h.0, k.0), All-both P Q xs h.1 k.1)

module _ ⦃ndn : Ndn⦄ where
  -- A row under a new id and a free key.
  pub SoundRows-insert :
      (rows : List RrsetRow) (row : RrsetRow)
      → SoundRows rows
      → 0 < row.id
      → All (λ (i : ℕ). i ≢ row.id) (map (λ (r : RrsetRow). r.id) rows)
      → any (same_index row.zone_id row.label row.type row.version) rows ≡ false
      → SoundRows (rows ++ row ∷ [])
  SoundRows-insert rows row (pos, apart) p fresh free = (
    All-append_one (λ (r : RrsetRow). 0 < r.id) rows row pos p,
    Pairwise-append_one ApartRows rows row apart (
        All-both (λ (x : RrsetRow). x.id ≢ row.id) (λ x. ¬ (SameKey x row)) rows
          (All-of_map (λ (i : ℕ). i ≢ row.id) (λ (r : RrsetRow). r.id) rows fresh)
          (All-map (λ x. same_index row.zone_id row.label row.type row.version x ≡ false)
            (λ x. ¬ (SameKey x row)) rows (λ x n k. absurd (ground (arith, same_index_iff row x)))
            (All-any (same_index row.zone_id row.label row.type row.version) rows free))),
  )

  pub SoundRows-delete :
      (p : RrsetRow → Bool) (rows : List RrsetRow) → SoundRows rows → SoundRows (delete p rows)
  SoundRows-delete p rows (pos, apart) =
      (All-delete (λ (r : RrsetRow). 0 < r.id) p rows pos, Pairwise-delete ApartRows p rows apart)

  -- Two rows of a sound table with one id are the same row.
  pub same_row :
      (rows : List RrsetRow) (x y : RrsetRow)
      → Pairwise ApartRows rows
      → In x rows
      → In y rows
      → x.id ≡ y.id
      → x ≡ y
  same_row [] x y h i j e = elim i [ ]
  same_row (z ∷ rows) x y h (inl p) (inl q) e = p ∙ sym q
  same_row (z ∷ rows) x y h (inl p) (inr j) e =
      absurd ((All-In (ApartRows z) rows h.0 j).0 (ap (λ (r : RrsetRow). r.id) (sym p) ∙ e))
  same_row (z ∷ rows) x y h (inr i) (inl q) e =
      absurd ((All-In (ApartRows z) rows h.0 i).0 (ap (λ (r : RrsetRow). r.id) (sym q) ∙ sym e))
  same_row (z ∷ rows) x y h (inr i) (inr j) e = same_row rows x y h.1 i j e
