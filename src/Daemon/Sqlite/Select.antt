-- ===== src/Daemon/Sqlite/Select.antt =====
-- What the SELECT statements of the database manager return.
use ndns.Prelude.{
  if◌then◌else◌, ◌⊎◌, ◌≡◌, refl, sym, inl, inr, Bool, true, false, ◌&&◌, none, some, List, [], ◌∷◌,
  arith, All, In, ◌++◌, blob_lt, blob_lt_irrefl, Option-cases, Bool-cases, ap, ◌∙◌, subst,
  blob_lt_asymm, blob_not_lt_trans, All-map,
}
use ndns.Ndn.{Ndn}
use ndns.Daemon.Sqlite.{
  first, order_by_label, insert_by_label, RrsetRow, select, delete, last_label,
}

module _ {A : Type 0} where
  pub select-and :
      (p q : A → Bool) (xs : List A) → select (λ x. p x && q x) xs ≡ select q (select p xs)
  select-and p q [] = refl
  select-and p q (x ∷ xs) = ground (arith, select-and p q xs)

  pub In-select : (p : A → Bool) (xs : List A) (a : A) → In a (select p xs) → In a xs × (p a ≡ true)
  In-select p [] a i = elim i [ ]
  In-select p (x ∷ xs) a i = elim (Bool-cases (p x)) [
    | inl e ↦ elim (rw e at i) [
      | inl q ↦ (inl q, rw q e)
      | inr j ↦ let r = In-select p xs a j in (inr r.0, r.1)
    ]
    | inr e ↦ let r = In-select p xs a (rw e at i) in (inr r.0, r.1)
  ]

  pub select-In : (p : A → Bool) (xs : List A) (a : A) → In a xs → p a ≡ true → In a (select p xs)
  select-In p [] a i h = elim i [ ]
  select-In p (x ∷ xs) a (inl e) h = rw (sym (ap p e) ∙ h) (inl e)
  select-In p (x ∷ xs) a (inr i) h = elim (Bool-cases (p x)) [
    | inl e ↦ rw e (inr (select-In p xs a i h))
    | inr e ↦ rw e (select-In p xs a i h)
  ]

module _ ⦃ndn : Ndn⦄ where
  last_label-none : (rs : List RrsetRow) → last_label rs ≡ none → rs ≡ []
  unfolding last_label
  last_label-none [] h = refl
  last_label-none (x ∷ rs) h = ground arith

  -- `r` is one of the rows, and none has a greater label.
  abbrev pub HasLast : List RrsetRow → RrsetRow → Type 0
  HasLast rs r = In r rs × All (λ s. blob_lt r.label s.label ≡ false) rs

  -- The row picked is one of the rows, and no row has a greater label.
  pub last_label-greatest :
      (rs : List RrsetRow) (r : RrsetRow) → last_label rs ≡ some r → HasLast rs r
  last_label-greatest [] r h = unfold last_label in ground arith
  last_label-greatest (x ∷ rs) r h = elim (Option-cases (last_label rs)) [
    | inl e ↦
        let same : r ≡ x = unfold last_label in ground arith in
        subst (HasLast (x ∷ rs)) (sym same)
          (rw (last_label-none rs e) (inl refl, (blob_lt_irrefl x.label, tt)))
    | inr (s, e) ↦
        let ih = last_label-greatest rs s e in
        elim (Bool-cases (blob_lt x.label s.label)) [
          | inl lt ↦
              let same : r ≡ s = unfold last_label in ground arith in
              subst (HasLast (x ∷ rs)) (sym same)
                (inr ih.0, (blob_lt_asymm x.label s.label lt, ih.1))
          | inr ge ↦
              let same : r ≡ x = unfold last_label in ground arith in
              subst (HasLast (x ∷ rs)) (sym same) (
                inl refl,
                (
                  blob_lt_irrefl x.label,
                  All-map _ _ rs (λ t. blob_not_lt_trans x.label s.label t.label ge) ih.1,
                ),
              )
        ]
  ]

  pub last_label-some :
      (rs : List RrsetRow) (s : RrsetRow) → In s rs → (r : RrsetRow) × (last_label rs ≡ some r)
  last_label-some rs s i = elim (Option-cases (last_label rs)) [
    | inl e ↦ absurd (subst (In s) (last_label-none rs e) i)
    | inr found ↦ found
  ]

module _ {A : Type 0} where
  pub select-append :
      (p : A → Bool) (xs ys : List A) → select p (xs ++ ys) ≡ select p xs ++ select p ys
  select-append p [] ys = refl
  select-append p (x ∷ xs) ys = ground (arith, select-append p xs ys)

  pub select-delete : (p : A → Bool) (xs : List A) → select p (delete p xs) ≡ []
  select-delete p [] = refl
  select-delete p (x ∷ xs) = ground (arith, select-delete p xs)

  pub select-all : (p : A → Bool) (xs : List A) → All (λ x. p x ≡ true) xs → select p xs ≡ xs
  select-all p [] h = refl
  select-all p (x ∷ xs) h = ground (arith, select-all p xs h.1, h.0)

  pub delete-append :
      (p : A → Bool) (xs ys : List A) → delete p (xs ++ ys) ≡ delete p xs ++ delete p ys
  delete-append p [] ys = refl
  delete-append p (x ∷ xs) ys = ground (arith, delete-append p xs ys)

  pub delete-delete : (p : A → Bool) (xs : List A) → delete p (delete p xs) ≡ delete p xs
  delete-delete p [] = refl
  delete-delete p (x ∷ xs) = ground (arith, delete-delete p xs)

  pub delete-all : (p : A → Bool) (xs : List A) → All (λ x. p x ≡ true) xs → delete p xs ≡ []
  delete-all p [] h = refl
  delete-all p (x ∷ xs) h = ground (arith, delete-all p xs h.1, h.0)

  pub In-delete :
      (p : A → Bool) (xs : List A) (x : A) → In x (delete p xs) → In x xs × (p x ≡ false)
  In-delete p [] x i = elim i [ ]
  In-delete p (y ∷ xs) x i = elim (Bool-cases (p y)) [
    | inl t ↦ let (j, f) = In-delete p xs x (rw t at i) in (inr j, f)
    | inr t ↦ elim (rw t at i) [
      | inl e ↦ (inl e, ap p e ∙ t)
      | inr j ↦ let (k, f) = In-delete p xs x j in (inr k, f)
    ]
  ]

module _ ⦃ndn : Ndn⦄ where
  In-insert_by_label :
      (r x : RrsetRow) (rows : List RrsetRow) → (x ≡ r) ⊎ In x rows → In x (insert_by_label r rows)
  unfolding insert_by_label
  In-insert_by_label r x [] h = h
  In-insert_by_label r x (s ∷ rows) h = elim (Bool-cases (blob_lt s.label r.label)) [
    | inr f ↦ rw f h
    | inl t ↦ rw t (elim h [
      | inl e ↦ inr (In-insert_by_label r x rows (inl e))
      | inr (inl e) ↦ inl e
      | inr (inr i) ↦ inr (In-insert_by_label r x rows (inr i))
    ])
  ]

  -- ORDER BY keeps every row.
  pub In-order_by_label :
      (rows : List RrsetRow) (x : RrsetRow) → In x rows → In x (order_by_label rows)
  unfolding order_by_label
  In-order_by_label [] x i = elim i [ ]
  In-order_by_label (r ∷ rows) x (inl e) = In-insert_by_label r x (order_by_label rows) (inl e)
  In-order_by_label (r ∷ rows) x (inr i) =
      In-insert_by_label r x (order_by_label rows) (inr (In-order_by_label rows x i))

  insert_by_label-In :
      (r x : RrsetRow) (rows : List RrsetRow) → In x (insert_by_label r rows) → (x ≡ r) ⊎ In x rows
  unfolding insert_by_label
  insert_by_label-In r x [] h = h
  insert_by_label-In r x (s ∷ rows) h = elim (Bool-cases (blob_lt s.label r.label)) [
    | inr f ↦ rw f at h
    | inl t ↦ elim (rw t at h) [
      | inl e ↦ inr (inl e)
      | inr i ↦ elim (insert_by_label-In r x rows i) [ inl e ↦ inl e | inr j ↦ inr (inr j) ]
    ]
  ]

  pub order_by_label-In :
      (rows : List RrsetRow) (x : RrsetRow) → In x (order_by_label rows) → In x rows
  unfolding order_by_label
  order_by_label-In [] x i = i
  order_by_label-In (r ∷ rows) x i = elim (insert_by_label-In r x (order_by_label rows) i) [
    | inl e ↦ inl e
    | inr j ↦ inr (order_by_label-In rows x j)
  ]

module _ {A : Type 0} where
  pub first-All :
      (P : A → Type 0) (p : A → Bool) (xs : List A) (a : A) → All P xs → first p xs ≡ some a → P a
  first-All P p [] a h e = absurd (ground arith)
  first-All P p (x ∷ xs) a h e = elim (Bool-cases (p x)) [
    | inl y ↦ subst P (ground arith) h.0
    | inr n ↦ first-All P p xs a h.1 (ground arith)
  ]

  pub first-In : (p : A → Bool) (xs : List A) (a : A) → first p xs ≡ some a → In a xs × (p a ≡ true)
  first-In p [] a e = absurd (ground arith)
  first-In p (x ∷ xs) a e = elim (Bool-cases (p x)) [
    | inl y ↦ let same : a ≡ x = ground arith in (inl same, ap p same ∙ y)
    | inr n ↦ let (i, q) = first-In p xs a (ground arith) in (inr i, q)
  ]

  -- A row appended is found where none was before.
  pub first-append_new :
      (p : A → Bool) (xs : List A) (a : A)
      → first p xs ≡ none
      → p a ≡ true
      → first p (xs ++ a ∷ []) ≡ some a
  first-append_new p [] a e h = ground arith
  first-append_new p (x ∷ xs) a e h = elim (Bool-cases (p x)) [
    | inl y ↦ absurd (ground arith)
    | inr n ↦ rw n (first-append_new p xs a (ground arith) h)
  ]

  -- Rows deleted that a query does not ask for leave its answer.
  pub first-delete :
      (p q : A → Bool) (xs : List A)
      → ((a : A) → p a ≡ true → q a ≡ false)
      → first p (delete q xs) ≡ first p xs
  first-delete p q [] h = refl
  first-delete p q (x ∷ xs) h = ground (arith, first-delete p q xs h, h x)

module _ {A : Type 0} where
  pub delete-or :
      (p q : A → Bool) (xs : List A)
      → delete q (delete p xs) ≡ delete (λ x. if p x then true else q x) xs
  delete-or p q [] = refl
  delete-or p q (x ∷ xs) = ground (arith, delete-or p q xs)

  pub delete-ext :
      (p q : A → Bool) (xs : List A) → All (λ x. p x ≡ q x) xs → delete p xs ≡ delete q xs
  delete-ext p q [] h = refl
  delete-ext p q (x ∷ xs) h = ground (arith, delete-ext p q xs h.1, h.0)
