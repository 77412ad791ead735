-- ===== src/Packets.antt =====
-- The packet types and operations under the names that the program uses (ndn::Name, ndn::Data,
-- ndn::Interest), over the parameters of Ndn.antt.
use ndns.Prelude.{
  ℕ, ◌≡◌, ◌≢◌, refl, sym, ap, ◌∙◌, ◌↔◌, ◌⊎◌, Bool, true, false, ◌&&◌, Option, none, some, List, [],
  ◌∷◌, ◌++◌, length, drop, length-append, drop-append, blob_lt_irrefl, blob_lt_trans, blob_lt_total,
  blob_lt-nil, arith, ◌==◌, if◌then◌else◌,
}
use ndns.Ndn.{Ndn, Packet}

module _ ⦃ndn : Ndn⦄ where
  abbrev pub Component : Type 0
  Component = ndn.Component

  abbrev pub Name : Type 0
  Name = List Component

  abbrev pub Block : Type 0
  Block = ndn.Block

  abbrev pub Data : Type 0
  Data = Packet Component Block ndn.Signature

  pub record Interest : Type 0 where
    pub name : Name
    pub can_be_prefix : Bool
    pub lifetime : ℕ
    pub forwarding_hint : List Name

  abbrev pub component_eq : Component → Component → Bool
  component_eq a b = ndn.component_eq a b

  abbrev pub component_lt : Component → Component → Bool
  component_lt a b = ndn.component_lt a b

  -- Name::operator==
  unfoldable pub name_eq : Name → Name → Bool
  name_eq [] [] = true
  name_eq [] (b ∷ bs) = false
  name_eq (a ∷ as') [] = false
  name_eq (a ∷ as') (b ∷ bs) = component_eq a b && name_eq as' bs

  abbrev pub name_lt : Name → Name → Bool
  name_lt a b = ndn.name_lt a b

  -- Data(name): a fresh packet has content type Blob, freshness 0 and no signature.
  abbrev pub make_data : Name → Data
  make_data n = record {
    name = n;
    content_type = ndn.content_type_blob;
    freshness_period = 0;
    content = ndn.nest ndn.tlv_content [];
    signature = none;
  }

  -- Data::setContent(Block): a block of another type is nested in a Content block.
  abbrev pub as_content : Block → Block
  as_content b =
      if ndn.block_type b == ndn.tlv_content then b else ndn.nest ndn.tlv_content (b ∷ [])

  abbrev pub sign : Option Name → Data → Data
  sign certificate d = record d { signature = some (ndn.sign certificate d) }

  pub name_eq_iff : (a b : Name) → (name_eq a b ≡ true) ↔ (a ≡ b)
  unfolding name_eq
  name_eq_iff [] [] = ground arith
  name_eq_iff [] (b ∷ bs) = ground arith
  name_eq_iff (a ∷ as') [] = ground arith
  name_eq_iff (a ∷ as') (b ∷ bs) = ground (arith, ndn.component_eq_iff a b, name_eq_iff as' bs)

  pub read_component-cons :
      (c : Component) (n : Name)
      → ndn.read_component (ndn.name_value (c ∷ n)) ≡ some (c, length (ndn.component_bytes c))
  read_component-cons c n =
      rw (ndn.name_value-cons c n) (ndn.read_component-bytes c (ndn.name_value n))

  pub drop-cons :
      (c : Component) (n : Name)
      → drop (length (ndn.component_bytes c)) (ndn.name_value (c ∷ n)) ≡ ndn.name_value n
  drop-cons c n =
      rw (ndn.name_value-cons c n) (drop-append (ndn.component_bytes c) (ndn.name_value n))

  cons_parts :
      (a b : Component) (n m : Name)
      → ndn.name_value (a ∷ n) ≡ ndn.name_value (b ∷ m)
      → (a ≡ b) × (ndn.name_value n ≡ ndn.name_value m)
  cons_parts a b n m h =
      let head : a ≡ b =
        ground (arith, read_component-cons a n, read_component-cons b m, ap ndn.read_component h) in
      (
        head,
        sym (drop-cons a n)
            ∙ ap (drop (length (ndn.component_bytes a))) h
            ∙ ap (λ c. drop (length (ndn.component_bytes c)) (ndn.name_value (b ∷ m))) head
            ∙ drop-cons b m,
      )

  name_value-ne-nil : (c : Component) (n : Name) → ndn.name_value (c ∷ n) ≢ []
  name_value-ne-nil c n h = omega (
    arith,
    ap length (sym (ndn.name_value-cons c n) ∙ h),
    length-append (ndn.component_bytes c) (ndn.name_value n),
    ndn.component_bytes_pos c,
  )

  -- A name is read back off its wire value, so two names with one value are one.
  pub name_value-injective : (a b : Name) → ndn.name_value a ≡ ndn.name_value b → a ≡ b
  name_value-injective [] [] h = refl
  name_value-injective [] (b ∷ bs) h = absurd (name_value-ne-nil b bs (sym h ∙ ndn.name_value-nil))
  name_value-injective (a ∷ as') [] h = absurd (name_value-ne-nil a as' (h ∙ ndn.name_value-nil))
  name_value-injective (a ∷ as') (b ∷ bs) h =
      let (head, rest) = cons_parts a b as' bs h in cc (head, name_value-injective as' bs rest)

  pub name_lt_irrefl : (a : Name) → name_lt a a ≡ false
  name_lt_irrefl a = ndn.name_lt-blob_lt a a ∙ blob_lt_irrefl (ndn.name_value a)

  pub name_lt_trans : (a b c : Name) → name_lt a b ≡ true → name_lt b c ≡ true → name_lt a c ≡ true
  name_lt_trans a b c h k =
      ndn.name_lt-blob_lt a c
      ∙ blob_lt_trans (ndn.name_value a) (ndn.name_value b) (ndn.name_value c)
          (sym (ndn.name_lt-blob_lt a b) ∙ h) (sym (ndn.name_lt-blob_lt b c) ∙ k)

  pub name_lt_total : (a b : Name) → a ≢ b → (name_lt a b ≡ true) ⊎ (name_lt b a ≡ true)
  name_lt_total a b h =
      rw (ndn.name_lt-blob_lt a b, ndn.name_lt-blob_lt b a)
        (blob_lt_total (ndn.name_value a) (ndn.name_value b) (λ e. h (name_value-injective a b e)))

  -- The empty name comes first.
  pub name_lt-nil : (c : Component) (n : Name) → name_lt [] (c ∷ n) ≡ true
  name_lt-nil c n =
      rw (ndn.name_lt-blob_lt [] (c ∷ n), ndn.name_value-nil)
        (blob_lt-nil (ndn.name_value (c ∷ n)) (name_value-ne-nil c n))

  pub name_lt-nil_append : (n : Name) (c : Component) → name_lt [] (n ++ c ∷ []) ≡ true
  name_lt-nil_append [] c = name_lt-nil c []
  name_lt-nil_append (a ∷ n) c = name_lt-nil a (n ++ c ∷ [])
