-- ===== src/Daemon/DbMgr/Names.antt =====
-- DbMgr::saveName and DbMgr::restoreName: a name as the blob of its components.
use ndns.Prelude.{
  ℕ, zero, suc, ◌≤◌, ◌<◌, ◌+◌, ◌≡◌, refl, ap, ◌∙◌, none, some, [], ◌∷◌, Blob, Result, ok, err,
  decode_error, length, drop, arith, length-append,
}
use ndns.Ndn.{Ndn}
use ndns.Packets.{Name, Component, read_component-cons, drop-cons, name_value-injective}

module _ ⦃ndn : Ndn⦄ where
  -- An empty value is bound through a dummy pointer, with size 0.
  unfoldable pub save_name : Name → Blob
  save_name n = ndn.name_value n

  prepend_component : Component → Result Name → Result Name
  prepend_component c (ok n) = ok (c ∷ n)
  prepend_component c (err e) = err e

  -- `while (!buffer.empty())`: the fuel bounds the rounds, and a buffer needs no more rounds than
  -- it has bytes. Decoding a component stops the loop with an error if it fails.
  restore_loop : ℕ → Blob → Result Name
  unfolding prepend_component
  restore_loop fuel [] = ok []
  restore_loop zero (b ∷ bs) = err decode_error
  restore_loop (suc fuel) (b ∷ bs) = elim (ndn.read_component (b ∷ bs)) [
    | none ↦ err decode_error
    | some (c, size) ↦ prepend_component c (restore_loop fuel (drop size (b ∷ bs)))
  ]

  unfoldable pub restore_name : Blob → Result Name
  unfolding restore_loop
  restore_name blob = restore_loop (length blob) blob

  length-name_value :
      (c : Component) (n : Name)
      → length (ndn.name_value (c ∷ n)) ≡ length (ndn.component_bytes c) + length (ndn.name_value n)
  length-name_value c n =
      ap length (ndn.name_value-cons c n) ∙ length-append (ndn.component_bytes c) (ndn.name_value n)

  restore_step :
      (fuel : ℕ) (blob : Blob) (c : Component) (size : ℕ)
      → 0 < length blob
      → ndn.read_component blob ≡ some (c, size)
      → restore_loop (suc fuel) blob ≡ prepend_component c (restore_loop fuel (drop size blob))
  unfolding restore_loop
  restore_step fuel [] c size h e = elim h [ ]
  restore_step fuel (b ∷ bs) c size h e = rw (e, restore_loop)

  restore_loop-name_value :
      (n : Name) (fuel : ℕ)
      → length (ndn.name_value n) ≤ fuel
      → restore_loop fuel (ndn.name_value n) ≡ ok n
  restore_loop-name_value [] fuel h = rw ndn.name_value-nil (unfold restore_loop in refl)
  restore_loop-name_value (c ∷ n) zero h =
      absurd (omega (arith, length-name_value c n, ndn.component_bytes_pos c))
  restore_loop-name_value (c ∷ n) (suc fuel) h =
      restore_step fuel (ndn.name_value (c ∷ n)) c (length (ndn.component_bytes c))
        (omega (arith, length-name_value c n, ndn.component_bytes_pos c)) (read_component-cons c n)
      ∙ rw (drop-cons c n) (
          ap (prepend_component c) (
            restore_loop-name_value n fuel
              (omega (arith, length-name_value c n, ndn.component_bytes_pos c)))
          ∙ unfold prepend_component in refl)

  -- Every name saved to the database is restored, within as many rounds as it has bytes.
  pub restore_name-save_name : (n : Name) → restore_name (save_name n) ≡ ok n
  unfolding restore_name save_name
  restore_name-save_name n = restore_loop-name_value n (length (ndn.name_value n)) (omega arith)

  pub save_name-injective : (a b : Name) → save_name a ≡ save_name b → a ≡ b
  unfolding save_name
  save_name-injective a b h = name_value-injective a b h
