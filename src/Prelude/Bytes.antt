-- ===== src/Prelude/Bytes.antt =====
-- Blobs as SQLite compares them: `memcmp`, and a blob comes before its extensions.
use Prim.Native.Nat.{ℕ}
use mathlib.Core.Path.{◌≡◌, refl}
use mathlib.Core.Logic.{◌↔◌, ◌⊎◌, inl, inr, ◌≢◌}
use mathlib.Core.Bool.{Bool, true, false, ◌&&◌, ◌||◌}
use mathlib.Core.List.{List, [], ◌∷◌}
use native.Mathlib.Omega.{arith}
use ndns.Prelude.Tests.{ltb, ◌==◌}

abbrev pub Blob : Type 0
Blob = List ℕ

unfoldable pub blob_eq : Blob → Blob → Bool
blob_eq [] [] = true
blob_eq [] (b ∷ bs) = false
blob_eq (a ∷ as') [] = false
blob_eq (a ∷ as') (b ∷ bs) = (a == b) && blob_eq as' bs

unfoldable pub blob_lt : Blob → Blob → Bool
blob_lt [] [] = false
blob_lt [] (b ∷ bs) = true
blob_lt (a ∷ as') [] = false
blob_lt (a ∷ as') (b ∷ bs) = ltb a b || ((a == b) && blob_lt as' bs)

pub blob_eq_iff : (a b : Blob) → (blob_eq a b ≡ true) ↔ (a ≡ b)
unfolding blob_eq
blob_eq_iff [] [] = ground arith
blob_eq_iff [] (b ∷ bs) = ground arith
blob_eq_iff (a ∷ as') [] = ground arith
blob_eq_iff (a ∷ as') (b ∷ bs) = ground (arith, blob_eq_iff as' bs)

pub blob_lt_irrefl : (a : Blob) → blob_lt a a ≡ false
unfolding blob_lt
blob_lt_irrefl [] = refl
blob_lt_irrefl (a ∷ as') = ground (arith, blob_lt_irrefl as')

pub blob_lt_trans : (a b c : Blob) → blob_lt a b ≡ true → blob_lt b c ≡ true → blob_lt a c ≡ true
unfolding blob_lt
blob_lt_trans [] b [] h k = ground arith
blob_lt_trans [] b (z ∷ c) h k = refl
blob_lt_trans (x ∷ a) [] c h k = ground arith
blob_lt_trans (x ∷ a) (y ∷ b) [] h k = ground arith
blob_lt_trans (x ∷ a) (y ∷ b) (z ∷ c) h k = ground (arith, blob_lt_trans a b c)

pub blob_lt_total : (a b : Blob) → a ≢ b → (blob_lt a b ≡ true) ⊎ (blob_lt b a ≡ true)
unfolding blob_lt
blob_lt_total [] [] h = absurd (h refl)
blob_lt_total [] (y ∷ b) h = inl refl
blob_lt_total (x ∷ a) [] h = inr refl
blob_lt_total (x ∷ a) (y ∷ b) h = ground (arith, blob_lt_total a b)

pub blob_lt-nil : (b : Blob) → b ≢ [] → blob_lt [] b ≡ true
unfolding blob_lt
blob_lt-nil [] h = absurd (h refl)
blob_lt-nil (x ∷ b) h = refl

pub blob_lt_asymm : (a b : Blob) → blob_lt a b ≡ true → blob_lt b a ≡ false
blob_lt_asymm a b h = ground (arith, blob_lt_trans a b a, blob_lt_irrefl a)

pub blob_not_lt_trans :
    (a b c : Blob) → blob_lt a b ≡ false → blob_lt b c ≡ false → blob_lt a c ≡ false
blob_not_lt_trans a b c h k =
    ground (arith, blob_eq_iff b c, blob_lt_total b c, blob_lt_trans a c b)
