-- ===== src/Prelude/Effects.antt =====
-- Methods that mutate an object and may throw. What was written before a throw stays written, so
-- the state comes back beside the error too.
use mathlib.Core.Path.{◌≡◌, refl}
use mathlib.Core.Logic.{◌⊎◌, inl, inr}
use mathlib.Core.Bool.{Bool, true, false}
use ndns.Prelude.Tests.{if◌then◌else◌}
use native.Mathlib.Omega.{arith}

-- What the program throws, one constructor for each message or exception type.
pub data Error : Type 0 where
  -- the database manager
  prepare_error execute_error decode_error rrset_without_zone rrset_without_id : Error
  zone_not_initialized zone_not_in_db key_too_long : Error
  -- the name server and the clients
  zone_missing register_failed no_doe_record absence_not_inferred unexpected_state : Error
  -- decoding by the packet library, and DoE content of another length
  bad_packet bad_doe : Error
  -- the record factory and the management tool
  zone_unchecked bad_certificate different_zones doe_of_empty_zone : Error
  overrides_link overrides_auth duplicate newer_version already_present : Error
  parent_is_zone parent_not_prefix dkey_of_root : Error
  zones_section_empty zone_name_missing identity_without_certificate unknown_certificate : Error
  missing_option unsupported_encoding cert_not_found : Error
  not_a_cert_name empty_label pib_error certificate_missing zone_not_present : Error

pub data Result {ℓ} (A : Type ℓ) : Type ℓ where
  ok : A → Result A
  err : Error → Result A

pub Result-cases {ℓ} :
    {A : Type ℓ} (r : Result A) → ((a : A) × (r ≡ ok a)) ⊎ ((e : Error) × (r ≡ err e))
Result-cases (ok a) = inl (a, refl)
Result-cases (err e) = inr (e, refl)

abbrev pub Exec {ℓ} : Type ℓ → Type ℓ → Type ℓ
Exec S A = S → Result A × S

module _ {ℓ} {S A : Type ℓ} where
  abbrev pub pure : A → Exec S A
  pure a s = (ok a, s)

  abbrev pub raise : Error → Exec S A
  raise e s = (err e, s)

  abbrev pub lift : Result A → Exec S A
  lift r s = (r, s)

module _ {ℓ} {S A B : Type ℓ} where
  abbrev pub continue : Result A → (A → Exec S B) → Exec S B
  continue (ok a) f s = f a s
  continue (err e) f s = (err e, s)

  infixl 10 ◌>>=◌ ◌>>◌
  abbrev pub ◌>>=◌ : Exec S A → (A → Exec S B) → Exec S B
  ◌>>=◌ m f s = continue (m s).0 f (m s).1

  abbrev pub ◌>>◌ : Exec S A → Exec S B → Exec S B
  m >> n = m >>= λ _. n

  -- What goes through has gone through step by step.
  pub bind-ok :
      (m : Exec S A) (f : A → Exec S B) (s s' : S) (b : B)
      → (m >>= f) s ≡ (ok b, s')
      → (a : A) × (t : S) × (m s ≡ (ok a, t)) × (f a t ≡ (ok b, s'))
  bind-ok m f s s' b h = elim (Result-cases (m s).0) [
    | inl (a, e) ↦ (a, (m s).1, ground arith, ground arith)
    | inr (e, k) ↦ absurd (ground arith)
  ]

module _ {ℓ} {S A : Type ℓ} where
  -- What goes through where the other branch throws.
  pub if_raise-ok :
      (b : Bool) (m : Exec S A) (e : Error) (s s' : S) (a : A)
      → (if b then m else raise e) s ≡ (ok a, s')
      → m s ≡ (ok a, s')
  if_raise-ok true m e s s' a h = h
  if_raise-ok false m e s s' a h = absurd (ground arith)

module _ {ℓ} {S : Type ℓ} where
  abbrev pub guard : Bool → Error → Exec S (Unit {ℓ})
  guard true e s = (ok tt, s)
  guard false e s = (err e, s)

-- An action that keeps a property of the state, whatever its outcome.
module _ {S : Type 0} (P : S → Type 0) where
  abbrev pub Keeps : {A : Type 0} → Exec S A → Type 0
  Keeps m = (s : S) → P s → P (m s).1

  pub bind-at :
      {A B : Type 0} (m : Exec S A) (f : A → Exec S B) (s : S)
      → P (m s).1
      → ((a : A) → Keeps (f a))
      → P ((m >>= f) s).1
  bind-at m f s h k = elim (Result-cases (m s).0) [
    | inl (a, e) ↦ rw e (k a (m s).1 h)
    | inr (b, e) ↦ rw e h
  ]

  pub Keeps-bind :
      {A B : Type 0} (m : Exec S A) (f : A → Exec S B)
      → Keeps m
      → ((a : A) → Keeps (f a))
      → Keeps (m >>= f)
  Keeps-bind m f h k s p = bind-at m f s (h s p) k

  pub Keeps-if :
      {A : Type 0} (b : Bool) (m n : Exec S A) → Keeps m → Keeps n → Keeps (if b then m else n)
  Keeps-if true m n h k = h
  Keeps-if false m n h k = k
