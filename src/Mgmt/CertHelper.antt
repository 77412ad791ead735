-- ===== src/Mgmt/CertHelper.antt =====
-- src/util/cert-helper.hpp, src/util/cert-helper.cpp. The PIB is a parameter: the identities of the
-- key chain with their keys and certificates, and so is the signing key.
pub mod Held
use ndns.Prelude.{
  Bool, true, false, Option, none, some, List, [], ◌∷◌, ◌++◌, if◌then◌else◌, Result, ok, err,
  pib_error, certificate_missing, not_a_cert_name,
}
use ndns.Ndn.{Ndn}
use ndns.Packets.{Name, Component, Block, Data, component_eq, name_eq, make_data, as_content}

module _ ⦃ndn : Ndn⦄ where
  pub record Key : Type 0 where
    pub name : Name
    pub certificates : List Data
    pub default_certificate : Option Data

  pub record Identity : Type 0 where
    pub keys : List Key
    pub default_key : Option Key

  -- Pib::getIdentity, which throws Pib::Error on an unknown name
  abbrev pub Pib : Type 0
  Pib = Name → Option Identity

  unfoldable pub get_identity : Pib → Name → Result Identity
  get_identity pib name = elim (pib name) [ none ↦ err pib_error | some id ↦ ok id ]

  unfoldable pub does_identity_exist : Pib → Name → Bool
  does_identity_exist pib name = elim (pib name) [ none ↦ false | some id ↦ true ]

  named : Name → List Data → Option Data
  named cert_name [] = none
  named cert_name (c ∷ cs) = if name_eq c.name cert_name then some c else named cert_name cs

  in_keys : Name → List Key → Option Data
  unfolding named
  in_keys cert_name [] = none
  in_keys cert_name (k ∷ ks) = elim (named cert_name k.certificates) [
    | some c ↦ some c
    | none ↦ in_keys cert_name ks
  ]

  -- getCertificate(keyChain, identity, certName)
  unfoldable pub get_certificate : Pib → Name → Name → Result Data
  unfolding in_keys
  get_certificate pib identity cert_name = elim (pib identity) [
    | none ↦ err pib_error
    | some id ↦ elim (in_keys cert_name id.keys) [ none ↦ err certificate_missing | some c ↦ ok c ]
  ]

  before_key : Name → Option Name
  before_key [] = none
  before_key (c ∷ n) = elim (before_key n) [
    | none ↦ if component_eq c (ndn.of_string "KEY") then some [] else none
    | some m ↦ if component_eq c (ndn.of_string "KEY") then some [] else some (c ∷ m)
  ]

  -- The prefix before the first component KEY.
  unfoldable pub get_identity_name_from_cert : Name → Result Name
  unfolding before_key
  get_identity_name_from_cert cert_name = elim (before_key cert_name) [
    | none ↦ err not_a_cert_name
    | some n ↦ ok n
  ]

  default_key_of : Identity → Result Key
  default_key_of id = elim id.default_key [ none ↦ err pib_error | some k ↦ ok k ]

  unfoldable pub get_default_key_name_of_identity : Pib → Name → Result Name
  unfolding default_key_of
  get_default_key_name_of_identity pib name = elim (pib name) [
    | none ↦ err pib_error
    | some id ↦ elim (default_key_of id) [ err e ↦ err e | ok k ↦ ok k.name ]
  ]

  unfoldable pub get_default_certificate_name_of_identity : Pib → Name → Result Name
  unfolding default_key_of
  get_default_certificate_name_of_identity pib name = elim (pib name) [
    | none ↦ err pib_error
    | some id ↦ elim (default_key_of id) [
      | err e ↦ err e
      | ok k ↦ elim k.default_certificate [ none ↦ err pib_error | some c ↦ ok c.name ]
    ]
  ]

  -- createCertificate for a key with its name and its public key: the issuer and the clock's version
  -- behind the key's name. The validity period is part of what ndn-cxx signs.
  unfoldable pub create_certificate :
      (Data → ndn.Signature) → Name → Block → Component → Component → Data
  create_certificate sign_by_key key_name public_key issuer now =
      let certificate : Data = record (make_data (key_name ++ issuer ∷ now ∷ [])) {
        content_type = ndn.content_type_key;
        freshness_period = 3600000;
        content = as_content public_key;
      } in
      record certificate { signature = some (sign_by_key certificate) }
