-- ===== src/Tools/AddRr.antt =====
-- tools/ndns-add-rr.cpp: main once the options are parsed. The variables that the options write are the
-- fields of AddOptions: `ttl` is the int that the options ttl and version both write (`none` for its
-- initial -1), and no option writes the version's. ndn-cxx's parsing of names is a parameter, and so are
-- the PIB, the clock and the packet that a file holds under an encoding.
pub mod Stamped
pub mod Delivery
use ndns.Prelude.{
  ℕ, ltb, Bool, true, false, ◌||◌, Option, none, some, List, [], ◌∷◌, length, if◌then◌else◌, String,
  Exec, pure, raise, lift, ◌>>=◌, Result, ok, err, missing_option, unsupported_encoding,
}
use text.Mathlib.Text.{◌==◌ as str_eq}
use ndns.Ndn.{Ndn}
use ndns.Packets.{Name, Component, Data, component_eq}
use ndns.Label.{ns_rr_type, txt_rr_type}
use ndns.Daemon.Rrset.{Rrset, make_rrset}
use ndns.Daemon.Sqlite.{Sqlite, Db}
use ndns.Daemon.RrsetFactory.{
  RrsetFactory, make_factory, check_zone_key, generate_ns_rrset, generate_txt_rrset,
  version_use_unix_timestamp,
}
use ndns.Mgmt.CertHelper.{Pib}
use ndns.Mgmt.Doe.{default_cache_ttl}
use ndns.Mgmt.Tool.{add_rrset, add_multi_level_label_rrset}
use ndns.Mgmt.Tool.FromFile.{add_rrset_from_file}

module _ ⦃ndn : Ndn⦄ where
  pub record AddOptions : Type 0 where
    pub zone : Option String
    pub label : Option String
    pub type : Option String
    pub content : List String
    pub ttl : Option ℕ
    pub dsk : Name
    pub file : Option String
    pub encoding : String
    pub resign : Option Bool

  -- What ndn-cxx and the file system give: Name(uri), name::Component(uri), and the packet of a file.
  pub record Outside : Type 0 where
    pub parse_name : String → Result Name
    pub parse_component : String → Result Component
    pub load : String → String → Option Data

  -- vm.count on the positional options
  unfoldable pub has_arguments : AddOptions → Bool
  has_arguments o = elim o.zone [
    | none ↦ false
    | some zone ↦ elim o.file [
      | some file ↦ true
      | none ↦ elim o.label [
        | none ↦ false
        | some label ↦ elim o.type [ none ↦ false | some type ↦ true ]
      ]
    ]
  ]

  unfoldable pub ttl_of : AddOptions → ℕ
  ttl_of o = elim o.ttl [ none ↦ default_cache_ttl | some ttl ↦ ttl ]

  -- needResign is true to begin with, and where a file is given the option makes it true again.
  unfoldable pub need_resign : AddOptions → Bool
  need_resign o =
      let parsed = elim o.resign as (λ b. Bool) [ none ↦ true | some b ↦ b ] in
      elim o.file [ none ↦ parsed | some file ↦ elim o.resign [ none ↦ parsed | some b ↦ true ] ]

  unfoldable pub is_encoding : String → Bool
  is_encoding s = str_eq s "raw" || (str_eq s "hex" || str_eq s "base64")

  -- The text of an option, empty where it is not given
  abbrev text_of : Option String → String
  text_of none = ""
  text_of (some s) = s

  unfoldable pub parse_names : (String → Result Name) → List String → Result (List Name)
  parse_names parse [] = ok []
  parse_names parse (s ∷ ss) = elim (parse s) [
    | err e ↦ err e
    | ok n ↦ elim (parse_names parse ss) [ err e ↦ err e | ok ns ↦ ok (n ∷ ns) ]
  ]

  -- The record set of the options: one of another type stays Rrset(). The version is
  -- static_cast<uint64_t>(-1).
  unfoldable pub rrset_of_options :
      Outside → RrsetFactory → Component → Name → Component → ℕ → List String → Result Rrset
  rrset_of_options out factory now label type ttl content =
      if component_eq type ns_rr_type
      then (elim (parse_names out.parse_name content) [
        | err e ↦ err e
        | ok delegations ↦
            generate_ns_rrset factory now label version_use_unix_timestamp ttl delegations
      ])
      else if component_eq type txt_rr_type
      then generate_txt_rrset factory now label version_use_unix_timestamp ttl content
      else ok (make_rrset none)

  module _ ⦃sqlite : Sqlite⦄ (out : Outside) (pib : Pib) (now : Component)
      (auth_now doe_now : ℕ → Component) where
    unfoldable pub add_from_options : AddOptions → Name → Name → Component → Exec Db (Unit {0})
    unfolding rrset_of_options ttl_of
    add_from_options o zone_name label type = do
      made ← lift (make_factory pib zone_name o.dsk)
      factory ← check_zone_key pib made
      rrset ← lift (rrset_of_options out factory now label type (ttl_of o) o.content)
      (if ltb 1 (length label)
          then add_multi_level_label_rrset pib auth_now doe_now factory (ttl_of o) rrset
          else add_rrset pib doe_now rrset)

    unfoldable pub add_from_file : AddOptions → Name → String → Exec Db (Unit {0})
    unfolding is_encoding ttl_of need_resign
    add_from_file o zone_name file =
        if is_encoding o.encoding
        then add_rrset_from_file pib doe_now zone_name (out.load file o.encoding) (ttl_of o) o.dsk
            (need_resign o)
        else raise unsupported_encoding

    -- main returns 0 if this goes through, and 1 if it throws.
    unfoldable pub add_rr : AddOptions → Exec Db (Unit {0})
    unfolding has_arguments add_from_options add_from_file
    add_rr o =
        if has_arguments o
        then (do
          zone_name ← lift (out.parse_name (text_of o.zone))
          label ← lift (out.parse_name (text_of o.label))
          type ← lift (out.parse_component (text_of o.type))
          (elim o.file [
            | some file ↦ add_from_file o zone_name file
            | none ↦ add_from_options o zone_name label type
          ]))
        else raise missing_option
