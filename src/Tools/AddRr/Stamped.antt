-- ===== src/Tools/AddRr/Stamped.antt =====
-- The records that ndns-add-rr (tools/ndns-add-rr.cpp) makes, and the types it makes none for.
use ndns.Prelude.{
  ℕ, ltb, ◌≡◌, ◌≢◌, ◌⊎◌, inl, inr, refl, ◌∙◌, true, none, some, List, String, arith, Keeps,
  Keeps-bind, Keeps-if, lift, Result-cases, ok, err, Error, Bool-cases, length, rrset_without_zone,
  empty_label,
}
use ndns.Ndn.{Ndn}
use ndns.Packets.{Name, Component, component_eq, name_eq}
use ndns.Label.{ns_rr_type, txt_rr_type}
use ndns.Daemon.Rrset.{Rrset, make_rrset}
use ndns.Daemon.Sqlite.{Sqlite, Db}
use ndns.Daemon.DbMgr.Zones.{find_zone}
use ndns.Daemon.DbMgr.Rrsets.{find_rrset}
use ndns.Daemon.RrsetFactory.{
  RrsetFactory, make_factory, check_zone_key, only_check_zone, default_cert, rr_ttl,
  generate_ns_rrset, generate_txt_rrset, version_use_unix_timestamp,
}
use ndns.Mgmt.CertHelper.{Pib}
use ndns.Mgmt.Tool.{add_rrset, add_multi_level_label_rrset}
use ndns.Daemon.DbMgr.Reads.{db-find_zone}
use ndns.Tools.AddRr.{AddOptions, Outside, rrset_of_options, parse_names, add_from_options, ttl_of}

module _ ⦃ndn : Ndn⦄ where
  -- The record carries the clock's version, whatever the options say.
  pub record IsStamped (factory : RrsetFactory) (now : Component) (label : Name) (type : Component)
      (ttl : ℕ) (r : Rrset) : Type 0 where
    pub zone : r.zone ≡ some factory.zone
    pub unstored : r.id ≡ 0
    pub labelled : r.label ≡ label
    pub typed : r.type ≡ type
    pub version : r.version ≡ now
    pub lasting : r.ttl ≡ rr_ttl factory ttl

  ns-IsStamped :
      (out : Outside) (factory : RrsetFactory) (now : Component) (label : Name) (type : Component)
      (ttl : ℕ) (content : List String) (r : Rrset)
      → component_eq type ns_rr_type ≡ true
      → rrset_of_options out factory now label type ttl content ≡ ok r
      → IsStamped factory now label type ttl r
  unfolding rrset_of_options generate_ns_rrset
  ns-IsStamped out factory now label type ttl content r ns h =
      let k = rw ns at h in
      elim (Result-cases (parse_names out.parse_name content)) [
        | inr (e, p) ↦ absurd (ground (arith, p))
        | inl (names, p) ↦ elim (Bool-cases factory.checked) [
          | inr c ↦ absurd (ground (arith, p))
          | inl c ↦ ground (arith, p, ndn.component_eq_iff type ns_rr_type)
        ]
      ]

  pub txt-IsStamped :
      (factory : RrsetFactory) (now : Component) (label : Name) (type : Component) (ttl : ℕ)
      (content : List String) (r : Rrset)
      → component_eq type txt_rr_type ≡ true
      → generate_txt_rrset factory now label version_use_unix_timestamp ttl content ≡ ok r
      → IsStamped factory now label type ttl r
  unfolding generate_txt_rrset
  txt-IsStamped factory now label type ttl content r txt h = elim (Bool-cases factory.checked) [
    | inr c ↦ absurd (ground arith)
    | inl c ↦ ground (arith, ndn.component_eq_iff type txt_rr_type)
  ]

  -- A record set that the options lead to, whatever their version: Rrset(), or one of the zone with the
  -- label, the type and the TTL asked for, under the clock's version.
  pub rrset_of_options-IsStamped :
      (out : Outside) (factory : RrsetFactory) (now : Component) (label : Name) (type : Component)
      (ttl : ℕ) (content : List String) (r : Rrset)
      → rrset_of_options out factory now label type ttl content ≡ ok r
      → (r ≡ make_rrset none) ⊎ IsStamped factory now label type ttl r
  rrset_of_options-IsStamped out factory now label type ttl content r h =
      elim (Bool-cases (component_eq type ns_rr_type)) [
        | inl ns ↦ inr (ns-IsStamped out factory now label type ttl content r ns h)
        | inr ns ↦ elim (Bool-cases (component_eq type txt_rr_type)) [
          | inl txt ↦ inr (
              txt-IsStamped factory now label type ttl content r txt
                (unfold rrset_of_options in ground arith))
          | inr txt ↦ inl (unfold rrset_of_options in ground arith)
        ]
      ]

  abbrev Untouched : Db → Db → Type 0
  Untouched db d = d ≡ db

  check_zone_key_same :
      (pib : Pib) (factory : RrsetFactory) (db : Db)
      → Keeps (Untouched db) (check_zone_key pib factory)
  unfolding check_zone_key only_check_zone
  check_zone_key_same pib factory db =
      let P = Untouched db in
      Keeps-bind P (only_check_zone factory) _
        (Keeps-if P factory.checked _ _ (λ d h. h)
          (Keeps-bind P (find_zone factory.zone) _ (λ d h. db-find_zone factory.zone d ∙ h)
            (λ found. Keeps-if P found.1 _ _ (λ d h. h) (λ d h. h))))
        (λ factory'.
          Keeps-if P (name_eq factory'.dsk_cert_name default_cert) _ _ (λ d h. h)
            (Keeps-bind P (lift _) _ (λ d h. h)
              (λ matches. Keeps-if P matches _ _ (λ d h. h) (λ d h. h))))

  module _ ⦃sqlite : Sqlite⦄ (out : Outside) (pib : Pib) (now : Component)
      (auth_now doe_now : ℕ → Component) where
    add_nothing :
        (db : Db) → add_rrset pib doe_now (make_rrset none) db ≡ (err rrset_without_zone, db)
    unfolding add_rrset find_rrset
    add_nothing db = refl

    add_nothing_below :
        (factory : RrsetFactory) (ttl : ℕ) (db : Db)
        → add_multi_level_label_rrset pib auth_now doe_now factory ttl (make_rrset none) db
          ≡ (err empty_label, db)
    unfolding add_multi_level_label_rrset
    add_nothing_below factory ttl db = refl

    -- A record given by a type other than NS and TXT is refused, whatever the other options and the
    -- database, and nothing is written.
    pub add_from_options-other_type :
        (o : AddOptions) (zone_name label : Name) (type : Component) (db : Db)
        → type ≢ ns_rr_type
        → type ≢ txt_rr_type
        → (e : Error) × (add_from_options out pib now auth_now doe_now o zone_name label type db
            ≡ (err e, db))
    unfolding add_from_options rrset_of_options
    add_from_options-other_type o zone_name label type db ns txt =
        elim (Result-cases (make_factory pib zone_name o.dsk)) [
          | inr (e, m) ↦ (e, rw m refl)
          | inl (made, m) ↦
              let same = check_zone_key_same pib made db db refl in
              elim (Result-cases (check_zone_key pib made db).0) [
                | inr (e, c) ↦ (e, ground (arith, m, c, same))
                | inl (factory, c) ↦ elim (Bool-cases (ltb 1 (length label))) [
                  | inl l ↦ (
                    empty_label,
                    ground (
                      arith,
                      m,
                      c,
                      same,
                      l,
                      ndn.component_eq_iff type ns_rr_type,
                      ndn.component_eq_iff type txt_rr_type,
                      add_nothing_below factory (ttl_of o) db,
                    ),
                  )
                  | inr l ↦ (
                    rrset_without_zone,
                    ground (
                      arith,
                      m,
                      c,
                      same,
                      l,
                      ndn.component_eq_iff type ns_rr_type,
                      ndn.component_eq_iff type txt_rr_type,
                      add_nothing db,
                    ),
                  )
                ]
              ]
        ]
