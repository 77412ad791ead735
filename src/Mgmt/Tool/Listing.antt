-- ===== src/Mgmt/Tool/Listing.antt =====
-- listZone and listAllZones of src/mgmt/management-tool.cpp. What they write to the stream is a list, in
-- which `padded w s` is the text s after os.width(w); the texts that ndn-cxx and the standard library make
-- are parameters. What is written before an exception is not modelled.
pub mod Columns
pub mod Zones
use Prim.Native.String.{len}
use ndns.Prelude.{
  ℕ, ◌+◌, ltb, Bool, true, false, not, Option, none, some, List, [], ◌∷◌, ◌++◌, map, String,
  if◌then◌else◌, Exec, pure, raise, lift, ◌>>=◌, Result, ok, err, zone_not_present, bad_packet,
  ◌==◌,
}
use ndns.Ndn.{Ndn}
use ndns.Packets.{Name, Component, Block, Data, component_eq}
use ndns.Label.{ns_rr_type, txt_rr_type, cert_rr_type, ndns_iterative_query}
use ndns.Clients.ContentType.{is_raw, ndns_auth}
use ndns.Clients.Response.{Response, make_response, from_data}
use ndns.Daemon.Zone.{Zone, make_zone}
use ndns.Daemon.Rrset.{Rrset}
use ndns.Daemon.Sqlite.{Db}
use ndns.Daemon.DbMgr.Zones.{find_zone, list_zones}
use ndns.Daemon.DbMgr.Rrsets.{find_rrsets}
use ndns.Mgmt.CertHelper.{
  Pib, get_default_key_name_of_identity, get_default_certificate_name_of_identity,
}

module _ ⦃ndn : Ndn⦄ where
  -- toUri, the printing of numbers and content types, the key locator's name, the delegations of a Link,
  -- and the printing of a certificate
  pub record Texts : Type 0 where
    pub name_uri : Name → String
    pub component_uri : Component → String
    pub decimal : ℕ → String
    pub content_type_text : ℕ → String
    pub signer : Data → String
    pub delegations : Block → List String
    pub certificate_text : Block → String

  pub data Out : Type 0 where
    put : String → Out
    padded : ℕ → String → Out
    bytes : Block → Out
    base64 : Block → Out
    -- rrs[i] past the end, which is undefined
    out_of_range : Out
    newline : Out

  module _ {A : Type 0} (size : A → ℕ) where
    unfoldable pub width_from : ℕ → List A → ℕ
    width_from w [] = w
    width_from w (x ∷ xs) = width_from (if ltb w (size x) then size x else w) xs

  -- A record set with its packet and the response in it, matched or not
  pub record Listed : Type 0 where
    pub rrset : Rrset
    pub packet : Data
    pub re : Response

  unfoldable pub read_listed : Name → List Rrset → Result (List Listed)
  read_listed zone_name [] = ok []
  read_listed zone_name (r ∷ rs) = elim (ndn.block_data r.rr_data) [
    | none ↦ err bad_packet
    | some d ↦ elim (read_listed zone_name rs) [
      | err e ↦ err e
      | ok ls ↦ ok (
          record {
            rrset = r;
            packet = d;
            re = (from_data zone_name d (make_response [] ndn.empty_component)).0;
          }
          ∷ ls)
    ]
  ]

  pub record Widths : Type 0 where
    pub label : ℕ
    pub ttl : ℕ
    pub type : ℕ

  module _ (t : Texts) where
    unfoldable pub widths_of : List Listed → Widths
    unfolding width_from
    widths_of ls = record {
      label = width_from (λ (l : Listed). len (t.name_uri l.rrset.label)) 0 ls;
      ttl = width_from (λ (l : Listed). len (t.decimal l.rrset.ttl)) 0 ls;
      type = width_from (λ (l : Listed). len (t.component_uri l.rrset.type)) 0 ls;
    }

    -- The records that the loop over `iteration` runs through: one round for Blob, Key and AUTH.
    unfoldable pub rounds : Response → List (Option Block)
    rounds re =
        let one : List (Option Block) = elim re.rrs [ [] ↦ none ∷ [] | b ∷ bs ↦ some b ∷ [] ] in
        if is_raw re.content_type
        then one
        else (if re.content_type == ndns_auth then one else map some re.rrs)

    each_delegation : List String → List Out
    each_delegation [] = []
    each_delegation (d ∷ ds) = put d ∷ put ";" ∷ each_delegation ds

    unfoldable pub record_text : Listed → Option Block → List Out
    unfolding each_delegation
    record_text l rr =
        if component_eq l.rrset.type txt_rr_type
        then (elim rr [ none ↦ out_of_range | some b ↦ bytes b ]) ∷ newline ∷ []
        else if component_eq l.rrset.type ns_rr_type
        then (if l.re.content_type == ndns_auth
            then put "NDNS-Auth" ∷ newline ∷ []
            else each_delegation (t.delegations l.rrset.rr_data) ++ newline ∷ [])
        else (elim rr [ none ↦ out_of_range | some b ↦ base64 b ]) ∷ []

    -- One round of the loop
    unfoldable pub round : Widths → Listed → Option Block → List Out
    unfolding record_text
    round w l rr =
        padded (w.label + 2) (t.name_uri l.rrset.label)
        ∷ padded (w.ttl + 2) (t.decimal l.rrset.ttl)
        ∷ padded (w.type + 2) (t.component_uri l.rrset.type)
        ∷ (if is_raw l.re.content_type then [] else record_text l rr)

    unfoldable pub all_rounds : Widths → Listed → List (Option Block) → List Out
    unfolding round
    all_rounds w l [] = []
    all_rounds w l (rr ∷ rrs) = round w l rr ++ all_rounds w l rrs

    unfoldable pub before_rounds : Listed → List Out
    before_rounds l =
        if is_raw l.re.content_type
        then []
        else (put "; rrset="
            ∷ put (t.name_uri l.rrset.label)
            ∷ put " type="
            ∷ put (t.component_uri l.rrset.type)
            ∷ put " version="
            ∷ put (t.component_uri l.rrset.version)
            ∷ put " signed-by="
            ∷ put (t.signer l.packet)
            ∷ newline
            ∷ [])

    unfoldable pub after_rounds : Bool → Listed → List Out
    after_rounds print_raw l =
        if is_raw l.re.content_type
        then put "; content-type="
          ∷ put (t.content_type_text l.re.content_type)
          ∷ put " version="
          ∷ put (t.component_uri l.rrset.version)
          ∷ put " signed-by="
          ∷ put (t.signer l.packet)
          ∷ newline
          ∷ ((if print_raw
                then (if component_eq l.re.rr_type cert_rr_type
                    then put (t.certificate_text l.rrset.rr_data)
                    else base64 l.re.app_content)
                  ∷ []
                else [])
              ++ newline ∷ [])
        else newline ∷ []

    unfoldable pub list_records : Widths → Bool → List Listed → List Out
    unfolding all_rounds before_rounds after_rounds rounds
    list_records w print_raw [] = []
    list_records w print_raw (l ∷ ls) =
        (before_rounds l ++ (all_rounds w l (rounds l.re) ++ after_rounds print_raw l))
        ++ list_records w print_raw ls

    unfoldable pub list_zone : Name → Bool → Exec Db (List Out)
    unfolding widths_of read_listed list_records
    list_zone zone_name print_raw = do
      found ← find_zone (make_zone zone_name 3600)
      if found.1
          then (do
            records ← find_rrsets found.0
            listed ← lift (read_listed zone_name records.1)
            pure (
                put "; Zone "
                ∷ put (t.name_uri zone_name)
                ∷ newline
                ∷ newline
                ∷ list_records (widths_of listed) print_raw listed))
          else raise zone_not_present

    -- listAllZones: the default key and certificate of each zone's identity, whose absence throws
    unfoldable pub zone_lines : Pib → ℕ → List Zone → Result (List Out)
    zone_lines pib w [] = ok []
    zone_lines pib w (z ∷ zs) =
        elim (get_default_key_name_of_identity pib (z.name ++ ndns_iterative_query ∷ [])) [
          | err e ↦ err e
          | ok key ↦
              elim (get_default_certificate_name_of_identity pib
                (z.name ++ ndns_iterative_query ∷ [])) [
                  | err e ↦ err e
                  | ok cert ↦ elim (zone_lines pib w zs) [
                    | err e ↦ err e
                    | ok rest ↦ ok (
                        padded (w + 2) (t.name_uri z.name)
                        ∷ put "; default-ttl="
                        ∷ put (t.decimal z.ttl)
                        ∷ put " default-key="
                        ∷ put (t.name_uri key)
                        ∷ put " default-certificate="
                        ∷ put (t.name_uri cert)
                        ∷ newline
                        ∷ rest)
                  ]
                ]
        ]

    unfoldable pub list_all_zones : Pib → Exec Db (List Out)
    unfolding zone_lines width_from
    list_all_zones pib = do
      zones ← list_zones
      lift (zone_lines pib (width_from (λ (z : Zone). len (t.name_uri z.name)) 0 zones) zones)
