-- ===== src/Tools/Manage.antt =====
-- The tools of one call to the management tool, once their options are parsed: tools/ndns-get-rr.cpp,
-- tools/ndns-list-zone.cpp, tools/ndns-list-all-zones.cpp and tools/ndns-export-certificate.cpp, which
-- print, and tools/ndns-delete-zone.cpp and tools/ndns-remove-rr.cpp, which write. An option is `none` where
-- it is not given; main returns 0 if the run goes through, and 1 if it throws.
pub mod Reads
use ndns.Prelude.{
  ℕ, Bool, Option, none, some, List, [], ◌∷◌, String, Exec, pure, raise, lift, ◌>>=◌, ◌>>◌, Result,
  ok, err, missing_option,
}
use ndns.Ndn.{Ndn}
use ndns.Packets.{Name, Component, Data}
use ndns.Daemon.Sqlite.{Sqlite, Db}
use ndns.Mgmt.CertHelper.{Pib}
use ndns.Mgmt.Tool.{get_rr_set, delete_zone, remove_rr_set}
use ndns.Mgmt.Tool.Export.{export_certificate}
use ndns.Mgmt.Tool.Listing.{Texts, Out, put, newline, base64, bytes, list_zone, list_all_zones}

module _ ⦃ndn : Ndn⦄ where
  pub data ReadTool : Type 0 where
    get_rr : Option String → Option String → Option String → ReadTool
    list_one : Option String → Bool → ReadTool
    list_all : ReadTool
    export : Option String → ReadTool

  pub data WriteTool : Type 0 where
    delete : Option String → WriteTool
    remove_rr : Option String → Option String → Option String → WriteTool

  -- vm.count of an option that must be given
  unfoldable pub required : Option String → Result String
  required none = err missing_option
  required (some s) = ok s

  -- What the tools take from ndn-cxx: the parsing of names and types, the texts printed, the test for a
  -- certificate and the regular expression of certificates' names.
  pub record Context : Type 0 where
    pub parse_name : String → Result Name
    pub parse_component : String → Result Component
    pub texts : Texts
    pub is_certificate : Data → Bool
    pub match : Name → Option (Name × Name)
    pub pib : Pib

  unfoldable pub print_rr : Context → Name → Name → Component → Exec Db (List Out)
  print_rr c zone_name label type = do
    block ← get_rr_set zone_name label type
    pure (elim block [ none ↦ put "No record is found" ∷ newline ∷ [] | some b ↦ base64 b ∷ [] ])

  unfoldable pub print_certificate : Context → Name → Exec Db (List Out)
  print_certificate c cert_name = do
    cert ← export_certificate c.match c.is_certificate cert_name
    pure (bytes (ndn.data_block cert) ∷ [])

  unfoldable pub run_read : Context → ReadTool → Exec Db (List Out)
  unfolding required print_rr print_certificate
  run_read c (get_rr zone label type) = do
    zone_text ← lift (required zone)
    label_text ← lift (required label)
    type_text ← lift (required type)
    zone_name ← lift (c.parse_name zone_text)
    rr_label ← lift (c.parse_name label_text)
    rr_type ← lift (c.parse_component type_text)
    print_rr c zone_name rr_label rr_type
  run_read c (list_one zone print_raw) = do
    zone_text ← lift (required zone)
    zone_name ← lift (c.parse_name zone_text)
    list_zone c.texts zone_name print_raw
  run_read c list_all = list_all_zones c.texts c.pib
  run_read c (export cert_name) = do
    cert_text ← lift (required cert_name)
    name ← lift (c.parse_name cert_text)
    print_certificate c name

  unfoldable pub run_write :
      ⦃sqlite : Sqlite⦄ → Context → (ℕ → Component) → WriteTool → Exec Db (Unit {0})
  unfolding required
  run_write c doe_now (delete zone) = do
    zone_text ← lift (required zone)
    zone_name ← lift (c.parse_name zone_text)
    delete_zone zone_name
    pure tt
  run_write c doe_now (remove_rr zone label type) = do
    zone_text ← lift (required zone)
    label_text ← lift (required label)
    type_text ← lift (required type)
    zone_name ← lift (c.parse_name zone_text)
    rr_label ← lift (c.parse_name label_text)
    rr_type ← lift (c.parse_component type_text)
    remove_rr_set c.pib doe_now zone_name rr_label rr_type
