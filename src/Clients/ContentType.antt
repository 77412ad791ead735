-- ===== src/Clients/ContentType.antt =====
-- src/ndns-enum.hpp, src/ndns-enum.cpp, src/ndns-tlv.hpp, `toNdnsContentType` of src/util/util.cpp.
-- A content type is a number, since the program casts any number to the enumeration.
use ndns.Prelude.{ℕ, ◌||◌, Bool, String, ◌==◌, if◌then◌else◌}
use text.Mathlib.Text.{◌==◌ as str_eq}
use ndns.Ndn.{Ndn}

module _ ⦃ndn : Ndn⦄ where
  abbrev pub ndns_blob : ℕ
  ndns_blob = ndn.content_type_blob

  abbrev pub ndns_link : ℕ
  ndns_link = ndn.content_type_link

  abbrev pub ndns_key : ℕ
  ndns_key = ndn.content_type_key

  abbrev pub ndns_nack : ℕ
  ndns_nack = ndn.content_type_nack

abbrev pub ndns_doe : ℕ
ndns_doe = 1085

abbrev pub ndns_auth : ℕ
ndns_auth = 1086

abbrev pub ndns_resp : ℕ
ndns_resp = 1087

abbrev pub ndns_unknown : ℕ
ndns_unknown = 1088

abbrev pub update_ok : ℕ
update_ok = 0

abbrev pub update_failure : ℕ
update_failure = 1

abbrev pub tlv_rr_data : ℕ
tlv_rr_data = 191

abbrev pub tlv_update_return_code : ℕ
tlv_update_return_code = 160

abbrev pub tlv_update_return_msg : ℕ
tlv_update_return_msg = 161

module _ ⦃ndn : Ndn⦄ where
  -- operator<<(std::ostream&, NdnsContentType)
  unfoldable pub show_content_type : ℕ → String
  show_content_type t =
      if t == ndns_blob
      then "BLOB"
      else if t == ndns_link
      then "LINK"
      else if t == ndns_nack
      then "NACK"
      else if t == ndns_doe
      then "DOE"
      else if t == ndns_key
      then "KEY"
      else if t == ndns_auth
      then "NDNS-Auth"
      else if t == ndns_resp
      then "NDNS-Resp"
      else "UNKNOWN"

  unfoldable pub to_ndns_content_type : String → ℕ
  to_ndns_content_type s =
      if str_eq s "resp"
      then ndns_resp
      else if str_eq s "nack"
      then ndns_nack
      else if str_eq s "auth"
      then ndns_auth
      else if str_eq s "blob"
      then ndns_blob
      else if str_eq s "link"
      then ndns_link
      else if str_eq s "key"
      then ndns_key
      else ndns_unknown

  -- Blob and Key content is the application's: its bytes are taken as they are.
  abbrev pub is_raw : ℕ → Bool
  is_raw t = (t == ndns_blob) || (t == ndns_key)
