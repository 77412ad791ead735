-- ===== src/Tests/Clients.antt =====
-- The properties of the clients and of the label matching at concrete names and packets.
use ndns.Prelude.{◌≡◌, refl, true, some, [], ◌∷◌, ◌++◌}
use ndns.Packets.{Component, Block}
use ndns.Label.{match_interest, ndns_iterative_query, txt_rr_type}
use ndns.Label.Match.{match_interest-marker}
use ndns.Clients.ContentType.{ndns_resp, ndns_blob, tlv_rr_data}
use ndns.Clients.Query.{Query, make_query, from_interest, to_interest}
use ndns.Clients.Query.Roundtrip.{from_interest-to_interest}
use ndns.Clients.Response.{
  Response, make_response, from_data, to_data, stamp_version, set_app_content,
}
use ndns.Clients.Response.Encoding.{from_data-to_data}
use ndns.Tests.Toy.{toy, leaf}

abbrev pub net : Component
net = toy.of_string "net"

abbrev pub ucla : Component
ucla = toy.of_string "ucla"

abbrev pub www : Component
www = toy.of_string "www"

abbrev pub version_7 : Component
version_7 = toy.of_version 7

match_interest-marker_example :
    match_interest ((net ∷ []) ++ ndns_iterative_query ∷ version_7 ∷ []) (net ∷ [])
    ≡ some
        (record { rr_label = version_7 ∷ []; rr_type = ndns_iterative_query; version = version_7 })
match_interest-marker_example = match_interest-marker (net ∷ []) version_7 refl

abbrev www_query : Query
www_query = record (make_query 4000) {
  zone = net ∷ [];
  query_type = ndns_iterative_query;
  rr_label = ucla ∷ www ∷ [];
  rr_type = txt_rr_type;
}

from_interest-to_interest_example :
    from_interest (net ∷ []) (to_interest www_query) (make_query 10)
    ≡ (record www_query { interest_lifetime = 10 }, true)
unfolding make_query
from_interest-to_interest_example = from_interest-to_interest www_query (make_query 10) refl refl

abbrev pub fresh_response : Response
fresh_response = make_response [] []

abbrev hello : Block
hello = toy.string_block tlv_rr_data "hello"

abbrev www_response : Response
www_response = record (make_response (net ∷ []) ndns_iterative_query) {
  rr_label = ucla ∷ [];
  rr_type = txt_rr_type;
  content_type = ndns_resp;
  rrs = hello ∷ leaf 3 ∷ [];
}

from_data-to_data_example :
    from_data (net ∷ []) (to_data version_7 www_response).1 fresh_response ≡ (
      record (stamp_version version_7 www_response) { app_content = fresh_response.app_content },
      true,
    )
unfolding make_response
from_data-to_data_example = from_data-to_data www_response fresh_response version_7 refl refl refl

abbrev blob_response : Response
blob_response =
    set_app_content (leaf 9) (record www_response { content_type = ndns_blob; rrs = [] })
