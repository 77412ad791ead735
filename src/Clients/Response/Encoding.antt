-- ===== src/Clients/Response/Encoding.antt =====
-- A response carried by a Data packet and read back.
use mathlib.Core.List.{foldl, reverse, foldl-append, reverse-cons}
use ndns.Prelude.{
  ℕ, ◌*◌, ◌/◌, ◌≡◌, refl, ap, true, false, List, [], ◌∷◌, ◌++◌, arith, append-nil, ==_iff, All, ◌≢◌,
}
use ndns.Ndn.{Ndn}
use ndns.Packets.{Component, Block, as_content}
use ndns.Label.Match.{match_data-response}
use ndns.Label.{ndns_iterative_query}
use ndns.Clients.ContentType.{is_raw}
use ndns.Clients.Response.{
  Response, prepend_block, encode_rrs, from_data, to_data, set_app_content, wire_encode, erase_rr,
  remove_rr, add_rr, stamp_version,
}

module _ ⦃ndn : Ndn⦄ where
  prepend_all : (bs : List Block) → foldl prepend_block [] (reverse bs) ≡ bs
  unfolding prepend_block
  prepend_all [] = refl
  prepend_all (b ∷ bs) = rw (reverse-cons b bs, foldl-append) (ap (◌∷◌ b) (prepend_all bs))

  -- Prepending from the last record to the first keeps the records' order.
  pub encode_rrs-nest : (bs : List Block) → encode_rrs bs ≡ ndn.nest ndn.tlv_content bs
  unfolding encode_rrs
  encode_rrs-nest bs = ap (ndn.nest ndn.tlv_content) (prepend_all bs)

  pub as_content-encode_rrs : (bs : List Block) → as_content (encode_rrs bs) ≡ encode_rrs bs
  as_content-encode_rrs bs =
      rw (encode_rrs-nest bs) (ground (arith, ndn.block_type-nest ndn.tlv_content bs))

  pub elements-encode_rrs : (bs : List Block) → ndn.elements (encode_rrs bs) ≡ bs
  elements-encode_rrs bs = rw (encode_rrs-nest bs) (ndn.elements-nest ndn.tlv_content bs)

  pub seconds-millis : (n : ℕ) → n * 1000 / 1000 ≡ n
  seconds-millis n = omega arith

  -- A response to an iterative query (its query type is NDNS) whose content is records, made into a
  -- packet (stamped with a version if it has none) and read back into a response with no records yet, is the stamped response again, but
  -- for the application content, which stays that of the object read into.
  pub from_data-to_data :
      (r fresh : Response) (now : Component)
      → is_raw r.content_type ≡ false
      → r.query_type ≡ ndns_iterative_query
      → fresh.rrs ≡ []
      → from_data r.zone (to_data now r).1 fresh
        ≡ (record (stamp_version now r) { app_content = fresh.app_content }, true)
  unfolding from_data to_data wire_encode
  from_data-to_data r fresh now raw e f = ground (
    arith,
    match_data-response r.zone r.rr_label r.rr_type (stamp_version now r).version,
    ndn.get-append r.zone r.query_type
        (r.rr_label ++ (r.rr_type ∷ (stamp_version now r).version ∷ [])),
    as_content-encode_rrs r.rrs,
    elements-encode_rrs r.rrs,
    seconds-millis r.freshness_period,
  )

  -- The same for Blob and Key content that is a Content block: the block comes back, and the
  -- records stay those of the object read into.
  from_data-to_data_raw :
      (r fresh : Response) (now : Component)
      → is_raw r.content_type ≡ true
      → r.query_type ≡ ndns_iterative_query
      → ndn.block_type r.app_content ≡ ndn.tlv_content
      → from_data r.zone (to_data now r).1 fresh
        ≡ (record (stamp_version now r) { rrs = fresh.rrs }, true)
  unfolding from_data to_data wire_encode
  from_data-to_data_raw r fresh now raw e t = ground (
    arith,
    match_data-response r.zone r.rr_label r.rr_type (stamp_version now r).version,
    ndn.get-append r.zone r.query_type
        (r.rr_label ++ (r.rr_type ∷ (stamp_version now r).version ∷ [])),
    seconds-millis r.freshness_period,
  )

  -- setAppContent leaves a Content block, whatever block it is given.
  pub block_type-set_app_content :
      (b : Block) (r : Response)
      → ndn.block_type (set_app_content b r).app_content ≡ ndn.tlv_content
  unfolding set_app_content
  block_type-set_app_content b r = ground (
    arith,
    ndn.block_type-nest ndn.tlv_content (b ∷ []),
    ==_iff (ndn.block_type b) ndn.tlv_content,
  )

  -- A record that is not there is not removed, and the response stays as it was.
  abbrev pub Absent : Block → List Block → Type 0
  Absent b = All (λ c. c ≢ b)

  erase_rr-first :
      (b : Block) (xs ys : List Block) → Absent b xs → erase_rr b (xs ++ b ∷ ys) ≡ (xs ++ ys, true)
  unfolding erase_rr
  erase_rr-first b [] ys h = ground (arith, ndn.block_eq_iff b b)
  erase_rr-first b (x ∷ xs) ys h =
      ground (arith, ndn.block_eq_iff x b, erase_rr-first b xs ys h.1, h.0)

  erase_rr-Absent : (b : Block) (xs : List Block) → Absent b xs → erase_rr b xs ≡ (xs, false)
  unfolding erase_rr
  erase_rr-Absent b [] h = refl
  erase_rr-Absent b (x ∷ xs) h = ground (arith, ndn.block_eq_iff x b, erase_rr-Absent b xs h.1, h.0)

  -- removeRr takes out the first occurrence of a record and nothing else, and reports it.
  remove_rr-first :
      (r : Response) (b : Block) (xs ys : List Block)
      → r.rrs ≡ xs ++ b ∷ ys
      → Absent b xs
      → remove_rr b r ≡ (record r { rrs = xs ++ ys }, true)
  unfolding remove_rr
  remove_rr-first r b xs ys e h = ground (arith, erase_rr-first b xs ys h)

  -- Of a record that the response lacks, removing undoes adding, and removing alone does nothing.
  pub remove_rr-add_rr :
      (r : Response) (b : Block)
      → Absent b r.rrs
      → (remove_rr b (add_rr b r) ≡ (r, true)) × (remove_rr b r ≡ (r, false))
  unfolding remove_rr add_rr
  remove_rr-add_rr r b h =
      ground (arith, erase_rr-first b r.rrs [] h, erase_rr-Absent b r.rrs h, append-nil r.rrs)
