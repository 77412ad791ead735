-- ===== src/Tools/Update/Delivery.antt =====
-- An update on its way: from the tool (tools/ndns-update.cpp) through the name server's handlers
-- (src/daemon/name-server.cpp) into its database, and the answer back to the tool.
use ndns.Prelude.{
  ℕ, ◌<◌, ◌%◌, ◌^◌, ◌≡◌, ◌≢◌, refl, sym, ◌∙◌, inl, inr, Bool-cases, Bool, true, false, none, some,
  [], ◌∷◌, ◌++◌, arith, ok, if◌then◌else◌, ◌==◌,
}
use ndns.Ndn.{Ndn}
use ndns.Packets.{Component, Data, Interest, component_lt}
use ndns.Label.{MatchResult, match_data, match_interest, ndns_update_label}
use ndns.Label.Match.{match_interest-query}
use ndns.Clients.Query.{to_interest, make_query}
use ndns.Clients.ContentType.{update_ok, update_failure, tlv_update_return_code, tlv_rr_data}
use ndns.Daemon.Sqlite.{Sqlite, RrsetRow}
use ndns.Daemon.DbMgr.Rrsets.{to_row}
use ndns.Daemon.DbMgr.Rrsets.Laws.{next_id}
use ndns.Daemon.NameServer.{NameServer, Host, on_interest, handle_update, do_update, update_answer}
use ndns.Daemon.NameServer.Query.{first_row}
use ndns.Daemon.NameServer.Update.{added, can_insert, do_update-new, do_update-not_newer}
use ndns.Tools.Update.{
  NdnsUpdate, make_update_interest, parse_response, read_elements, on_data, on_judged, exit_status,
  arrived, make_ndns_update,
}

module _ ⦃ndn : Ndn⦄ where
  read_back :
      (u : NdnsUpdate) (server : NameServer)
      → u.zone ≡ server.zone.name
      → match_interest (make_update_interest u).name server.zone.name
        ≡ some (record {
          rr_label = ndn.component_of_block (ndn.data_block u.update) ∷ [];
          rr_type = ndns_update_label;
          version = ndn.empty_component;
        })
  unfolding make_update_interest to_interest make_query
  read_back u server z = rw (sym z) (
      match_interest-query u.zone (ndn.component_of_block (ndn.data_block u.update) ∷ [])
        ndns_update_label (ndn.is_version-of_string "UPDATE"))

  -- The server reads out of the tool's Interest the packet that the tool put into it.
  on_interest-make_update_interest :
      ⦃sqlite : Sqlite⦄ (server : NameServer) (valid : Data → Bool) (now : Component)
      (u : NdnsUpdate) (h : Host)
      → u.zone ≡ server.zone.name
      → valid u.update ≡ true
      → on_interest server valid now (make_update_interest u) h
        ≡ do_update server now (make_update_interest u) u.update h
  unfolding on_interest handle_update
  on_interest-make_update_interest server valid now u h z v = ground (
    arith,
    read_back u server z,
    v,
    ndn.component_from_value-component_of_block (ndn.data_block u.update),
    ndn.block_data-data_block u.update,
    ndn.component_eq_iff ndns_update_label ndns_update_label,
  )

  -- The tool reads the return code out of the server's answer.
  parse_response-update_answer :
      (server : NameServer) (now : Component) (i : Interest) (code : ℕ)
      → code < 2 ^ 32
      → parse_response (update_answer server now i code) ≡ ok (code, "")
  unfolding parse_response read_elements update_answer
  parse_response-update_answer server now i code b =
      let small : code % 2 ^ 32 ≡ code = omega (arith, b) in
      ground (
        arith,
        ndn.tlv_content-value,
        ndn.block_type-nest tlv_rr_data (ndn.number_block tlv_update_return_code code ∷ []),
        ndn.block_from_value-nest ndn.tlv_content
            (ndn.nest tlv_rr_data (ndn.number_block tlv_update_return_code code ∷ [])),
        ndn.elements-nest tlv_rr_data (ndn.number_block tlv_update_return_code code ∷ []),
        ndn.block_type-number_block tlv_update_return_code code,
        ndn.read_number-number_block tlv_update_return_code code (omega (arith, b)),
        small,
      )

  -- The exit status after a validated answer.
  exit_status-update_answer :
      (server : NameServer) (now : Component) (i : Interest) (u : NdnsUpdate) (code : ℕ)
      → code < 2 ^ 32
      → u.has_error ≡ false
      → exit_status (arrived (update_answer server now i code) true) u
        ≡ (if code == update_ok then 0 else 1)
  unfolding exit_status on_data on_judged
  exit_status-update_answer server now i u code b e = elim (Bool-cases (code == update_ok)) [
    | inl y ↦ ground (arith, parse_response-update_answer server now i code b)
    | inr n ↦ ground (arith, parse_response-update_answer server now i code b)
  ]

module _ ⦃ndn : Ndn⦄ ⦃sqlite : Sqlite⦄ (server : NameServer) (valid : Data → Bool) (h : Host)
    (now : Component) (d : Data) (lifetime : ℕ) (re : MatchResult) (accepted : valid d ≡ true)
    (matched : match_data d.name server.zone.name ≡ some re) (stored : server.zone.id ≢ 0)
    (ready : h.db.prepares ≡ true) where
  -- The tool with an update for the server's zone, and the Interest that it sends.
  abbrev pub tool : NdnsUpdate
  tool = make_ndns_update server.zone.name d lifetime

  abbrev pub sent_interest : Interest
  sent_interest = make_update_interest tool

  delivered : on_interest server valid now sent_interest h ≡ do_update server now sent_interest d h
  unfolding make_ndns_update
  delivered = on_interest-make_update_interest server valid now tool h refl accepted

  status :
      (code : ℕ)
      → code < 2 ^ 32
      → exit_status (arrived (update_answer server now sent_interest code) true) tool
        ≡ (if code == update_ok then 0 else 1)
  unfolding make_ndns_update
  status code b = exit_status-update_answer server now sent_interest tool code b refl

  -- An update that the server's validator accepts, for a label and type with no record in a readable
  -- database, goes from the tool to the database: the server adds the record and puts one answer on
  -- its face, and the tool that gets this answer validated exits with 0 exactly if the record was
  -- added, that is, unless the write failed or the record's key was taken.
  pub update-new :
      first_row server h.db re ≡ none
      → (answer : Data) × (on_interest server valid now sent_interest h ≡ (
        ok tt,
        record h {
          db =
              if can_insert server h now sent_interest d re matched stored ready
              then record h.db {
                rrsets =
                    h.db.rrsets
                    ++ to_row
                        (next_id h.db)
                        server.zone.id
                        (added server h now sent_interest d re matched stored ready)
                      ∷ [];
              }
              else h.db;
          sent = h.sent ++ answer ∷ [];
        },
      ))
        × (exit_status (arrived answer true) tool
            ≡ (if can_insert server h now sent_interest d re matched stored ready then 0 else 1))
  update-new f = (
    update_answer server now sent_interest (
        if can_insert server h now sent_interest d re matched stored ready
        then update_ok
        else update_failure),
    delivered ∙ do_update-new server h now sent_interest d re matched stored ready f,
    elim (Bool-cases (can_insert server h now sent_interest d re matched stored ready)) [
      | inl y ↦ rw y (status update_ok (omega arith))
      | inr n ↦ rw n (status update_failure (omega arith))
    ],
  )

  -- An update no newer than the stored record leaves the database as it was, and the tool that gets
  -- the validated answer exits with 1.
  pub update-not_newer :
      (row : RrsetRow)
      → first_row server h.db re ≡ some row
      → row.id ≢ 0
      → component_lt row.version re.version ≡ false
      → (answer : Data) × (on_interest server valid now sent_interest h
          ≡ (ok tt, record h { sent = h.sent ++ answer ∷ [] }))
        × (exit_status (arrived answer true) tool ≡ 1)
  update-not_newer row f i v = (
    update_answer server now sent_interest update_failure,
    delivered ∙ do_update-not_newer server h now sent_interest d re matched stored ready row f i v,
    status update_failure (omega arith),
  )
