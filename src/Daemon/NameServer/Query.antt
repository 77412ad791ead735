-- ===== src/Daemon/NameServer/Query.antt =====
-- Positive answers, and what a query leaves alone (src/daemon/name-server.cpp).
use ndns.Prelude.{
  ◌≡◌, ◌≢◌, refl, true, ◌||◌, ◌&&◌, Option, some, List, [], ◌∷◌, ◌++◌, arith, ok, err, Result,
  Result-cases, Bool-cases, Option-cases, inl, inr,
}
use ndns.Ndn.{Ndn}
use ndns.Packets.{Component, Data, Interest, component_eq}
use ndns.Label.{MatchResult, doe_rr_type}
use ndns.Daemon.Sqlite.{RrsetRow, Db, first}
use ndns.Daemon.DbMgr.Names.{save_name}
use ndns.Daemon.DbMgr.Rrsets.{has_key, load_row, find_rrset, find_lower_bound}
use ndns.Daemon.DbMgr.Rrsets.Laws.{find_rrset_lem, db-find_rrset, db-find_lower_bound}
use ndns.Daemon.NameServer.{NameServer, Host, handle_query, rrset_of, answer_absent, decoded}

module _ ⦃ndn : Ndn⦄ where
  -- The row that `find` loads for the query.
  abbrev pub first_row : NameServer → Db → MatchResult → Option RrsetRow
  first_row server db re =
      first (has_key server.zone.id (save_name re.rr_label) re.rr_type) db.rrsets

  -- One packet more, or none under an error
  abbrev pub Answered : List Data → Result (Unit {0}) × Host → Type 0
  Answered sent (ok _, h) = (d : Data) × (h.sent ≡ sent ++ d ∷ [])
  Answered sent (err _, h) = h.sent ≡ sent

  answer_absent-Answered :
      (server : NameServer) (now : Component) (interest : Interest) (re : MatchResult) (h : Host)
      → Answered h.sent (answer_absent server now interest re h)
  unfolding answer_absent
  answer_absent-Answered server now interest re h =
      let denied = rrset_of server (re.rr_label ++ re.rr_type ∷ []) doe_rr_type in
      elim (Result-cases (find_lower_bound denied h.db).0) [
        | inr (e, r) ↦ rw r refl
        | inl (found, r) ↦ elim (Bool-cases found.1) [
          | inl t ↦ rw (r, t) (_, refl)
          | inr f ↦ rw (r, f) refl
        ]
      ]

  module _ (server : NameServer) (h : Host) (now : Component) (interest : Interest)
      (re : MatchResult) where
    -- With a zone in a readable database, the packet of the record stored under the label and type
    -- asked for is answered as it is, if the query names no version or the record's, and nothing
    -- else changes.
    pub handle_query-stored :
        (row : RrsetRow) (d : Data)
        → server.zone.id ≢ 0
        → h.db.prepares ≡ true
        → first_row server h.db re ≡ some row
        → row.id ≢ 0
        → ndn.block_data row.rr_data ≡ some d
        → (ndn.is_empty re.version || component_eq re.version row.version) ≡ true
        → handle_query server now interest re h ≡ (ok tt, record h { sent = h.sent ++ d ∷ [] })
    unfolding handle_query load_row
    handle_query-stored row d z p f i e v = ground (
      arith,
      f,
      find_rrset_lem (rrset_of server re.rr_label re.rr_type) server.zone h.db refl z p,
    )

    -- Whatever the query and the database, answering it writes nothing to the database; it puts one
    -- packet on the face if it succeeds, and none if it throws.
    pub handle_query-reads_only :
        ((handle_query server now interest re h).1.db ≡ h.db)
        × Answered h.sent (handle_query server now interest re h)
    unfolding handle_query
    handle_query-reads_only =
        let asked = rrset_of server re.rr_label re.rr_type in
        let denied = rrset_of server (re.rr_label ++ re.rr_type ∷ []) doe_rr_type in
        (
          ground (
            arith,
            db-find_rrset asked h.db,
            db-find_lower_bound denied (find_rrset asked h.db).1,
          ),
          elim (Result-cases (find_rrset asked h.db).0) [
            | inr (e, r) ↦ rw r refl
            | inl (found, r) ↦
                elim (Bool-cases (
                  found.1
                  && (ndn.is_empty re.version || component_eq re.version found.0.version))) [
                    | inr f ↦
                        rw (r, f)
                          (answer_absent-Answered server now interest re
                            (record h { db = (find_rrset asked h.db).1 }))
                    | inl t ↦ elim (Option-cases (ndn.block_data found.0.rr_data)) [
                      | inl none_e ↦ rw (r, t, none_e, decoded) refl
                      | inr (d, e) ↦ rw (r, t, e, decoded) (d, refl)
                    ]
                  ]
          ],
        )
