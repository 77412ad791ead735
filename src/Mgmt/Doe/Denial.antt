-- ===== src/Mgmt/Doe/Denial.antt =====
-- A negative answer end to end: the record that `findLowerBound` picks for a name that the zone
-- lacks, the NACK that the name server makes of it, and the client that unwraps and tests it.
use ndns.Prelude.{
  ℕ, ◌≡◌, ◌≢◌, refl, sym, ◌∙◌, subst, inl, inr, true, none, some, List, [], ◌∷◌, ◌++◌, arith, In,
  All-In, All-intro, Blob, blob_lt, ok,
}
use ndns.Ndn.{Ndn}
use ndns.Packets.{Name, Component, Data, Interest, name_lt, name_lt-nil_append}
use ndns.Label.{MatchResult, doe_rr_type}
use ndns.Clients.ContentType.{ndns_doe}
use ndns.Clients.Response.{wire_decode_doe}
use ndns.Clients.Controller.{Controller, Cache, unwrap, is_absent_by_doe}
use ndns.Daemon.Rrset.{Rrset}
use ndns.Daemon.Sqlite.{RrsetRow, Db, first, select, last_label}
use ndns.Daemon.Sqlite.Select.{In-select, select-In, last_label-greatest, last_label-some}
use ndns.Daemon.DbMgr.Names.{save_name}
use ndns.Daemon.DbMgr.Rrsets.{has_type, is_below, load_row}
use ndns.Daemon.NameServer.{NameServer, Host, nack, handle_query, rrset_of}
use ndns.Daemon.NameServer.Query.{first_row}
use ndns.Daemon.DbMgr.Rrsets.Laws.{find_rrset_lem, find_lower_bound_lem}
use ndns.Mgmt.Doe.{Range, doe_ranges}
use ndns.Mgmt.Doe.Ranges.{guard_range-In, IsLowerBound, Deniable, in_range-lower_bound}

module _ ⦃ndn : Ndn⦄ where
  -- A row that holds the DoE packet of a range.
  pub record IsDoe (row : RrsetRow) (g : Range) : Type 0 where
    pub stored : row.id ≢ 0
    pub labelled : row.label ≡ save_name g.label
    pub packet : Data
    pub encoded : row.rr_data ≡ ndn.data_block packet
    pub denies : wire_decode_doe packet.content ≡ ok (g.lower, g.upper)

  -- The rows hold the packets of the ranges, in order.
  abbrev pub DoeRows : List RrsetRow → List Range → Type 0
  DoeRows [] [] = Unit
  DoeRows (r ∷ rs) (g ∷ gs) = IsDoe r g × DoeRows rs gs
  DoeRows _ _ = ⊥

  abbrev doe_rows : ℕ → Db → List RrsetRow
  doe_rows zone_id db = select (has_type zone_id doe_rr_type) db.rrsets

  row_range :
      (rs : List RrsetRow) (gs : List Range) (r : RrsetRow)
      → DoeRows rs gs
      → In r rs
      → (g : Range) × In g gs × IsDoe r g
  row_range [] gs r h i = elim i [ ]
  row_range (x ∷ rs) [] r h i = elim h [ ]
  row_range (x ∷ rs) (g ∷ gs) r h (inl e) = (g, inl refl, subst (λ y. IsDoe y g) (sym e) h.0)
  row_range (x ∷ rs) (g ∷ gs) r h (inr i) = let (k, j, d) = row_range rs gs r h.1 i in (k, inr j, d)

  range_row :
      (rs : List RrsetRow) (gs : List Range) (g : Range)
      → DoeRows rs gs
      → In g gs
      → (r : RrsetRow) × In r rs × IsDoe r g
  range_row rs [] g h i = elim i [ ]
  range_row [] (k ∷ gs) g h i = elim h [ ]
  range_row (x ∷ rs) (k ∷ gs) g h (inl e) = (x, inl refl, subst (IsDoe x) (sym e) h.0)
  range_row (x ∷ rs) (k ∷ gs) g h (inr i) = let (y, j, d) = range_row rs gs g h.1 i in (y, inr j, d)

  name_lt-save : (a b : Name) → name_lt a b ≡ blob_lt (save_name a) (save_name b)
  unfolding save_name
  name_lt-save a b = ndn.name_lt-blob_lt a b

  is_below-has_type :
      (zone_id : ℕ) (label : Blob) (type : Component) (rows : List RrsetRow)
      → select (is_below zone_id label type) rows
        ≡ select (λ (r : RrsetRow). blob_lt r.label label) (select (has_type zone_id type) rows)
  unfolding is_below has_type
  is_below-has_type zone_id label type [] = refl
  is_below-has_type zone_id label type (r ∷ rows) =
      ground (arith, is_below-has_type zone_id label type rows)

  module _ (zone_id : ℕ) (db : Db) (gs : List Range) (q : Name)
      (rows : DoeRows (doe_rows zone_id db) gs) where
    abbrev candidates : List RrsetRow
    candidates = select (is_below zone_id (save_name q) doe_rr_type) db.rrsets

    candidate :
        (r : RrsetRow)
        → In r candidates
        → In r (doe_rows zone_id db) × (blob_lt r.label (save_name q) ≡ true)
    candidate r i =
        In-select (λ (s : RrsetRow). blob_lt s.label (save_name q)) (doe_rows zone_id db) r
          (rw (is_below-has_type zone_id (save_name q) doe_rr_type db.rrsets) at i)

    is_candidate :
        (r : RrsetRow)
        → In r (doe_rows zone_id db)
        → blob_lt r.label (save_name q) ≡ true
        → In r candidates
    is_candidate r i h =
        rw (is_below-has_type zone_id (save_name q) doe_rr_type db.rrsets)
          (select-In (λ (s : RrsetRow). blob_lt s.label (save_name q)) (doe_rows zone_id db) r i h)

    -- The row picked is the lower bound among the ranges.
    picked :
        (r : RrsetRow)
        → last_label candidates ≡ some r
        → (g : Range) × IsDoe r g × IsLowerBound q gs g
    picked r e =
        let greatest = last_label-greatest candidates r e in
        let (i, below) = candidate r greatest.0 in
        let (g, j, d) = row_range (doe_rows zone_id db) gs r rows i in
        (
          g,
          d,
          record {
            member = j;
            below = name_lt-save g.label q ∙ rw (← d.labelled) below;
            greatest = All-intro _ gs (λ k m lt.
                let (s, n, f) = range_row (doe_rows zone_id db) gs k rows m in
                name_lt-save g.label k.label
                ∙ rw (← d.labelled, ← f.labelled)
                    (All-In _ candidates greatest.1
                      (is_candidate s n (rw f.labelled (sym (name_lt-save k.label q) ∙ lt)))));
          },
        )

    -- There is a row to pick: the guard.
    some_picked :
        (first : Name) (names : List Name)
        → gs ≡ doe_ranges first names
        → name_lt [] q ≡ true
        → (r : RrsetRow) × (last_label candidates ≡ some r)
    some_picked first names e h =
        let (r, i, d) =
          range_row (doe_rows zone_id db) gs _ rows
            (subst (In _) (sym e) (guard_range-In first names)) in
        last_label-some candidates r
          (is_candidate r i (rw d.labelled (sym (name_lt-save [] q) ∙ h)))

  -- The server's NACK for a DoE row, unwrapped by the client.
  unwrap-nack :
      (server : NameServer) (now : Component) (interest : Interest) (doe : Rrset) (d : Data)
      → doe.rr_data ≡ ndn.data_block d
      → unwrap (nack server now interest doe) ≡ ok (d, ndns_doe)
  unfolding unwrap nack
  unwrap-nack server now interest doe d e = ground (
    arith,
    e,
    ndn.block_from_value-nest ndn.tlv_content (ndn.data_block d),
    ndn.block_data-data_block d,
    ndn.block_type-data_block d,
  )

  -- The zone of the server is in the database, whose DoE rows are those of the names.
  pub record HasDenials (server : NameServer) (db : Db) (first : Name) (names : List Name)
      : Type 0 where
    pub stored : server.zone.id ≢ 0
    pub ready : db.prepares ≡ true
    pub rows : DoeRows (doe_rows server.zone.id db) (doe_ranges first names)

  module _ ⦃cache : Cache⦄ (server : NameServer) (h : Host) (now : Component) (interest : Interest)
      (re : MatchResult) (first : Name) (names : List Name) (c : Controller)
      (denials : HasDenials server h.db first names)
      (deniable : Deniable (re.rr_label ++ re.rr_type ∷ []) first names)
      (missing : first_row server h.db re ≡ none)
      (asked : c.last_label_type ≡ re.rr_label ++ re.rr_type ∷ []) where
    -- Take a zone in a readable database whose DoE rows are those of its names, which can be denied.
    -- A query for a label and type that the zone lacks is answered by one NACK, which unwraps to a
    -- DoE packet from which a client that asked for them last infers the absence.
    pub handle_query-is_absent_by_doe :
        (answer doe : Data) × (handle_query server now interest re h
          ≡ (ok tt, record h { sent = h.sent ++ answer ∷ [] }))
        × (unwrap answer ≡ ok (doe, ndns_doe))
        × (is_absent_by_doe c doe ≡ ok true)
    unfolding handle_query load_row is_absent_by_doe
    handle_query-is_absent_by_doe =
        let zone_id = server.zone.id in
        let q = re.rr_label ++ re.rr_type ∷ [] in
        let gs = doe_ranges first names in
        let (r, e) =
          some_picked zone_id h.db gs q denials.rows first names refl
            (name_lt-nil_append re.rr_label re.rr_type) in
        let (g, d, l) = picked zone_id h.db gs q denials.rows r e in
        let doe = load_row (some r) (rrset_of server q doe_rr_type) in
        (
          nack server now interest doe,
          d.packet,
          ground (
            arith,
            missing,
            e,
            d.stored,
            find_rrset_lem (rrset_of server re.rr_label re.rr_type) server.zone h.db refl
                denials.stored denials.ready,
            find_lower_bound_lem (rrset_of server q doe_rr_type) server.zone h.db refl
                denials.stored denials.ready,
          ),
          unwrap-nack server now interest doe d.packet d.encoded,
          ground (arith, d.denies, asked, in_range-lower_bound q first names g deniable l),
        )
