-- ===== src/Daemon/NameServer/Growth.antt =====
-- What updates (src/daemon/name-server.cpp) do to the versions of the records that are stored, and what
-- queries then see of them.
use ndns.Prelude.{
  ◌≡◌, ◌≢◌, ◌⊎◌, inl, inr, refl, sym, subst, Bool, true, false, ◌&&◌, ◌||◌, not, some, List, [],
  ◌∷◌, ◌++◌, arith, ok, if◌then◌else◌, Bool-cases, Option-cases, In, All, All-In, All-intro,
  All-map, blob_eq_iff, ◌==◌, ==_iff, ◌<◌,
}
use ndns.Ndn.{Ndn}
use ndns.Packets.{Component, Data, Interest, component_eq, component_lt}
use ndns.Label.{MatchResult, match_interest, match_data, ndns_update_label, skip_asserts}
use ndns.Clients.ContentType.{update_ok}
use ndns.Daemon.Sqlite.{Sqlite, Db, RrsetRow, first, any, same_index}
use ndns.Daemon.Rrset.{Rrset}
use ndns.Daemon.Sqlite.Select.{first-In}
use ndns.Daemon.DbMgr.Names.{save_name}
use ndns.Daemon.DbMgr.Rrsets.{has_key, load_row, set_row, update_breaks, to_row}
use ndns.Daemon.DbMgr.Rrsets.Laws.{next_id}
use ndns.Daemon.DbMgr.Sound.{Sound}
use ndns.Daemon.DbMgr.Sound.Rows.{same_row}
use ndns.Daemon.NameServer.{
  NameServer, Host, do_update, handle_update, handle_query, on_interest, update_answer,
}
use ndns.Daemon.NameServer.Query.{first_row, handle_query-reads_only, handle_query-stored}
use ndns.Daemon.NameServer.Sound.{on_interest-Sound, label-cases}
use ndns.Daemon.NameServer.Update.{
  Kept, set_row-Kept, set_to, first-set_row, In-set_row, updated, added, can_insert,
  do_update-newer, do_update-not_newer, do_update-new,
}

module _ ⦃ndn : Ndn⦄ where
  -- Every record set stored before is there, or a newer version of it is in its place.
  abbrev pub Grown : Db → Db → Type 0
  Grown before after = All (Kept after.rrsets) before.rrsets

  Grown-refl : (db : Db) → Grown db db
  Grown-refl db = All-intro (Kept db.rrsets) db.rrsets (λ x i. inl i)

  In-more : (x : RrsetRow) (xs ys : List RrsetRow) → In x xs → In x (xs ++ ys)
  In-more x [] ys i = elim i [ ]
  In-more x (z ∷ xs) ys (inl e) = inl e
  In-more x (z ∷ xs) ys (inr i) = inr (In-more x xs ys i)

  Grown-if :
      (b : Bool) (before after other : Db)
      → Grown before after
      → Grown before other
      → Grown before (if b then after else other)
  Grown-if true before after other h k = h
  Grown-if false before after other h k = k

  module _ ⦃sqlite : Sqlite⦄ (server : NameServer) (now : Component) (i : Interest) (h : Host)
      (stored : server.zone.id ≢ 0) (ready : h.db.prepares ≡ true) (sound : Sound h.db) where
    do_update-Grown : (d : Data) → Grown h.db (do_update server now i d h).1.db
    unfolding Sound load_row
    do_update-Grown d = elim (Option-cases (match_data d.name server.zone.name)) [
      | inl m ↦
          let w : do_update server now i d h ≡ (ok tt, h) = unfold do_update in ground arith in
          rw w (Grown-refl h.db)
      | inr (re, m) ↦ elim (Option-cases (first_row server h.db re)) [
        | inl f ↦
            let more =
              to_row (next_id h.db) server.zone.id (added server h now i d re m stored ready)
              ∷ [] in
            rw (do_update-new server h now i d re m stored ready f) (
              Grown-if (can_insert server h now i d re m stored ready) h.db
                (record h.db { rrsets = h.db.rrsets ++ more }) h.db
                (All-intro (Kept (h.db.rrsets ++ more)) h.db.rrsets
                  (λ x j. inl (In-more x h.db.rrsets more j)))
                (Grown-refl h.db))
        | inr (row, f) ↦
            let (there, found) =
              first-In (has_key server.zone.id (save_name re.rr_label) re.rr_type) h.db.rrsets row
                f in
            let pos = All-In _ h.db.rrsets sound.1.0 there in
            elim (Bool-cases (component_lt row.version re.version)) [
              | inr v ↦
                  rw
                    (do_update-not_newer server h now i d re m stored ready row f
                      (omega (arith, pos)) v)
                    (Grown-refl h.db)
              | inl v ↦
                  let u = updated server h now i d re m stored ready row in
                  rw
                    (do_update-newer server h now i d re m stored ready row f (omega (arith, pos))
                      v)
                    (Grown-if (h.db.writes && not (update_breaks u h.db.rrsets)) h.db
                      (record h.db { rrsets = set_row u h.db.rrsets }) h.db
                      (set_row-Kept u h.db.rrsets row sound.1.1 there refl v) (Grown-refl h.db))
            ]
      ]
    ]

    -- An update is ignored, or it is of one packet that the validator accepts.
    handle_update-cases :
        (valid : Data → Bool) (re : MatchResult)
        → (handle_update server valid now i re h ≡ (ok tt, h))
          ⊎ ((d : Data) × (handle_update server valid now i re h ≡ do_update server now i d h))
    unfolding handle_update
    handle_update-cases valid re = elim (label-cases re.rr_label) [
      | inl e ↦ inl (rw e refl)
      | inr (inr (c, d, n, e)) ↦ inl (rw e refl)
      | inr (inl (c, e)) ↦ elim (Option-cases (ndn.component_from_value c)) [
        | inl v ↦ inl (ground arith)
        | inr (b, v) ↦ elim (Option-cases (ndn.block_data b)) [
          | inl r ↦ inl (ground arith)
          | inr (d, r) ↦ elim (Bool-cases (valid d)) [
            | inl y ↦ inr (d, ground arith)
            | inr n ↦ inl (ground arith)
          ]
        ]
      ]
    ]

    handle_update-Grown :
        (valid : Data → Bool) (re : MatchResult)
        → Grown h.db (handle_update server valid now i re h).1.db
    handle_update-Grown valid re = elim (handle_update-cases valid re) [
      | inl e ↦ rw e (Grown-refl h.db)
      | inr (d, e) ↦ rw e (do_update-Grown d)
    ]

    -- Take a server of a stored zone over a sound and readable database. Whatever Interest comes in for the
    -- zone, and whatever the validator says of the update in it, no record set is lost and none gets an
    -- older version: each is there as it was, or in its place is one with its id, zone, label and type
    -- and a greater version; and the database stays sound.
    pub on_interest-Grown :
        (valid : Data → Bool)
        → skip_asserts i.name server.zone.name ≡ true
        → Grown h.db (on_interest server valid now i h).1.db
          × Sound (on_interest server valid now i h).1.db
    on_interest-Grown valid asserted = (
      elim (Option-cases (match_interest i.name server.zone.name)) [
        | inl m ↦
            let w : on_interest server valid now i h ≡ (ok tt, h) =
              unfold on_interest in ground arith in
            rw w (Grown-refl h.db)
        | inr (re, m) ↦ elim (Bool-cases (component_eq re.rr_type ndns_update_label)) [
          | inl u ↦
              let w : on_interest server valid now i h ≡ handle_update server valid now i re h =
                unfold on_interest in ground arith in
              rw w (handle_update-Grown valid re)
          | inr u ↦
              let w : on_interest server valid now i h ≡ handle_query server now i re h =
                unfold on_interest in ground arith in
              rw w (
                subst (Grown h.db) (sym (handle_query-reads_only server h now i re).0)
                  (Grown-refl h.db))
        ]
      ],
      on_interest-Sound server valid now i h sound,
    )

  -- A stored record set has zone, label, type and version of the update.
  abbrev pub Taken : NameServer → MatchResult → RrsetRow → Type 0
  Taken server re x =
      (x.zone_id ≡ server.zone.id)
      × (x.label ≡ save_name re.rr_label)
      × (x.type ≡ re.rr_type)
      × (x.version ≡ re.version)

  same_index-Taken :
      (server : NameServer) (re : MatchResult) (row x : RrsetRow)
      → has_key server.zone.id (save_name re.rr_label) re.rr_type row ≡ true
      → ¬ (Taken server re x)
      → (not (x.id == row.id) && same_index row.zone_id row.label row.type re.version x) ≡ false
  unfolding has_key same_index
  same_index-Taken server re row x key free =
      elim (Bool-cases (same_index row.zone_id row.label row.type re.version x)) [
        | inr f ↦ ground (arith, f)
        | inl t ↦
            let taken : Taken server re x = ground (
              arith,
              t,
              key,
              blob_eq_iff x.label row.label,
              blob_eq_iff row.label (save_name re.rr_label),
              ndn.component_eq_iff x.type row.type,
              ndn.component_eq_iff row.type re.rr_type,
              ndn.component_eq_iff x.version re.version,
            ) in
            absurd (free taken)
      ]

  any-All :
      (p : RrsetRow → Bool) (xs : List RrsetRow) → All (λ x. p x ≡ false) xs → any p xs ≡ false
  any-All p [] h = refl
  any-All p (x ∷ xs) h = ground (arith, any-All p xs h.1, h.0)

  module _ ⦃sqlite : Sqlite⦄ (server : NameServer) (now : Component) (i : Interest) (h : Host)
      (d : Data) (re : MatchResult) (matched : match_data d.name server.zone.name ≡ some re)
      (stored : server.zone.id ≢ 0) (ready : h.db.prepares ≡ true) (writes : h.db.writes ≡ true)
      (sound : Sound h.db) (row : RrsetRow) (found : first_row server h.db re ≡ some row)
      (newer : component_lt row.version re.version ≡ true)
      (free : All (λ (x : RrsetRow). ¬ (Taken server re x)) h.db.rrsets) where
    abbrev update_of : Rrset
    update_of = updated server h now i d re matched stored ready row

    row-Found :
        In row h.db.rrsets × (has_key server.zone.id (save_name re.rr_label) re.rr_type row ≡ true)
    row-Found =
        first-In (has_key server.zone.id (save_name re.rr_label) re.rr_type) h.db.rrsets row found

    update_breaks-free : update_breaks update_of h.db.rrsets ≡ false
    unfolding update_breaks load_row Sound
    update_breaks-free =
        elim (Option-cases (first (λ (r : RrsetRow). r.id == row.id) h.db.rrsets)) [
          | inl n ↦ ground arith
          | inr (same, n) ↦
              let (there, id) = first-In (λ (r : RrsetRow). r.id == row.id) h.db.rrsets same n in
              let equal : same ≡ row =
                same_row h.db.rrsets same row sound.1.1 there row-Found.0
                  ((==_iff same.id row.id).0 id) in
              let none_taken =
                any-All
                  (λ r.
                    not (r.id == row.id) && same_index row.zone_id row.label row.type re.version r)
                  h.db.rrsets
                  (All-map _
                    (λ (r : RrsetRow).
                      (not (r.id == row.id)
                        && same_index row.zone_id row.label row.type re.version r)
                      ≡ false)
                    h.db.rrsets (λ r k. same_index-Taken server re row r row-Found.1 k) free) in
              ground (arith, n, equal, none_taken)
        ]

    -- Take an update that matches a zone in a sound, readable and writable database, that is newer than the
    -- record found first under its label and type, and whose version no record under them has. The
    -- update is answered with success; a query for the label and type, for any version or for that
    -- of the update, is then answered by just the packet of the update; and the other record sets,
    -- the zones and their information stay as they were.
    pub do_update-handle_query :
        (now' v : Component) (asked : Interest) (sent : List Data)
        → (ndn.is_empty v || component_eq v re.version) ≡ true
        → (db' : Db) × (do_update server now i d h ≡ (
          ok tt,
          record { db = db'; sent = h.sent ++ update_answer server now i update_ok ∷ [] },
        ))
          × (handle_query server now' asked
                (record { rr_label = re.rr_label; rr_type = re.rr_type; version = v })
                (record { db = db'; sent = sent })
              ≡ (ok tt, record { db = db'; sent = sent ++ d ∷ [] }))
          × All (λ (x : RrsetRow). (x ≡ row) ⊎ In x db'.rrsets) h.db.rrsets
          × (db' ≡ record h.db { rrsets = db'.rrsets })
    unfolding load_row Sound
    do_update-handle_query now' v asked sent version =
        let db' = record h.db { rrsets = set_row update_of h.db.rrsets } in
        let pos = All-In (λ (x : RrsetRow). 0 < x.id) h.db.rrsets sound.1.0 row-Found.0 in
        let has_id : row.id ≢ 0 = λ q. omega (arith, pos, q) in
        let done =
          do_update-newer server h now i d re matched stored ready row found has_id newer in
        let there =
          first-set_row update_of server.zone.id (save_name re.rr_label) re.rr_type h.db.rrsets row
            found refl in
        (
          db',
          ground (arith, done, writes, update_breaks-free),
          handle_query-stored server (record { db = db'; sent = sent }) now' asked
              (record { rr_label = re.rr_label; rr_type = re.rr_type; version = v })
              (set_to update_of row) d stored ready there has_id (ndn.block_data-data_block d)
              version,
          All-intro _ h.db.rrsets (λ x j. elim (Bool-cases (x.id == row.id)) [
            | inl t ↦
                inl (same_row h.db.rrsets x row sound.1.1 j row-Found.0 ((==_iff x.id row.id).0 t))
            | inr f ↦ inr (rw f at (In-set_row update_of h.db.rrsets x j))
          ]),
          refl,
        )
