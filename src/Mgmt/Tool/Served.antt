-- ===== src/Mgmt/Tool/Served.antt =====
-- A record added by the management tool (src/mgmt/management-tool.cpp) and asked for at the name server
-- (src/daemon/name-server.cpp).
use ndns.Prelude.{
  blob_eq_iff, ℕ, ◌≡◌, ◌≢◌, sym, ap, ◌∙◌, true, false, none, some, [], ◌∷◌, ◌++◌, arith, ok, ==_iff,
}
use ndns.Ndn.{Ndn}
use ndns.Packets.{Name, Component, Data, Interest}
use ndns.Label.{doe_rr_type}
use ndns.Daemon.Rrset.{Rrset}
use ndns.Daemon.Sqlite.{Sqlite, ZoneRow, RrsetRow, Db, first, delete}
use ndns.Daemon.Sqlite.Select.{first-delete, first-append_new}
use ndns.Daemon.DbMgr.Names.{save_name}
use ndns.Daemon.DbMgr.Zones.{zone_row}
use ndns.Daemon.DbMgr.Rrsets.{has_key, has_type, to_row}
use ndns.Daemon.NameServer.{NameServer, Host, handle_query}
use ndns.Daemon.NameServer.Query.{handle_query-stored}
use ndns.Mgmt.CertHelper.{Pib}
use ndns.Mgmt.Tool.{add_rrset}
use ndns.Mgmt.Tool.Add.{add_rrset-stored, key_row, without, Numbered}

module _ ⦃ndn : Ndn⦄ where
  has_key-not_doe :
      (zone_id : ℕ) (label : Name) (type : Component)
      → type ≢ doe_rr_type
      → (r : RrsetRow) → has_key zone_id (save_name label) type r ≡ true
      → has_type zone_id doe_rr_type r ≡ false
  unfolding has_key has_type
  has_key-not_doe zone_id label type plain r h =
      ground (arith, ndn.component_eq_iff r.type type, ndn.component_eq_iff r.type doe_rr_type)

  pub has_key-to_row :
      (id zone_id : ℕ) (r : Rrset)
      → has_key zone_id (save_name r.label) r.type (to_row id zone_id r) ≡ true
  unfolding has_key to_row
  has_key-to_row id zone_id r = ground (
    arith,
    ==_iff zone_id zone_id,
    blob_eq_iff (save_name r.label) (save_name r.label),
    ndn.component_eq_iff r.type r.type,
  )

module _ ⦃ndn : Ndn⦄ ⦃sqlite : Sqlite⦄ (pib : Pib) (doe_now : ℕ → Component) (server : NameServer)
    (row : ZoneRow) (h : Host) (db : Db) (known : zone_row server.zone.name db ≡ some row)
    (same : server.zone.id ≡ row.id) (stored : server.zone.id ≢ 0)
    (ready : db.prepares ≡ true) where
  -- Take the zone of a server in a readable database, and a new record of a type other than DoE that
  -- holds a packet, where the zone has one record at most under the label and type. Once `addRrset` has
  -- gone through, the server answers a query for the label and type with just this packet.
  pub add_rrset-handle_query :
      (rrset : Rrset) (d : Data) (now : Component) (interest : Interest)
      → rrset.zone ≡ some server.zone
      → rrset.id ≡ 0
      → rrset.type ≢ doe_rr_type
      → Numbered (key_row server.zone rrset db)
      → first
          (has_key server.zone.id (save_name rrset.label) rrset.type)
          (without (key_row server.zone rrset db) db.rrsets)
        ≡ none
      → ndn.block_data rrset.rr_data ≡ some d
      → add_rrset pib doe_now rrset db ≡ (ok tt, h.db)
      → handle_query server now interest
          (record { rr_label = rrset.label; rr_type = rrset.type; version = ndn.empty_component })
          h
        ≡ (ok tt, record h { sent = h.sent ++ d ∷ [] })
  unfolding to_row
  add_rrset-handle_query rrset d now interest at new plain numbered single packet done =
      let (older, tables, id, has_id, fresh, rows) =
        add_rrset-stored pib doe_now server.zone row db h.db known same stored ready rrset at new
          plain numbered done in
      let p = has_key server.zone.id (save_name rrset.label) rrset.type in
      let q = has_type server.zone.id doe_rr_type in
      let others = has_key-not_doe server.zone.id rrset.label rrset.type plain in
      let kept = without (key_row server.zone rrset db) db.rrsets in
      let there : first p h.db.rrsets ≡ some (to_row id server.zone.id rrset) =
        sym (first-delete p q h.db.rrsets others)
        ∙ ap (first p) rows
        ∙ first-append_new p (delete q kept) (to_row id server.zone.id rrset)
            (first-delete p q kept others ∙ single) (has_key-to_row id server.zone.id rrset) in
      handle_query-stored server h now interest
        (record { rr_label = rrset.label; rr_type = rrset.type; version = ndn.empty_component })
        (to_row id server.zone.id rrset) d stored (ap (λ (d : Db). d.prepares) tables ∙ ready) there
        has_id packet (ground (arith, ndn.is_empty-empty_component))
