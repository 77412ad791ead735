-- ===== src/Mgmt/Tool/Create/Dkey.antt =====
-- The D-key's certificate of a new zone, read back by getZoneDkey (src/mgmt/management-tool.cpp), which
-- ndns-create-zone prints for the parent zone.
use ndns.Prelude.{
  ℕ, ◌≡◌, ◌≢◌, inl, inr, sym, ap, ◌∙◌, Bool, true, List, [], ◌∷◌, map, arith, ok, err, bad_packet,
  if◌then◌else◌, Bool-cases, ◌==◌,
}
use text.Mathlib.Text.{◌==◌ as str_eq}
use text.Mathlib.TextPositions.{eq_refl}
use ndns.Ndn.{Ndn}
use ndns.Packets.{Data, Block}
use ndns.Daemon.Zone.{Zone}
use ndns.Daemon.Sqlite.{Sqlite, Db, InfoRow, ZoneRow, select}
use ndns.Daemon.DbMgr.Zones.{get_zone_info, resolve, same_info, bind_int}
use ndns.Mgmt.Tool.FromFile.{get_zone_dkey, dkey_block}
use ndns.Mgmt.Tool.Create.{KeyChain, ZoneArgs, ZoneCerts}
use ndns.Mgmt.Tool.Create.Stored.{IsStored, with_info, new_zone_id, zone_certs}

module _ ⦃ndn : Ndn⦄ where
  -- The entry written last is read, whatever stood under its key.
  dkey_block-with_info :
      (i : ℕ) (value : Block) (rows : List InfoRow)
      → dkey_block (
          map
            (λ (r : InfoRow). (r.key, r.value))
            (select (λ (r : InfoRow). r.zone_id == i) (with_info i "dkey" value rows)))
        ≡ value
  unfolding dkey_block same_info
  dkey_block-with_info i value [] = ground (arith, eq_refl "dkey")
  dkey_block-with_info i value (r ∷ rows) = elim (Bool-cases (r.zone_id == i)) [
    | inr n ↦ rw (n, n) (dkey_block-with_info i value rows)
    | inl y ↦ elim (Bool-cases (str_eq r.key "dkey")) [
      | inl k ↦ rw (y, k) (dkey_block-with_info i value rows)
      | inr k ↦ rw (y, k, y, k) (dkey_block-with_info i value rows)
    ]
  ]

  get_zone_dkey-last :
      (is_certificate : Data → Bool) (z : Zone) (value : Data) (db : Db) (rows : List InfoRow)
      → z.id ≢ 0
      → db.prepares ≡ true
      → db.zone_info ≡ with_info (bind_int z.id) "dkey" (ndn.data_block value) rows
      → get_zone_dkey is_certificate z db
        ≡ (if is_certificate value then ok value else err bad_packet, db)
  unfolding get_zone_dkey get_zone_info resolve
  get_zone_dkey-last is_certificate z value db rows stored ready e =
      let block : dkey_block (
            map (λ (r : InfoRow). (r.key, r.value))
              (select (λ (r : InfoRow). r.zone_id == bind_int z.id) db.zone_info))
          ≡ ndn.data_block value =
        rw e (dkey_block-with_info (bind_int z.id) (ndn.data_block value) rows) in
      ground (arith, block, ndn.block_data-data_block value)

module _ ⦃ndn : Ndn⦄ ⦃sqlite : Sqlite⦄ ⦃chain : KeyChain⦄ where
  -- `getZoneDkey` of a zone that `createZone` has stored reads the D-key's certificate that was made or
  -- given, whatever information an earlier zone left under the same id.
  pub get_zone_dkey-IsStored :
      (is_certificate : Data → Bool) (a : ZoneArgs) (certs : ZoneCerts) (db db' : Db) (z : Zone)
      → IsStored a certs db z db'
      → get_zone_dkey is_certificate z db'
        ≡ (if is_certificate certs.dkey_cert then ok certs.dkey_cert else err bad_packet, db')
  get_zone_dkey-IsStored is_certificate a certs db db' z kept =
      let same : z.id ≡ new_zone_id db = ap (λ (x : Zone). x.id) kept.zone in
      get_zone_dkey-last is_certificate z certs.dkey_cert db'
        (zone_certs certs (bind_int (new_zone_id db)) db.zone_info)
        (λ q. omega (arith, same, q, sqlite.new_rowid_pos (map (λ (r : ZoneRow). r.id) db.zones)))
        kept.prepares
        (kept.zone_info
          ∙ ap
              (λ i.
                with_info (bind_int i) "dkey" (ndn.data_block certs.dkey_cert)
                  (zone_certs certs (bind_int (new_zone_id db)) db.zone_info))
              (sym same))
