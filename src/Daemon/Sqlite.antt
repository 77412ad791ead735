-- ===== src/Daemon/Sqlite.antt =====
-- What the database manager takes from SQLite: the tables of its schema, whose rows stand in the
-- order in which a SELECT with no ORDER BY returns them, the row id of an INSERT, and whether the
-- connection can prepare statements and complete a write. SQLite enforces foreign keys only on
-- request, and the program makes none, so a DELETE does not cascade.
pub mod Select
use ndns.Prelude.{
  ℕ, zero, ◌+◌, ◌<◌, ◌≡◌, ◌≢◌, Bool, true, false, ◌&&◌, Option, none, some, List, [], ◌∷◌, ◌++◌,
  String, All, Blob, blob_eq, blob_lt, ◌==◌, if◌then◌else◌, map, Exec, ok, err, prepare_error,
  execute_error,
}
use ndns.Ndn.{Ndn}
use ndns.Packets.{Component, Block, component_eq}

pub record Sqlite : Type 0 where
  pub new_rowid : List ℕ → ℕ
  pub new_rowid_pos : (ids : List ℕ) → 0 < new_rowid ids
  pub new_rowid_fresh : (ids : List ℕ) → All (λ i. i ≢ new_rowid ids) ids

pub record ZoneRow : Type 0 where
  pub id : ℕ
  pub name : Blob
  pub ttl : ℕ

module _ ⦃ndn : Ndn⦄ where
  pub record InfoRow : Type 0 where
    pub zone_id : ℕ
    pub key : String
    pub value : Block

  pub record RrsetRow : Type 0 where
    pub id : ℕ
    pub zone_id : ℕ
    pub label : Blob
    pub type : Component
    pub version : Component
    pub ttl : ℕ
    pub rr_data : Block

  pub record Db : Type 0 where
    pub zones : List ZoneRow
    pub zone_info : List InfoRow
    pub rrsets : List RrsetRow
    -- sqlite3_prepare_v2 answers SQLITE_OK
    pub prepares : Bool
    -- sqlite3_step of a write that breaks no constraint answers SQLITE_DONE
    pub writes : Bool

module _ {A : Type 0} where
  abbrev pub first : (A → Bool) → List A → Option A
  first p [] = none
  first p (x ∷ xs) = if p x then some x else first p xs

  abbrev pub any : (A → Bool) → List A → Bool
  any p [] = false
  any p (x ∷ xs) = if p x then true else any p xs

  abbrev pub select : (A → Bool) → List A → List A
  select p [] = []
  select p (x ∷ xs) = let rest = select p xs in if p x then x ∷ rest else rest

  abbrev pub delete : (A → Bool) → List A → List A
  delete p [] = []
  delete p (x ∷ xs) = let rest = delete p xs in if p x then rest else x ∷ rest

module _ ⦃ndn : Ndn⦄ where
  unfoldable pub prepare : Exec Db (Unit {0})
  prepare db = if db.prepares then (ok tt, db) else (err prepare_error, db)

  abbrev pub get_db : Exec Db Db
  get_db db = (ok db, db)

  -- A write with its outcome checked: the new tables, unless it breaks a constraint or fails.
  unfoldable pub write : Bool → Db → Exec Db (Unit {0})
  write breaks new db =
      if db.writes
      then (if breaks then (err execute_error, db) else (ok tt, new))
      else (err execute_error, db)

  -- The unique index on (zone_id, label, type, version)
  unfoldable pub same_index : ℕ → Blob → Component → Component → RrsetRow → Bool
  same_index zone_id label type version row =
      (row.zone_id == zone_id)
      && (blob_eq row.label label
          && (component_eq row.type type && component_eq row.version version))

  -- The row with the greatest label: the first of ORDER BY label DESC.
  unfoldable pub last_label : List RrsetRow → Option RrsetRow
  last_label [] = none
  last_label (r ∷ rs) = elim (last_label rs) [
    | none ↦ some r
    | some s ↦ if blob_lt r.label s.label then some s else some r
  ]

  unfoldable pub insert_by_label : RrsetRow → List RrsetRow → List RrsetRow
  insert_by_label r [] = r ∷ []
  insert_by_label r (s ∷ rest) =
      let later = insert_by_label r rest in
      if blob_lt s.label r.label then s ∷ later else r ∷ s ∷ rest

  -- ORDER BY label
  unfoldable pub order_by_label : List RrsetRow → List RrsetRow
  unfolding insert_by_label
  order_by_label [] = []
  order_by_label (r ∷ rs) = insert_by_label r (order_by_label rs)
