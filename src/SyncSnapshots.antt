-- ===== src/SyncSnapshots.antt =====
-- app/api_sync_snapshots.py: what a push replaced is kept for a rollback, ten rows for a device and
-- account. `json`, gzip and the order of the
-- database among rows of one instant are parameters.
pub mod Newest
pub mod Rotation
pub mod Restore
use wdc_catalog_api.Base.{
  ℕ, ◌≡◌, Bool, true, false, Option, none, some, List, [], ◌∷◌, ◌++◌, Text, text_eq, if◌then◌else◌,
  ltb, ◌==◌, ◌&&◌, ◌||◌, length, take, drop, find?, select, delete_where, fresh_id,
}
use wdc_catalog_api.Schema.{Db, Account, SyncSnapshot, Fields}
use wdc_catalog_api.Session.{Exec, World, Result, ok, err, Exn, http, value_error}

-- What the code relies on: a compressed text is read back as itself; reading another text may raise.
-- `ties` is the order in which the database gives two rows of one instant, by their ids.
pub record GzipEnv : Type 0 where
  pub dumps : Fields → Text
  pub loads : Text → Option Fields
  pub gzip : Text → Text
  pub gunzip : Text → Option Text
  pub ties : ℕ → ℕ → Bool
  pub gunzip-gzip : (t : Text) → gunzip (gzip t) ≡ some t

abbrev pub keep_per_device : ℕ
keep_per_device = 10

abbrev pub in_group : Text → ℕ → SyncSnapshot → Bool
in_group device_id account_id s = text_eq s.device_id device_id && s.account_id == account_id

module _ (ties : ℕ → ℕ → Bool) where
  -- `ORDER BY created_at DESC`: whether the second row goes before the first
  abbrev pub goes_behind : SyncSnapshot → SyncSnapshot → Bool
  goes_behind s t =
      ltb s.created_at t.created_at || (s.created_at == t.created_at && ties t.id s.id)

  unfoldable pub insert_newest : SyncSnapshot → List SyncSnapshot → List SyncSnapshot
  insert_newest s [] = s ∷ []
  insert_newest s (t ∷ rest) =
      let later = insert_newest s rest in if goes_behind s t then t ∷ later else s ∷ t ∷ rest

  unfoldable pub newest_first : List SyncSnapshot → List SyncSnapshot
  newest_first [] = []
  newest_first (s ∷ rest) = insert_newest s (newest_first rest)

-- one DELETE for each of the rows, by its id
unfoldable pub delete_each : List SyncSnapshot → List SyncSnapshot → List SyncSnapshot
delete_each [] rows = rows
delete_each (s ∷ rest) rows =
    delete_each rest (delete_where (λ (r : SyncSnapshot). r.id == s.id) rows)

-- `_rotate`
unfoldable pub rotate_snapshots : (ℕ → ℕ → Bool) → Text → ℕ → List SyncSnapshot → List SyncSnapshot
rotate_snapshots ties device_id account_id rows =
    delete_each
      (drop keep_per_device (newest_first ties (select (in_group device_id account_id) rows))) rows

-- the id in a request
abbrev pub sync_snapshot_by_id : ℕ → SyncSnapshot → Bool
sync_snapshot_by_id id s = s.id == id

-- `_require_snapshot`
unfoldable pub require_snapshot : ℕ → Account → Db → Result SyncSnapshot
require_snapshot id account db = elim (find? (sync_snapshot_by_id id) db.sync_snapshots) [
  | none ↦ err (http 404 "Snapshot not found")
  | some s ↦ if s.account_id == account.id then ok s else err (http 404 "Snapshot not found")
]

abbrev pub of_caller : Account → Option Text → SyncSnapshot → Bool
of_caller account none s = s.account_id == account.id
of_caller account (some device_id) s = s.account_id == account.id && text_eq s.device_id device_id

-- `list_sync_snapshots`: the rows whose metadata it answers
unfoldable pub list_sync_snapshots :
    (ℕ → ℕ → Bool) → Option Text → Account → Exec (List SyncSnapshot)
list_sync_snapshots ties device_id account w = (
  ok (take 50 (newest_first ties (select (of_caller account device_id) w.working.sync_snapshots))),
  w,
)

abbrev pub without_snapshot : ℕ → Db → Db
without_snapshot id db = record db {
  sync_snapshots = delete_where (sync_snapshot_by_id id) db.sync_snapshots;
}

-- `delete_sync_snapshot`
unfoldable pub delete_sync_snapshot : ℕ → Account → Exec Unit
delete_sync_snapshot id account w = elim (require_snapshot id account w.working) [
  | err e ↦ (err e, w)
  | ok s ↦ (ok tt, record w { working = without_snapshot id w.working })
]

-- `ConfigSyncEntry`
pub record ConfigSyncEntry : Type 0 where
  pub device_id : Text
  pub updated_at : ℕ
  pub payload : Fields

module _ (env : GzipEnv) where
  -- the row that a push adds
  abbrev pub new_sync_snapshot : ℕ → Text → ℕ → Fields → ℕ → SyncSnapshot
  new_sync_snapshot id device_id account_id payload now =
      let compressed = env.gzip (env.dumps payload) in
      record {
        id = id;
        device_id = device_id;
        account_id = account_id;
        created_at = now;
        size_bytes = length compressed;
        content_gzip = compressed;
      }

  -- `create_sync_snapshot`: the tables that it leaves
  unfoldable pub create_sync_snapshot : Text → ℕ → Fields → ℕ → Db → Db
  create_sync_snapshot device_id account_id payload now db =
      let id = fresh_id (λ (s : SyncSnapshot). s.id) db.sync_snapshots in
      let snap = new_sync_snapshot id device_id account_id payload now in
      record db {
        sync_snapshots =
            rotate_snapshots env.ties device_id account_id (db.sync_snapshots ++ snap ∷ []);
      }

  -- `_decompress`; `none` stands for the exceptions of gzip and `json`
  unfoldable pub decompress_snapshot : SyncSnapshot → Option Fields
  decompress_snapshot s = elim (env.gunzip s.content_gzip) [
    | none ↦ none
    | some raw ↦ env.loads raw
  ]

  -- `restore_sync_snapshot`, and `get_sync_snapshot` with the id and the size left out
  unfoldable pub restore_sync_snapshot : ℕ → Account → Exec ConfigSyncEntry
  restore_sync_snapshot id account w = elim (require_snapshot id account w.working) [
    | err e ↦ (err e, w)
    | ok s ↦ elim (decompress_snapshot s) [
      | none ↦ (err value_error, w)
      | some payload ↦
          (ok (record { device_id = s.device_id; updated_at = s.created_at; payload = payload }), w)
    ]
  ]
