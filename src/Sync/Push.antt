-- ===== src/Sync/Push.antt =====
-- app/api_sync.py, `api_upsert_config`: what a push leaves of the devices and of the rollback rows.
use wdc_catalog_api.Base.{
  ℕ, ◌≤◌, ◌≡◌, refl, inl, inr, Bool, false, Option, none, some, List, [], ◌∷◌, ◌++◌, Text, text_eq,
  text_eq→eq, ◌==◌, ==→eq, and_true, find?, find?-fresh_id, count_where, count_where-append,
  count_where-delete_where_le, fresh_id, UniqueKeys, UniqueKeys-append, Bool-cases, Option-cases,
  arith, sym,
}
use wdc_catalog_api.Schema.{Db, Account, DeviceConfig, DeviceSnapshot, SyncSnapshot, Fields}
use wdc_catalog_api.Session.{
  World, Result, ok, err, http, value_error, runtime_error, permission_error, integrity_error,
  invalid_tag, overflow_error, payload_too_large, Result-cases,
}
use wdc_catalog_api.DeviceIds.{normalize_device_id}
use wdc_catalog_api.Devices.{device_by_id}
use wdc_catalog_api.Purge.Chunks.{HeadsValid}
use wdc_catalog_api.Purge.Frame.{UniqueSnapshots}
use wdc_catalog_api.Snapshots.{PackEnv, create_plain_snapshot}
use wdc_catalog_api.Snapshots.Moves.{create_plain_snapshot-HeadsValid, create_plain_snapshot_frame}
use wdc_catalog_api.SyncSnapshots.{
  GzipEnv, ConfigSyncEntry, keep_per_device, in_group, rotate_snapshots, new_sync_snapshot,
  create_sync_snapshot, delete_each,
}
use wdc_catalog_api.SyncSnapshots.Newest.{key}
use wdc_catalog_api.SyncSnapshots.Rotation.{rotate_snapshots_count}
use wdc_catalog_api.Sync.{
  TextColumn, has_payload, of_another, entry_of, describe, pushed_row, save_device, keep_previous,
  pushed_spec, answer_push, store_push, api_upsert_config,
}

-- No device has more than ten rollback rows with an account, and their ids are distinct.
abbrev pub RowsBounded : Db → Type 0
RowsBounded db =
    UniqueKeys key db.sync_snapshots
    × ((device_id : Text) (account_id : ℕ)
        → count_where (in_group device_id account_id) db.sync_snapshots ≤ keep_per_device)

-- What the sync endpoints rely on, and keep.
abbrev pub SyncValid : Db → Type 0
SyncValid db = RowsBounded db × HeadsValid db × UniqueSnapshots db

delete_each_le :
    (q : SyncSnapshot → Bool) (ds rows : List SyncSnapshot)
    → count_where q (delete_each ds rows) ≤ count_where q rows
unfolding delete_each
delete_each_le q [] rows = omega arith
delete_each_le q (d ∷ ds) rows = omega (
  arith,
  delete_each_le q ds _,
  count_where-delete_where_le q (λ (r : SyncSnapshot). r.id == d.id) rows,
)

rotate_snapshots_le :
    (ties : ℕ → ℕ → Bool) (q : SyncSnapshot → Bool) (device_id : Text) (account_id : ℕ)
    (rows : List SyncSnapshot)
    → count_where q (rotate_snapshots ties device_id account_id rows) ≤ count_where q rows
unfolding rotate_snapshots
rotate_snapshots_le ties q device_id account_id rows = delete_each_le q _ rows

one_row : (q : SyncSnapshot → Bool) (s : SyncSnapshot) → q s ≡ false → count_where q (s ∷ []) ≡ 0
unfolding count_where
one_row q s h = ground (arith, h)

module _ (gzip : GzipEnv) (device_id : Text) (account_id now : ℕ) where
  create_sync_snapshot-RowsBounded :
      (payload : Fields) (db : Db)
      → RowsBounded db
      → RowsBounded (create_sync_snapshot gzip device_id account_id payload now db)
  unfolding create_sync_snapshot
  create_sync_snapshot-RowsBounded payload db (unique, bounded) =
      let snap =
        new_sync_snapshot gzip (fresh_id key db.sync_snapshots) device_id account_id payload now in
      let rows = db.sync_snapshots ++ snap ∷ [] in
      let distinct : UniqueKeys key rows =
        UniqueKeys-append key db.sync_snapshots snap unique
          (find?-fresh_id key db.sync_snapshots) in
      let (count, left) = rotate_snapshots_count gzip.ties device_id account_id rows distinct in
      (
        left,
        λ other id. elim (Bool-cases (in_group other id snap)) [
          | inl mine ↦
              let (device, account) = and_true (text_eq device_id other) (account_id == id) mine in
              rw (sym (text_eq→eq device_id other device), sym (==→eq account_id id account))
                (omega (arith, count))
          | inr apart ↦ omega (
            arith,
            rotate_snapshots_le gzip.ties (in_group other id) device_id account_id rows,
            count_where-append (in_group other id) db.sync_snapshots (snap ∷ []),
            one_row (in_group other id) snap apart,
            bounded other id,
          )
        ],
      )

pub devices-keep_previous :
    (gzip : GzipEnv) (id : Text) (account_id now : ℕ) (row : Option DeviceConfig) (db : Db)
    → (keep_previous gzip id account_id now row db).devices ≡ db.devices
unfolding keep_previous create_sync_snapshot
devices-keep_previous gzip id account_id now none db = refl
devices-keep_previous gzip id account_id now (some d) db = ground arith

-- the answer of a push leaves the world of the snapshot
pub world-answer_push :
    (entry : ConfigSyncEntry) (r : Result DeviceSnapshot × World) → (answer_push entry r).1 ≡ r.1
unfolding answer_push
world-answer_push entry (ok s, w) = refl
world-answer_push entry (err payload_too_large, w) = refl
world-answer_push entry (err (http n t), w) = refl
world-answer_push entry (err value_error, w) = refl
world-answer_push entry (err runtime_error, w) = refl
world-answer_push entry (err permission_error, w) = refl
world-answer_push entry (err integrity_error, w) = refl
world-answer_push entry (err invalid_tag, w) = refl
world-answer_push entry (err overflow_error, w) = refl

pub entry-answer_push :
    (entry answer : ConfigSyncEntry) (r : Result DeviceSnapshot × World)
    → (answer_push entry r).0 ≡ ok answer
    → answer ≡ entry
unfolding answer_push
entry-answer_push entry answer (ok s, w) h = ground (arith, h)
entry-answer_push entry answer (err payload_too_large, w) h = ground (arith, h)
entry-answer_push entry answer (err (http n t), w) h = cc
entry-answer_push entry answer (err value_error, w) h = cc
entry-answer_push entry answer (err runtime_error, w) h = cc
entry-answer_push entry answer (err permission_error, w) h = cc
entry-answer_push entry answer (err integrity_error, w) h = cc
entry-answer_push entry answer (err invalid_tag, w) h = cc
entry-answer_push entry answer (err overflow_error, w) h = cc

module _ (pack : PackEnv) (gzip : GzipEnv) (column : TextColumn) where
  keep_previous-SyncValid :
      (id : Text) (account_id now : ℕ) (row : Option DeviceConfig) (db : Db)
      → SyncValid db
      → SyncValid (keep_previous gzip id account_id now row db)
  unfolding keep_previous create_sync_snapshot
  keep_previous-SyncValid id account_id now none db valid = valid
  keep_previous-SyncValid id account_id now (some d) db (rows, heads, unique) =
      elim (Bool-cases (has_payload d)) [
        | inl full ↦ rw full (
          create_sync_snapshot-RowsBounded gzip id account_id now d.payload db rows,
          heads,
          unique,
        )
        | inr empty ↦ rw empty (rows, heads, unique)
      ]

  create_plain_snapshot-SyncValid :
      (id : Text) (payload : Fields) (account_id now : ℕ) (w : World)
      → SyncValid w.working
      → SyncValid (create_plain_snapshot pack (pushed_spec id payload account_id) now w).1.working
  create_plain_snapshot-SyncValid id payload account_id now w (rows, heads, unique) =
      let spec = pushed_spec id payload account_id in
      let (_, same) = create_plain_snapshot_frame pack spec now w in
      let (h, u) = create_plain_snapshot-HeadsValid pack spec now w heads unique in
      (rw same rows, h, u)

  store_push-SyncValid :
      (id : Text) (payload : Fields) (account_id now : ℕ) (row : Option DeviceConfig) (w : World)
      → SyncValid w.working
      → SyncValid (store_push pack gzip column id payload account_id now row w).1.working
  unfolding store_push save_device
  store_push-SyncValid id payload account_id now row w valid =
      let kept = keep_previous-SyncValid id account_id now row w.working valid in
      elim (Result-cases (describe column payload (pushed_row id payload account_id now row))) [
        | inr (e, odd) ↦ rw (store_push, odd) kept
        | inl (d, fine) ↦
            let saved = record w {
              working = save_device id row d (keep_previous gzip id account_id now row w.working);
            } in
            let made = create_plain_snapshot pack (pushed_spec id payload account_id) now saved in
            rw (store_push, fine, world-answer_push (entry_of d) made)
              (create_plain_snapshot-SyncValid id payload account_id now saved kept)
      ]

  -- A push, whether it returns or raises, keeps at most ten rollback rows for every device and
  -- account, the ids of the rollback rows and of the snapshots distinct, and every HEAD at a snapshot
  -- of its device.
  pub api_upsert_config-SyncValid :
      (device_id : Text) (payload : Fields) (account : Option Account) (now : ℕ) (w : World)
      → SyncValid w.working
      → SyncValid (api_upsert_config pack gzip column device_id payload account now w).1.working
  unfolding api_upsert_config
  api_upsert_config-SyncValid device_id payload account now w valid =
      elim (Result-cases (normalize_device_id device_id)) [
        | inr (e, bad) ↦ rw (api_upsert_config, bad) valid
        | inl (id, good) ↦ elim (Option-cases account) [
          | inl nobody ↦ rw (api_upsert_config, good, nobody) valid
          | inr (caller, known) ↦ elim (Option-cases (find? (device_by_id id) w.working.devices)) [
            | inl new ↦
                rw (api_upsert_config, good, known, new)
                  (store_push-SyncValid id payload caller.id now none w valid)
            | inr (d, old) ↦ elim (Bool-cases (of_another caller.id d)) [
              | inl foreign ↦ rw (api_upsert_config, good, known, old, foreign) valid
              | inr mine ↦
                  rw (api_upsert_config, good, known, old, mine)
                    (store_push-SyncValid id payload caller.id now (some d) w valid)
            ]
          ]
        ]
      ]
