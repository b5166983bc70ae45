-- ===== src/Tests/SyncRuns.antt =====
-- Pushes of configurations and the rows kept for a rollback.
use wdc_catalog_api.Base.{
  ltb, select, update_where, ℕ, ◌≤◌, ◌≡◌, refl, true, none, some, List, [], ◌∷◌, codes, text_eq,
  find?, ◌==◌, count_where, min, Elem, fresh_id, strip, arith,
}
use wdc_catalog_api.Schema.{Db, SyncSnapshot, str, get_field, end}
use wdc_catalog_api.Session.{World, ok, err, initial_world, value_error}
use wdc_catalog_api.DeviceIds.{normalize_device_id, is_device_id, all_id_chars}
use wdc_catalog_api.Snapshots.{
  create_plain_snapshot, append_snapshot, get_head, set_head, pack_from_raw,
}
use wdc_catalog_api.SyncSnapshots.{
  GzipEnv, ConfigSyncEntry, in_group, rotate_snapshots, create_sync_snapshot, restore_sync_snapshot,
  new_sync_snapshot,
}
use wdc_catalog_api.SyncSnapshots.Rotation.{rotate_snapshots_lem}
use wdc_catalog_api.SyncSnapshots.Restore.{restore_sync_snapshot-create_sync_snapshot}
use wdc_catalog_api.Sync.{
  TextColumn, api_upsert_config, api_get_config, store_push, describe, name_from, sites_from,
  system_from, pushed_row, save_device, keep_previous, answer_push,
}
use wdc_catalog_api.Sync.Push.{SyncValid, api_upsert_config-SyncValid}
use wdc_catalog_api.Sync.Ownership.{api_get_config-api_upsert_config}
use wdc_catalog_api.Tests.Fixtures.{ann, two_accounts}
use wdc_catalog_api.Tests.DeviceRuns.{theirs, sites, device}
use wdc_catalog_api.Tests.SnapshotRuns.{env}

-- JSON that writes every dict as nothing, and no compression.
abbrev gzip : GzipEnv
gzip = record {
  dumps = λ d. [];
  loads = λ t. some sites;
  gzip = λ t. t;
  gunzip = λ t. some t;
  ties = λ a b. ltb b a;
  gunzip-gzip = λ t. refl;
}

abbrev column : TextColumn
column none = ok none
column (some (str t)) = ok (some t)
column (some _) = err value_error

abbrev kept : ℕ → ℕ → SyncSnapshot
kept id at = new_sync_snapshot gzip id (codes "dev1") 1 sites at

abbrev eleven : List SyncSnapshot
eleven =
    kept 1 1
    ∷ kept 2 3
    ∷ kept 3 2
    ∷ kept 4 4
    ∷ kept 5 5
    ∷ kept 6 6
    ∷ kept 7 7
    ∷ kept 8 8
    ∷ kept 9 9
    ∷ kept 10 10
    ∷ kept 11 11
    ∷ []

rotate_snapshots_lem_example :
    (count_where (in_group (codes "dev1") 1) (rotate_snapshots gzip.ties (codes "dev1") 1 eleven)
      ≡ min 10 (count_where (in_group (codes "dev1") 1) eleven))
    × ((a b : SyncSnapshot)
        → Elem a (rotate_snapshots gzip.ties (codes "dev1") 1 eleven)
        → in_group (codes "dev1") 1 a ≡ true
        → Elem b eleven
        → find?
            (λ (r : SyncSnapshot). r.id == b.id)
            (rotate_snapshots gzip.ties (codes "dev1") 1 eleven)
          ≡ none
        → (b.created_at ≤ a.created_at) × (in_group (codes "dev1") 1 b ≡ true))
unfolding find?
rotate_snapshots_lem_example =
    rotate_snapshots_lem gzip.ties (codes "dev1") 1 eleven
      (refl, (refl, (refl, (refl, (refl, (refl, (refl, (refl, (refl, (refl, (refl, tt)))))))))))

abbrev db : Db
db = record two_accounts {
  devices = device "dev1" 1 sites ∷ theirs ∷ [];
  sync_snapshots = kept 1 1 ∷ [];
}

abbrev world : World
world = initial_world db

abbrev restored : ConfigSyncEntry
restored = record { device_id = codes "dev1"; updated_at = 30; payload = sites }

restore_sync_snapshot-create_sync_snapshot_example :
    (restore_sync_snapshot gzip 2 ann
      (initial_world (create_sync_snapshot gzip (codes "dev1") 1 sites 30 db))).0
    ≡ ok restored
unfolding fresh_id find? select text_eq
restore_sync_snapshot-create_sync_snapshot_example =
    restore_sync_snapshot-create_sync_snapshot gzip (codes "dev1") ann sites 30 db
      (initial_world (create_sync_snapshot gzip (codes "dev1") 1 sites 30 db)) refl refl (refl, tt)
      (omega arith, tt)

world_valid : SyncValid world.working
unfolding find? count_where
world_valid = (((refl, tt), λ id account. ground arith), tt, (tt))

api_upsert_config-SyncValid_example :
    SyncValid (api_upsert_config env gzip column (codes "DEV1") end (some ann) 30 world).1.working
api_upsert_config-SyncValid_example =
    api_upsert_config-SyncValid env gzip column (codes "DEV1") end (some ann) 30 world world_valid

abbrev answer : ConfigSyncEntry
answer = record { device_id = codes "dev1"; updated_at = 30; payload = sites }

api_get_config-api_upsert_config_example :
    ((api_get_config
        (codes "DEV1")
        ann
        (api_upsert_config env gzip column (codes "DEV1") sites (some ann) 30 world).1).0
      ≡ ok answer)
    × (answer.payload ≡ sites)
    × (answer.updated_at ≡ 30)
unfolding find? text_eq fresh_id strip normalize_device_id is_device_id all_id_chars
    create_plain_snapshot append_snapshot get_head set_head pack_from_raw api_upsert_config
    store_push describe name_from sites_from system_from pushed_row save_device keep_previous
    answer_push get_field create_sync_snapshot update_where
api_get_config-api_upsert_config_example =
    api_get_config-api_upsert_config env gzip column (codes "DEV1") sites ann 30 world answer refl
