-- ===== src/Tests/RetentionRuns.antt =====
-- The paged DELETE, the purge of snapshots and the retention pass.
use wdc_catalog_api.Base.{
  ℕ, ◌≡◌, refl, Bool, true, none, some, List, [], ◌∷◌, Text, codes, find?, delete_where,
  count_where, inl, if◌then◌else◌, arith, ltb,
}
use wdc_catalog_api.Schema.{Db, DeviceSnapshot, DeviceHead, SnapshotRetentionPolicy, end}
use wdc_catalog_api.Session.{World, ok, initial_world}
use wdc_catalog_api.Batches.{number_key, delete_batched}
use wdc_catalog_api.Batches.Equivalence.{delete_batched_lem}
use wdc_catalog_api.Purge.{PurgeRule, is_doomed, purge_auto_older_than}
use wdc_catalog_api.Purge.Chunks.{device_of, HeadsValid}
use wdc_catalog_api.Purge.Heads.{purge-HeadsValid, purge_survivors}
use wdc_catalog_api.Retention.{do_retention}
use wdc_catalog_api.Retention.Sweep.{swept, summary_of}
use wdc_catalog_api.Retention.Pass.{do_retention_lem}
use wdc_catalog_api.Tests.Fixtures.{two_accounts}

delete_batched_lem_example :
    delete_batched number_key (λ n. n) 2 (λ n. ltb n 10) (1 ∷ 12 ∷ 3 ∷ 4 ∷ 5 ∷ [])
    ≡ some (4, 12 ∷ [])
unfolding find? delete_where count_where
delete_batched_lem_example =
    delete_batched_lem number_key (λ n. n) 2 (λ n. ltb n 10) (1 ∷ 12 ∷ 3 ∷ 4 ∷ 5 ∷ []) (omega arith)
      (refl, (refl, (refl, (refl, (refl, tt)))))

abbrev snapshot : ℕ → ℕ → DeviceSnapshot
snapshot id created_at = record {
  id = id;
  device_id = codes "d1";
  account_id = some 1;
  created_at = created_at;
  label = none;
  kind = codes "auto";
  size_bytes = 2;
  payload_json = some end;
  payload_blob = none;
  blob_uri = none;
  checksum = codes "c";
  parent_snapshot_id = none;
  compression = none;
  encryption_kid = none;
  created_by_ip = none;
}

abbrev recent : DeviceSnapshot
recent = snapshot 2 20

abbrev old : DeviceSnapshot
old = snapshot 1 10

abbrev first : DeviceSnapshot
first = snapshot 3 5

abbrev head_row : DeviceHead
head_row = record { device_id = codes "d1"; current_snapshot_id = 3; updated_by = codes "sync" }

abbrev db : Db
db = record two_accounts { snapshots = old ∷ recent ∷ first ∷ []; heads = head_row ∷ [] }

abbrev world : World
world = initial_world db

abbrev rule : PurgeRule
rule = record { account_id = 1; keep_last_n = 1; auto_expire_days = none; keep_labeled = true }

abbrev no_ties : ℕ → ℕ → Bool
no_ties a b = ltb a b

purge-HeadsValid_example :
    (answer : ℕ × List Text) × ((purge_auto_older_than no_ties rule 100 world).0 ≡ ok answer)
    × ((purge_auto_older_than no_ties rule 100 world).1.working.heads ≡ head_row ∷ [])
    × HeadsValid (purge_auto_older_than no_ties rule 100 world).1.working
    × ((purge_auto_older_than no_ties rule 100 world).1.committed ≡ db)
unfolding find?
purge-HeadsValid_example =
    purge-HeadsValid no_ties rule 100 world (refl, (refl, (refl, tt))) (refl, tt)

purge_survivors_example :
    device_of 1 (purge_auto_older_than no_ties rule 100 world).1.working.snapshots
    ≡ (if is_doomed no_ties rule 100 db old then none else some (codes "d1"))
unfolding find?
purge_survivors_example =
    purge_survivors no_ties rule 100 world old (refl, (refl, (refl, tt))) (refl, tt) (inl refl)

do_retention_lem_example :
    (deleted : ℕ) × ((do_retention no_ties 1000 100 world).0 ≡ ok (summary_of 100 2 deleted db))
    × ((do_retention no_ties 1000 100 world).1.working
        ≡ swept 100
            (record db { snapshots = (do_retention no_ties 1000 100 world).1.working.snapshots }))
    × HeadsValid (do_retention no_ties 1000 100 world).1.working
    × ((do_retention no_ties 1000 100 world).1.committed ≡ db)
unfolding find?
do_retention_lem_example =
    do_retention_lem no_ties 1000 100 (omega arith) world (tt, tt, tt, tt, tt)
      (refl, (refl, (refl, tt))) (refl, tt)

abbrev device_policy : SnapshotRetentionPolicy
device_policy = record {
  id = 1;
  account_id = 1;
  device_id = some (codes "d1");
  keep_last_n_auto = 90;
  auto_expire_days = none;
  keep_labeled_forever = true;
  max_total_bytes = none;
}

abbrev with_policy : Db
with_policy = record db { policies = device_policy ∷ [] }
