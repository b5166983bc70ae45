-- ===== src/Tests/PolicyRuns.antt =====
-- Setting a retention policy.
use wdc_catalog_api.Base.{ℕ, ◌≡◌, ◌⊎◌, refl, true, none, some, [], ◌∷◌, Text, codes, text_eq, find?}
use wdc_catalog_api.Schema.{Db, SnapshotRetentionPolicy, end}
use wdc_catalog_api.Session.{World, initial_world}
use wdc_catalog_api.Audit.{emit}
use wdc_catalog_api.Retention.{resolve_policy}
use wdc_catalog_api.Policies.{
  PolicyUpsert, scope_of, policy_in, upsert_policy, assert_device_owned, new_policy,
}
use wdc_catalog_api.Policies.Stored.{HoldsBody}
use wdc_catalog_api.Tests.DeviceRuns.{device}
use wdc_catalog_api.Policies.Scopes.{rule_of, resolve_policy-upsert_policy}
use wdc_catalog_api.Tests.Fixtures.{ann, request_at, two_accounts}

abbrev body : PolicyUpsert
body = record {
  device_id = some (codes "DEV1");
  keep_last_n_auto = 5;
  auto_expire_days = some 7;
  keep_labeled_forever = true;
  max_total_bytes = none;
}

abbrev with_device : World
with_device = initial_world (record two_accounts { devices = device "dev1" 1 end ∷ [] })

abbrev answered : SnapshotRetentionPolicy
answered = new_policy 1 (some (codes "dev1")) body with_device.working

abbrev then_db : Db
then_db = (upsert_policy body ann (request_at 9) with_device).1.working

resolve_policy-upsert_policy_example :
    HoldsBody body answered
    × (policy_in 1 (scope_of body.device_id) then_db ≡ some answered)
    × (((scope_of body.device_id ≡ none) × (resolve_policy 1 then_db ≡ rule_of 1 body))
        ⊎ ((dev : Text) × (scope_of body.device_id ≡ some dev)
            × ((k : ℕ) → resolve_policy k then_db ≡ resolve_policy k with_device.working)))
unfolding upsert_policy assert_device_owned emit find? text_eq
resolve_policy-upsert_policy_example =
    resolve_policy-upsert_policy body ann (request_at 9) with_device answered tt refl
