-- ===== src/Policies.antt =====
-- app/retention_policies.py: the endpoints with which an account sets and deletes its retention
-- policies. The bounds on the numbers of a body are those of its schema and stand before the endpoint.
pub mod Stored
pub mod Scopes
use wdc_catalog_api.Base.{
  ℕ, ◌≡◌, Bool, true, false, Option, none, some, List, [], ◌∷◌, ◌++◌, Text, codes, text_eq,
  is_empty, if◌then◌else◌, ◌==◌, ◌&&◌, linked_to, lower, find?, update_where, delete_where, select,
  fresh_id,
}
use wdc_catalog_api.Schema.{Db, Account, SnapshotRetentionPolicy, numbered}
use wdc_catalog_api.Session.{
  Request, Exec, World, Result, ok, err, Exn, http, pure, raise, query, write, or_raise, raise_if,
  ◌>>=◌, ◌>>◌,
}
use wdc_catalog_api.Audit.{emit}
use wdc_catalog_api.Devices.{device_by_id}
use wdc_catalog_api.Retention.{is_account_wide}

pub record PolicyUpsert : Type 0 where
  pub device_id : Option Text
  pub keep_last_n_auto : ℕ
  pub auto_expire_days : Option ℕ
  pub keep_labeled_forever : Bool
  pub max_total_bytes : Option ℕ

-- `body.device_id.lower() if body.device_id else None`
abbrev pub scope_of : Option Text → Option Text
scope_of none = none
scope_of (some id) = if is_empty id then none else some (lower id)

abbrev pub for_device : Text → SnapshotRetentionPolicy → Bool
for_device id p = elim p.device_id [ none ↦ false | some d ↦ text_eq d id ]

-- the row of the account in a scope
abbrev pub in_scope : ℕ → Option Text → SnapshotRetentionPolicy → Bool
in_scope account_id none p = is_account_wide account_id p
in_scope account_id (some id) p = p.account_id == account_id && for_device id p

abbrev pub policy_by_id : ℕ → SnapshotRetentionPolicy → Bool
policy_by_id id p = p.id == id

abbrev pub not_owned : Exn
not_owned = http 404 "Device not found or not owned by this account"

-- `_assert_device_owned`
unfoldable pub assert_device_owned : Account → Option Text → Exec Unit
assert_device_owned account none w = (ok tt, w)
assert_device_owned account (some id) w = elim (find? (device_by_id (lower id)) w.working.devices) [
  | none ↦ (err not_owned, w)
  | some d ↦ if linked_to account.id d.user_id then (ok tt, w) else (err not_owned, w)
]

abbrev pub new_policy : ℕ → Option Text → PolicyUpsert → Db → SnapshotRetentionPolicy
new_policy account_id scope body db = record {
  id = fresh_id (λ (p : SnapshotRetentionPolicy). p.id) db.policies;
  account_id = account_id;
  device_id = scope;
  keep_last_n_auto = body.keep_last_n_auto;
  auto_expire_days = body.auto_expire_days;
  keep_labeled_forever = body.keep_labeled_forever;
  max_total_bytes = body.max_total_bytes;
}

abbrev pub rewritten : PolicyUpsert → SnapshotRetentionPolicy → SnapshotRetentionPolicy
rewritten body p = record p {
  keep_last_n_auto = body.keep_last_n_auto;
  auto_expire_days = body.auto_expire_days;
  keep_labeled_forever = body.keep_labeled_forever;
  max_total_bytes = body.max_total_bytes;
}

-- the row of the scope after the call, by the one that it had
abbrev pub policy_row :
    ℕ → Option Text → PolicyUpsert → Db → Option SnapshotRetentionPolicy → SnapshotRetentionPolicy
policy_row account_id scope body db none = new_policy account_id scope body db
policy_row account_id scope body db (some row) = rewritten body row

abbrev pub stored_policies :
    ℕ
    → Option Text
    → PolicyUpsert
    → Db
    → Option SnapshotRetentionPolicy
    → List SnapshotRetentionPolicy
stored_policies account_id scope body db none =
    db.policies ++ new_policy account_id scope body db ∷ []
stored_policies account_id scope body db (some row) =
    update_where (policy_by_id row.id) (rewritten body) db.policies

abbrev pub policy_in : ℕ → Option Text → Db → Option SnapshotRetentionPolicy
policy_in account_id scope db = find? (in_scope account_id scope) db.policies

abbrev pub store_policy : ℕ → Option Text → PolicyUpsert → Db → Db
store_policy account_id scope body db = record db {
  policies = stored_policies account_id scope body db (policy_in account_id scope db);
}

unfoldable pub upsert_policy : PolicyUpsert → Account → Request → Exec SnapshotRetentionPolicy
upsert_policy body account request = do
  assert_device_owned account (scope_of body.device_id)
  row ← query (λ db.
      policy_row account.id (scope_of body.device_id) body db
        (policy_in account.id (scope_of body.device_id) db))
  write (store_policy account.id (scope_of body.device_id) body)
  emit request (some account) (codes "retention.policy_set") (some (codes "retention_policy"))
      (some (numbered row.id))
  pure row

unfoldable pub delete_policy : ℕ → Account → Request → Exec Unit
delete_policy policy_id account request w =
    elim (find? (policy_by_id policy_id) w.working.policies) [
      | none ↦ (err (http 404 "Policy not found"), w)
      | some row ↦
          if row.account_id == account.id
          then (do
            emit request (some account) (codes "retention.policy_deleted")
                (some (codes "retention_policy")) (some (numbered policy_id))
            write
                (λ db. record db { policies = delete_where (policy_by_id policy_id) db.policies }))
              w
          else (err (http 404 "Policy not found"), w)
    ]
