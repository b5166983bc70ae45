-- ===== src/Policies/Scopes.antt =====
-- app/retention_policies.py, `upsert_policy`, and `_resolve_policy` of app/retention.py.
use wdc_catalog_api.Base.{
  ℕ, ◌≡◌, ◌⊎◌, refl, inl, inr, Option, none, some, Text, lower, find?, UniqueKeys, Option-cases,
  arith,
}
use wdc_catalog_api.Schema.{Db, Account, SnapshotRetentionPolicy}
use wdc_catalog_api.Session.{Request, World, Result-cases, ok}
use wdc_catalog_api.Devices.{device_by_id}
use wdc_catalog_api.Audit.{emit}
use wdc_catalog_api.Purge.{PurgeRule}
use wdc_catalog_api.Retention.{is_account_wide, resolve_policy}
use wdc_catalog_api.Policies.{
  PolicyUpsert, scope_of, assert_device_owned, policy_row, policy_in, stored_policies,
  upsert_policy,
}
use wdc_catalog_api.Policies.Stored.{
  other_scope-stored_policies, HoldsBody, policy_row-HoldsBody, policy_in-stored_policies,
}

-- the rule of a body
abbrev pub rule_of : ℕ → PolicyUpsert → PurgeRule
rule_of account_id body = record {
  account_id = account_id;
  keep_last_n = body.keep_last_n_auto;
  auto_expire_days = body.auto_expire_days;
  keep_labeled = body.keep_labeled_forever;
}

rule_of-policy_row :
    (account_id : ℕ) (body : PolicyUpsert) (db : Db) (o : Option SnapshotRetentionPolicy)
    → (let row = policy_row account_id none body db o in
        record {
          account_id = account_id;
          keep_last_n = row.keep_last_n_auto;
          auto_expire_days = row.auto_expire_days;
          keep_labeled = row.keep_labeled_forever;
        })
      ≡ rule_of account_id body
rule_of-policy_row account_id body db none = refl
rule_of-policy_row account_id body db (some row) = refl

-- the two reads that a policy is resolved by
resolve_policy_reads :
    (k : ℕ) (db db' : Db)
    → find? (is_account_wide k) db'.policies ≡ find? (is_account_wide k) db.policies
    → db'.global_policy ≡ db.global_policy
    → resolve_policy k db' ≡ resolve_policy k db
unfolding resolve_policy
resolve_policy_reads k db db' same global =
    elim (Option-cases (find? (is_account_wide k) db.policies)) [
      | inl missing ↦ rw (resolve_policy, same, missing, global) refl
      | inr (row, found) ↦ rw (resolve_policy, same, found) refl
    ]

assert_device_owned_frame :
    (account : Account) (scope : Option Text) (w : World)
    → (assert_device_owned account scope w).1 ≡ w
unfolding assert_device_owned
assert_device_owned_frame account none w = refl
assert_device_owned_frame account (some id) w =
    elim (Option-cases (find? (device_by_id (lower id)) w.working.devices)) [
      | inl missing ↦ ground (arith, missing)
      | inr (d, found) ↦ ground (arith, found)
    ]

upsert_policy_ok :
    (body : PolicyUpsert) (account : Account) (request : Request) (w : World)
    (row : SnapshotRetentionPolicy)
    → (upsert_policy body account request w).0 ≡ ok row
    → ((upsert_policy body account request w).1.working.policies
        ≡ stored_policies account.id
            (scope_of body.device_id)
            body
            w.working
            (policy_in account.id (scope_of body.device_id) w.working))
      × ((upsert_policy body account request w).1.working.global_policy ≡ w.working.global_policy)
      × (row
          ≡ policy_row account.id
              (scope_of body.device_id)
              body
              w.working
              (policy_in account.id (scope_of body.device_id) w.working))
unfolding upsert_policy emit
upsert_policy_ok body account request w row h =
    let scope = scope_of body.device_id in
    let frame = assert_device_owned_frame account scope w in
    elim (Result-cases (assert_device_owned account scope w).0) [
      | inr (e, refused) ↦ absurd (ground (arith, h, refused))
      | inl (u, passed) ↦ (
        ground (arith, passed, frame),
        ground (arith, passed, frame),
        ground (arith, passed, frame, h),
      )
    ]

-- After a policy was set, the row that was answered holds what the body says and is the one found for
-- the account in the scope of the body. Without a device it is the policy that the retention pass
-- applies to the account. For a single device, and while the ids of the policies are distinct, the pass
-- applies to every account what it applied before.
pub resolve_policy-upsert_policy :
    (body : PolicyUpsert) (account : Account) (request : Request) (w : World)
    (row : SnapshotRetentionPolicy)
    → UniqueKeys (λ (p : SnapshotRetentionPolicy). p.id) w.working.policies
    → (upsert_policy body account request w).0 ≡ ok row
    → HoldsBody body row
      × (policy_in account.id
            (scope_of body.device_id)
            (upsert_policy body account request w).1.working
          ≡ some row)
      × (((scope_of body.device_id ≡ none)
            × (resolve_policy account.id (upsert_policy body account request w).1.working
                ≡ rule_of account.id body))
          ⊎ ((device : Text) × (scope_of body.device_id ≡ some device)
              × ((k : ℕ)
                  → resolve_policy k (upsert_policy body account request w).1.working
                    ≡ resolve_policy k w.working)))
unfolding resolve_policy
resolve_policy-upsert_policy body account request w row unique h =
    let (policies, global, answer) = upsert_policy_ok body account request w row h in
    let scope = scope_of body.device_id in
    let before = policy_in account.id scope w.working in
    (
      rw answer (policy_row-HoldsBody account.id scope body w.working before),
      rw (policies, answer) (policy_in-stored_policies account.id scope body w.working before refl),
      elim (Option-cases (scope_of body.device_id)) [
        | inl wide ↦
            let now_wide =
              policy_in-stored_policies account.id none body w.working
                (policy_in account.id none w.working) refl in
            inl (
              wide,
              rw (resolve_policy, policies, wide, now_wide)
                  (rule_of-policy_row account.id body w.working
                    (policy_in account.id none w.working)),
            )
        | inr (device, scoped) ↦ inr (
          device,
          scoped,
          λ k.
              let kept =
                other_scope-stored_policies account.id k device body w.working
                  (policy_in account.id (some device) w.working) unique refl in
              resolve_policy_reads k w.working (upsert_policy body account request w).1.working
                (rw (policies, scoped) kept) global,
        )
      ],
    )
