-- ===== src/Retention.antt =====
-- app/retention.py: the policy of an account, and the retention pass over the whole database. The
-- scheduler around the pass, with its advisory lock and its log of runs, is not modelled.
pub mod Sweep
pub mod Pass
use wdc_catalog_api.Base.{
  ℕ, suc, ◌+◌, ◌*◌, ◌≡◌, Bool, true, false, Option, none, some, List, [], ◌∷◌, ◌++◌, Text, codes,
  is_some, if◌then◌else◌, ltb, leb, ◌==◌, negb, ◌&&◌, get_or, linked_to, find?, update_where,
  count_where, fresh_id, length,
}
use wdc_catalog_api.Schema.{
  Db, Account, RevokedToken, IdempotencyRecord, GlobalPolicy, AuditEvent, SchedulerRun,
  WebhookDelivery, AdminSession, SnapshotRetentionPolicy,
}
use wdc_catalog_api.Session.{
  Exec, World, Result, ok, err, Exn, runtime_error, pure, raise, query, write, commit, rollback,
  ◌>>=◌, ◌>>◌,
}
use wdc_catalog_api.Batches.{KeyEq, number_key, text_key, delete_batched}
use wdc_catalog_api.Purge.{PurgeRule, purge_auto_older_than}

abbrev pub global_policy_of : Db → Option GlobalPolicy
global_policy_of db = find? (λ (p : GlobalPolicy). p.id == 1) db.global_policy

-- the row of the account with no device
abbrev pub is_account_wide : ℕ → SnapshotRetentionPolicy → Bool
is_account_wide account_id p = p.account_id == account_id && negb (is_some p.device_id)

-- `_resolve_policy`, as the arguments of the purge that the caller makes of it
unfoldable pub resolve_policy : ℕ → Db → PurgeRule
resolve_policy account_id db = elim (find? (is_account_wide account_id) db.policies) [
  | some row ↦ record {
    account_id = account_id;
    keep_last_n = row.keep_last_n_auto;
    auto_expire_days = row.auto_expire_days;
    keep_labeled = row.keep_labeled_forever;
  }
  | none ↦ elim (global_policy_of db) [
    | some p ↦ record {
      account_id = account_id;
      keep_last_n = p.snapshot_keep_last_n;
      auto_expire_days = some p.snapshot_retain_days;
      keep_labeled = true;
    }
    | none ↦ record {
      account_id = account_id;
      keep_last_n = 30;
      auto_expire_days = none;
      keep_labeled = true;
    }
  ]
]

-- `deleted`, and the counts of the other sweeps
pub record Summary : Type 0 where
  pub accounts : ℕ
  pub deleted : ℕ
  pub idempotency_purged : ℕ
  pub revoked_tokens_purged : ℕ
  pub audit_events_purged : ℕ
  pub scheduler_runs_purged : ℕ
  pub webhook_deliveries_purged : ℕ
  pub admin_sessions_auto_revoked : ℕ

-- a number of days of the global policy, or its default
abbrev pub retain_days : (GlobalPolicy → Option ℕ) → ℕ → Db → ℕ
retain_days field default db = elim (global_policy_of db) [
  | none ↦ default
  | some p ↦ get_or (field p) default
]

abbrev pub audit_days : Db → ℕ
audit_days db = retain_days (λ p. p.audit_retention_days) 365 db

abbrev pub scheduler_days : Db → ℕ
scheduler_days db = retain_days (λ p. p.scheduler_run_retention_days) 90 db

abbrev pub webhook_days : Db → ℕ
webhook_days db = retain_days (λ p. p.webhook_delivery_retention_days) 30 db

abbrev pub idle_days : Db → ℕ
idle_days db = retain_days (λ p. p.admin_session_idle_days) 0 db

-- `at < now - days`; with no days the sweep is off
abbrev pub is_past : ℕ → ℕ → ℕ → Bool
is_past now days at = negb (days == 0) && ltb (at + days * 86400) now

-- `expires_at <= now`
abbrev pub idempotency_over : ℕ → IdempotencyRecord → Bool
idempotency_over now r = leb r.expires_at now

abbrev pub revocation_over : ℕ → RevokedToken → Bool
revocation_over now r = elim r.expires_at [ none ↦ false | some e ↦ leb e now ]

-- `last_seen_at < cutoff and revoked_at IS NULL`
abbrev pub is_idle : ℕ → ℕ → AdminSession → Bool
is_idle now days s = is_past now days s.last_seen_at && negb (is_some s.revoked_at)

-- One `_batched_delete`; `none` is a loop that is out of rounds, which the source does not have.
unfoldable pub sweep_table :
    {A K : Type 0}
    → KeyEq K
    → (A → K)
    → (Db → List A)
    → (List A → Db → Db)
    → ℕ
    → (A → Bool)
    → Exec ℕ
sweep_table keys key rows put batch filter w =
    elim (delete_batched keys key batch filter (rows w.working)) [
      | none ↦ (err runtime_error, w)
      | some (deleted, left) ↦ (ok deleted, record w { working = put left w.working })
    ]

unfoldable pub sweep_idempotency : ℕ → ℕ → Exec ℕ
sweep_idempotency batch now w =
    sweep_table text_key (λ (r : IdempotencyRecord). r.key_hash) (λ db. db.idempotency)
      (λ rows db. record db { idempotency = rows }) batch (idempotency_over now) w

unfoldable pub sweep_revoked : ℕ → ℕ → Exec ℕ
sweep_revoked batch now w =
    sweep_table text_key (λ (r : RevokedToken). r.jti) (λ db. db.revoked_tokens)
      (λ rows db. record db { revoked_tokens = rows }) batch (revocation_over now) w

unfoldable pub sweep_audit : ℕ → ℕ → Exec ℕ
sweep_audit batch now w =
    sweep_table number_key (λ (e : AuditEvent). e.id) (λ db. db.audit_events)
      (λ rows db. record db { audit_events = rows }) batch
      (λ e. is_past now (audit_days w.working) e.created_at) w

unfoldable pub sweep_runs : ℕ → ℕ → Exec ℕ
sweep_runs batch now w =
    sweep_table number_key (λ (r : SchedulerRun). r.id) (λ db. db.scheduler_runs)
      (λ rows db. record db { scheduler_runs = rows }) batch
      (λ r. is_past now (scheduler_days w.working) r.started_at) w

unfoldable pub sweep_deliveries : ℕ → ℕ → Exec ℕ
sweep_deliveries batch now w =
    sweep_table number_key (λ (d : WebhookDelivery). d.id) (λ db. db.webhook_deliveries)
      (λ rows db. record db { webhook_deliveries = rows }) batch
      (λ d. is_past now (webhook_days w.working) d.created_at) w

-- the UPDATE of the idle admin sessions
unfoldable pub revoke_idle : ℕ → Exec ℕ
revoke_idle now w =
    let db = w.working in
    (
      ok (count_where (is_idle now (idle_days db)) db.admin_sessions),
      record w {
        working = record db {
          admin_sessions =
              update_where (is_idle now (idle_days db)) (λ s. record s { revoked_at = some now })
                db.admin_sessions;
        };
      },
    )

module _ (ties : ℕ → ℕ → Bool) (batch now : ℕ) where
  -- the loop over the accounts
  unfoldable pub purge_accounts : List Account → Exec ℕ
  purge_accounts [] w = (ok 0, w)
  purge_accounts (a ∷ accounts) w =
      let (r, w') = purge_auto_older_than ties (resolve_policy a.id w.working) now w in
      let rest = purge_accounts accounts w' in
      elim r [
        | err e ↦ (err e, w')
        | ok answer ↦ elim rest.0 [
          | err e ↦ (err e, rest.1)
          | ok more ↦ (ok (answer.0 + more), rest.1)
        ]
      ]

  -- the sweeps that follow it
  unfoldable pub sweep_all : ℕ → ℕ → Exec Summary
  sweep_all accounts deleted = do
    idempotency ← sweep_idempotency batch now
    revoked ← sweep_revoked batch now
    audits ← sweep_audit batch now
    runs ← sweep_runs batch now
    deliveries ← sweep_deliveries batch now
    idle ← revoke_idle now
    pure (record {
      accounts = accounts;
      deleted = deleted;
      idempotency_purged = idempotency;
      revoked_tokens_purged = revoked;
      audit_events_purged = audits;
      scheduler_runs_purged = runs;
      webhook_deliveries_purged = deliveries;
      admin_sessions_auto_revoked = idle;
    })

  -- `_do_retention`
  unfoldable pub do_retention : Exec Summary
  do_retention = do
    accounts ← query (λ db. db.accounts)
    deleted ← purge_accounts accounts
    sweep_all (length accounts) deleted
