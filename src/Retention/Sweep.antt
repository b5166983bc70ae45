-- ===== src/Retention/Sweep.antt =====
-- app/retention.py, `_do_retention`: the sweeps that follow the purge.
use wdc_catalog_api.Base.{
  ℕ, ◌≤◌, ◌≡◌, refl, Bool, some, List, delete_where, update_where, count_where, arith,
}
use wdc_catalog_api.Schema.{
  Db, RevokedToken, IdempotencyRecord, AuditEvent, SchedulerRun, WebhookDelivery, AdminSession,
}
use wdc_catalog_api.Session.{World, ok}
use wdc_catalog_api.Batches.{KeyEq, number_key, text_key, DistinctKeys}
use wdc_catalog_api.Batches.Equivalence.{delete_batched_lem}
use wdc_catalog_api.Retention.{
  Summary, audit_days, scheduler_days, webhook_days, idle_days, is_past, idempotency_over,
  revocation_over, is_idle, sweep_table, sweep_idempotency, sweep_revoked, sweep_audit, sweep_runs,
  sweep_deliveries, sweep_all, revoke_idle,
}

-- The primary keys of the tables that are swept are distinct.
abbrev pub KeysValid : Db → Type 0
KeysValid db =
    DistinctKeys text_key (λ (r : IdempotencyRecord). r.key_hash) db.idempotency
    × DistinctKeys text_key (λ (r : RevokedToken). r.jti) db.revoked_tokens
    × DistinctKeys number_key (λ (e : AuditEvent). e.id) db.audit_events
    × DistinctKeys number_key (λ (r : SchedulerRun). r.id) db.scheduler_runs
    × DistinctKeys number_key (λ (d : WebhookDelivery). d.id) db.webhook_deliveries

-- The database with everything that is over at an instant taken out.
abbrev pub swept : ℕ → Db → Db
swept now db = record db {
  idempotency = delete_where (idempotency_over now) db.idempotency;
  revoked_tokens = delete_where (revocation_over now) db.revoked_tokens;
  audit_events =
      delete_where (λ (e : AuditEvent). is_past now (audit_days db) e.created_at) db.audit_events;
  scheduler_runs =
      delete_where (λ (r : SchedulerRun). is_past now (scheduler_days db) r.started_at)
        db.scheduler_runs;
  webhook_deliveries =
      delete_where (λ (d : WebhookDelivery). is_past now (webhook_days db) d.created_at)
        db.webhook_deliveries;
  admin_sessions =
      update_where (is_idle now (idle_days db))
        (λ (s : AdminSession). record s { revoked_at = some now }) db.admin_sessions;
}

sweep_table_lem :
    {A K : Type 0} (keys : KeyEq K) (key : A → K) (rows : Db → List A) (put : List A → Db → Db)
    (batch : ℕ) (filter : A → Bool) (w : World)
    → 1 ≤ batch
    → DistinctKeys keys key (rows w.working)
    → sweep_table keys key rows put batch filter w ≡ (
      ok (count_where filter (rows w.working)),
      record w { working = put (delete_where filter (rows w.working)) w.working },
    )
unfolding sweep_table
sweep_table_lem keys key rows put batch filter w some_rows distinct =
    rw (sweep_table, delete_batched_lem keys key batch filter (rows w.working) some_rows distinct)
      refl

-- What the pass reports: how many rows of each table were over.
abbrev pub summary_of : ℕ → ℕ → ℕ → Db → Summary
summary_of now accounts deleted db = record {
  accounts = accounts;
  deleted = deleted;
  idempotency_purged = count_where (idempotency_over now) db.idempotency;
  revoked_tokens_purged = count_where (revocation_over now) db.revoked_tokens;
  audit_events_purged =
      count_where (λ (e : AuditEvent). is_past now (audit_days db) e.created_at) db.audit_events;
  scheduler_runs_purged =
      count_where (λ (r : SchedulerRun). is_past now (scheduler_days db) r.started_at)
        db.scheduler_runs;
  webhook_deliveries_purged =
      count_where (λ (d : WebhookDelivery). is_past now (webhook_days db) d.created_at)
        db.webhook_deliveries;
  admin_sessions_auto_revoked = count_where (is_idle now (idle_days db)) db.admin_sessions;
}

module _ (ties : ℕ → ℕ → Bool) (batch now : ℕ) (some_rows : 1 ≤ batch) where
  sweep_idempotency_lem :
      (w : World)
      → DistinctKeys text_key (λ (r : IdempotencyRecord). r.key_hash) w.working.idempotency
      → sweep_idempotency batch now w ≡ (
        ok (count_where (idempotency_over now) w.working.idempotency),
        record w {
          working = record w.working {
            idempotency = delete_where (idempotency_over now) w.working.idempotency;
          };
        },
      )
  unfolding sweep_idempotency
  sweep_idempotency_lem w distinct =
      sweep_table_lem _ _ (λ db. db.idempotency) (λ rows db. record db { idempotency = rows }) batch
        _ w some_rows distinct

  sweep_revoked_lem :
      (w : World)
      → DistinctKeys text_key (λ (r : RevokedToken). r.jti) w.working.revoked_tokens
      → sweep_revoked batch now w ≡ (
        ok (count_where (revocation_over now) w.working.revoked_tokens),
        record w {
          working = record w.working {
            revoked_tokens = delete_where (revocation_over now) w.working.revoked_tokens;
          };
        },
      )
  unfolding sweep_revoked
  sweep_revoked_lem w distinct =
      sweep_table_lem _ _ (λ db. db.revoked_tokens) (λ rows db. record db { revoked_tokens = rows })
        batch _ w some_rows distinct

  sweep_audit_lem :
      (w : World)
      → DistinctKeys number_key (λ (e : AuditEvent). e.id) w.working.audit_events
      → sweep_audit batch now w ≡ (
        ok (
            count_where
              (λ (e : AuditEvent). is_past now (audit_days w.working) e.created_at)
              w.working.audit_events),
        record w {
          working = record w.working {
            audit_events =
                delete_where
                  (λ (e : AuditEvent). is_past now (audit_days w.working) e.created_at)
                  w.working.audit_events;
          };
        },
      )
  unfolding sweep_audit
  sweep_audit_lem w distinct =
      sweep_table_lem _ _ (λ db. db.audit_events) (λ rows db. record db { audit_events = rows })
        batch _ w some_rows distinct

  sweep_runs_lem :
      (w : World)
      → DistinctKeys number_key (λ (r : SchedulerRun). r.id) w.working.scheduler_runs
      → sweep_runs batch now w ≡ (
        ok (
            count_where
              (λ (r : SchedulerRun). is_past now (scheduler_days w.working) r.started_at)
              w.working.scheduler_runs),
        record w {
          working = record w.working {
            scheduler_runs =
                delete_where
                  (λ (r : SchedulerRun). is_past now (scheduler_days w.working) r.started_at)
                  w.working.scheduler_runs;
          };
        },
      )
  unfolding sweep_runs
  sweep_runs_lem w distinct =
      sweep_table_lem _ _ (λ db. db.scheduler_runs) (λ rows db. record db { scheduler_runs = rows })
        batch _ w some_rows distinct

  sweep_deliveries_lem :
      (w : World)
      → DistinctKeys number_key (λ (d : WebhookDelivery). d.id) w.working.webhook_deliveries
      → sweep_deliveries batch now w ≡ (
        ok (
            count_where
              (λ (d : WebhookDelivery). is_past now (webhook_days w.working) d.created_at)
              w.working.webhook_deliveries),
        record w {
          working = record w.working {
            webhook_deliveries =
                delete_where
                  (λ (d : WebhookDelivery). is_past now (webhook_days w.working) d.created_at)
                  w.working.webhook_deliveries;
          };
        },
      )
  unfolding sweep_deliveries
  sweep_deliveries_lem w distinct =
      sweep_table_lem _ _ (λ db. db.webhook_deliveries)
        (λ rows db. record db { webhook_deliveries = rows }) batch _ w some_rows distinct

  abbrev idle_state : World → World
  idle_state w = (revoke_idle now w).1

  sweep_in_turn :
      (accounts deleted : ℕ) (w w1 w2 w3 w4 w5 : World) (n1 n2 n3 n4 n5 : ℕ)
      → sweep_idempotency batch now w ≡ (ok n1, w1)
      → sweep_revoked batch now w1 ≡ (ok n2, w2)
      → sweep_audit batch now w2 ≡ (ok n3, w3)
      → sweep_runs batch now w3 ≡ (ok n4, w4)
      → sweep_deliveries batch now w4 ≡ (ok n5, w5)
      → sweep_all ties batch now accounts deleted w ≡ (
        ok (record {
          accounts = accounts;
          deleted = deleted;
          idempotency_purged = n1;
          revoked_tokens_purged = n2;
          audit_events_purged = n3;
          scheduler_runs_purged = n4;
          webhook_deliveries_purged = n5;
          admin_sessions_auto_revoked =
              count_where (is_idle now (idle_days w5.working)) w5.working.admin_sessions;
        }),
        idle_state w5,
      )
  unfolding sweep_all revoke_idle
  sweep_in_turn accounts deleted w w1 w2 w3 w4 w5 n1 n2 n3 n4 n5 h1 h2 h3 h4 h5 =
      ground (arith, h1, h2, h3, h4, h5)

  pub sweep_all_lem :
      (accounts deleted : ℕ) (w : World)
      → KeysValid w.working
      → sweep_all ties batch now accounts deleted w ≡ (
        ok (summary_of now accounts deleted w.working),
        record w { working = swept now w.working },
      )
  unfolding revoke_idle
  sweep_all_lem accounts deleted w (a, b, c, d, e) =
      let h1 = sweep_idempotency_lem w a in
      let w1 = record w {
        working = record w.working {
          idempotency = delete_where (idempotency_over now) w.working.idempotency;
        };
      } in
      let h2 = sweep_revoked_lem w1 b in
      let w2 = record w1 {
        working = record w1.working {
          revoked_tokens = delete_where (revocation_over now) w.working.revoked_tokens;
        };
      } in
      let h3 = sweep_audit_lem w2 c in
      let w3 = record w2 {
        working = record w2.working {
          audit_events =
              delete_where (λ (e : AuditEvent). is_past now (audit_days w.working) e.created_at)
                w.working.audit_events;
        };
      } in
      let h4 = sweep_runs_lem w3 d in
      let w4 = record w3 {
        working = record w3.working {
          scheduler_runs =
              delete_where
                (λ (r : SchedulerRun). is_past now (scheduler_days w.working) r.started_at)
                w.working.scheduler_runs;
        };
      } in
      let h5 = sweep_deliveries_lem w4 e in
      sweep_in_turn accounts deleted w w1 w2 w3 w4 _ _ _ _ _ _ h1 h2 h3 h4 h5
