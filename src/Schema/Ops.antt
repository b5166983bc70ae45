-- ===== src/Schema/Ops.antt =====
-- app/db.py: the singleton policy row, the audit trail, and the logs of jobs and deliveries.
use wdc_catalog_api.Base.{ℕ, List, Option, Text}

pub record GlobalPolicy : Type 0 where
  pub id : ℕ
  pub snapshot_keep_last_n : ℕ
  pub snapshot_retain_days : ℕ
  pub admin_ip_allowlist : Option (List Text)
  pub admin_session_idle_days : Option ℕ
  pub audit_retention_days : Option ℕ
  pub scheduler_run_retention_days : Option ℕ
  pub webhook_delivery_retention_days : Option ℕ
  pub webhook_url : Option Text
  pub webhook_event_prefixes : Option Text

-- The `resource_id` string of an event: a name, or the decimal string of a number, kept as the number.
pub data ResourceId : Type 0 where
  named : Text → ResourceId
  numbered : ℕ → ResourceId

pub record AuditEvent : Type 0 where
  pub id : ℕ
  pub actor_id : Option ℕ
  pub actor_email : Option Text
  pub action : Text
  pub resource_type : Option Text
  pub resource_id : Option ResourceId
  pub ip : Option Text
  pub user_agent : Option Text
  pub created_at : ℕ

pub record WebhookDelivery : Type 0 where
  pub id : ℕ
  pub url : Text
  pub event_action : Option Text
  pub status_code : Option ℕ
  pub error : Option Text
  pub created_at : ℕ

pub record SchedulerRun : Type 0 where
  pub id : ℕ
  pub job : Text
  pub started_at : ℕ
  pub error : Option Text
