-- ===== src/Schema.antt =====
-- The rows of the database (app/db.py, the ORM classes), with the columns that the modelled code
-- reads or writes, and the whole database as the record of its tables. An instant is a number of
-- seconds, an integer primary key a number, a digest or a token a text.
mod Values
mod Accounts
mod Devices
mod Ops
unfoldable pub use Values.*
pub use Accounts.*
pub use Devices.*
pub use Ops.*
use wdc_catalog_api.Base.{List, []}

-- Every table that the modelled code touches.
pub record Db : Type 0 where
  pub accounts : List Account
  pub users : List User
  pub revoked_tokens : List RevokedToken
  pub pats : List PersonalAccessToken
  pub invites : List ConsumedInvite
  pub idempotency : List IdempotencyRecord
  pub global_policy : List GlobalPolicy
  pub audit_events : List AuditEvent
  pub scheduler_runs : List SchedulerRun
  pub webhook_deliveries : List WebhookDelivery
  pub admin_sessions : List AdminSession
  pub devices : List DeviceConfig
  pub snapshots : List DeviceSnapshot
  pub heads : List DeviceHead
  pub policies : List SnapshotRetentionPolicy
  pub sync_snapshots : List SyncSnapshot
  pub encryption_keys : List AccountEncryptionKey

abbrev pub empty_db : Db
empty_db = record {
  accounts = [];
  users = [];
  revoked_tokens = [];
  pats = [];
  invites = [];
  idempotency = [];
  global_policy = [];
  audit_events = [];
  scheduler_runs = [];
  webhook_deliveries = [];
  admin_sessions = [];
  devices = [];
  snapshots = [];
  heads = [];
  policies = [];
  sync_snapshots = [];
  encryption_keys = [];
}
