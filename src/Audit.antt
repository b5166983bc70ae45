-- ===== src/Audit.antt =====
-- app/audit.py: one audit row for each security-relevant action, handed on to the live event bus
-- and to the webhooks. The JSON `detail` of a row and the metric that counts actions are not modelled.
use wdc_catalog_api.Base.{ℕ, Option, none, some, [], ◌∷◌, ◌++◌, Text, fresh_id}
use wdc_catalog_api.Schema.{Db, AuditEvent, Account, ResourceId}
use wdc_catalog_api.Session.{Request, Exec, ok}

abbrev account_id_of : Option Account → Option ℕ
account_id_of none = none
account_id_of (some a) = some a.id

abbrev email_of : Option Account → Option Text
email_of none = none
email_of (some a) = some a.email

-- the row that `emit` builds
unfoldable pub audit_event :
    Db → Request → Option Account → Text → Option Text → Option ResourceId → AuditEvent
audit_event db request actor action resource_type resource_id = record {
  id = fresh_id (λ (e : AuditEvent). e.id) db.audit_events;
  actor_id = account_id_of actor;
  actor_email = email_of actor;
  action = action;
  resource_type = resource_type;
  resource_id = resource_id;
  ip = some request.ip;
  user_agent = request.user_agent;
  created_at = request.now;
}

-- `emit`: the row goes into the open transaction, the payload to the subscribers at once.
unfoldable pub emit :
    Request → Option Account → Text → Option Text → Option ResourceId → Exec AuditEvent
emit request actor action resource_type resource_id w =
    let event = audit_event w.working request actor action resource_type resource_id in
    let db = w.working in
    (
      ok event,
      record w {
        working = record db { audit_events = db.audit_events ++ event ∷ [] };
        published = w.published ++ event ∷ [];
      },
    )
