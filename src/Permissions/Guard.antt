-- ===== src/Permissions/Guard.antt =====
-- app/permissions.py, `require_role`: what passes, and what is left of a refusal.
use wdc_catalog_api.Base.{
  ◌≡◌, true, false, none, some, [], ◌∷◌, ◌++◌, codes, is_some, arith, ◌⊎◌, ◌↔◌,
}
use wdc_catalog_api.Schema.{Account, AuditEvent, named, Db}
use wdc_catalog_api.Session.{Request, Exec, World, ok, err, http, ◌>>=◌, run_request}
use wdc_catalog_api.Audit.{emit, audit_event}
use wdc_catalog_api.Roles.{Role, implies}
use wdc_catalog_api.Permissions.{require_role, role_of}

-- An account passes the guard exactly when it is not suspended and its role, read as `readonly` if
-- it is unknown, implies the required one. It then gets itself back and nothing changes.
pub require_role-ok :
    (required : Role) (request : Request) (account : Account) (w : World)
    → (require_role required request account w ≡ (ok account, w))
      ↔ ((account.suspended_at ≡ none) × (implies (role_of account) required ≡ true))
unfolding require_role
require_role-ok required request account w = (λ h. ground arith, λ h. ground arith)

abbrev pub denial : Request → Account → Db → AuditEvent
denial request account db =
    audit_event db request (some account) (codes "permission.denied") (some (codes "route"))
      (some (named request.path))

-- A request whose account fails the guard answers 403 whatever its handler is. The event is
-- published, but the durable state stays as it was: the audit row of the denial is rolled back.
pub denial_not_durable :
    {A : Type 0} (required : Role) (request : Request) (account : Account) (w : World)
    (handler : Account → Exec A)
    → (is_some account.suspended_at ≡ true) ⊎ (implies (role_of account) required ≡ false)
    → let (r, w') = run_request (require_role required request account >>= handler) w in
      ((r ≡ err (http 403 "Account is suspended")) ⊎ (r ≡ err (http 403 "Requires role or higher")))
      × (w'.committed ≡ w.committed)
      × (w'.working ≡ w.committed)
      × (w'.published ≡ w.published ++ denial request account w.committed ∷ [])
unfolding require_role run_request emit
denial_not_durable required request account w handler denied = ground arith
