-- ===== src/Permissions.antt =====
-- app/permissions.py: the dependency that guards a route by a role.
pub mod Guard
use wdc_catalog_api.Base.{Bool, true, false, Option, none, some, Text, codes, is_some, get_or, negb}
use wdc_catalog_api.Schema.{Account, AuditEvent, named}
use wdc_catalog_api.Session.{
  Request, Exec, World, Result, ok, err, Exn, http, pure, raise, ◌>>=◌, ◌>>◌,
}
use wdc_catalog_api.Audit.{emit}
use wdc_catalog_api.Roles.{Role, readonly, parse_role, implies}

-- `try: role = Role(account.role) except ValueError: role = Role.readonly`
abbrev pub role_of : Account → Role
role_of account = get_or (parse_role account.role) readonly

-- `_emit_deny`; the metric is not modelled
unfoldable pub emit_deny : Request → Account → Exec AuditEvent
emit_deny request account =
    emit request (some account) (codes "permission.denied") (some (codes "route"))
      (some (named request.path))

-- the dependency `_dep` that `require_role(required)` returns
unfoldable pub require_role : Role → Request → Account → Exec Account
unfolding emit_deny
require_role required request account = elim (is_some account.suspended_at) [
  | true ↦ emit_deny request account >> raise (http 403 "Account is suspended")
  | false ↦ elim (implies (role_of account) required) [
    | true ↦ pure account
    | false ↦ emit_deny request account >> raise (http 403 "Requires role or higher")
  ]
]
