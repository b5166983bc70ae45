-- ===== src/AdminUsers.antt =====
-- app/admin_users.py: the operations on accounts, each behind its role guard. The caller is the
-- account that the request's credentials stand for. The statistics cache that some of them clear
-- is not modelled.
pub mod Targets
pub mod Keeps
pub mod Owners
pub mod LockOut
use wdc_catalog_api.Base.{
  linked_to, ℕ, ◌+◌, ◌≡◌, Bool, true, false, Option, none, some, List, [], ◌∷◌, Text, codes,
  text_eq, is_some, if◌then◌else◌, leb, ◌==◌, negb, ◌&&◌, ◌||◌, find?, update_where, delete_where,
  count_where,
}
use wdc_catalog_api.Schema.{
  Db, Account, RevokedToken, PersonalAccessToken, ConsumedInvite, IdempotencyRecord, AuditEvent,
  DeviceConfig, DeviceSnapshot, SnapshotRetentionPolicy, SyncSnapshot, AccountEncryptionKey,
  numbered,
}
use wdc_catalog_api.Session.{
  Request, Exec, World, Result, ok, err, Exn, http, value_error, pure, raise, query, write,
  or_raise, raise_if, ◌>>=◌, ◌>>◌,
}
use wdc_catalog_api.Passwords.{Bcrypt, hash_password}
use wdc_catalog_api.Audit.{emit}
use wdc_catalog_api.Roles.{Role, readonly, user, support, operator, admin, owner, value, parse_role}
use wdc_catalog_api.Permissions.{require_role}
use wdc_catalog_api.Auth.{account_by_id}
use wdc_catalog_api.Login.{write_account}

-- `AdminUserRow`, without its two instants
pub record AdminUserRow : Type 0 where
  pub id : ℕ
  pub email : Text
  pub role : Text
  pub suspended : Bool
  pub device_count : ℕ

-- `_row`, with the count of the devices that each endpoint makes before it
unfoldable pub user_row : Account → Db → AdminUserRow
user_row account db = record {
  id = account.id;
  email = account.email;
  role = account.role;
  suspended = is_some account.suspended_at;
  device_count = count_where (λ (d : DeviceConfig). linked_to account.id d.user_id) db.devices;
}

abbrev pub is_owner : Role → Bool
is_owner owner = true
is_owner _ = false

-- `Account.role == Role.owner.value`
abbrev pub has_owner_role : Account → Bool
has_owner_role a = text_eq a.role (value owner)

-- `_target_or_404`
unfoldable pub target_or_404 : ℕ → Exec Account
target_or_404 user_id = do
  found ← query (λ db. find? (account_by_id user_id) db.accounts)
  or_raise found (http 404 "Account not found")

-- the columns that each operation writes
abbrev pub with_role : Role → Account → Account
with_role r a = record a { role = value r }

abbrev pub suspended_now : ℕ → Account → Account
suspended_now now a = record a { suspended_at = some now; token_version = a.token_version + 1 }

abbrev pub resumed : Account → Account
resumed a = record a { suspended_at = none }

abbrev pub with_password : Text → Account → Account
with_password hash a = record a { password_hash = hash; token_version = a.token_version + 1 }

-- `_revoke_all_for` on an account that is there
abbrev pub tokens_revoked : Account → Account
tokens_revoked a = record a { token_version = a.token_version + 1 }

-- `target_role == owner and new_role != owner` asks for another owner
abbrev pub demotes_last : Role → Role → Db → Bool
demotes_last target_role new_role db =
    is_owner target_role
    && negb (is_owner new_role)
    && leb (count_where has_owner_role db.accounts) 1

-- the tail that the operations share: the event and the answer
unfoldable pub finish : Request → Account → Text → Account → Exec AdminUserRow
finish request caller action target = do
  emit request (some caller) action (some (codes "account")) (some (numbered target.id))
  query (user_row target)

-- Each operation is its role guard, the lookup of the target, and what it does to the target.
abbrev pub on_target : {A : Type 0} → Role → ℕ → Request → Account → (Account → Exec A) → Exec A
on_target required user_id request caller body = do
  require_role required request caller
  target ← target_or_404 user_id
  body target

-- the tests of `change_role` on the three roles
unfoldable pub role_change_guard : Role → Account → Account → Exec Unit
role_change_guard new_role caller target = do
  caller_role ← or_raise (parse_role caller.role) value_error
  target_role ← or_raise (parse_role target.role) value_error
  raise_if (is_owner new_role && negb (is_owner caller_role))
      (http 403 "Only owners can assign owner role")
  raise_if (is_owner target_role && negb (is_owner caller_role))
      (http 403 "Only owners can modify an owner")
  last ← query (demotes_last target_role new_role)
  raise_if last (http 409 "Cannot demote the last owner")

-- `Role(target.role) == Role.owner and Role(caller.role) != Role.owner`, and what it raises
abbrev pub needs_owner : Role → Account → Exn → Exec Unit
needs_owner target_role caller refusal w =
    if is_owner target_role
    then elim (parse_role caller.role) [
      | none ↦ (err value_error, w)
      | some caller_role ↦ if is_owner caller_role then (ok tt, w) else (err refusal, w)
    ]
    else (ok tt, w)

unfoldable pub change_role_of : Role → Request → Account → Account → Exec AdminUserRow
change_role_of new_role request caller target = do
  role_change_guard new_role caller target
  write_account target.id (with_role new_role)
  finish request caller (codes "user.role_changed") (with_role new_role target)

unfoldable pub change_role : ℕ → Role → Request → Account → Exec AdminUserRow
change_role user_id new_role request caller =
    on_target admin user_id request caller (change_role_of new_role request caller)

unfoldable pub suspend_user_of : Request → Account → Account → Exec AdminUserRow
suspend_user_of request caller target = do
  target_role ← or_raise (parse_role target.role) value_error
  raise_if (is_owner target_role) (http 403 "Cannot suspend an owner account")
  write_account target.id (suspended_now request.now)
  finish request caller (codes "user.suspended") (suspended_now request.now target)

unfoldable pub suspend_user : ℕ → Request → Account → Exec AdminUserRow
suspend_user user_id request caller =
    on_target admin user_id request caller (suspend_user_of request caller)

unfoldable pub resume_user_of : Request → Account → Account → Exec AdminUserRow
resume_user_of request caller target = do
  write_account target.id resumed
  finish request caller (codes "user.resumed") (resumed target)

unfoldable pub resume_user : ℕ → Request → Account → Exec AdminUserRow
resume_user user_id request caller =
    on_target admin user_id request caller (resume_user_of request caller)

-- `reset_password`, with the temporary password and the salt that were drawn; it answers the
-- address and the password
unfoldable pub reset_password_of :
    Bcrypt → Text → Text → Request → Account → Account → Exec (Text × Text)
reset_password_of bcrypt temp salt request caller target = do
  target_role ← or_raise (parse_role target.role) value_error
  needs_owner target_role caller (http 403 "Only owners can reset an owner's password")
  write_account target.id (with_password (hash_password bcrypt salt temp))
  emit request (some caller) (codes "user.password_reset") (some (codes "account"))
      (some (numbered target.id))
  pure (target.email, temp)

unfoldable pub reset_password : Bcrypt → Text → Text → ℕ → Request → Account → Exec (Text × Text)
reset_password bcrypt temp salt user_id request caller =
    on_target support user_id request caller (reset_password_of bcrypt temp salt request caller)

unfoldable pub revoke_user_tokens_of : Request → Account → Account → Exec AdminUserRow
revoke_user_tokens_of request caller target = do
  target_role ← or_raise (parse_role target.role) value_error
  needs_owner target_role caller (http 403 "Only owners can revoke an owner's tokens")
  write_account target.id tokens_revoked
  finish request caller (codes "user.tokens_revoked") (tokens_revoked target)

unfoldable pub revoke_user_tokens : ℕ → Request → Account → Exec AdminUserRow
revoke_user_tokens user_id request caller =
    on_target admin user_id request caller (revoke_user_tokens_of request caller)

-- DELETE of an account row with what its foreign keys do: rows that belong to the account go with
-- it, rows that outlive it lose the reference.
unfoldable pub delete_account : ℕ → Db → Db
delete_account id db = record db {
  accounts = delete_where (account_by_id id) db.accounts;
  idempotency = delete_where (λ (r : IdempotencyRecord). linked_to id r.account_id) db.idempotency;
  revoked_tokens = delete_where (λ (r : RevokedToken). linked_to id r.account_id) db.revoked_tokens;
  pats = delete_where (λ (r : PersonalAccessToken). r.account_id == id) db.pats;
  policies = delete_where (λ (r : SnapshotRetentionPolicy). r.account_id == id) db.policies;
  sync_snapshots = delete_where (λ (r : SyncSnapshot). r.account_id == id) db.sync_snapshots;
  encryption_keys =
      delete_where (λ (r : AccountEncryptionKey). r.account_id == id) db.encryption_keys;
  invites =
      update_where (λ (r : ConsumedInvite). linked_to id r.account_id)
        (λ r. record r { account_id = none }) db.invites;
  audit_events =
      update_where (λ (r : AuditEvent). linked_to id r.actor_id) (λ r. record r { actor_id = none })
        db.audit_events;
  devices =
      update_where (λ (r : DeviceConfig). linked_to id r.user_id) (λ r. record r { user_id = none })
        db.devices;
  snapshots =
      update_where (λ (r : DeviceSnapshot). linked_to id r.account_id)
        (λ r. record r { account_id = none }) db.snapshots;
}

unfoldable pub delete_user_of : Request → Account → Account → Exec Unit
delete_user_of request caller target = do
  target_role ← or_raise (parse_role target.role) value_error
  raise_if (is_owner target_role) (http 403 "Cannot delete an owner account")
  raise_if (target.id == caller.id) (http 409 "Cannot delete your own account")
  emit request (some caller) (codes "user.deleted") (some (codes "account"))
      (some (numbered target.id))
  write (delete_account target.id)

unfoldable pub delete_user : ℕ → Request → Account → Exec Unit
delete_user user_id request caller =
    on_target admin user_id request caller (delete_user_of request caller)
