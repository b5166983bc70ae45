-- ===== src/Lib.antt =====
-- The catalog API of NKS WDC: a model of its accounts, credentials and administration.
--
-- The program is a FastAPI service over an SQL database. A request gets one database session
-- (app/db.py, `get_session`), a dependency that turns its credentials into an account
-- (app/devices.py, `get_current_account`), often a role guard (app/permissions.py), and a handler
-- that reads and writes rows, appends to the audit trail (app/audit.py) and returns or raises.
--
-- The model follows that shape. Base holds the shared helpers: Boolean tests, lists, texts as lists
-- of code points, and tables (lists of rows) with the queries, updates and deletes of SQL. Schema
-- holds the rows of app/db.py and the record Db of the tables. Session holds the state of the
-- process, World, and its actions, Exec: an action gets the world and gives a value or an exception
-- and the world it leaves, what it did before the exception included. `run_request` is the
-- transaction of a request: it commits on return and rolls back on an exception.
--
--   Cache        app/_cache.py, the cache with a time to live; Cache/History against its calls
--   Audit        app/audit.py, `emit`
--   Roles        app/roles.py
--   Permissions  app/permissions.py, `require_role`
--   Passwords    app/auth.py, `hash_password` and `verify_password`
--   IpRanges     the allowlist test that app/devices.py makes
--   Pats         app/pats.py: issue, authenticate, revoke and rotate personal access tokens
--   Auth         app/devices.py: JWTs, the revocation check, the current account
--   Login        app/devices.py: registration, login with its lockout, logout
--   AdminUsers   app/admin_users.py: role changes, suspension, password reset, token revocation,
--                deletion
--   Batches      app/retention.py, `_batched_delete`
--   Purge        app/snapshots.py, `purge_auto_older_than`
--   Retention    app/retention.py, `_resolve_policy` and `_do_retention`
--   Policies     app/retention_policies.py
--   Snapshots    app/snapshots.py: packing, HEADs, `create_snapshot` without encryption
--   EventBus     app/event_bus.py
--   Idempotency  app/idempotency.py: persisting an answer and replaying it
--   DeviceIds    app/device_ids.py
--   Devices      app/devices.py, the endpoints that rename, read and push to a device
--   Crypto       app/crypto.py
--   Encryption   app/snapshots.py: the keys of an account, and `create_snapshot` with and without them
--   AdminAccounts  the account behind a user of the admin pages (app/api_auth_ui.py, app/admin_ui.py)
--   AdminSessions  app/auth.py, the session cookie and `current_user`; app/admin_ui.py, the endpoints
--                that revoke sessions
--   Invites      app/admin_invites.py
--   Totp         app/totp.py
--   Csrf         app/csrf.py
--   AdminLogin   app/api_auth_ui.py: the two steps of the login to the admin pages
--   AdminPages   app/admin_ui.py, the forms that act on an account
--   AdminSelf    app/admin_ui.py, the forms for the own password, tokens and second factor
--   SyncSnapshots  app/api_sync_snapshots.py
--   Sync         app/api_sync.py, without the deletion
--   Tests        concrete runs
--
-- Operations keep the names of the source. A handler is split where the source's early returns
-- split it: `login` into `accept_password` and `reject_password`, an operation of AdminUsers into
-- `on_target` (the guard and the lookup) and the part `..._of` that works on the account found.
--
-- Texts are lists of code points, with the case and white space of ASCII. Instants are numbers of
-- seconds; a request reads the clock once. Ids and counters are natural numbers. What comes from
-- outside the repository is a parameter: bcrypt (a password checks against its hash), PyJWT (a
-- token decodes to its claims until it expires), `ipaddress`, for snapshots `json`, SHA-256,
-- zstandard and the blob store, AES-GCM, HKDF and Argon2id for their encryption, and SHA-256 for
-- idempotency keys and session ids, itsdangerous for cookies and invites, base64, and HMAC-SHA1 and
-- base32 for one-time codes. The order in which the database gives snapshots of one instant is a
-- parameter too. Random values and salts are arguments of the operations that draw them. Loops over
-- lists are structural. `batched_delete` has a bound on its rounds, one more than the table has
-- rows: a full page takes at least one row away. `delete_chunks` has one round for each id, and a
-- round takes up to 500.
--
-- Not modelled: webhooks; the other forms of the admin pages, with the catalogue and the settings; the
-- scheduler around the retention pass and the endpoints of the global policy; metrics, logging, the JSON
-- detail of audit rows, the cache of statistics, the rate limiter, HTML pages, release scrapers, backups
-- and single sign-on, which are glue around other programs.
pub mod Base
pub mod Schema
pub mod Cache
pub mod Session
pub mod Audit
pub mod Roles
pub mod Permissions
pub mod Passwords
pub mod IpRanges
pub mod Pats
pub mod Auth
pub mod Login
pub mod AdminUsers
pub mod Batches
pub mod Purge
pub mod Retention
pub mod Snapshots
pub mod EventBus
pub mod Idempotency
pub mod Devices
pub mod DeviceIds
pub mod Crypto
pub mod Encryption
pub mod Totp
pub mod AdminAccounts
pub mod AdminSessions
pub mod Csrf
pub mod AdminLogin
pub mod AdminPages
pub mod AdminSelf
pub mod Invites
pub mod SyncSnapshots
pub mod Sync
pub mod Policies
pub mod Tests
