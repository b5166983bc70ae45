-- ===== src/AdminSessions.antt =====
-- app/auth.py, the browser sessions of the admin pages: the signed cookie, its row in the table and
-- the dependency `current_user`; and the endpoints of app/admin_ui.py that revoke sessions.
-- itsdangerous and SHA-256 are parameters.
pub mod Cookies
pub mod Kills
use wdc_catalog_api.Base.{
  ℕ, ◌+◌, ◌*◌, ◌≤◌, ◌≡◌, Bool, true, false, Option, none, some, List, [], ◌∷◌, ◌++◌, Text, codes,
  text_eq, is_some, is_empty, if◌then◌else◌, ltb, ◌==◌, negb, ◌&&◌, min, get_or, take, find?,
  update_where, fresh_id,
}
use wdc_catalog_api.Schema.{Db, User, Account, AdminSession, GlobalPolicy, ResourceId, numbered}
use wdc_catalog_api.Session.{Request, Exec, World, Result, ok, err, Exn, http}
use wdc_catalog_api.IpRanges.{IpLibrary, host_allowed}
use wdc_catalog_api.Audit.{emit}
use wdc_catalog_api.Passwords.{Bcrypt}
use wdc_catalog_api.AdminAccounts.{admin_account}

-- What the code relies on of a TimestampSigner: what it signed is read back until it is older than
-- the age that is asked for; without an age, always.
pub record Signer : Type 0 where
  pub sign : ℕ → Text → Text
  pub unsign : ℕ → Option ℕ → Text → Option Text
  pub unsign-sign :
      (now issued age : ℕ) (t : Text)
      → issued ≤ now
      → unsign now (some age) (sign issued t) ≡ (if ltb (issued + age) now then none else some t)
  pub unsign-sign_ageless : (now issued : ℕ) (t : Text) → unsign now none (sign issued t) ≡ some t

-- The settings of the module: SESSION_MAX_AGE and SESSION_IDLE_TIMEOUT.
pub record SessionTimes : Type 0 where
  pub max_age : ℕ
  pub idle_timeout : ℕ

-- `_split_session_payload`: at the first `|`, an empty id counting as none
unfoldable pub split_session_payload : Text → Text × Option Text
split_session_payload [] = ([], none)
split_session_payload (c ∷ s) =
    let (username, id) = split_session_payload s in
    if c == 124 then ([], if is_empty s then none else some s) else (c ∷ username, id)

-- `(ua or "")[:256] or None`
abbrev pub short_agent : Option Text → Option Text
short_agent none = none
short_agent (some ua) = if is_empty ua then none else some (take 256 ua)

abbrev pub session_by_fingerprint : Text → AdminSession → Bool
session_by_fingerprint fp s = text_eq s.fingerprint fp

abbrev pub session_by_id : ℕ → AdminSession → Bool
session_by_id id s = s.id == id

abbrev pub user_by_name : Text → User → Bool
user_by_name name u = text_eq u.username name

-- the row that a login or a first request writes
abbrev pub new_session : User → Text → Request → Db → AdminSession
new_session user fp request db = record {
  id = fresh_id (λ (s : AdminSession). s.id) db.admin_sessions;
  user_id = user.id;
  fingerprint = fp;
  ip = some request.ip;
  user_agent = short_agent request.user_agent;
  last_seen_at = request.now;
  revoked_at = none;
}

abbrev pub with_sessions : (List AdminSession → List AdminSession) → World → World
with_sessions f w =
    let db = w.working in record w { working = record db { admin_sessions = f db.admin_sessions } }

abbrev pub to_login : Exn
to_login = http 302 "Not authenticated"

-- `policy.admin_ip_allowlist` of the policy with id 1
abbrev pub admin_allowlist : Db → List Text
admin_allowlist db = elim (find? (λ (p : GlobalPolicy). p.id == 1) db.global_policy) [
  | none ↦ []
  | some p ↦ get_or p.admin_ip_allowlist []
]

-- a row for the session of a user, unless there is one
unfoldable pub track_session : Text → Text → Request → World → World
track_session username fp request w = elim (find? (user_by_name username) w.working.users) [
  | none ↦ w
  | some user ↦
      if is_some (find? (session_by_fingerprint fp) w.working.admin_sessions)
      then w
      else with_sessions (λ rows. rows ++ new_session user fp request w.working ∷ []) w
]

-- `user.id if user else -1`
abbrev pub is_own : Option User → AdminSession → Bool
is_own none s = false
is_own (some user) s = s.user_id == user.id

abbrev pub killed_at : ℕ → AdminSession → AdminSession
killed_at now s = record s { revoked_at = elim s.revoked_at [ none ↦ some now | some t ↦ some t ] }

-- the event of what was killed, in the name of the account behind the user
unfoldable pub report_kill :
    Bcrypt → Text → Text → Text → Option ResourceId → Request → World → World
report_kill bcrypt salt username action id request w =
    let (account, w') = admin_account bcrypt salt username w in
    elim account [
      | err e ↦ w'
      | ok a ↦ (emit request (some a) action (some (codes "admin_session")) id w').1
    ]

-- `admin_kill_session`, for the user of the cookie; it answers whether the session was killed
unfoldable pub kill_session : Bcrypt → Text → ℕ → Text → Request → Exec Bool
kill_session bcrypt salt id username request w =
    elim (find? (session_by_id id) w.working.admin_sessions) [
      | none ↦ (ok false, w)
      | some row ↦
          if is_own (find? (user_by_name username) w.working.users) row
          then (
            ok true,
            report_kill bcrypt salt username (codes "session.killed") (some (numbered id)) request
                (with_sessions (update_where (session_by_id id) (killed_at request.now)) w),
          )
          else (ok false, w)
    ]

-- the sessions that `admin_kill_other_sessions` takes
abbrev pub is_other : Option User → Text → AdminSession → Bool
is_other user current s =
    is_own user s && (negb (is_some s.revoked_at) && negb (text_eq s.fingerprint current))

abbrev pub is_foreign : Text → AdminSession → Bool
is_foreign current s = negb (is_some s.revoked_at) && negb (text_eq s.fingerprint current)

abbrev pub bumped : Account → Account
bumped a = record a { token_version = a.token_version + 1 }

-- the two UPDATEs of `admin_kill_all_sessions`
abbrev pub kill_everything : Text → ℕ → Db → Db
kill_everything current now db = record db {
  admin_sessions = update_where (is_foreign current) (killed_at now) db.admin_sessions;
  accounts = update_where (λ (a : Account). negb (is_some a.suspended_at)) bumped db.accounts;
}

module _ (signer : Signer) (sha256 : Text → Text) (times : SessionTimes) where
  -- `_session_id`
  unfoldable pub session_id : ℕ → Text → Option Text
  session_id now cookie = if is_empty cookie then none else elim (signer.unsign now none cookie) [
    | none ↦ none
    | some raw ↦ (split_session_payload raw).1
  ]

  -- `_fingerprint`
  unfoldable pub fingerprint : ℕ → Text → Text
  fingerprint now cookie = sha256 (get_or (session_id now cookie) cookie)

  -- `read_session`
  unfoldable pub read_session : ℕ → Option Text → Option Text
  read_session now none = none
  read_session now (some cookie) =
      if is_empty cookie
      then none
      else elim (signer.unsign now (some (min times.max_age times.idle_timeout)) cookie) [
        | none ↦ none
        | some raw ↦ some (split_session_payload raw).0
      ]

  -- `optional_user`
  abbrev pub optional_user : ℕ → Option Text → Option Text
  optional_user now cookie = read_session now cookie

  -- the cookie that `issue_session` signs, with the id that `uuid4` drew
  abbrev pub session_cookie : Text → Text → ℕ → Text
  session_cookie username id now = signer.sign now (username ++ (codes "|" ++ id))

  -- `issue_session`, for a request with its database
  unfoldable pub issue_session : Text → Text → Request → Exec Text
  issue_session username id request w =
      let signed = session_cookie username id request.now in
      (ok signed, track_session username (fingerprint request.now signed) request w)

  -- the part of `current_user` on the row of the session
  unfoldable pub check_session : Text → Text → Request → Exec Unit
  check_session username cookie request w =
      let fp = fingerprint request.now cookie in
      elim (find? (session_by_fingerprint fp) w.working.admin_sessions) [
        | none ↦ (ok tt, track_session username fp request w)
        | some row ↦ if is_some row.revoked_at then (err (http 302 "Session revoked"), w) else (
          ok tt,
          with_sessions
              (update_where (session_by_id row.id) (λ s. record s { last_seen_at = request.now }))
              w,
        )
      ]

  -- the part of `current_user` on the addresses that may use the admin pages
  unfoldable pub check_address : IpLibrary → Text → Request → Exec Text
  check_address ips username request w =
      let allowlist = admin_allowlist w.working in
      if is_empty allowlist
      then (ok username, w)
      else if host_allowed ips allowlist request.ip
      then (ok username, w)
      else (err to_login, w)

  unfoldable pub current_user : IpLibrary → Option Text → Request → Exec Text
  current_user ips cookie request w = elim (read_session request.now cookie) [
    | none ↦ (err to_login, w)
    | some username ↦
        let (checked, w') = check_session username (get_or cookie []) request w in
        elim checked [ err e ↦ (err e, w') | ok _ ↦ check_address ips username request w' ]
  ]

  -- `admin_kill_other_sessions`
  unfoldable pub kill_other_sessions : Bcrypt → Text → Text → Text → Request → Exec Unit
  kill_other_sessions bcrypt salt cookie username request w =
      let user = find? (user_by_name username) w.working.users in
      let current = fingerprint request.now cookie in
      (
        ok tt,
        report_kill bcrypt salt username (codes "session.killed_others") none request
            (with_sessions (update_where (is_other user current) (killed_at request.now)) w),
      )

  -- `admin_kill_all_sessions`; it answers whether the phrase was right
  unfoldable pub kill_all_sessions : Bcrypt → Text → Text → Text → Text → Request → Exec Bool
  kill_all_sessions bcrypt salt confirm cookie username request w =
      let current = fingerprint request.now cookie in
      if text_eq confirm (codes "KILL-ALL")
      then (
        ok true,
        report_kill bcrypt salt username (codes "admin.global_session_kill") none request
            (record w { working = kill_everything current request.now w.working }),
      )
      else (ok false, w)
