-- ===== src/Login.antt =====
-- app/devices.py, the password endpoints: registration, login with its lockout, and logout. The rate
-- limiter in front of them and the metrics are not modelled.
pub mod Lockout
pub mod Sessions
use wdc_catalog_api.Base.{
  ℕ, ◌+◌, ◌*◌, ◌≡◌, Bool, true, false, Option, none, some, List, [], ◌∷◌, ◌++◌, Text, codes,
  text_eq, is_some, is_empty, if◌then◌else◌, ltb, leb, ◌==◌, strip, lower, find?, update_where,
  fresh_id,
}
use wdc_catalog_api.Schema.{Db, Account, RevokedToken, numbered}
use wdc_catalog_api.Cache.{invalidate}
use wdc_catalog_api.Session.{
  Request, Exec, World, Result, ok, err, Exn, http, value_error, pure, raise, query, write,
  or_raise, raise_if, commit, ◌>>=◌, ◌>>◌,
}
use wdc_catalog_api.Passwords.{Bcrypt, hash_password, verify_password}
use wdc_catalog_api.Audit.{emit}
use wdc_catalog_api.Auth.{Claims, JwtCodec, account_by_id, token_by_jti, create_token}

abbrev pub account_by_email : Text → Account → Bool
account_by_email email a = text_eq a.email email

-- the thresholds of `_record_failed_login`
unfoldable pub lock_minutes : ℕ → ℕ
lock_minutes n = if leb 15 n then 30 else if leb 10 n then 5 else if leb 5 n then 1 else 0

-- `if lock_minutes: account.locked_until = …`
abbrev pub locked_by : ℕ → ℕ → Option ℕ → Option ℕ
locked_by now minutes old = if minutes == 0 then old else some (now + minutes * 60)

-- `_record_failed_login`: the account as it leaves it
unfoldable pub record_failed_login : ℕ → Account → Account
record_failed_login now a = record a {
  failed_login_count = a.failed_login_count + 1;
  locked_until = locked_by now (lock_minutes (a.failed_login_count + 1)) a.locked_until;
}

-- `account.locked_until is not None and locked_until > now`
abbrev pub is_locked : ℕ → Account → Bool
is_locked now a = elim a.locked_until [ none ↦ false | some t ↦ ltb now t ]

-- the fields that a successful login writes
unfoldable pub clear_lockout : ℕ → Account → Account
clear_lockout now a = record a {
  failed_login_count = 0;
  locked_until = none;
  last_login_at = some now;
}

unfoldable pub write_account : ℕ → (Account → Account) → Exec Unit
write_account id f =
    write (λ db. record db { accounts = update_where (account_by_id id) f db.accounts })

-- what `TokenResponse` carries
pub record TokenResponse : Type 0 where
  pub token : Text
  pub email : Text

abbrev pub new_account : Text → Text → Text → Db → Account
new_account email password_hash role db = record {
  id = fresh_id (λ (a : Account). a.id) db.accounts;
  email = email;
  password_hash = password_hash;
  role = role;
  suspended_at = none;
  token_version = 1;
  last_login_at = none;
  failed_login_count = 0;
  locked_until = none;
  totp_enabled = false;
  totp_secret = none;
  totp_recovery_hashes = none;
}

module _ (bcrypt : Bcrypt) (jwt : JwtCodec) where
  -- `register`; the schema has checked the address and the length of the password
  unfoldable pub register : Text → Text → Text → Text → Request → Exec TokenResponse
  register jti salt raw_email password request = do
    let email = lower (strip raw_email)
    existing ← query (λ db. find? (account_by_email email) db.accounts)
    raise_if (is_some existing) (http 409 "Email already registered")
    account ← query (new_account email (hash_password bcrypt salt password) (codes "user"))
    write (λ db. record db { accounts = db.accounts ++ account ∷ [] })
    emit request (some account) (codes "account.registered") (some (codes "account"))
        (some (numbered account.id))
    pure (record {
      token = create_token jwt jti request.now account.id email account.token_version;
      email = email;
    })

  -- `if lock_minutes:` the event that the lock was armed
  unfoldable pub signal_lockout : Request → Account → Exec Unit
  signal_lockout request account w =
      if lock_minutes (account.failed_login_count + 1) == 0
      then (ok tt, w)
      else (do
        emit request (some (record_failed_login request.now account)) (codes "login.lockout_armed")
            (some (codes "account")) (some (numbered account.id))
        pure tt)
          w

  -- the branch of a wrong password: the counter, the signal that the lock was armed, the commit
  unfoldable pub reject_password : Request → Account → Exec TokenResponse
  reject_password request account w =
      (do
        write_account account.id (record_failed_login request.now)
        signal_lockout request account
        commit
        raise (http 401 "Invalid email or password"))
        w

  -- the branch of a right password
  unfoldable pub accept_password : Text → Text → Request → Account → Exec TokenResponse
  accept_password jti email request account w =
      if is_some account.suspended_at
      then (err (http 403 "Account is suspended"), w)
      else if text_eq account.role (codes "readonly")
      then (err (http 403 "Account is disabled (read-only)"), w)
      else (do
        write_account account.id (clear_lockout request.now)
        emit request (some (clear_lockout request.now account)) (codes "login.ok")
            (some (codes "account")) (some (numbered account.id))
        pure (record {
          token = create_token jwt jti request.now account.id email account.token_version;
          email = email;
        }))
          w

  unfoldable pub login : Text → Text → Text → Request → Exec TokenResponse
  login jti raw_email password request w =
      elim (find? (account_by_email (lower (strip raw_email))) w.working.accounts) [
        | none ↦ (err (http 401 "Invalid email or password"), w)
        | some account ↦
            if is_locked request.now account
            then (do
              emit request (some account) (codes "login.locked_out") (some (codes "account"))
                  (some (numbered account.id))
              commit
              raise (http 423 "Account temporarily locked"))
                w
            else if verify_password bcrypt password account.password_hash
            then accept_password jti (lower (strip raw_email)) request account w
            else reject_password request account w
      ]

-- `int(payload.get("sub") or 0) or None`
abbrev pub revoked_account : ℕ → Option ℕ
revoked_account id = if id == 0 then none else some id

-- the denylist row of a logout
abbrev pub revocation : Claims → ℕ → RevokedToken
revocation claims id = record {
  jti = claims.jti;
  account_id = revoked_account id;
  reason = some (codes "logout");
  expires_at = some claims.exp;
}

-- the row is added unless there is one already
abbrev pub deny_token : Claims → Db → Result Db
deny_token claims db =
    if is_some (find? (token_by_jti claims.jti) db.revoked_tokens) then ok db else elim claims.sub [
      | none ↦ err value_error
      | some id ↦ ok (record db { revoked_tokens = db.revoked_tokens ++ revocation claims id ∷ [] })
    ]

-- `logout`; it answers whether the token was put on the denylist
unfoldable pub logout : JwtCodec → Option Text → Request → Exec Bool
logout jwt none request w = (err (http 401 "Authentication required"), w)
logout jwt (some bearer) request w = elim (jwt.decode request.now bearer) [
  | none ↦ (err (http 401 "Invalid token"), w)
  | some claims ↦
      if is_empty claims.jti then (ok false, w) else elim (deny_token claims w.working) [
        | err e ↦ (err e, w)
        | ok db ↦ (
          ok true,
          record w { working = db; revoked_cache = invalidate (some claims.jti) w.revoked_cache },
        )
      ]
]
