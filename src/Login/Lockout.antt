-- ===== src/Login/Lockout.antt =====
-- app/devices.py, `login` and the lockout.
use wdc_catalog_api.Base.{
  ℕ, ◌+◌, ◌≤◌, ◌<◌, ◌≡◌, refl, true, false, none, some, List, [], ◌∷◌, Text, codes, text_eq,
  ==_refl, strip, lower, find?, update_where, find?-update_where, arith, length,
}
use wdc_catalog_api.Schema.{Db, Account}
use wdc_catalog_api.Session.{Request, World, ok, err, http, run_request}
use wdc_catalog_api.Passwords.{Bcrypt, verify_password}
use wdc_catalog_api.Audit.{emit}
use wdc_catalog_api.Auth.{JwtCodec, account_by_id, create_token}
use wdc_catalog_api.Login.{
  account_by_email, lock_minutes, record_failed_login, is_locked, clear_lockout, signal_lockout,
  reject_password, accept_password, login, write_account,
}

-- The length of the lock does not shrink as the count of failures grows.
pub lock_minutes_mono : (m n : ℕ) → m ≤ n → lock_minutes m ≤ lock_minutes n
unfolding lock_minutes
lock_minutes_mono m n h = ground arith

-- Failed attempts one after the other, the latest first, each at its instant.
pub fail_repeatedly : List ℕ → Account → Account
fail_repeatedly [] a = a
fail_repeatedly (now ∷ before) a = record_failed_login now (fail_repeatedly before a)

count-fail_repeatedly :
    (a : Account) (times : List ℕ)
    → (fail_repeatedly times a).failed_login_count ≡ a.failed_login_count + length times
unfolding fail_repeatedly record_failed_login
count-fail_repeatedly a [] = omega arith
count-fail_repeatedly a (now ∷ before) = omega (arith, count-fail_repeatedly a before)

-- After the fifth failure in a row, and after each further one, the account is locked for the next
-- minute at least, whenever the failures came and whatever the counter was before.
pub fail_repeatedly-locks :
    (a : Account) (now later : ℕ) (before : List ℕ)
    → 4 ≤ length before
    → later < now + 60
    → is_locked later (fail_repeatedly (now ∷ before) a) ≡ true
unfolding fail_repeatedly record_failed_login lock_minutes
fail_repeatedly-locks a now later before many soon = ground (arith, count-fail_repeatedly a before)

module _ (bcrypt : Bcrypt) (jwt : JwtCodec) (jti email password : Text) (request : Request)
    (w : World) where
  find?-write_account :
      (f : Account → Account) (account : Account) (db : Db)
      → ((x : Account)
          → text_eq (f x).email (lower (strip email)) ≡ text_eq x.email (lower (strip email)))
      → find? (account_by_email (lower (strip email))) db.accounts ≡ some account
      → find?
          (account_by_email (lower (strip email)))
          (update_where (account_by_id account.id) f db.accounts)
        ≡ some (f account)
  find?-write_account f account db same known = ground (
    arith,
    find?-update_where (account_by_email (lower (strip email))) (account_by_id account.id) f same
        db.accounts,
    ==_refl account.id,
  )

  signal_lockout_lem :
      (account : Account) (v : World)
      → ((signal_lockout bcrypt jwt request account v).0 ≡ ok tt)
        × ((signal_lockout bcrypt jwt request account v).1.working.accounts ≡ v.working.accounts)
  unfolding signal_lockout emit
  signal_lockout_lem account v = ground arith

  -- A login with a wrong password, on an account that is there and not locked, answers 401, and the
  -- durable account has the failure counted and the lock of the schedule set: the commit before the
  -- exception keeps them through the rollback of the request.
  pub login-wrong_password :
      {account : Account}
      → find? (account_by_email (lower (strip email))) w.committed.accounts ≡ some account
      → is_locked request.now account ≡ false
      → verify_password bcrypt password account.password_hash ≡ false
      → let (r, w') = run_request (login bcrypt jwt jti email password request) w in
        (r ≡ err (http 401 "Invalid email or password"))
        × (find? (account_by_email (lower (strip email))) w'.committed.accounts
            ≡ some (record_failed_login request.now account))
  unfolding run_request login reject_password write_account
  login-wrong_password {account} known unlocked wrong = ground (
    arith,
    signal_lockout_lem account (record w {
      working = record w.committed {
        accounts =
            update_where (account_by_id account.id) (record_failed_login request.now)
              w.committed.accounts;
      };
    }),
    find?-write_account (record_failed_login request.now) account w.committed
        (λ x. unfold record_failed_login in refl) known,
  )

  -- While an account is locked every login on it, with the right password too, answers 423 and
  -- leaves all accounts as they were.
  pub login-locked :
      {account : Account}
      → find? (account_by_email (lower (strip email))) w.committed.accounts ≡ some account
      → is_locked request.now account ≡ true
      → let (r, w') = run_request (login bcrypt jwt jti email password request) w in
        (r ≡ err (http 423 "Account temporarily locked"))
        × (w'.committed.accounts ≡ w.committed.accounts)
  unfolding run_request login emit
  login-locked known locked = ground arith

  -- A login with the right password, on an account that is neither locked nor suspended nor
  -- readonly, returns a token for the account's current version, and the durable account has its
  -- counter at zero and no lock.
  pub login-right_password :
      {account : Account}
      → find? (account_by_email (lower (strip email))) w.committed.accounts ≡ some account
      → is_locked request.now account ≡ false
      → verify_password bcrypt password account.password_hash ≡ true
      → account.suspended_at ≡ none
      → text_eq account.role (codes "readonly") ≡ false
      → let (r, w') = run_request (login bcrypt jwt jti email password request) w in
        (r
          ≡ ok (record {
            token =
                create_token jwt jti request.now account.id
                  (lower (strip email))
                  account.token_version;
            email = lower (strip email);
          }))
        × (find? (account_by_email (lower (strip email))) w'.committed.accounts
            ≡ some (clear_lockout request.now account))
  unfolding run_request login accept_password write_account emit
  login-right_password {account} known unlocked right active enabled = ground (
    arith,
    find?-write_account (clear_lockout request.now) account w.committed
        (λ x. unfold clear_lockout in refl) known,
  )
