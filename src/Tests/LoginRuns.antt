-- ===== src/Tests/LoginRuns.antt =====
-- Logins, the lockout and logout.
use wdc_catalog_api.Base.{
  ◌≤◌, ◌≡◌, refl, some, [], ◌∷◌, Text, codes, find?, text_eq, strip, lower, starts_with, arith,
}
use wdc_catalog_api.Schema.{Account}
use wdc_catalog_api.Session.{World, err, http, run_request, initial_world}
use wdc_catalog_api.Passwords.{verify_password}
use wdc_catalog_api.Auth.{token_claims, create_token, get_current_account}
use wdc_catalog_api.Login.{account_by_email, lock_minutes, record_failed_login, login, logout}
use wdc_catalog_api.Login.Lockout.{lock_minutes_mono, login-wrong_password}
use wdc_catalog_api.Login.Sessions.{get_current_account-logout}
use wdc_catalog_api.Tests.Fixtures.{
  plain_bcrypt, open_jwt, length_ips, ann, request_at, two_accounts, world,
}

abbrev typed_email : Text
typed_email = codes " A@b.cz"

abbrev read_email : Text
read_email = codes "a@b.cz"

lock_minutes_mono_example : lock_minutes 7 ≤ lock_minutes 12
lock_minutes_mono_example = lock_minutes_mono 7 12 (omega arith)

login-wrong_password_example :
    let (r, w') =
      run_request
        (login plain_bcrypt open_jwt (codes "j2") typed_email (codes "guess") (request_at 9))
        world in
    (r ≡ err (http 401 "Invalid email or password"))
    × (find? (account_by_email (lower (strip typed_email))) w'.committed.accounts
        ≡ some (record_failed_login 9 ann))
unfolding find? strip text_eq verify_password
login-wrong_password_example =
    login-wrong_password plain_bcrypt open_jwt (codes "j2") typed_email (codes "guess")
      (request_at 9) world {account = ann} refl refl refl

abbrev locked_ann : Account
locked_ann = record ann { locked_until = some 50 }

abbrev locked_world : World
locked_world = initial_world (record two_accounts { accounts = locked_ann ∷ [] })

abbrev jwt_of_ann : Text
jwt_of_ann = create_token open_jwt (codes "j1") 100 1 (codes "a@b.cz") 1

get_current_account-logout_example :
    (run_request
      (get_current_account plain_bcrypt open_jwt length_ips (some jwt_of_ann) (request_at 300))
      (run_request (logout open_jwt (some jwt_of_ann) (request_at 200)) world).1).0
    ≡ err (http 401 "Token has been revoked")
unfolding create_token starts_with
get_current_account-logout_example =
    get_current_account-logout plain_bcrypt open_jwt length_ips (request_at 200) (request_at 300)
      world jwt_of_ann {claims = token_claims (codes "j1") 100 1 (codes "a@b.cz") 1} {id = 1} refl
      refl refl refl refl
