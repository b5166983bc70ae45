-- ===== src/Tests/AdminRuns.antt =====
-- Role guards and the account administration.
use wdc_catalog_api.Base.{
  ◌≡◌, refl, ◌⊎◌, inr, true, false, some, [], ◌∷◌, Text, codes, find?, text_eq, starts_with, arith,
  update_where, count_where,
}
use wdc_catalog_api.Session.{World, err, http, pure, ◌>>=◌, run_request}
use wdc_catalog_api.Audit.{emit}
use wdc_catalog_api.Roles.{user, admin, owner, implies, rank, parse_role, value}
use wdc_catalog_api.Roles.Order.{implies_trans, parse_role_inv}
use wdc_catalog_api.Permissions.{require_role}
use wdc_catalog_api.Permissions.Guard.{denial, denial_not_durable}
use wdc_catalog_api.Auth.{token_claims, create_token, get_current_account}
use wdc_catalog_api.Login.{write_account}
use wdc_catalog_api.AdminUsers.{
  AdminUserRow, target_or_404, finish, user_row, change_role, suspend_user_of, suspend_user,
}
use wdc_catalog_api.AdminUsers.Targets.{OwnersValid}
use wdc_catalog_api.AdminUsers.Owners.{change_role_step, here, next, AdminRun-OwnersValid}
use wdc_catalog_api.AdminUsers.LockOut.{OldToken, suspend_user-ends_sessions}
use wdc_catalog_api.Tests.Fixtures.{
  plain_bcrypt, open_jwt, length_ips, ann, bob, request_at, two_accounts, world,
}

parse_role_inv_example : codes "admin" ≡ value admin
unfolding parse_role text_eq
parse_role_inv_example = parse_role_inv (codes "admin") admin refl

implies_trans_example : implies owner user ≡ true
unfolding implies rank
implies_trans_example = implies_trans owner admin user refl refl

denial_not_durable_example :
    let (r, w') = run_request (require_role admin (request_at 5) bob >>= pure) world in
    ((r ≡ err (http 403 "Account is suspended")) ⊎ (r ≡ err (http 403 "Requires role or higher")))
    × (w'.committed ≡ two_accounts)
    × (w'.working ≡ two_accounts)
    × (w'.published ≡ denial (request_at 5) bob two_accounts ∷ [])
unfolding implies rank parse_role text_eq
denial_not_durable_example = denial_not_durable admin (request_at 5) bob world pure (inr refl)

abbrev promoted : World
promoted = (run_request (change_role 2 owner (request_at 5) ann) world).1

AdminRun-OwnersValid_example : OwnersValid promoted.committed.accounts
unfolding find? count_where text_eq value
AdminRun-OwnersValid_example =
    AdminRun-OwnersValid plain_bcrypt world
      (record { unique = (refl, (refl, tt)); owned = omega arith })
      (next here (change_role_step 2 owner (request_at 5) ann world))

abbrev promoted_row : AdminUserRow
promoted_row = record {
  id = 2;
  email = codes "bob@b.cz";
  role = codes "owner";
  suspended = false;
  device_count = 0;
}

abbrev jwt_of_bob : Text
jwt_of_bob = create_token open_jwt (codes "j1") 100 2 (codes "bob@b.cz") 1

bob_holds_token :
    OldToken plain_bcrypt open_jwt length_ips 2
      (request_at 200)
      (request_at 300)
      ann
      world
      bob
      jwt_of_bob
unfolding create_token starts_with
bob_holds_token = record {
  claims = token_claims (codes "j1") 100 2 (codes "bob@b.cz") 1;
  plain = refl;
  decoded = refl;
  named = refl;
  old = refl;
}

abbrev suspended_row : AdminUserRow
suspended_row = record {
  id = 2;
  email = codes "bob@b.cz";
  role = codes "user";
  suspended = true;
  device_count = 0;
}

suspend_user-ends_sessions_example :
    (run_request
      (get_current_account plain_bcrypt open_jwt length_ips (some jwt_of_bob) (request_at 300))
      (run_request (suspend_user 2 (request_at 200) ann) world).1).0
    ≡ err (http 401 "Token has been revoked")
unfolding suspend_user require_role target_or_404 suspend_user_of write_account finish run_request
    emit user_row implies rank parse_role value text_eq find? update_where count_where
suspend_user-ends_sessions_example =
    suspend_user-ends_sessions plain_bcrypt open_jwt length_ips 2 (request_at 200) (request_at 300)
      ann world suspended_row bob jwt_of_bob refl refl bob_holds_token
