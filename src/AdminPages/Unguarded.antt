-- ===== src/AdminPages/Unguarded.antt =====
-- app/admin_ui.py, `admin_change_role`, beside `change_role` of app/admin_users.py.
use wdc_catalog_api.Base.{
  ℕ, ◌∷◌, ◌++◌, codes, ◌≡◌, true, false, some, Text, find?, ==→eq, find?_holds, update_where,
  count_where, count_where-update_where, arith,
}
use wdc_catalog_api.Schema.{Account}
use wdc_catalog_api.Session.{World, ok, run_request}
use wdc_catalog_api.Session.Transaction.{begun, committed-run_request_ok}
use wdc_catalog_api.Roles.{Role, parse_role}
use wdc_catalog_api.Auth.{account_by_id}
use wdc_catalog_api.Login.{write_account}
use wdc_catalog_api.AdminUsers.{is_owner, has_owner_role}
use wdc_catalog_api.AdminUsers.Targets.{OwnersValid, owner_test}
use wdc_catalog_api.AdminPages.{success, user_page, page_target, role_written, admin_change_role}

admin_change_role_ok :
    (id : ℕ) (role : Text) (r : Role) (target : Account) (w : World)
    → find? (account_by_id id) w.working.accounts ≡ some target
    → parse_role role ≡ some r
    → ((admin_change_role id role w).0
        ≡ ok (success (user_page id) (codes "Role " ++ (8594 ∷ 32 ∷ role))))
      × ((admin_change_role id role w).1.working.accounts
          ≡ update_where (account_by_id id) (role_written role) w.working.accounts)
unfolding admin_change_role page_target write_account
admin_change_role_ok id role r target w known parsed =
    let same : target.id ≡ id =
      ==→eq target.id id (find?_holds _ w.working.accounts target known) in
    (ground arith, ground arith)

-- The role form of the admin pages takes the role of the last owner away, for any admin user: the
-- request succeeds and leaves no owner among the accounts, whose ids are unique.
pub admin_change_role-last_owner :
    (id : ℕ) (role : Text) (r : Role) (target : Account) (w : World)
    → OwnersValid w.committed.accounts
    → find? (account_by_id id) w.committed.accounts ≡ some target
    → has_owner_role target ≡ true
    → count_where has_owner_role w.committed.accounts ≡ 1
    → parse_role role ≡ some r
    → is_owner r ≡ false
    → count_where has_owner_role (run_request (admin_change_role id role) w).1.committed.accounts
      ≡ 0
admin_change_role-last_owner id role r target w valid known owns one parsed lesser =
    let (answer, accounts) = admin_change_role_ok id role r target (begun w) known parsed in
    let durable = committed-run_request_ok (admin_change_role id role) w _ answer in
    let counted =
      count_where-update_where (λ (a : Account). a.id) id has_owner_role (role_written role) target
        w.committed.accounts valid.unique known in
    let demoted : has_owner_role (role_written role target) ≡ false =
      ground (arith, owner_test role r parsed, lesser) in
    rw (durable, accounts) (ground (arith, counted, owns, demoted, one))
