-- ===== src/AdminPages.antt =====
-- app/admin_ui.py: the forms of the admin pages that act on an account. The user is the one that
-- `current_user` gives. The pages themselves and the statistics cache are not modelled.
pub mod Unguarded
use wdc_catalog_api.Base.{
  ℕ, suc, ◌+◌, ◌≡◌, Bool, true, false, Option, none, some, List, [], ◌∷◌, ◌++◌, Text, codes,
  text_eq, is_some, is_empty, if◌then◌else◌, ltb, ◌==◌, ◌&&◌, ◌||◌, length, strip, starts_with,
  get_or, find?, update_where, remove_char,
}
use wdc_catalog_api.Schema.{Db, User, Account, numbered}
use wdc_catalog_api.Session.{
  Request, Exec, World, Result, ok, err, Exn, http, pure, raise, query, write, or_raise, ◌>>=◌,
  ◌>>◌,
}
use wdc_catalog_api.Passwords.{Bcrypt, hash_password, verify_password}
use wdc_catalog_api.Audit.{emit}
use wdc_catalog_api.Roles.{parse_role}
use wdc_catalog_api.Idempotency.{digits}
use wdc_catalog_api.Pats.{revoke}
use wdc_catalog_api.Auth.{account_by_id}
use wdc_catalog_api.Login.{write_account}
use wdc_catalog_api.AdminUsers.{tokens_revoked, suspended_now, with_password, delete_account}
use wdc_catalog_api.Totp.{
  TotpLibrary, is_digits, all_digits, without_marks, totp_digits, verify_totp,
  normalize_recovery_code,
}
use wdc_catalog_api.AdminAccounts.{admin_account}
use wdc_catalog_api.AdminSessions.{user_by_name}
use wdc_catalog_api.AdminLogin.{matching_hash, recovery_lines, join_lines}

-- `_redirect`: where to, and the message of the flash cookie
pub data Redirect : Type 0 where
  success problem : Text → Text → Redirect

abbrev pub user_page : ℕ → Text
user_page id = codes "/admin/users/" ++ digits (suc id) id

abbrev pub account_page : Text
account_page = codes "/admin/account"

-- `db.get(Account, user_id)` and its 404
unfoldable pub page_target : ℕ → Exec Account
page_target user_id = do
  found ← query (λ db. find? (account_by_id user_id) db.accounts)
  or_raise found (http 404 "User not found")

abbrev pub role_written : Text → Account → Account
role_written role a = record a { role = role; token_version = a.token_version + 1 }

abbrev pub reinstated : Account → Account
reinstated a = record a { suspended_at = none; failed_login_count = 0; locked_until = none }

abbrev pub unlocked : Account → Account
unlocked a = record a { failed_login_count = 0; locked_until = none }

-- `acct.locked_until is not None or (acct.failed_login_count or 0) > 0`
abbrev pub was_locked : Account → Bool
was_locked a = is_some a.locked_until || ltb 0 a.failed_login_count

unfoldable pub admin_change_role : ℕ → Text → Exec Redirect
admin_change_role user_id role = do
  target ← page_target user_id
  elim (parse_role role) [
    | none ↦ pure (problem (user_page user_id) (codes "Unknown role: " ++ role))
    | some _ ↦ (do
      write_account target.id (role_written role)
      pure (success (user_page user_id) (codes "Role " ++ (8594 ∷ 32 ∷ role))))
  ]

unfoldable pub admin_suspend : ℕ → Request → Exec Redirect
admin_suspend user_id request = do
  target ← page_target user_id
  write_account target.id (suspended_now request.now)
  pure (success (user_page user_id) (codes "Account suspended"))

unfoldable pub admin_resume : ℕ → Exec Redirect
admin_resume user_id = do
  target ← page_target user_id
  write_account target.id reinstated
  pure (success (user_page user_id) (codes "Account resumed"))

-- the page that the form names, if it is one of the admin pages
abbrev pub next_page : ℕ → Option Text → Text
next_page user_id none = user_page user_id
next_page user_id (some page) =
    if starts_with (codes "/admin/") page then page else user_page user_id

-- the event of an account that was locked
abbrev pub report_unlock : Request → Account → Exec Unit
report_unlock request target w =
    if was_locked target
    then (
      ok tt,
      (emit request none (codes "user.unlocked") (some (codes "account"))
          (some (numbered target.id)) w).1,
    )
    else (ok tt, w)

unfoldable pub admin_unlock : ℕ → Option Text → Request → Exec Redirect
admin_unlock user_id next request = do
  target ← page_target user_id
  write_account target.id unlocked
  report_unlock request target
  pure (success (next_page user_id next) (codes "Lockout cleared"))

-- it answers a page with the new password, which was drawn
unfoldable pub admin_reset_password : Bcrypt → Text → Text → ℕ → Exec Text
admin_reset_password bcrypt drawn salt user_id = do
  target ← page_target user_id
  write_account target.id (with_password (hash_password bcrypt salt drawn))
  pure drawn

unfoldable pub admin_revoke_tokens : Bcrypt → Text → Text → ℕ → Request → Exec Redirect
admin_revoke_tokens bcrypt salt username user_id request = do
  target ← page_target user_id
  write_account target.id tokens_revoked
  actor ← admin_account bcrypt salt username
  emit request (some actor) (codes "user.tokens_revoked") (some (codes "account"))
      (some (numbered target.id))
  pure (success (user_page user_id) (codes "All outstanding tokens invalidated"))

unfoldable pub admin_delete_user : ℕ → Exec Redirect
admin_delete_user user_id = do
  target ← page_target user_id
  write (delete_account target.id)
  pure (success (codes "/admin/users") (codes "Account deleted"))
