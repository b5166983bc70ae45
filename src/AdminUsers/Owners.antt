-- ===== src/AdminUsers/Owners.antt =====
-- app/admin_users.py: runs of its operations, and the owners.
use wdc_catalog_api.Base.{ℕ, ◌≡◌, some, Text, find?}
use wdc_catalog_api.Schema.{Account}
use wdc_catalog_api.Session.{Request, World, ok, run_request}
use wdc_catalog_api.Passwords.{Bcrypt}
use wdc_catalog_api.Roles.{Role, support, admin}
use wdc_catalog_api.Auth.{account_by_id}
use wdc_catalog_api.AdminUsers.{
  AdminUserRow, change_role_of, change_role, suspend_user, resume_user, reset_password,
  revoke_user_tokens, delete_user,
}
use wdc_catalog_api.AdminUsers.Targets.{
  OwnersValid, run_request-OwnersValid, on_target_ok, on_target-KeepsOwner,
}
use wdc_catalog_api.AdminUsers.Keeps.{
  MayChange, role_change_guard_ok, change_role_of_ok, change_role_of-KeepsFor,
  suspend_user_of-KeepsFor, resume_user_of-KeepsFor, revoke_user_tokens_of-KeepsFor,
  reset_password_of-KeepsFor, delete_user_of-KeepsFor,
}

-- One request of the account administration, by any caller that passed authentication.
pub data AdminStep (bcrypt : Bcrypt) : World → World → Type 0 where
  change_role_step :
      (id : ℕ) (new_role : Role) (request : Request) (caller : Account) (w : World)
      → AdminStep bcrypt w (run_request (change_role id new_role request caller) w).1
  suspend_step :
      (id : ℕ) (request : Request) (caller : Account) (w : World)
      → AdminStep bcrypt w (run_request (suspend_user id request caller) w).1
  resume_step :
      (id : ℕ) (request : Request) (caller : Account) (w : World)
      → AdminStep bcrypt w (run_request (resume_user id request caller) w).1
  reset_step :
      (temp salt : Text) (id : ℕ) (request : Request) (caller : Account) (w : World)
      → AdminStep bcrypt w (run_request (reset_password bcrypt temp salt id request caller) w).1
  revoke_step :
      (id : ℕ) (request : Request) (caller : Account) (w : World)
      → AdminStep bcrypt w (run_request (revoke_user_tokens id request caller) w).1
  delete_step :
      (id : ℕ) (request : Request) (caller : Account) (w : World)
      → AdminStep bcrypt w (run_request (delete_user id request caller) w).1

pub data AdminRun (bcrypt : Bcrypt) (start : World) : World → Type 0 where
  here : AdminRun bcrypt start start
  next : {w w' : World} → AdminRun bcrypt start w → AdminStep bcrypt w w' → AdminRun bcrypt start w'

AdminStep-OwnersValid :
    (bcrypt : Bcrypt) {w w' : World}
    → AdminStep bcrypt w w'
    → OwnersValid w.committed.accounts
    → OwnersValid w'.committed.accounts
unfolding change_role suspend_user resume_user reset_password revoke_user_tokens delete_user
AdminStep-OwnersValid bcrypt (change_role_step id r request caller w) =
    run_request-OwnersValid _
      (on_target-KeepsOwner admin id request caller _
        (λ target. change_role_of-KeepsFor request caller target r))
      w
AdminStep-OwnersValid bcrypt (suspend_step id request caller w) =
    run_request-OwnersValid _
      (on_target-KeepsOwner admin id request caller _ (suspend_user_of-KeepsFor request caller)) w
AdminStep-OwnersValid bcrypt (resume_step id request caller w) =
    run_request-OwnersValid _
      (on_target-KeepsOwner admin id request caller _ (resume_user_of-KeepsFor request caller)) w
AdminStep-OwnersValid bcrypt (reset_step temp salt id request caller w) =
    run_request-OwnersValid _
      (on_target-KeepsOwner support id request caller _
        (λ target. reset_password_of-KeepsFor request caller target bcrypt temp salt))
      w
AdminStep-OwnersValid bcrypt (revoke_step id request caller w) =
    run_request-OwnersValid _
      (on_target-KeepsOwner admin id request caller _
        (revoke_user_tokens_of-KeepsFor request caller))
      w
AdminStep-OwnersValid bcrypt (delete_step id request caller w) =
    run_request-OwnersValid _
      (on_target-KeepsOwner admin id request caller _ (delete_user_of-KeepsFor request caller)) w

-- From a state with unique account ids and at least one owner, any sequence of role changes,
-- suspensions, resumptions, password resets, token revocations and deletions, by any callers and
-- whether they succeed or fail, leaves unique ids and at least one owner.
pub AdminRun-OwnersValid :
    (bcrypt : Bcrypt) (start : World) {w : World}
    → OwnersValid start.committed.accounts
    → AdminRun bcrypt start w
    → OwnersValid w.committed.accounts
AdminRun-OwnersValid bcrypt start valid here = valid
AdminRun-OwnersValid bcrypt start valid (next run step) =
    AdminStep-OwnersValid bcrypt step (AdminRun-OwnersValid bcrypt start valid run)

-- A role change that returns was made by a caller who had the authority: an owner, if the new or
-- the old role is owner, and not the demotion of the only owner.
pub change_role-MayChange :
    (user_id : ℕ) (new_role : Role) (request : Request) (caller : Account) (w : World)
    (row : AdminUserRow)
    → (change_role user_id new_role request caller w).0 ≡ ok row
    → (target : Account) × (find? (account_by_id user_id) w.working.accounts ≡ some target)
      × MayChange new_role caller target w.working.accounts
unfolding change_role
change_role-MayChange user_id new_role request caller w row h =
    let body = change_role_of new_role request caller in
    let (target, known, same) = on_target_ok admin user_id request caller body w row h in
    (
      target,
      known,
      role_change_guard_ok new_role caller target w
          (change_role_of_ok request caller target new_role w row (rw same at h)).0,
    )
