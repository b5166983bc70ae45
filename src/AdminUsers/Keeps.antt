-- ===== src/AdminUsers/Keeps.antt =====
-- Each operation of app/admin_users.py on its target, and what it keeps of the accounts.
use wdc_catalog_api.Base.{
  ◌+◌, ◌≤◌, ◌≡◌, refl, false, some, List, Text, codes, negb, ◌&&◌, ◌||◌, update_where, delete_where,
  count_where, bit, arith, ◌⊎◌, inl, inr, Option-cases, Bool-cases,
}
use wdc_catalog_api.Schema.{Account}
use wdc_catalog_api.Session.{Request, World, ok, Result-cases}
use wdc_catalog_api.Passwords.{Bcrypt, hash_password}
use wdc_catalog_api.Audit.{emit}
use wdc_catalog_api.Roles.{Role, parse_role}
use wdc_catalog_api.Auth.{account_by_id}
use wdc_catalog_api.Login.{write_account}
use wdc_catalog_api.AdminUsers.{
  AdminUserRow, is_owner, has_owner_role, with_role, suspended_now, resumed, with_password,
  tokens_revoked, finish, role_change_guard, change_role_of, suspend_user_of, resume_user_of,
  reset_password_of, revoke_user_tokens_of, delete_user_of, delete_account,
}
use wdc_catalog_api.AdminUsers.Targets.{
  value-owner, owner_test, update-OwnersValid, delete-OwnersValid, neutral-OwnersValid, KeepsFor,
  write_account_lem, finish_lem,
}

role_change_guard_state :
    (new_role : Role) (caller target : Account) (w : World)
    → (role_change_guard new_role caller target w).1 ≡ w
unfolding role_change_guard
role_change_guard_state new_role caller target w = ground arith

-- Roles that pass the tests of `change_role`.
pub record MayChange (new_role : Role) (caller target : Account) (accounts : List Account)
    : Type 0 where
  pub caller_role : Role
  pub target_role : Role
  pub caller_read : parse_role caller.role ≡ some caller_role
  pub target_read : parse_role target.role ≡ some target_role
  pub authority : (is_owner new_role || is_owner target_role) && negb (is_owner caller_role) ≡ false
  pub another :
      (is_owner target_role && negb (is_owner new_role) ≡ false)
      ⊎ (2 ≤ count_where has_owner_role accounts)

pub role_change_guard_ok :
    (new_role : Role) (caller target : Account) (w : World)
    → (role_change_guard new_role caller target w).0 ≡ ok tt
    → MayChange new_role caller target w.working.accounts
unfolding role_change_guard
role_change_guard_ok new_role caller target w h = elim (Option-cases (parse_role caller.role)) [
  | inl odd ↦ absurd (ground arith)
  | inr (caller_role, cr) ↦ elim (Option-cases (parse_role target.role)) [
    | inl odd ↦ absurd (ground arith)
    | inr (target_role, tr) ↦ record {
      caller_role = caller_role;
      target_role = target_role;
      caller_read = cr;
      target_read = tr;
      authority = ground arith;
      another = elim (Bool-cases (is_owner target_role && negb (is_owner new_role))) [
        | inl demoted ↦ inr (ground arith)
        | inr other ↦ inl other
      ];
    }
  ]
]

module _ (request : Request) (caller target : Account) where
  pub change_role_of_ok :
      (new_role : Role) (w : World) (row : AdminUserRow)
      → (change_role_of new_role request caller target w).0 ≡ ok row
      → ((role_change_guard new_role caller target w).0 ≡ ok tt)
        × ((change_role_of new_role request caller target w).1.working.accounts
            ≡ update_where (account_by_id target.id) (with_role new_role) w.working.accounts)
  unfolding change_role_of
  change_role_of_ok new_role w row h =
      elim (Result-cases (role_change_guard new_role caller target w).0) [
        | inr (e, raised) ↦ absurd (ground arith)
        | inl (tt', passed) ↦ ground (
          arith,
          role_change_guard_state new_role caller target w,
          write_account_lem target.id (with_role new_role) w,
          finish_lem request caller (with_role new_role target) (codes "user.role_changed")
              (write_account target.id (with_role new_role) w).1,
        )
      ]

  change_role_of_durable :
      (new_role : Role) (w : World)
      → (change_role_of new_role request caller target w).1.committed ≡ w.committed
  unfolding change_role_of
  change_role_of_durable new_role w = ground (
    arith,
    role_change_guard_state new_role caller target w,
    write_account_lem target.id (with_role new_role) w,
    finish_lem request caller (with_role new_role target) (codes "user.role_changed")
        (write_account target.id (with_role new_role) w).1,
  )

  enough_owners :
      (new_role : Role) (accounts : List Account)
      → 1 ≤ count_where has_owner_role accounts
      → MayChange new_role caller target accounts
      → bit (has_owner_role target) + 1
        ≤ count_where has_owner_role accounts + bit (has_owner_role (with_role new_role target))
  enough_owners new_role accounts owned may = elim may.another [
    | inl kept ↦ ground (
      arith,
      kept,
      owned,
      owner_test target.role may.target_role may.target_read,
      value-owner new_role,
    )
    | inr two ↦ ground (
      arith,
      two,
      owned,
      owner_test target.role may.target_role may.target_read,
      value-owner new_role,
    )
  ]

  pub change_role_of-KeepsFor :
      (new_role : Role) → KeepsFor target (change_role_of new_role request caller target)
  change_role_of-KeepsFor new_role = record {
    durable = change_role_of_durable new_role;
    returns = λ w row known h valid.
        let (passed, made) = change_role_of_ok new_role w row h in
        rw made (
          update-OwnersValid target.id w.working.accounts target valid known (with_role new_role)
            (λ x. refl)
            (enough_owners new_role w.working.accounts valid.owned
              (role_change_guard_ok new_role caller target w passed)));
  }

  pub suspend_user_of-KeepsFor : KeepsFor target (suspend_user_of request caller target)
  unfolding suspend_user_of write_account finish emit
  suspend_user_of-KeepsFor = record {
    durable = λ w. ground arith;
    returns = λ w row known h valid. ground (
      arith,
      neutral-OwnersValid target.id w.working.accounts target valid known
          (suspended_now request.now) (λ x. refl) (λ x. refl),
    );
  }

  pub resume_user_of-KeepsFor : KeepsFor target (resume_user_of request caller target)
  unfolding resume_user_of write_account finish emit
  resume_user_of-KeepsFor = record {
    durable = λ w. refl;
    returns = λ w row known h valid.
        neutral-OwnersValid target.id w.working.accounts target valid known resumed (λ x. refl)
          (λ x. refl);
  }

  pub revoke_user_tokens_of-KeepsFor : KeepsFor target (revoke_user_tokens_of request caller target)
  unfolding revoke_user_tokens_of write_account finish emit
  revoke_user_tokens_of-KeepsFor = record {
    durable = λ w. ground arith;
    returns = λ w row known h valid. ground (
      arith,
      neutral-OwnersValid target.id w.working.accounts target valid known tokens_revoked (λ x. refl)
          (λ x. refl),
    );
  }

  pub reset_password_of-KeepsFor :
      (bcrypt : Bcrypt) (temp salt : Text)
      → KeepsFor target (reset_password_of bcrypt temp salt request caller target)
  unfolding reset_password_of write_account emit
  reset_password_of-KeepsFor bcrypt temp salt = record {
    durable = λ w. ground arith;
    returns = λ w row known h valid. ground (
      arith,
      neutral-OwnersValid target.id w.working.accounts target valid known
          (with_password (hash_password bcrypt salt temp)) (λ x. refl) (λ x. refl),
    );
  }

  delete_user_of_ok :
      (w : World) (u : Unit)
      → (delete_user_of request caller target w).0 ≡ ok u
      → (has_owner_role target ≡ false)
        × ((delete_user_of request caller target w).1.working.accounts
            ≡ delete_where (account_by_id target.id) w.working.accounts)
  unfolding delete_user_of delete_account emit
  delete_user_of_ok w u h = elim (Option-cases (parse_role target.role)) [
    | inl odd ↦ absurd (ground arith)
    | inr (r, read) ↦ (ground (arith, owner_test target.role r read), ground arith)
  ]

  pub delete_user_of-KeepsFor : KeepsFor target (delete_user_of request caller target)
  delete_user_of-KeepsFor = record {
    durable = λ w. unfold delete_user_of emit in ground arith;
    returns = λ w u known h valid.
        let (other, gone) = delete_user_of_ok w u h in
        rw gone (delete-OwnersValid target.id w.working.accounts target valid known other);
  }
