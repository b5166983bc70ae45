-- ===== src/AdminUsers/Targets.antt =====
-- What an operation of app/admin_users.py is behind its guard and the lookup of its target, and what
-- it has to keep of the accounts.
use wdc_catalog_api.Base.{
  ℕ, ◌+◌, ◌≤◌, ◌≡◌, refl, false, some, List, Text, text_eq, ==→eq, find?, update_where,
  delete_where, count_where, UniqueKeys, UniqueKeys-update_where, UniqueKeys-delete_where,
  count_where-update_where, count_where-delete_where, find?_holds, bit, arith, inl, inr,
  Option-cases, subst, sym,
}
use wdc_catalog_api.Schema.{Account}
use wdc_catalog_api.Session.{Request, Exec, World, ok, run_request, Result-cases}
use wdc_catalog_api.Session.Transaction.{begun, committed-run_request_ok, committed-run_request_err}
use wdc_catalog_api.Audit.{emit}
use wdc_catalog_api.Roles.{Role, readonly, user, support, operator, admin, owner, value, parse_role}
use wdc_catalog_api.Roles.Order.{parse_role_inv}
use wdc_catalog_api.Permissions.{require_role}
use wdc_catalog_api.Auth.{account_by_id}
use wdc_catalog_api.Login.{write_account}
use wdc_catalog_api.AdminUsers.{is_owner, has_owner_role, target_or_404, finish, on_target}

-- Account ids are unique and some account has the owner role.
pub record OwnersValid (accounts : List Account) : Type 0 where
  pub unique : UniqueKeys (λ (a : Account). a.id) accounts
  pub owned : 1 ≤ count_where has_owner_role accounts

pub require_role_lem :
    (required : Role) (request : Request) (caller : Account) (w : World)
    → ((require_role required request caller w).1.working.accounts ≡ w.working.accounts)
      × ((require_role required request caller w).1.committed ≡ w.committed)
unfolding require_role emit
require_role_lem required request caller w = ground arith

pub value-owner : (r : Role) → text_eq (value r) (value owner) ≡ is_owner r
unfolding text_eq value
value-owner readonly = refl
value-owner user = refl
value-owner support = refl
value-owner operator = refl
value-owner admin = refl
value-owner owner = refl

-- The string test and the test on the parsed role agree.
pub owner_test :
    (t : Text) (r : Role) → parse_role t ≡ some r → text_eq t (value owner) ≡ is_owner r
owner_test t r h =
    subst (λ (x : Text). text_eq x (value owner) ≡ is_owner r) (sym (parse_role_inv t r h))
      (value-owner r)

module _ (k : ℕ) (accounts : List Account) (target : Account) (valid : OwnersValid accounts)
    (known : find? (account_by_id k) accounts ≡ some target) where
  pub update-OwnersValid :
      (f : Account → Account)
      → ((x : Account) → (f x).id ≡ x.id)
      → bit (has_owner_role target) + 1
        ≤ count_where has_owner_role accounts + bit (has_owner_role (f target))
      → OwnersValid (update_where (account_by_id k) f accounts)
  update-OwnersValid f same enough = record {
    unique = UniqueKeys-update_where _ k _ f same accounts valid.unique;
    owned = omega (
      arith,
      count_where-update_where (λ (a : Account). a.id) k has_owner_role f target accounts
          valid.unique known,
    );
  }

  pub delete-OwnersValid :
      has_owner_role target ≡ false → OwnersValid (delete_where (account_by_id k) accounts)
  delete-OwnersValid other = record {
    unique = UniqueKeys-delete_where _ k accounts valid.unique;
    owned = ground (
      arith,
      valid.owned,
      count_where-delete_where (λ (a : Account). a.id) k has_owner_role target accounts valid.unique
          known,
    );
  }

  -- an update that leaves the role alone
  pub neutral-OwnersValid :
      (f : Account → Account)
      → ((x : Account) → (f x).id ≡ x.id)
      → ((x : Account) → (f x).role ≡ x.role)
      → OwnersValid (update_where (account_by_id k) f accounts)
  neutral-OwnersValid f same kept =
      update-OwnersValid f same (rw (kept target) (omega (arith, valid.owned)))

-- An operation that commits nothing by itself and, if it returns, keeps an owner.
pub record KeepsOwner {A : Type 0} (m : Exec A) : Type 0 where
  pub durable : (w : World) → (m w).1.committed ≡ w.committed
  pub returns :
      (w : World) (a : A)
      → (m w).0 ≡ ok a
      → OwnersValid w.working.accounts
      → OwnersValid (m w).1.working.accounts

pub run_request-OwnersValid :
    {A : Type 0} (m : Exec A)
    → KeepsOwner m
    → (w : World) → OwnersValid w.committed.accounts
    → OwnersValid (run_request m w).1.committed.accounts
run_request-OwnersValid m keeps w valid = elim (Result-cases (m (begun w)).0) [
  | inl (a, e) ↦ rw (committed-run_request_ok m w a e) (keeps.returns (begun w) a e valid)
  | inr (x, e) ↦ rw ((committed-run_request_err m w x e).0, keeps.durable (begun w)) valid
]

-- The part of an operation behind the guard and the lookup.
pub record KeepsFor {A : Type 0} (target : Account) (m : Exec A) : Type 0 where
  pub durable : (w : World) → (m w).1.committed ≡ w.committed
  pub returns :
      (w : World) (a : A)
      → find? (account_by_id target.id) w.working.accounts ≡ some target
      → (m w).0 ≡ ok a
      → OwnersValid w.working.accounts
      → OwnersValid (m w).1.working.accounts

pub on_target_durable :
    {A : Type 0} (required : Role) (user_id : ℕ) (request : Request) (caller : Account)
    (body : Account → Exec A)
    → ((target : Account) (w : World) → (body target w).1.committed ≡ w.committed)
    → (w : World) → (on_target required user_id request caller body w).1.committed ≡ w.committed
unfolding target_or_404 require_role emit
on_target_durable required user_id request caller body keeps w =
    elim (Option-cases (find? (account_by_id user_id) w.working.accounts)) [
      | inl missing ↦ ground arith
      | inr (target, known) ↦ ground (arith, keeps target w)
    ]

-- An operation that returns has passed its guard and found its target, and is the body on that.
pub on_target_ok :
    {A : Type 0} (required : Role) (user_id : ℕ) (request : Request) (caller : Account)
    (body : Account → Exec A) (w : World) (a : A)
    → (on_target required user_id request caller body w).0 ≡ ok a
    → (target : Account) × (find? (account_by_id user_id) w.working.accounts ≡ some target)
      × (on_target required user_id request caller body w ≡ body target w)
unfolding target_or_404 require_role
on_target_ok required user_id request caller body w a h =
    elim (Option-cases (find? (account_by_id user_id) w.working.accounts)) [
      | inl missing ↦ absurd (ground arith)
      | inr (target, known) ↦ (target, known, ground arith)
    ]

pub on_target-KeepsOwner :
    {A : Type 0} (required : Role) (user_id : ℕ) (request : Request) (caller : Account)
    (body : Account → Exec A)
    → ((target : Account) → KeepsFor target (body target))
    → KeepsOwner (on_target required user_id request caller body)
on_target-KeepsOwner required user_id request caller body keeps = record {
  durable =
      on_target_durable required user_id request caller body (λ target. (keeps target).durable);
  returns = λ w a h valid.
      let (target, known, same) = on_target_ok required user_id request caller body w a h in
      rw same (
        (keeps target).returns w a
          (rw (==→eq target.id user_id (find?_holds _ w.working.accounts target known)) known)
          (rw same at h) valid);
}

-- What the shared steps leave of the accounts.
pub write_account_lem :
    (id : ℕ) (f : Account → Account) (w : World)
    → ((write_account id f w).0 ≡ ok tt)
      × ((write_account id f w).1.working.accounts
          ≡ update_where (account_by_id id) f w.working.accounts)
      × ((write_account id f w).1.committed ≡ w.committed)
unfolding write_account
write_account_lem id f w = (refl, refl, refl)

pub finish_lem :
    (request : Request) (caller target : Account) (action : Text) (w : World)
    → ((finish request caller action target w).1.working.accounts ≡ w.working.accounts)
      × ((finish request caller action target w).1.committed ≡ w.committed)
unfolding finish emit
finish_lem request caller target action w = (refl, refl)
