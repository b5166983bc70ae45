-- ===== src/AdminUsers/LockOut.antt =====
-- app/admin_users.py: the tokens of an account after an operation on it.
use wdc_catalog_api.Base.{
  ℕ, ◌+◌, ◌≡◌, refl, ◌≢◌, false, some, List, Text, ==_refl, get_or, starts_with, find?,
  update_where, find?-update_where, arith, sym, ap, ◌∙◌,
}
use wdc_catalog_api.Schema.{Db, Account}
use wdc_catalog_api.Session.{Request, Exec, World, Result, ok, err, http, run_request}
use wdc_catalog_api.Session.Transaction.{begun, result-run_request, committed-run_request_ok}
use wdc_catalog_api.Passwords.{Bcrypt, hash_password}
use wdc_catalog_api.Audit.{emit}
use wdc_catalog_api.Roles.{Role, admin, support}
use wdc_catalog_api.Pats.{token_prefix}
use wdc_catalog_api.IpRanges.{IpLibrary}
use wdc_catalog_api.Auth.{Claims, JwtCodec, account_by_id, get_current_account}
use wdc_catalog_api.Auth.Soundness.{stale_token_refused}
use wdc_catalog_api.Login.{write_account}
use wdc_catalog_api.AdminUsers.{
  AdminUserRow, finish, on_target, suspend_user_of, suspend_user, suspended_now, reset_password_of,
  reset_password, with_password,
}
use wdc_catalog_api.AdminUsers.Targets.{on_target_ok}

-- An operation that bumps the version of its target's tokens.
record Bumps {A : Type 0} (target : Account) (m : Exec A) : Type 0 where
  change : Account → Account
  version : (change target).token_version ≡ target.token_version + 1
  same_id : (a : Account) → (change a).id ≡ a.id
  made :
      (w : World) (a : A)
      → (m w).0 ≡ ok a
      → (m w).1.working.accounts ≡ update_where (account_by_id target.id) change w.working.accounts

find?-changed :
    (id : ℕ) (a : Account) (f : Account → Account)
    → ((x : Account) → (f x).id ≡ x.id)
    → (accounts : List Account) → find? (account_by_id id) accounts ≡ some a
    → find? (account_by_id id) (update_where (account_by_id a.id) f accounts) ≡ some (f a)
find?-changed id a f same accounts known = ground (
  arith,
  find?-update_where (account_by_id id) (account_by_id a.id) f (λ x. rw (same x) refl) accounts,
  known,
  ==_refl a.id,
)

module _ (bcrypt : Bcrypt) (jwt : JwtCodec) (ips : IpLibrary) where
  bumped_refused :
      {A : Type 0} (required : Role) (user_id : ℕ) (request later : Request) (caller : Account)
      (body : Account → Exec A) (w : World) (a : A) (target : Account) (bearer : Text)
      {claims : Claims}
      → ((t : Account) → Bumps t (body t))
      → (run_request (on_target required user_id request caller body) w).0 ≡ ok a
      → find? (account_by_id user_id) w.committed.accounts ≡ some target
      → starts_with token_prefix bearer ≡ false
      → jwt.decode later.now bearer ≡ some claims
      → claims.sub ≡ some user_id
      → get_or claims.tv 1 ≡ target.token_version
      → (run_request
          (get_current_account bcrypt jwt ips (some bearer) later)
          (run_request (on_target required user_id request caller body) w).1).0
        ≡ err (http 401 "Token has been revoked")
  bumped_refused {A} required user_id request later caller body w a target bearer {claims} bumps
        returned known plain decoded named old =
      let m = on_target required user_id request caller body in
      let done : (m (begun w)).0 ≡ ok a = sym (result-run_request m w) ∙ returned in
      let (t, found, same) = on_target_ok required user_id request caller body (begun w) a done in
      let b = bumps t in
      let one : t ≡ target = ground arith in
      let durable =
        committed-run_request_ok m w a done ∙ ap (λ (r : Result A × World). r.1.working) same in
      let accounts =
        ap (λ (db : Db). db.accounts) durable
        ∙ b.made (begun w) a (sym (ap (λ (r : Result A × World). r.0) same) ∙ done) in
      let here : find? (account_by_id user_id) (run_request m w).1.committed.accounts
          ≡ some (b.change t) =
        rw accounts (
          find?-changed user_id t b.change (λ x. b.same_id x) w.committed.accounts
            (rw one known)) in
      let stale : get_or claims.tv 1 ≢ (b.change t).token_version =
        λ e. absurd (omega (arith, e, old, ap (λ (x : Account). x.token_version) one, b.version)) in
      rw result-run_request (
        stale_token_refused bcrypt jwt ips later (begun (run_request m w).1) bearer plain decoded
          named here stale)

  module _ (user_id : ℕ) (request later : Request) (caller : Account) (w : World) where
    -- the token carries the version of the target before the operation
    pub record OldToken (target : Account) (bearer : Text) : Type 0 where
      pub claims : Claims
      pub plain : starts_with token_prefix bearer ≡ false
      pub decoded : jwt.decode later.now bearer ≡ some claims
      pub named : claims.sub ≡ some user_id
      pub old : get_or claims.tv 1 ≡ target.token_version

    suspend_user_of-Bumps : (t : Account) → Bumps t (suspend_user_of request caller t)
    unfolding suspend_user_of write_account finish emit
    suspend_user_of-Bumps t = record {
      change = suspended_now request.now;
      version = refl;
      same_id = λ a. refl;
      made = λ w a h. ground arith;
    }

    -- After a suspension that returned, every JWT that carries the target's version from before is
    -- refused with 401.
    pub suspend_user-ends_sessions :
        (row : AdminUserRow) (target : Account) (bearer : Text)
        → (run_request (suspend_user user_id request caller) w).0 ≡ ok row
        → find? (account_by_id user_id) w.committed.accounts ≡ some target
        → OldToken target bearer
        → (run_request
            (get_current_account bcrypt jwt ips (some bearer) later)
            (run_request (suspend_user user_id request caller) w).1).0
          ≡ err (http 401 "Token has been revoked")
    unfolding suspend_user
    suspend_user-ends_sessions row target bearer returned known token =
        bumped_refused admin user_id request later caller _ w row target bearer
          suspend_user_of-Bumps returned known token.plain token.decoded token.named token.old

    reset_password_of-Bumps :
        (temp salt : Text) (t : Account)
        → Bumps t (reset_password_of bcrypt temp salt request caller t)
    unfolding reset_password_of write_account emit
    reset_password_of-Bumps temp salt t = record {
      change = with_password (hash_password bcrypt salt temp);
      version = refl;
      same_id = λ a. refl;
      made = λ w a h. ground arith;
    }

    -- After a password reset that returned, every JWT that carries the target's version from before
    -- is refused with 401.
    pub reset_password-ends_sessions :
        (temp salt : Text) (answer : Text × Text) (target : Account) (bearer : Text)
        → (run_request (reset_password bcrypt temp salt user_id request caller) w).0 ≡ ok answer
        → find? (account_by_id user_id) w.committed.accounts ≡ some target
        → OldToken target bearer
        → (run_request
            (get_current_account bcrypt jwt ips (some bearer) later)
            (run_request (reset_password bcrypt temp salt user_id request caller) w).1).0
          ≡ err (http 401 "Token has been revoked")
    unfolding reset_password
    reset_password-ends_sessions temp salt answer target bearer returned known token =
        bumped_refused support user_id request later caller _ w answer target bearer
          (reset_password_of-Bumps temp salt) returned known token.plain token.decoded token.named
          token.old
