-- ===== src/AdminSelf.antt =====
-- app/admin_ui.py: the forms with which an admin user manages the own password, tokens and second
-- factor. The user is the one that `current_user` gives. The pages themselves and the column
-- `totp_enabled_at`, which is only shown, are not modelled.
pub mod Enrolment
pub mod Unusable
use wdc_catalog_api.Base.{
  ℕ, ◌+◌, ◌≡◌, Bool, true, false, Option, none, some, List, [], ◌∷◌, ◌++◌, Text, codes, text_eq,
  is_some, is_empty, if◌then◌else◌, ltb, ◌==◌, ◌&&◌, negb, length, strip, get_or, find?,
  update_where,
}
use wdc_catalog_api.Schema.{Db, User, Account, numbered}
use wdc_catalog_api.Session.{
  Request, Exec, World, Result, ok, err, Exn, http, pure, raise, query, write, or_raise, ◌>>=◌,
  ◌>>◌,
}
use wdc_catalog_api.Passwords.{Bcrypt, hash_password, verify_password}
use wdc_catalog_api.Audit.{emit}
use wdc_catalog_api.Pats.{revoke}
use wdc_catalog_api.Login.{write_account}
use wdc_catalog_api.Totp.{
  TotpLibrary, totp_digits, is_digits, without_marks, verify_totp, normalize_recovery_code,
  recovery_code,
}
use wdc_catalog_api.AdminAccounts.{admin_account}
use wdc_catalog_api.AdminSessions.{user_by_name}
use wdc_catalog_api.AdminLogin.{
  Factor, denied, secret_of, recovery_lines, join_lines, matching_hash, factor_of, recovery_factor,
}
use wdc_catalog_api.AdminPages.{Redirect, success, problem, account_page}

-- What a form of the second factor is answered with: a redirect, or the page of the account with a
-- secret to pair or with the new recovery codes.
pub data SelfAnswer : Type 0 where
  redirected : Redirect → SelfAnswer
  pairing : Text → SelfAnswer
  new_codes : List Text → SelfAnswer

-- What is drawn for one recovery code: the salt of its hash and the two groups.
pub record Draw : Type 0 where
  pub salt : Text
  pub first : Text
  pub second : Text

-- `generate_recovery_codes`
unfoldable pub drawn_codes : List Draw → List Text
drawn_codes [] = []
drawn_codes (d ∷ rest) = recovery_code d.first d.second ∷ drawn_codes rest

abbrev pub refusal : Text → SelfAnswer
refusal message = redirected (problem account_page message)

abbrev pub setup_started : Text → Account → Account
setup_started secret a = record a {
  totp_secret = some secret;
  totp_enabled = false;
  totp_recovery_hashes = none;
}

abbrev pub enrolled : Text → Account → Account
enrolled hashes a = record a { totp_enabled = true; totp_recovery_hashes = some hashes }

abbrev pub disabled : Account → Account
disabled a = record a { totp_enabled = false; totp_secret = none; totp_recovery_hashes = none }

abbrev pub no_setup : Text
no_setup = codes "No pending 2FA setup " ++ (8212 ∷ codes " start over.")

-- an event of the account about itself
abbrev pub note_self : Request → Account → Text → Exec Unit
note_self request a action = do
  emit request (some a) action (some (codes "account")) (some (numbered a.id))
  pure tt

-- an event about one of its tokens
abbrev pub note_token : Request → Account → ℕ → Exec Unit
note_token request a token_id = do
  emit request (some a) (codes "pat.revoked") (some (codes "pat")) (some (numbered token_id))
  pure tt

module _ (bcrypt : Bcrypt) where
  -- `admin_revoke_account_token`
  unfoldable pub revoke_own_token : Text → Text → ℕ → Request → Exec Redirect
  revoke_own_token salt username token_id request = do
    a ← admin_account bcrypt salt username
    gone ← revoke request.now a.id token_id
    if gone
        then (do note_token request a token_id; pure (success account_page (codes "Token revoked")))
        else pure (problem account_page (codes "Token not found"))

  abbrev pub user_rehashed : ℕ → Text → Db → Db
  user_rehashed id hash db = record db {
    users =
        update_where (λ (u : User). u.id == id) (λ u. record u { password_hash = hash }) db.users;
  }

  -- what `admin_change_own_password` does for a user that is there
  unfoldable pub change_password_of :
      Text → Text → Text → Text → Text → User → Request → Exec Redirect
  change_password_of salt username current fresh confirm user request =
      if negb (verify_password bcrypt current user.password_hash)
      then (do
        a ← admin_account bcrypt salt username
        note_self request a (codes "password.change_failed")
        pure (problem account_page (codes "Current password is wrong")))
      else if negb (text_eq fresh confirm)
      then pure (problem account_page (codes "New passwords don't match"))
      else if ltb (length fresh) 12
      then pure (problem account_page (codes "New password must be at least 12 characters"))
      else (do
        write (user_rehashed user.id (hash_password bcrypt salt fresh))
        a ← admin_account bcrypt salt username
        note_self request a (codes "password.changed")
        pure (success account_page (codes "Password updated")))

  unfoldable pub change_own_password : Text → Text → Text → Text → Text → Request → Exec Redirect
  change_own_password salt username current fresh confirm request w =
      elim (find? (user_by_name username) w.working.users) [
        | none ↦ (err (http 404 "User not found"), w)
        | some user ↦ change_password_of salt username current fresh confirm user request w
      ]

  -- `admin_totp_setup`, with the secret that was drawn
  unfoldable pub setup_of : Text → Account → Request → Exec SelfAnswer
  setup_of secret a request =
      if a.totp_enabled
      then pure (refusal (codes "2FA is already enabled. Disable it first to re-pair."))
      else (do
        write_account a.id (setup_started secret)
        note_self request (setup_started secret a) (codes "totp.setup_started")
        pure (pairing secret))

  unfoldable pub totp_setup : Text → Text → Text → Request → Exec SelfAnswer
  totp_setup salt secret username request = do
    a ← admin_account bcrypt salt username
    setup_of secret a request

  -- the bcrypt hashes of the recovery codes, each with its salt
  unfoldable pub code_hashes : List Draw → List Text
  code_hashes [] = []
  code_hashes (d ∷ rest) =
      hash_password bcrypt d.salt (recovery_code d.first d.second) ∷ code_hashes rest

  module _ (library : TotpLibrary) where
    -- what follows the check of the first code
    unfoldable pub enrol : List Draw → Text → Account → Request → Result Bool → Exec SelfAnswer
    enrol drawn secret a request (err e) = raise e
    enrol drawn secret a request (ok false) = pure (pairing secret)
    enrol drawn secret a request (ok true) =
        let hashes = join_lines (code_hashes drawn) in
        (do
          write_account a.id (enrolled hashes)
          note_self request (enrolled hashes a) (codes "totp.enabled")
          pure (new_codes (drawn_codes drawn)))

    unfoldable pub confirm_of : List Draw → Text → Account → Request → Exec SelfAnswer
    confirm_of drawn code a request =
        if a.totp_enabled
        then pure (refusal (codes "2FA is already enabled."))
        else elim a.totp_secret [
          | none ↦ pure (refusal no_setup)
          | some secret ↦
              if is_empty secret
              then pure (refusal no_setup)
              else enrol drawn secret a request (verify_totp library secret code request.now)
        ]

    -- `admin_totp_confirm`
    unfoldable pub totp_confirm : Text → List Draw → Text → Text → Request → Exec SelfAnswer
    totp_confirm salt drawn username code request = do
      a ← admin_account bcrypt salt username
      confirm_of drawn code a request

    -- the test of a code against the second factor; the first condition looks at the code with its
    -- spaces and dashes
    unfoldable pub check_own_factor : Text → Account → Text → ℕ → Result Factor
    check_own_factor secret a raw_code now =
        let code = strip raw_code in
        if is_digits code && length (without_marks code) == totp_digits
        then factor_of bcrypt library (verify_totp library secret code now)
        else ok (
            recovery_factor bcrypt library
              (matching_hash bcrypt (normalize_recovery_code code) (recovery_lines a)))

    unfoldable pub disable_of : Account → Request → Result Factor → Exec SelfAnswer
    disable_of a request (err e) = raise e
    disable_of a request (ok factor) = elim factor [
      | denied ↦ pure (refusal (codes "Code didn't match - 2FA stays on."))
      | _ ↦ (do
        write_account a.id disabled
        note_self request (disabled a) (codes "totp.disabled")
        pure (redirected (success account_page (codes "2FA disabled."))))
    ]

    unfoldable pub disable_with : Text → Account → Request → Exec SelfAnswer
    disable_with code a request = elim (secret_of (some a)) [
      | none ↦ pure (refusal (codes "2FA is not enabled."))
      | some secret ↦ disable_of a request (check_own_factor secret a code request.now)
    ]

    -- `admin_totp_disable`
    unfoldable pub totp_disable : Text → Text → Text → Request → Exec SelfAnswer
    totp_disable salt username code request = do
      a ← admin_account bcrypt salt username
      disable_with code a request
